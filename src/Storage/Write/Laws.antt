-- ===== src/Storage/Write/Laws.antt =====
-- ss/ss_main.c, handle_write: what a session leaves of its locks.
use co_write_file_system.Prelude.{
  ℕ, ◌<◌, ◌≡◌, inr, refl, ap, ◌∙◌, Bool, true, false, List, [], ◌∷◌, Option, Option-cases, inl,
  none, some, Bytes, ℤ, negsuc, length, get_elem?,
}
use co_write_file_system.Storage.Disk.{Disk}
use co_write_file_system.Storage.Locks.{SentenceLock, sentence_lock_acquire, sentence_lock_release}
use co_write_file_system.Storage.Locks.Laws.{acquire_lem}
use co_write_file_system.Storage.State.{SsFile, Lookup, found, absent}
use co_write_file_system.Storage.Session.{
  WriteSession, Result, ok, err, inactive, invalid, again, failed, undefined,
}
use co_write_file_system.Storage.Commit.{Committed}
use co_write_file_system.Storage.Server.{
  SsContext, snapshot_file, change_at, change_file, record_change, recorded, set_file_lock_state,
  with_disk,
}
use co_write_file_system.Storage.Write.{
  Sending, Opening, opened, stopped, write_opened, Command, untyped, unknown, insert, replace,
  delete, commit, abort, Writer, with_locks, write_end, commit_reply, write_commit, write_loop,
  write_session_run, write_locked, write_view, handle_write, edit_step, committed_entry,
}

change_at-locks :
    (ctx : SsContext) (r : Lookup) (change : SsFile → SsFile)
    → (change_at ctx r change).0.locks ≡ ctx.locks
change_at-locks ctx (absent i) change = refl
change_at-locks ctx (found i) change = elim (Option-cases (get_elem? ctx.state.files i)) [
  | inl e ↦ rw (e, change_at) refl
  | inr (f, e) ↦ rw (e, change_at) refl
]

pub set_file_lock_state-locks :
    (ctx : SsContext) (name : Bytes) (active : Bool) (sentence : ℤ) (user : Option Bytes)
    → (set_file_lock_state ctx name active sentence user).locks ≡ ctx.locks
unfolding set_file_lock_state change_file
set_file_lock_state-locks ctx name active sentence user = change_at-locks ctx _ _

recorded-locks : (p : SsContext × Option SsFile) → (recorded p).0.locks ≡ p.0.locks
recorded-locks (after, none) = refl
recorded-locks (after, some f) = refl

record_change-locks :
    (ctx : SsContext) (name : Bytes) (change : SsFile → SsFile)
    → (record_change ctx name change).0.locks ≡ ctx.locks
unfolding record_change change_file
record_change-locks ctx name change = recorded-locks _ ∙ change_at-locks ctx _ change

commit_reply-locks :
    (ctx : SsContext) (now : ℕ) (w : Writer) (r : Disk × Result Committed)
    → (commit_reply ctx now w r).0.locks ≡ ctx.locks
commit_reply-locks ctx now w (d, ok c) =
    record_change-locks (with_disk ctx d) w.file_name (committed_entry now w.user c.text)
commit_reply-locks ctx now w (d, err again) = refl
commit_reply-locks ctx now w (d, err inactive) = refl
commit_reply-locks ctx now w (d, err invalid) = refl
commit_reply-locks ctx now w (d, err failed) = refl
commit_reply-locks ctx now w (d, err undefined) = refl

write_loop-locks :
    (now : ℕ) (ctx : SsContext) (w : Writer) (s : WriteSession) (messages : List Command)
    → (write_loop now ctx w s messages).0.locks ≡ ctx.locks
unfolding write_loop write_commit
write_loop-locks now ctx w s [] = refl
write_loop-locks now ctx w s (commit ∷ rest) = commit_reply-locks ctx now w _
write_loop-locks now ctx w s (abort ∷ rest) = refl
write_loop-locks now ctx w s (untyped ∷ rest) = write_loop-locks now ctx w s rest
write_loop-locks now ctx w s (unknown ∷ rest) = write_loop-locks now ctx w s rest
write_loop-locks now ctx w s (insert i c ∷ rest) =
    write_loop-locks now ctx w (edit_step s (insert i c)).0 rest
write_loop-locks now ctx w s (replace i c ∷ rest) =
    write_loop-locks now ctx w (edit_step s (replace i c)).0 rest
write_loop-locks now ctx w s (delete i ∷ rest) =
    write_loop-locks now ctx w (edit_step s (delete i)).0 rest

pub write_end-locks :
    (ctx : SsContext) (w : Writer)
    → (write_end ctx w).locks ≡ sentence_lock_release ctx.locks w.file_name w.sentence_index
unfolding write_end
write_end-locks ctx w = set_file_lock_state-locks _ w.file_name false (negsuc 0) none

write_opened-locks :
    (ctx : SsContext) (now : ℕ) (w : Writer) (s : WriteSession) (messages : List Command)
    (o : Opening)
    → (write_opened ctx now w s messages o).0.locks
      ≡ sentence_lock_release ctx.locks w.file_name w.sentence_index
unfolding write_opened
write_opened-locks ctx now w s messages (stopped replies) = write_end-locks ctx w
write_opened-locks ctx now w s messages opened =
    write_end-locks (write_loop now ctx w s messages).0 w
    ∙ ap (λ l. sentence_lock_release l w.file_name w.sentence_index)
        (write_loop-locks now ctx w s messages)

write_session_run-locks :
    (ctx : SsContext) (now : ℕ) (w : Writer) (s : Result WriteSession) (sending : Sending)
    (messages : List Command)
    → (write_session_run ctx now w s sending messages).0.locks
      ≡ sentence_lock_release ctx.locks w.file_name w.sentence_index
unfolding write_session_run
write_session_run-locks ctx now w (err invalid) sending messages = write_end-locks ctx w
write_session_run-locks ctx now w (err inactive) sending messages = write_end-locks ctx w
write_session_run-locks ctx now w (err again) sending messages = write_end-locks ctx w
write_session_run-locks ctx now w (err failed) sending messages = write_end-locks ctx w
write_session_run-locks ctx now w (err undefined) sending messages = write_end-locks ctx w
write_session_run-locks ctx now w (ok s) sending messages =
    write_opened-locks ctx now w s messages _

-- For a file name that fits its field: whatever the messages, and however the session ends, the
-- table of sentence locks is in the end as it was before. (Of a commit that meets a conflict, the
-- run is meant in which merged_init reads as 0.)
pub handle_write-locks :
    (ctx : SsContext) (now : ℕ) (name user : Bytes) (index : ℤ) (sending : Sending)
    (messages : List Command)
    → length name < 128
    → (handle_write ctx now name user index sending messages).0.locks ≡ ctx.locks
unfolding handle_write
handle_write-locks ctx now name user index sending messages fits = from (snapshot_file ctx name)
  where
    locked :
        (w : Writer) (o : Option (List SentenceLock))
        → sentence_lock_acquire ctx.locks w.file_name w.sentence_index w.user ≡ o
        → length w.file_name < 128
        → (write_locked ctx now w o sending messages).0.locks ≡ ctx.locks
    locked w none e f = refl
    locked w (some table) e f =
        let (_, _, _, _, back) = acquire_lem ctx.locks w.file_name w.user w.sentence_index f e in
        write_session_run-locks _ now w _ sending messages
        ∙ ap (λ l. sentence_lock_release l w.file_name w.sentence_index)
            (set_file_lock_state-locks (with_locks ctx table) w.file_name true w.sentence_index
              (some w.user))
        ∙ back

    from :
        (o : Option SsFile)
        → (write_view ctx now name user index o sending messages).0.locks ≡ ctx.locks
    from none = refl
    from (some view) =
        locked (record { file_name = name; user = user; sentence_index = index; view = view }) _
          refl fits
