-- ===== src/Storage/Write/Private.antt =====
-- ss/ss_main.c, handle_write: before its commit a session writes nothing to the disk.
use co_write_file_system.Prelude.{
  ℕ, ◌≡◌, ◌≢◌, refl, ap, ◌∙◌, Bool, true, false, List, [], ◌∷◌, Option, Option-cases, inl, inr,
  none, some, Bytes, ℤ, negsuc, get_elem?, All,
}
use co_write_file_system.Storage.Locks.{SentenceLock}
use co_write_file_system.Storage.State.{SsFile, Lookup, found, absent}
use co_write_file_system.Storage.Session.{
  WriteSession, Result, ok, err, inactive, invalid, again, failed, undefined,
}
use co_write_file_system.Storage.Server.{
  SsContext, snapshot_file, change_at, change_file, set_file_lock_state,
}
use co_write_file_system.Storage.Write.{
  Sending, Opening, opened, stopped, write_opened, Command, untyped, unknown, insert, replace,
  delete, commit, abort, Writer, with_locks, write_end, write_loop, write_session_run, write_locked,
  write_view, handle_write, edit_step,
}

-- The disk and what the name server was told.
abbrev pub IsUnwritten : SsContext → SsContext → Type 0
IsUnwritten ctx after = (after.disk ≡ ctx.disk) × (after.updates ≡ ctx.updates)

change_at-IsUnwritten :
    (ctx : SsContext) (r : Lookup) (change : SsFile → SsFile)
    → IsUnwritten ctx (change_at ctx r change).0
change_at-IsUnwritten ctx (absent i) change = (refl, refl)
change_at-IsUnwritten ctx (found i) change = elim (Option-cases (get_elem? ctx.state.files i)) [
  | inl e ↦ rw (e, change_at) (refl, refl)
  | inr (f, e) ↦ rw (e, change_at) (refl, refl)
]

set_file_lock_state-IsUnwritten :
    (ctx : SsContext) (name : Bytes) (active : Bool) (sentence : ℤ) (user : Option Bytes)
    → IsUnwritten ctx (set_file_lock_state ctx name active sentence user)
unfolding set_file_lock_state change_file
set_file_lock_state-IsUnwritten ctx name active sentence user = change_at-IsUnwritten ctx _ _

write_end-IsUnwritten : (ctx : SsContext) (w : Writer) → IsUnwritten ctx (write_end ctx w)
unfolding write_end
write_end-IsUnwritten ctx w = set_file_lock_state-IsUnwritten _ w.file_name false (negsuc 0) none

pub write_loop-unwritten :
    (now : ℕ) (ctx : SsContext) (w : Writer) (s : WriteSession) (messages : List Command)
    → All (λ m. m ≢ commit) messages
    → (write_loop now ctx w s messages).0 ≡ ctx
unfolding write_loop
write_loop-unwritten now ctx w s [] h = refl
write_loop-unwritten now ctx w s (commit ∷ rest) (h, k) = absurd (h refl)
write_loop-unwritten now ctx w s (abort ∷ rest) (h, k) = refl
write_loop-unwritten now ctx w s (untyped ∷ rest) (h, k) = write_loop-unwritten now ctx w s rest k
write_loop-unwritten now ctx w s (unknown ∷ rest) (h, k) = write_loop-unwritten now ctx w s rest k
write_loop-unwritten now ctx w s (insert i c ∷ rest) (h, k) =
    write_loop-unwritten now ctx w (edit_step s (insert i c)).0 rest k
write_loop-unwritten now ctx w s (replace i c ∷ rest) (h, k) =
    write_loop-unwritten now ctx w (edit_step s (replace i c)).0 rest k
write_loop-unwritten now ctx w s (delete i ∷ rest) (h, k) =
    write_loop-unwritten now ctx w (edit_step s (delete i)).0 rest k

write_opened-IsUnwritten :
    (ctx : SsContext) (now : ℕ) (w : Writer) (s : WriteSession) (messages : List Command)
    (o : Opening)
    → All (λ m. m ≢ commit) messages
    → IsUnwritten ctx (write_opened ctx now w s messages o).0
unfolding write_opened
write_opened-IsUnwritten ctx now w s messages (stopped replies) h = write_end-IsUnwritten ctx w
write_opened-IsUnwritten ctx now w s messages opened h =
    let same = write_loop-unwritten now ctx w s messages h in
    let (p, q) = write_end-IsUnwritten (write_loop now ctx w s messages).0 w in
    (p ∙ ap (λ c. c.disk) same, q ∙ ap (λ c. c.updates) same)

write_session_run-IsUnwritten :
    (ctx : SsContext) (now : ℕ) (w : Writer) (s : Result WriteSession) (sending : Sending)
    (messages : List Command)
    → All (λ m. m ≢ commit) messages
    → IsUnwritten ctx (write_session_run ctx now w s sending messages).0
unfolding write_session_run
write_session_run-IsUnwritten ctx now w (err invalid) sending messages h =
    write_end-IsUnwritten ctx w
write_session_run-IsUnwritten ctx now w (err inactive) sending messages h =
    write_end-IsUnwritten ctx w
write_session_run-IsUnwritten ctx now w (err again) sending messages h = write_end-IsUnwritten ctx w
write_session_run-IsUnwritten ctx now w (err failed) sending messages h =
    write_end-IsUnwritten ctx w
write_session_run-IsUnwritten ctx now w (err undefined) sending messages h =
    write_end-IsUnwritten ctx w
write_session_run-IsUnwritten ctx now w (ok s) sending messages h =
    write_opened-IsUnwritten ctx now w s messages _ h

-- A session in which no commit is asked for leaves the disk as it was and tells the name server
-- nothing, whatever its other messages are.
pub handle_write-uncommitted :
    (ctx : SsContext) (now : ℕ) (name user : Bytes) (index : ℤ) (sending : Sending)
    (messages : List Command)
    → All (λ m. m ≢ commit) messages
    → IsUnwritten ctx (handle_write ctx now name user index sending messages).0
unfolding handle_write
handle_write-uncommitted ctx now name user index sending messages h = from (snapshot_file ctx name)
  where
    locked :
        (w : Writer) (o : Option (List SentenceLock))
        → IsUnwritten ctx (write_locked ctx now w o sending messages).0
    locked w none = (refl, refl)
    locked w (some table) =
        let (p, q) =
          set_file_lock_state-IsUnwritten (with_locks ctx table) w.file_name true w.sentence_index
            (some w.user) in
        let (a, b) = write_session_run-IsUnwritten _ now w _ sending messages h in (a ∙ p, b ∙ q)

    from :
        (o : Option SsFile)
        → IsUnwritten ctx (write_view ctx now name user index o sending messages).0
    from none = (refl, refl)
    from (some view) = locked _ _
