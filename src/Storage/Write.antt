-- ===== src/Storage/Write.antt =====
-- ss/ss_main.c, handle_write: the life of a write session on one connection, from the sentence lock
-- to its release. The messages come decoded, in a list; its end is a connection that is lost. What
-- becomes of the first answer is an argument, `sending`; later answers are sent with no check. Of a
-- commit that meets a conflict, only the runs in which merged_init reads as 0 are followed: of the
-- others nothing is known.
pub mod Laws
pub mod Private
pub mod Unlock
pub mod Refuses
use co_write_file_system.Prelude.{
  ℕ, suc, leb, ◌++◌, codes, length, pos, Bool, true, false, List, [], ◌∷◌, Option, none, some,
  if◌then◌else◌, Bytes, ℤ, negsuc,
}
use co_write_file_system.Storage.Disk.{Disk}
use co_write_file_system.Storage.Locks.{SentenceLock, sentence_lock_acquire, sentence_lock_release}
use co_write_file_system.Common.Json.{json_escape_dup}
use co_write_file_system.Storage.State.{SsFile, decimal}
use co_write_file_system.Storage.Session.{
  WriteSession, SessionError, inactive, invalid, again, failed, Result, ok, err,
  write_session_begin, write_session_apply_insert, write_session_apply_replace,
  write_session_apply_delete,
}
use co_write_file_system.Storage.Commit.{Committed, write_session_commit}
use co_write_file_system.Storage.Server.{
  SsContext, snapshot_file, set_file_lock_state, record_change, with_disk, edited,
}

-- A message by its "type", with the "index" and the "content" that could be read from it.
pub data Command : Type 0 where
  untyped unknown : Command
  insert : Option ℤ → Option Bytes → Command
  replace : Option ℤ → Option Bytes → Command
  delete : Option ℤ → Command
  commit abort : Command

pub data ErrorCode : Type 0 where
  err_notfound err_locked err_badreq err_internal err_conflict : ErrorCode

-- The answers: the text of the sentence at the begin, an OK for an edit or an abort, an OK for a
-- commit with the new text and its counts, and an error.
pub data Reply : Type 0 where
  begun : Bytes → ℤ → Reply
  edit_ok abort_ok : Reply
  commit_ok : Bytes → ℕ → ℕ → Reply
  problem : ErrorCode → Reply

-- The session with what it is about.
pub record Writer : Type 0 where
  pub file_name : Bytes
  pub user : Bytes
  pub sentence_index : ℤ
  pub view : SsFile

abbrev pub with_locks : SsContext → List SentenceLock → SsContext
with_locks ctx table = record ctx { locks = table }

-- The calls that every end of the handler makes; their order has no effect on each other.
unfoldable pub write_end : SsContext → Writer → SsContext
write_end ctx w =
    set_file_lock_state
      (with_locks ctx (sentence_lock_release ctx.locks w.file_name w.sentence_index)) w.file_name
      false (negsuc 0) none

-- An edit keeps the session as it was if it fails.
abbrev pub edit_result : WriteSession → Result WriteSession → WriteSession × Reply
edit_result s (ok t) = (t, edit_ok)
edit_result s (err invalid) = (s, problem err_badreq)
edit_result s (err e) = (s, problem err_conflict)

-- The messages that the loop goes on after.
abbrev pub edit_step : WriteSession → Command → WriteSession × Reply
edit_step s untyped = (s, problem err_badreq)
edit_step s unknown = (s, problem err_badreq)
edit_step s (insert none content) = (s, problem err_badreq)
edit_step s (insert (some i) none) = (s, problem err_badreq)
edit_step s (insert (some i) (some content)) =
    edit_result s (write_session_apply_insert s i content)
edit_step s (replace none content) = (s, problem err_badreq)
edit_step s (replace (some i) none) = (s, problem err_badreq)
edit_step s (replace (some i) (some content)) =
    edit_result s (write_session_apply_replace s i content)
edit_step s (delete none) = (s, problem err_badreq)
edit_step s (delete (some i)) = edit_result s (write_session_apply_delete s i)
edit_step s commit = (s, problem err_badreq)
edit_step s abort = (s, problem err_badreq)

-- The entry after a commit; `lock_user` is left to write_end.
abbrev pub committed_entry : ℕ → Bytes → Bytes → SsFile → SsFile
committed_entry now user text file = record (edited now user text file) {
  lock_active = false;
  lock_sentence = negsuc 0;
}

abbrev pub commit_reply : SsContext → ℕ → Writer → Disk × Result Committed → SsContext × Reply
commit_reply ctx now w (d, ok c) = (
  (record_change (with_disk ctx d) w.file_name (committed_entry now w.user c.text)).0,
  commit_ok c.text c.words c.chars,
)
commit_reply ctx now w (d, err again) = (with_disk ctx d, problem err_conflict)
commit_reply ctx now w (d, err e) = (with_disk ctx d, problem err_internal)

unfoldable pub write_commit : SsContext → ℕ → Writer → WriteSession → SsContext × Reply
write_commit ctx now w s =
    commit_reply ctx now w (write_session_commit false ctx.disk s w.view.data_path w.view.undo_path)

abbrev pub reply_first : Reply → SsContext × List Reply → SsContext × List Reply
reply_first r (ctx, rest) = (ctx, r ∷ rest)

-- The loop; a commit ends it whether it succeeds or not.
pub write_loop : ℕ → SsContext → Writer → WriteSession → List Command → SsContext × List Reply
write_loop now ctx w s [] = (ctx, [])
write_loop now ctx w s (commit ∷ rest) =
    let (after, reply) = write_commit ctx now w s in (after, reply ∷ [])
write_loop now ctx w s (abort ∷ rest) = (ctx, abort_ok ∷ [])
write_loop now ctx w s (message ∷ rest) =
    let (t, reply) = edit_step s message in reply_first reply (write_loop now ctx w t rest)

abbrev pub ended : Writer → SsContext × List Reply → SsContext × List Reply
ended w (ctx, replies) = (write_end ctx w, replies)

-- There is no memory for the escaped text, the connection is lost, or the answer can be sent.
pub data Sending : Type 0 where
  no_memory unsent sent : Sending

abbrev pub escaped_for : Sending → Bytes → Option Bytes
escaped_for no_memory text = none
escaped_for unsent text = json_escape_dup text
escaped_for sent text = json_escape_dup text

abbrev pub is_sent : Sending → Bool
is_sent no_memory = false
is_sent unsent = false
is_sent sent = true

abbrev pub index_text : ℤ → Bytes
index_text (pos n) = decimal 20 n
index_text (negsuc n) = 45 ∷ decimal 20 (suc n)

abbrev pub begin_extra : Bytes → ℤ → Bytes
begin_extra escaped index =
    codes "\"mode\":\"WRITE\",\"current\":\""
    ++ (escaped ++ (codes "\",\"sentence\":" ++ index_text index))

-- What send_ok sends; it fails when that does not fit, and then sends nothing.
abbrev pub ok_text : Bytes → Bytes
ok_text extra = codes "{\"status\":\"OK\"," ++ (extra ++ codes "}")

-- The loop is entered, or the session is over, with these answers.
pub data Opening : Type 0 where
  opened : Opening
  stopped : List Reply → Opening

-- MAX_JSON is 4096.
abbrev pub opening : Sending → ℤ → Option Bytes → Opening
opening sending index none = stopped (problem err_internal ∷ [])
opening sending index (some escaped) =
    if leb 4096 (length (begin_extra escaped index))
    then stopped (problem err_internal ∷ [])
    else if leb 4096 (length (ok_text (begin_extra escaped index)))
    then stopped []
    else if is_sent sending
    then opened
    else stopped []

unfoldable pub write_opened :
    SsContext → ℕ → Writer → WriteSession → List Command → Opening → SsContext × List Reply
unfolding write_loop
write_opened ctx now w s messages (stopped replies) = (write_end ctx w, replies)
write_opened ctx now w s messages opened =
    reply_first (begun s.sentence_text w.sentence_index) (ended w (write_loop now ctx w s messages))

-- From the session on, which holds the sentence lock.
unfoldable pub write_session_run :
    SsContext → ℕ → Writer → Result WriteSession → Sending → List Command → SsContext × List Reply
unfolding write_loop
write_session_run ctx now w (err invalid) sending messages =
    (write_end ctx w, problem err_badreq ∷ [])
write_session_run ctx now w (err e) sending messages = (write_end ctx w, problem err_internal ∷ [])
write_session_run ctx now w (ok s) sending messages =
    write_opened ctx now w s messages
      (opening sending w.sentence_index (escaped_for sending s.sentence_text))

-- The sentence lock is taken, and the entry of the file is marked.
abbrev pub lock_taken : SsContext → List SentenceLock → Writer → SsContext
lock_taken ctx table w =
    set_file_lock_state (with_locks ctx table) w.file_name true w.sentence_index (some w.user)

abbrev pub write_locked :
    SsContext
    → ℕ
    → Writer
    → Option (List SentenceLock)
    → Sending
    → List Command
    → SsContext × List Reply
write_locked ctx now w none sending messages = (ctx, problem err_locked ∷ [])
write_locked ctx now w (some table) sending messages =
    write_session_run (lock_taken ctx table w) now w
      (write_session_begin ctx.disk w.view.data_path w.user w.sentence_index) sending messages

abbrev pub write_view :
    SsContext
    → ℕ
    → Bytes
    → Bytes
    → ℤ
    → Option SsFile
    → Sending
    → List Command
    → SsContext × List Reply
write_view ctx now name user index none sending messages = (ctx, problem err_notfound ∷ [])
write_view ctx now name user index (some view) sending messages =
    write_locked ctx now
      (record { file_name = name; user = user; sentence_index = index; view = view })
      (sentence_lock_acquire ctx.locks name index user) sending messages

unfoldable pub handle_write :
    SsContext → ℕ → Bytes → Bytes → ℤ → Sending → List Command → SsContext × List Reply
handle_write ctx now name user index sending messages =
    write_view ctx now name user index (snapshot_file ctx name) sending messages
