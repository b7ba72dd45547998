-- ===== src/Examples/Files.antt =====
-- Runs of UNDO, of the checkpoints and of write sessions on one file.
use co_write_file_system.Prelude.{
  ℕ, ◌≡◌, ◌≢◌, refl, true, false, List, [], ◌∷◌, none, some, Bytes, codes, pos, negsuc, All, arith,
  length, if◌then◌else◌, str_eq, ltb, leb, copy_into, sym, ◌↔◌,
}
use co_write_file_system.Storage.Disk.{load_text, load_or_empty, store_text_atomic}
use co_write_file_system.Storage.Disk.Laws.{IsText}
use co_write_file_system.Storage.Locks.{SentenceLock, sentence_lock_find}
use co_write_file_system.Storage.Locks.Laws.{IsHeld}
use co_write_file_system.Storage.State.{
  entry_at, ss_state_find, new_file, ss_state_add, ss_state_remove,
}
use co_write_file_system.Storage.State.Sorted.{lookup, ss_state_find-lookup}
use co_write_file_system.Storage.State.Ops.{
  AddsAfter, Removes, ss_state_add_lem, ss_state_remove_lem,
}
use co_write_file_system.Storage.Server.{SsContext, done, refused, busy, edited}
use co_write_file_system.Storage.Server.Entries.{Sets}
use co_write_file_system.Storage.History.{
  counted, perform_undo, ss_create_checkpoint, ss_read_checkpoint, ss_revert_checkpoint,
  valid_filename, build_checkpoint_path,
}
use co_write_file_system.Storage.History.Restore.{undo_restores, revert_restores}
use co_write_file_system.Storage.History.Checkpoints.{checkpoint_round}
use co_write_file_system.Storage.Write.{
  Writer, Command, sent, insert, delete, commit, abort, handle_write, write_end,
}
use co_write_file_system.Storage.Write.Laws.{handle_write-locks}
use co_write_file_system.Storage.Write.Private.{IsUnwritten, handle_write-uncommitted}
use co_write_file_system.Storage.Write.Refuses.{Refuses}
use co_write_file_system.Storage.Write.Unlock.{undo_while-IsHeld}
use co_write_file_system.Examples.Data.{document, file, state_of, server_of, one-IsSorted, apart}

abbrev server : SsContext
server = server_of file []

holds : lookup (state_of file).files (codes "f") ≡ some file
unfolding lookup str_eq
holds = refl

saved : load_text document (codes "u") ≡ some (codes "Old.")
unfolding load_text str_eq
saved = refl

undo_restores_example :
    (after : SsContext) × (perform_undo server 9 (codes "f") (codes "x")
      ≡ (after, done (counted (codes "Old."))))
    × Sets server.state.files
        (codes "f")
        (edited 9 (codes "x") (codes "Old.") file)
        after.state.files
    × (load_text after.disk (codes "d") ≡ some (codes "Old."))
    × (load_text after.disk (codes "u")
        ≡ (if document.unlinks (codes "u") then none else some (codes "Old.")))
undo_restores_example =
    undo_restores server 9 (codes "f") (codes "x") file (one-IsSorted file) holds apart
      (codes "Old.") refl saved refl

tag_read : ss_read_checkpoint server (codes "f") (codes "t") ≡ done (codes "Tag.")
unfolding ss_read_checkpoint valid_filename build_checkpoint_path load_text str_eq
tag_read = refl

tag-IsText : IsText (codes "Tag.")
tag-IsText = (omega arith, (omega arith, (omega arith, (omega arith, tt))))

revert_restores_example :
    (after : SsContext) × (ss_revert_checkpoint server 9 (codes "f") (codes "t") (codes "x")
      ≡ (after, done (counted (codes "Tag."))))
    × Sets server.state.files
        (codes "f")
        (edited 9 (codes "x") (codes "Tag.") file)
        after.state.files
    × (load_text after.disk (codes "d") ≡ some (codes "Tag."))
    × (load_text after.disk (codes "u") ≡ some (load_or_empty document (codes "d")))
revert_restores_example =
    revert_restores server 9 (codes "f") (codes "x") file (one-IsSorted file) holds apart
      (codes "t") (codes "Tag.") refl tag_read tag-IsText refl refl

created : SsContext
created = (ss_create_checkpoint server (codes "f") (codes "n")).0

creates : ss_create_checkpoint server (codes "f") (codes "n") ≡ (created, done tt)
unfolding created ss_create_checkpoint valid_filename
    co_write_file_system.Storage.Server.snapshot_file ss_state_find
    co_write_file_system.Prelude.strcmp build_checkpoint_path store_text_atomic
creates = refl

checkpoint_round_example :
    (ss_read_checkpoint created (codes "f") (codes "n") ≡ done (load_or_empty document (codes "d")))
    × (created.state ≡ server.state)
checkpoint_round_example =
    checkpoint_round server created (codes "f") (codes "n") file (one-IsSorted file) holds creates

-- A session on the sentence 0, while another is on the sentence 1.
abbrev lock : SentenceLock
lock = record { file = codes "f"; sentence = pos 1; user = codes "y" }

abbrev writer : Writer
writer = record { file_name = codes "f"; user = codes "x"; sentence_index = pos 0; view = file }

is_held : IsHeld (lock ∷ []) (codes "f") (pos 1)
unfolding sentence_lock_find str_eq
is_held e = cc e

undo_while-IsHeld_example :
    IsHeld (write_end (server_of file (lock ∷ [])) writer).locks (codes "f") (pos 1)
    × ((after : SsContext) × (perform_undo
            (write_end (server_of file (lock ∷ [])) writer)
            9
            (codes "f")
            (codes "x")
          ≡ (after, done (counted (codes "Old."))))
        × (load_text after.disk (codes "d") ≡ some (codes "Old.")))
undo_while-IsHeld_example =
    undo_while-IsHeld (server_of file (lock ∷ [])) writer file (one-IsSorted file) holds (pos 1) 9
      (codes "x") (codes "Old.") (λ e. cc e) is_held apart saved refl

handle_write-locks_example :
    (handle_write
      (server_of file (lock ∷ []))
      9
      (codes "f")
      (codes "x")
      (pos 0)
      sent
      (insert (some (pos 0)) (some (codes "Hi")) ∷ commit ∷ [])).0.locks
    ≡ lock ∷ []
handle_write-locks_example =
    handle_write-locks (server_of file (lock ∷ [])) 9 (codes "f") (codes "x") (pos 0) sent
      (insert (some (pos 0)) (some (codes "Hi")) ∷ commit ∷ []) (omega arith)

not_commit : All (λ m. m ≢ commit) (delete (some (pos 0)) ∷ abort ∷ [])
not_commit = ((λ e. cc e), ((λ e. cc e), tt))

abbrev two_messages : List Command
two_messages = insert (some (pos 0)) (some (codes "Hi")) ∷ delete (some (pos 0)) ∷ []

handle_write-uncommitted_example :
    IsUnwritten server
      (handle_write server 9
        (codes "f")
        (codes "x")
        (pos 0)
        sent
        (delete (some (pos 0)) ∷ abort ∷ [])).0
handle_write-uncommitted_example =
    handle_write-uncommitted server 9 (codes "f") (codes "x") (pos 0) sent
      (delete (some (pos 0)) ∷ abort ∷ []) not_commit

ss_state_find-lookup_example :
    entry_at (state_of file).files (ss_state_find (state_of file).files (codes "f"))
    ≡ lookup (state_of file).files (codes "f")
ss_state_find-lookup_example =
    ss_state_find-lookup (state_of file).files (codes "f") (one-IsSorted file)

ss_state_add_lem_example :
    AddsAfter
      (state_of file)
      (new_file (state_of file) 9 (codes "g") (codes "o"))
      (ss_state_add (state_of file) document 9 (codes "g") (codes "o"))
ss_state_add_lem_example =
    ss_state_add_lem (state_of file) document 9 (codes "g") (codes "o") (one-IsSorted file)
      (omega arith)

ss_state_remove_lem_example :
    Removes (state_of file) (codes "f") (ss_state_remove (state_of file) document (codes "f"))
ss_state_remove_lem_example =
    ss_state_remove_lem (state_of file) document (codes "f") (one-IsSorted file)
