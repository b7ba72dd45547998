-- ===== src/Storage/Write/Unlock.antt =====
-- ss/ss_main.c: the end of one session and the other sessions on the same file.
use co_write_file_system.Prelude.{
  ℕ, ◌≡◌, ◌≢◌, inr, ap, sym, ◌∙◌, false, none, some, Bytes, ℤ, negsuc, refl,
}
use co_write_file_system.Storage.Disk.{written, load_text}
use co_write_file_system.Storage.Locks.{sentence_lock_find, sentence_lock_release}
use co_write_file_system.Storage.Locks.Laws.{IsHeld, release-find_ne}
use co_write_file_system.Storage.State.{SsFile}
use co_write_file_system.Storage.State.Search.{IsSorted}
use co_write_file_system.Storage.State.Sorted.{lookup}
use co_write_file_system.Storage.Server.{SsContext, done, set_file_lock_state, lock_entry}
use co_write_file_system.Storage.Server.Entries.{Sets, change_file_lem}
use co_write_file_system.Storage.History.{perform_undo, counted}
use co_write_file_system.Storage.History.Laws.{ArePathsApart}
use co_write_file_system.Storage.History.Restore.{undo_restores}
use co_write_file_system.Storage.Write.{Writer, with_locks, write_end}
use co_write_file_system.Storage.Write.Laws.{write_end-locks}

module _ (ctx : SsContext) (w : Writer) (f : SsFile) (sorted : IsSorted ctx.state.files)
    (held : lookup ctx.state.files w.file_name ≡ some f) where
  write_end-Sets :
      Sets ctx.state.files w.file_name
        (lock_entry false (negsuc 0) none f)
        (write_end ctx w).state.files
      × ((write_end ctx w).disk ≡ ctx.disk)
  unfolding write_end set_file_lock_state
  write_end-Sets =
      let locks = sentence_lock_release ctx.locks w.file_name w.sentence_index in
      let (_, sets, disk) =
        change_file_lem (with_locks ctx locks) w.file_name f (lock_entry false (negsuc 0) none)
          sorted held refl in
      (sets, disk)

  -- In sorted files with an entry for the file of the session, whose paths are apart: while a
  -- session on one sentence of the file still holds its lock, the end of a session on another
  -- sentence marks the file as not locked: an UNDO then succeeds, if there is an undo file and the
  -- data file can be written, and the lock of the first session is still held.
  pub undo_while-IsHeld :
      (m : ℤ) (now : ℕ) (user text : Bytes)
      → m ≢ w.sentence_index
      → IsHeld ctx.locks w.file_name m
      → ArePathsApart f
      → load_text ctx.disk f.undo_path ≡ some text
      → ctx.disk.outcome f.data_path ≡ written
      → IsHeld (write_end ctx w).locks w.file_name m
        × ((after : SsContext) × (perform_undo (write_end ctx w) now w.file_name user
              ≡ (after, done (counted text)))
            × (load_text after.disk f.data_path ≡ some text))
  undo_while-IsHeld m now user text other locked apart kept works =
      let ((still, found, _), disk) = write_end-Sets in
      let g = lock_entry false (negsuc 0) none f in
      let (after, result, _, at_data, _) =
        undo_restores (write_end ctx w) now w.file_name user g still found
          (record {
            undo_data = apart.undo_data;
            undo_tmp = apart.undo_tmp;
            data_tmp = apart.data_tmp;
            data_meta = apart.data_meta;
            undo_meta = apart.undo_meta;
          })
          text refl (ap (λ d. load_text d f.undo_path) disk ∙ kept)
          (ap (λ d. d.outcome f.data_path) disk ∙ works) in
      let free = release-find_ne ctx.locks w.file_name w.file_name w.sentence_index m (inr other) in
      (
        λ e. locked (
            sym free
            ∙ sym (ap (λ l. sentence_lock_find l w.file_name m) (write_end-locks ctx w))
            ∙ e),
        (after, result, at_data),
      )
