-- ===== src/Storage/History/Restore.antt =====
-- ss/ss_main.c: the texts that UNDO and REVERT leave in the data file and the undo file.
use co_write_file_system.Prelude.{
  ℕ, ◌≡◌, refl, ap, sym, ◌∙◌, true, false, none, some, if◌then◌else◌, Bytes,
}
use co_write_file_system.Storage.Disk.{
  Disk, written, load_text, load_or_empty, unlink, store_text_atomic,
}
use co_write_file_system.Storage.Disk.Laws.{
  IsText, load_text-store, load_text-store_ne, load_text-unlink, load_text-unlink_ne,
  load_text-IsText, load_or_empty-IsText, store_written, store-outcome, store-unlinks,
}
use co_write_file_system.Storage.State.{SsFile}
use co_write_file_system.Storage.State.Search.{IsSorted}
use co_write_file_system.Storage.State.Sorted.{lookup}
use co_write_file_system.Storage.Server.{SsContext, done, edited, with_disk}
use co_write_file_system.Storage.Server.Entries.{Sets, snapshot_found, load_text-save_meta_ne}
use co_write_file_system.Storage.History.{
  counted, record_restore, undo_to, perform_undo, revert_to, revert_checked, revert_view,
  revert_read, ss_read_checkpoint, ss_revert_checkpoint,
}
use co_write_file_system.Storage.History.Laws.{ArePathsApart, record_restore_lem, undo_step}

module _ (ctx : SsContext) (now : ℕ) (name user : Bytes) (f : SsFile)
    (sorted : IsSorted ctx.state.files) (held : lookup ctx.state.files name ≡ some f)
    (apart : ArePathsApart f) where
  after_restore :
      (d : Disk) (text : Bytes)
      → (after : SsContext) × (record_restore (with_disk ctx d) now name user text
          ≡ (after, done (counted text)))
        × Sets ctx.state.files name (edited now user text f) after.state.files
        × (load_text after.disk f.data_path ≡ load_text d f.data_path)
        × (load_text after.disk f.undo_path ≡ load_text d f.undo_path)
  after_restore d text =
      let (after, result, sets, disk) = record_restore_lem ctx now name user f sorted held d text in
      let g = edited now user text f in
      (
        after,
        result,
        sets,
        ap (λ e. load_text e f.data_path) disk
            ∙ load_text-save_meta_ne d g f.data_path apart.data_meta,
        ap (λ e. load_text e f.undo_path) disk
            ∙ load_text-save_meta_ne d g f.undo_path apart.undo_meta,
      )

  undo_to_step :
      (text : Bytes)
      → (store_text_atomic ctx.disk f.data_path text).1 ≡ true
      → undo_to ctx now name user f text
        ≡ record_restore
            (with_disk ctx (unlink (store_text_atomic ctx.disk f.data_path text).0 f.undo_path))
            now
            name
            user
            text
  unfolding undo_to
  undo_to_step text e = rw (e, undo_to) refl

  -- In sorted files, for the entry of the name, which is not locked and whose paths are apart, with
  -- the text `text` in the undo file, and a data file that can be written, UNDO succeeds: the data
  -- file holds that text, the undo file is gone, or still has the text if it cannot be removed, the
  -- entry has the counts, the time and the user, the other entries are as before, and the files
  -- stay sorted.
  pub undo_restores :
      (text : Bytes)
      → f.lock_active ≡ false
      → load_text ctx.disk f.undo_path ≡ some text
      → ctx.disk.outcome f.data_path ≡ written
      → (after : SsContext) × (perform_undo ctx now name user ≡ (after, done (counted text)))
        × Sets ctx.state.files name (edited now user text f) after.state.files
        × (load_text after.disk f.data_path ≡ some text)
        × (load_text after.disk f.undo_path
            ≡ (if ctx.disk.unlinks f.undo_path then none else some text))
  undo_restores text free kept works =
      let d = (store_text_atomic ctx.disk f.data_path text).0 in
      let wrote = store_written ctx.disk f.data_path text works in
      let (after, result, sets, at_data, at_undo) = after_restore (unlink d f.undo_path) text in
      (
        after,
        undo_step ctx now name user f sorted held text free kept ∙ undo_to_step text wrote ∙ result,
        sets,
        at_data
            ∙ load_text-unlink_ne d f.undo_path f.data_path (λ e. apart.undo_data (sym e))
            ∙ load_text-store ctx.disk f.data_path text (load_text-IsText ctx.disk f.undo_path kept)
                wrote,
        at_undo
            ∙ load_text-unlink d f.undo_path
            ∙ rw
                (
                  store-unlinks ctx.disk f.data_path text f.undo_path,
                  load_text-store_ne ctx.disk f.data_path f.undo_path text apart.undo_data
                      apart.undo_tmp,
                  kept,
                )
                refl,
      )

  saved : Disk
  saved = (store_text_atomic ctx.disk f.undo_path (load_or_empty ctx.disk f.data_path)).0

  revert_to_step :
      (text : Bytes)
      → (store_text_atomic ctx.disk f.undo_path (load_or_empty ctx.disk f.data_path)).1 ≡ true
      → (store_text_atomic saved f.data_path text).1 ≡ true
      → revert_to ctx now name user f text
        ≡ record_restore
            (with_disk ctx (store_text_atomic saved f.data_path text).0)
            now
            name
            user
            text
  unfolding revert_to saved
  revert_to_step text e q = rw (e, q, revert_to) refl

  revert_step :
      (tag text : Bytes)
      → f.lock_active ≡ false
      → ss_read_checkpoint ctx name tag ≡ done text
      → ss_revert_checkpoint ctx now name tag user ≡ revert_to ctx now name user f text
  unfolding ss_revert_checkpoint
  revert_step tag text free read =
      ap (revert_read ctx now name user) read
      ∙ ap (revert_view ctx now name user text) (snapshot_found ctx name f sorted held)
      ∙ ap (revert_checked ctx now name user f text) free

  -- In sorted files, for the entry of the name, which is not locked and whose paths are apart, a
  -- checkpoint with the text `text`, which has no NUL, and data and undo files that can be written,
  -- REVERT succeeds: the data file holds the text of the checkpoint, the undo file the text before
  -- the call, the entry has the counts, the time and the user, the other entries are as before, and
  -- the files stay sorted.
  pub revert_restores :
      (tag text : Bytes)
      → f.lock_active ≡ false
      → ss_read_checkpoint ctx name tag ≡ done text
      → IsText text
      → ctx.disk.outcome f.undo_path ≡ written
      → ctx.disk.outcome f.data_path ≡ written
      → (after : SsContext) × (ss_revert_checkpoint ctx now name tag user
          ≡ (after, done (counted text)))
        × Sets ctx.state.files name (edited now user text f) after.state.files
        × (load_text after.disk f.data_path ≡ some text)
        × (load_text after.disk f.undo_path ≡ some (load_or_empty ctx.disk f.data_path))
  unfolding saved
  revert_restores tag text free read is_text works_undo works_data =
      let current = load_or_empty ctx.disk f.data_path in
      let kept = store_written ctx.disk f.undo_path current works_undo in
      let wrote =
        store_written saved f.data_path text
          (store-outcome ctx.disk f.undo_path current f.data_path ∙ works_data) in
      let (after, result, sets, at_data, at_undo) =
        after_restore (store_text_atomic saved f.data_path text).0 text in
      (
        after,
        revert_step tag text free read ∙ revert_to_step text kept wrote ∙ result,
        sets,
        at_data ∙ load_text-store saved f.data_path text is_text wrote,
        at_undo
            ∙ load_text-store_ne saved f.data_path f.undo_path text apart.undo_data apart.undo_tmp
            ∙ load_text-store ctx.disk f.undo_path current
                (load_or_empty-IsText ctx.disk f.data_path) kept,
      )
