-- ===== src/Storage/History/Laws.antt =====
-- ss/ss_main.c: what UNDO and the checkpoints do to the files.
use co_write_file_system.Prelude.{
  ℕ, ◌≡◌, ◌≢◌, refl, ap, ◌∙◌, true, false, Option, none, some, Bytes,
}
use co_write_file_system.Storage.Disk.{Disk, load_text, tmp_path}
use co_write_file_system.Storage.State.{SsFile, ss_state_save_meta}
use co_write_file_system.Storage.State.Search.{IsSorted}
use co_write_file_system.Storage.State.Sorted.{lookup}
use co_write_file_system.Storage.Server.{SsContext, Answer, done, refused, busy, edited, with_disk}
use co_write_file_system.Storage.Server.Entries.{Sets, snapshot_found, record_change_lem}
use co_write_file_system.Storage.History.{
  Restored, counted, restored, record_restore, undo_to, undo_checked, undo_view, perform_undo,
  revert_checked, revert_view, revert_read, ss_read_checkpoint, ss_revert_checkpoint,
}

-- REVERT reads the checkpoint first, and gives its error if that fails.
abbrev pub busy_after : Answer {0} Bytes → Answer Restored
busy_after (refused e) = refused e
busy_after (done text) = refused busy

pub restored-some :
    (text : Bytes) (p : SsContext × Option SsFile) (g : SsFile)
    → p.1 ≡ some g
    → restored text p ≡ (p.0, done (counted text))
restored-some text (after, none) g h = cc h
restored-some text (after, some f) g h = refl

-- The four paths of a file are apart: a write of one leaves the others.
pub record ArePathsApart (f : SsFile) : Type 0 where
  pub undo_data : f.undo_path ≢ f.data_path
  pub undo_tmp : f.undo_path ≢ tmp_path f.data_path
  pub data_tmp : f.data_path ≢ tmp_path f.undo_path
  pub data_meta : f.data_path ≢ f.meta_path
  pub undo_meta : f.undo_path ≢ f.meta_path

module _ (ctx : SsContext) (now : ℕ) (name user : Bytes) (f : SsFile)
    (sorted : IsSorted ctx.state.files) (held : lookup ctx.state.files name ≡ some f) where
  -- The entry has the counts of the text, and the answer them too.
  pub record_restore_lem :
      (d : Disk) (text : Bytes)
      → (after : SsContext) × (record_restore (with_disk ctx d) now name user text
          ≡ (after, done (counted text)))
        × Sets ctx.state.files name (edited now user text f) after.state.files
        × (after.disk ≡ (ss_state_save_meta d (edited now user text f)).0)
  unfolding record_restore
  record_restore_lem d text =
      let (copied, sets, disk) =
        record_change_lem (with_disk ctx d) name f (edited now user text) sorted held refl in
      (_, restored-some text _ _ copied, sets, disk)

  pub undo_step :
      (text : Bytes)
      → f.lock_active ≡ false
      → load_text ctx.disk f.undo_path ≡ some text
      → perform_undo ctx now name user ≡ undo_to ctx now name user f text
  unfolding perform_undo
  undo_step text free kept =
      ap (undo_view ctx now name user) (snapshot_found ctx name f sorted held)
      ∙ ap (λ b. undo_checked ctx now name user f b (load_text ctx.disk f.undo_path)) free
      ∙ ap (undo_checked ctx now name user f false) kept

  -- The refusal of UNDO and REVERT for an entry that is marked as locked.
  pub locked_refuses :
      f.lock_active ≡ true
      → (perform_undo ctx now name user ≡ (ctx, refused busy))
        × ((tag : Bytes)
            → ss_revert_checkpoint ctx now name tag user
              ≡ (ctx, busy_after (ss_read_checkpoint ctx name tag)))
  unfolding perform_undo ss_revert_checkpoint
  locked_refuses locked = (
    ap (undo_view ctx now name user) (snapshot_found ctx name f sorted held)
        ∙ ap (λ b. undo_checked ctx now name user f b (load_text ctx.disk f.undo_path)) locked,
    λ tag. by (ss_read_checkpoint ctx name tag),
  )
    where
      by : (r : Answer {0} Bytes) → revert_read ctx now name user r ≡ (ctx, busy_after r)
      by (refused e) = refl
      by (done text) =
          ap (revert_view ctx now name user text) (snapshot_found ctx name f sorted held)
          ∙ ap (revert_checked ctx now name user f text) locked
