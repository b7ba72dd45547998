-- ===== src/Storage/History.antt =====
-- ss/ss_main.c: UNDO and the checkpoints. A checkpoint is the text of a file at the moment it is
-- made, kept under `checkpoints_dir/<file>/<tag>`.
pub mod Laws
pub mod Names
pub mod Checkpoints
pub mod Restore
use co_write_file_system.Prelude.{
  ℕ, suc, Bool, true, false, ◌&&◌, ◌||◌, not, List, [], ◌∷◌, ◌++◌, Option, none, some, ltb, leb,
  ◌==◌, if◌then◌else◌, Bytes, length,
}
use co_write_file_system.Storage.Disk.{
  Disk, WriteOutcome, written, load_text, load_or_empty, unlink, store_text_atomic,
}
use co_write_file_system.Storage.Text.{count_words_in_text}
use co_write_file_system.Storage.State.{SsFile, SsState}
use co_write_file_system.Storage.Server.{
  SsContext, Answer, done, refused, not_found, busy, bad_name, too_long, io_error, snapshot_file,
  record_change, edited, accessed, with_disk,
}

-- The text that a file has after the call, with its counts.
pub record Restored : Type 0 where
  pub text : Bytes
  pub words : ℕ
  pub chars : ℕ

abbrev pub counted : Bytes → Restored
counted text = record { text = text; words = count_words_in_text text; chars = length text }

abbrev pub restored : Bytes → SsContext × Option SsFile → SsContext × Answer Restored
restored text (after, none) = (after, refused not_found)
restored text (after, some file) = (after, done (counted text))

-- The end of UNDO and of REVERT: the entry gets the counts of the text that the data file now has.
unfoldable pub record_restore : SsContext → ℕ → Bytes → Bytes → Bytes → SsContext × Answer Restored
record_restore ctx now name user text =
    restored text (record_change ctx name (edited now user text))

-- The failure of the unlink is only logged.
unfoldable pub undo_to :
    SsContext → ℕ → Bytes → Bytes → SsFile → Bytes → SsContext × Answer Restored
undo_to ctx now name user view text =
    let stored = store_text_atomic ctx.disk view.data_path text in
    if stored.1
    then record_restore (with_disk ctx (unlink stored.0 view.undo_path)) now name user text
    else (with_disk ctx stored.0, refused io_error)

-- The lock state of the entry is looked at before the undo file.
abbrev pub undo_checked :
    SsContext → ℕ → Bytes → Bytes → SsFile → Bool → Option Bytes → SsContext × Answer Restored
undo_checked ctx now name user view true text = (ctx, refused busy)
undo_checked ctx now name user view false none = (ctx, refused not_found)
undo_checked ctx now name user view false (some text) = undo_to ctx now name user view text

abbrev pub undo_view : SsContext → ℕ → Bytes → Bytes → Option SsFile → SsContext × Answer Restored
undo_view ctx now name user none = (ctx, refused not_found)
undo_view ctx now name user (some view) =
    undo_checked ctx now name user view view.lock_active (load_text ctx.disk view.undo_path)

unfoldable pub perform_undo : SsContext → ℕ → Bytes → Bytes → SsContext × Answer Restored
perform_undo ctx now name user = undo_view ctx now name user (snapshot_file ctx name)

-- The byte after a dot is looked at, which at the end is the NUL.
abbrev pub starts_with_dot : Bytes → Bool
starts_with_dot [] = false
starts_with_dot (c ∷ s) = c == 46

unfoldable pub valid_chars : Bool → Bytes → Bool
valid_chars first [] = true
valid_chars first (c ∷ s) =
    not (c == 46 && (first || starts_with_dot s))
    && (not (c == 47 || c == 92) && (not (ltb c 32 || ltb 126 c) && valid_chars false s))

unfoldable pub valid_filename : Bytes → Bool
unfolding valid_chars
valid_filename [] = false
valid_filename (c ∷ s) = valid_chars true (c ∷ s)

abbrev pub checkpoint_dir : SsState → Bytes → Bytes
checkpoint_dir st name = st.checkpoints_dir ++ (47 ∷ name)

abbrev pub checkpoint_file : SsState → Bytes → Bytes → Bytes
checkpoint_file st name tag = checkpoint_dir st name ++ (47 ∷ tag)

-- The directory is made, unless it is there; this works unless a write of its path would fail.
unfoldable pub ensure_checkpoint_dir : SsState → Disk → Bytes → Answer Bytes
ensure_checkpoint_dir st d name =
    let dir = checkpoint_dir st name in
    if leb 512 (length dir)
    then refused too_long
    else elim (d.outcome dir) [ written ↦ done dir | _ ↦ refused io_error ]

unfoldable pub build_checkpoint_path : SsState → Disk → Bytes → Bytes → Answer Bytes
unfolding ensure_checkpoint_dir
build_checkpoint_path st d name tag = elim (ensure_checkpoint_dir st d name) [
  | refused e ↦ refused e
  | done dir ↦
      let path = dir ++ (47 ∷ tag) in if leb 512 (length path) then refused too_long else done path
]

abbrev pub create_at : SsContext → SsFile → Answer {0} Bytes → SsContext × Answer {0} Unit
create_at ctx view (refused e) = (ctx, refused e)
create_at ctx view (done path) =
    let stored = store_text_atomic ctx.disk path (load_or_empty ctx.disk view.data_path) in
    (with_disk ctx stored.0, if stored.1 then done tt else refused io_error)

abbrev pub create_view : SsContext → Bytes → Bytes → Option SsFile → SsContext × Answer {0} Unit
create_view ctx name tag none = (ctx, refused io_error)
create_view ctx name tag (some view) =
    create_at ctx view (build_checkpoint_path ctx.state ctx.disk name tag)

unfoldable pub ss_create_checkpoint : SsContext → Bytes → Bytes → SsContext × Answer {0} Unit
ss_create_checkpoint ctx name tag =
    if valid_filename tag
    then create_view ctx name tag (snapshot_file ctx name)
    else (ctx, refused bad_name)

abbrev pub read_text : Option Bytes → Answer {0} Bytes
read_text none = refused not_found
read_text (some content) = done content

abbrev pub read_at : Disk → Answer {0} Bytes → Answer {0} Bytes
read_at d (refused e) = refused e
read_at d (done path) = read_text (load_text d path)

unfoldable pub ss_read_checkpoint : SsContext → Bytes → Bytes → Answer {0} Bytes
ss_read_checkpoint ctx name tag =
    if valid_filename tag
    then read_at ctx.disk (build_checkpoint_path ctx.state ctx.disk name tag)
    else refused bad_name

-- The current text goes to the undo file, and the text of the checkpoint to the data file.
unfoldable pub revert_to :
    SsContext → ℕ → Bytes → Bytes → SsFile → Bytes → SsContext × Answer Restored
revert_to ctx now name user view text =
    let saved = store_text_atomic ctx.disk view.undo_path (load_or_empty ctx.disk view.data_path) in
    let stored = store_text_atomic saved.0 view.data_path text in
    if saved.1
    then if stored.1
      then record_restore (with_disk ctx stored.0) now name user text
      else (with_disk ctx stored.0, refused io_error)
    else (with_disk ctx saved.0, refused io_error)

abbrev pub revert_checked :
    SsContext → ℕ → Bytes → Bytes → SsFile → Bytes → Bool → SsContext × Answer Restored
revert_checked ctx now name user view text true = (ctx, refused busy)
revert_checked ctx now name user view text false = revert_to ctx now name user view text

abbrev pub revert_view :
    SsContext → ℕ → Bytes → Bytes → Bytes → Option SsFile → SsContext × Answer Restored
revert_view ctx now name user text none = (ctx, refused io_error)
revert_view ctx now name user text (some view) =
    revert_checked ctx now name user view text view.lock_active

abbrev pub revert_read :
    SsContext → ℕ → Bytes → Bytes → Answer {0} Bytes → SsContext × Answer Restored
revert_read ctx now name user (refused e) = (ctx, refused e)
revert_read ctx now name user (done text) =
    revert_view ctx now name user text (snapshot_file ctx name)

-- Only the result 0 of a revert is the caller's; the text and its counts are those stored.
unfoldable pub ss_revert_checkpoint :
    SsContext → ℕ → Bytes → Bytes → Bytes → SsContext × Answer Restored
ss_revert_checkpoint ctx now name tag user =
    revert_read ctx now name user (ss_read_checkpoint ctx name tag)

-- handle_read, up to the response: the text that goes into it and the counts. Without an entry the
-- counts are those of the snapshot.
unfoldable pub read_file : SsContext → ℕ → Bytes → Bytes → SsContext × Answer Restored
read_file ctx now name user = elim (snapshot_file ctx name) [
  | none ↦ (ctx, refused not_found)
  | some view ↦
      let text = load_or_empty ctx.disk view.data_path in
      let (after, copy) = record_change ctx name (accessed now user) in
      elim copy [
        | none ↦
            (after, done (record { text = text; words = view.word_count; chars = view.char_count }))
        | some f ↦
            (after, done (record { text = text; words = f.word_count; chars = f.char_count }))
      ]
]
