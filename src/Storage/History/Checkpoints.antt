-- ===== src/Storage/History/Checkpoints.antt =====
-- ss/ss_main.c: a checkpoint that is made can be read again.
use co_write_file_system.Prelude.{
  ◌≡◌, refl, ap, sym, ◌∙◌, Bool, true, false, some, Bytes, arith, if◌then◌else◌, Bool-cases, inl,
  inr,
}
use co_write_file_system.Storage.Disk.{Disk, load_or_empty, store_text_atomic}
use co_write_file_system.Storage.Disk.Laws.{load_text-store, load_or_empty-IsText, store-outcome}
use co_write_file_system.Storage.State.{SsFile, SsState}
use co_write_file_system.Storage.State.Search.{IsSorted}
use co_write_file_system.Storage.State.Sorted.{lookup}
use co_write_file_system.Storage.Server.{
  SsContext, Answer, done, refused, io_error, bad_name, with_disk, snapshot_file,
}
use co_write_file_system.Storage.Server.Entries.{snapshot_found}
use co_write_file_system.Storage.History.{
  ensure_checkpoint_dir, build_checkpoint_path, create_at, create_view, ss_create_checkpoint,
  read_text, read_at, ss_read_checkpoint, valid_filename, checkpoint_dir,
}

build_path-outcome :
    (st : SsState) (d d' : Disk) (name tag : Bytes)
    → ((q : Bytes) → d'.outcome q ≡ d.outcome q)
    → build_checkpoint_path st d' name tag ≡ build_checkpoint_path st d name tag
unfolding build_checkpoint_path ensure_checkpoint_dir
build_path-outcome st d d' name tag same = ground (arith, same (checkpoint_dir st name))

if_done :
    (b : Bool)
    → ◌≡◌ {A = Answer {0} Unit} (if b then done tt else refused io_error) (done tt)
    → b ≡ true
if_done false h = cc h
if_done true h = refl

create_at-done :
    (ctx after : SsContext) (f : SsFile) (r : Answer {0} Bytes)
    → create_at ctx f r ≡ (after, done tt)
    → (path : Bytes) × (r ≡ done path)
      × ((store_text_atomic ctx.disk path (load_or_empty ctx.disk f.data_path)).1 ≡ true)
      × (after
          ≡ with_disk ctx (store_text_atomic ctx.disk path (load_or_empty ctx.disk f.data_path)).0)
create_at-done ctx after f (refused e) h = cc h
create_at-done ctx after f (done path) h =
    (path, refl, if_done _ (ap (λ p. p.1) h), sym (ap (λ p. p.0) h))

create_done :
    (ctx after : SsContext) (name tag : Bytes) (f : SsFile)
    → snapshot_file ctx name ≡ some f
    → ss_create_checkpoint ctx name tag ≡ (after, done tt)
    → (valid_filename tag ≡ true)
      × (create_at ctx f (build_checkpoint_path ctx.state ctx.disk name tag) ≡ (after, done tt))
unfolding ss_create_checkpoint
create_done ctx after name tag f shot h = elim (Bool-cases (valid_filename tag)) [
  | inl e ↦ (e, sym (ap (create_view ctx name tag) shot) ∙ rw e at h)
  | inr e ↦ let no : (ctx, refused bad_name) ≡ (after, done tt) = rw e at h in absurd (cc no)
]

-- In sorted files, when the making of a checkpoint of the entry of the name succeeds, a read of it
-- gives the text that the data file had, and the entries are not changed.
pub checkpoint_round :
    (ctx after : SsContext) (name tag : Bytes) (f : SsFile)
    → IsSorted ctx.state.files
    → lookup ctx.state.files name ≡ some f
    → ss_create_checkpoint ctx name tag ≡ (after, done tt)
    → (ss_read_checkpoint after name tag ≡ done (load_or_empty ctx.disk f.data_path))
      × (after.state ≡ ctx.state)
unfolding ss_read_checkpoint
checkpoint_round ctx after name tag f sorted held h =
    let (valid, made) =
      create_done ctx after name tag f (snapshot_found ctx name f sorted held) h in
    let (path, built, stored, e) = create_at-done ctx after f _ made in
    let text = load_or_empty ctx.disk f.data_path in
    let d = (store_text_atomic ctx.disk path text).0 in
    let again : build_checkpoint_path ctx.state d name tag ≡ done path =
      build_path-outcome ctx.state ctx.disk d name tag (store-outcome ctx.disk path text) ∙ built in
    let found =
      load_text-store ctx.disk path text (load_or_empty-IsText ctx.disk f.data_path) stored in
    (
      ap (λ c. ss_read_checkpoint c name tag) e
          ∙ rw valid (ap (read_at d) again ∙ ap read_text found),
      ap (λ c. c.state) e,
    )
