-- ===== src/Storage/Server/Entries.antt =====
-- ss/ss_main.c: what snapshot_file reads and what a change of one entry does, in terms of the lookup
-- by name.
use co_write_file_system.Prelude.{
  ℕ, zero, suc, ◌<◌, ◌≡◌, ◌≢◌, refl, sym, ◌∙◌, List, [], ◌∷◌, some, arith, Bytes, length, get_elem?,
  set, str_eq_iff, ap,
}
use co_write_file_system.Storage.Disk.{Disk, load_text, put_cell}
use co_write_file_system.Storage.Server.{
  SsContext, snapshot_file, change_file, record_change, change_at, with_entry, with_disk, notify,
  recorded,
}
use co_write_file_system.Storage.State.{
  fopen_write, write_meta_file, ss_state_save_meta, SsFile, Lookup, found, absent, ss_state_find,
}
use co_write_file_system.Storage.State.Search.{key, IsSorted, Locates, ss_state_find-Locates}
use co_write_file_system.Storage.State.Sorted.{lookup, lookup_at, lookup_new, Splits-new}

-- Where the search finds a file that the lookup gives.
pub data Found (files : List SsFile) (name : Bytes) (f : SsFile) : Type 0 where
  found_at :
      (i : ℕ)
      → ss_state_find files name ≡ found i
      → i < length files
      → key files i ≡ name
      → get_elem? files i ≡ some f
      → Found files name f

find-Found :
    (files : List SsFile) (name : Bytes) (f : SsFile)
    → IsSorted files
    → lookup files name ≡ some f
    → Found files name f
find-Found files name f sorted h =
    from (ss_state_find files name) refl (ss_state_find-Locates files name sorted)
  where
    from : (r : Lookup) → ss_state_find files name ≡ r → Locates files name r → Found files name f
    from (found i) e (inside, k) =
        found_at i e inside k (sym (lookup_at files name i sorted inside k) ∙ h)
    from (absent at) e l = absurd (cc (h, lookup_new files name (Splits-new files name at l)))

key-set :
    (files : List SsFile) (i : ℕ) (f g : SsFile) (j : ℕ)
    → get_elem? files i ≡ some f
    → g.name ≡ f.name
    → key (set files i g) j ≡ key files j
key-set [] i f g j h e = refl
key-set (x ∷ files) zero f g zero h e = let q : x ≡ f = cc h in e ∙ ap (λ y. y.name) (sym q)
key-set (x ∷ files) zero f g (suc j) h e = refl
key-set (x ∷ files) (suc i) f g zero h e = refl
key-set (x ∷ files) (suc i) f g (suc j) h e = key-set files i f g j h e

length-set : (files : List SsFile) (i : ℕ) (g : SsFile) → length (set files i g) ≡ length files
length-set [] i g = refl
length-set (x ∷ files) zero g = refl
length-set (x ∷ files) (suc i) g = ap suc (length-set files i g)

set-IsSorted :
    (files : List SsFile) (i : ℕ) (f g : SsFile)
    → IsSorted files
    → get_elem? files i ≡ some f
    → g.name ≡ f.name
    → IsSorted (set files i g)
set-IsSorted files i f g sorted h e a b p q =
    let before = sorted a b p (omega (arith, length-set files i g)) in
    rw (key-set files i f g a h e, key-set files i f g b h e) before

get_elem?-set :
    (files : List SsFile) (i : ℕ) (g : SsFile)
    → i < length files
    → get_elem? (set files i g) i ≡ some g
get_elem?-set [] i g h = absurd (omega arith)
get_elem?-set (x ∷ files) zero g h = refl
get_elem?-set (x ∷ files) (suc i) g h = get_elem?-set files i g (omega arith)

lookup-set_ne :
    (files : List SsFile) (i : ℕ) (f g : SsFile) (q : Bytes)
    → get_elem? files i ≡ some f
    → g.name ≡ f.name
    → q ≢ f.name
    → lookup (set files i g) q ≡ lookup files q
unfolding lookup
lookup-set_ne [] i f g q h e n = refl
lookup-set_ne (x ∷ files) zero f g q h e n =
    let s : x ≡ f = cc h in
    let t : x.name ≡ f.name = ap (λ y. y.name) s in
    ground (arith, str_eq_iff x.name q, str_eq_iff g.name q)
lookup-set_ne (x ∷ files) (suc i) f g q h e n = rw (lookup-set_ne files i f g q h e n) refl

key-name :
    (files : List SsFile) (i : ℕ) (f : SsFile) → get_elem? files i ≡ some f → key files i ≡ f.name
key-name [] i f h = cc h
key-name (x ∷ files) zero f h = let q : x ≡ f = cc h in ap (λ y. y.name) q
key-name (x ∷ files) (suc i) f h = key-name files i f h

-- The entry of the name is now `g`, and every other name has the entry it had.
abbrev pub Sets : List SsFile → Bytes → SsFile → List SsFile → Type 0
Sets files name g after =
    IsSorted after
    × (lookup after name ≡ some g)
    × ((q : Bytes) → q ≢ name → lookup after q ≡ lookup files q)

set-Sets :
    (files : List SsFile) (name : Bytes) (i : ℕ) (f g : SsFile)
    → IsSorted files
    → i < length files
    → key files i ≡ name
    → get_elem? files i ≡ some f
    → g.name ≡ f.name
    → Sets files name g (set files i g)
set-Sets files name i f g sorted h k at e =
    let kept = set-IsSorted files i f g sorted at e in
    let named = key-set files i f g i at e ∙ k in
    (
      kept,
      lookup_at (set files i g) name i kept (omega (arith, length-set files i g)) named
          ∙ get_elem?-set files i g h,
      λ q n. lookup-set_ne files i f g q at e (λ p. n (p ∙ sym (key-name files i f at) ∙ k)),
    )

pub snapshot_found :
    (ctx : SsContext) (name : Bytes) (f : SsFile)
    → IsSorted ctx.state.files
    → lookup ctx.state.files name ≡ some f
    → snapshot_file ctx name ≡ some f
unfolding snapshot_file
snapshot_found ctx name f sorted h = elim (find-Found ctx.state.files name f sorted h) [
  | found_at i e inside k at ↦ rw e at
]

change_file_step :
    (ctx : SsContext) (name : Bytes) (f : SsFile) (change : SsFile → SsFile) (i : ℕ)
    → ss_state_find ctx.state.files name ≡ found i
    → get_elem? ctx.state.files i ≡ some f
    → change_file ctx name change ≡ (with_entry ctx i (change f), some (change f))
unfolding change_file
change_file_step ctx name f change i e at = ap (λ r. change_at ctx r change) e ∙ at_step
  where
    at_step : change_at ctx (found i) change ≡ (with_entry ctx i (change f), some (change f))
    at_step = rw (at, change_at) refl

record_change_step :
    (ctx : SsContext) (name : Bytes) (f : SsFile) (change : SsFile → SsFile) (i : ℕ)
    → ss_state_find ctx.state.files name ≡ found i
    → get_elem? ctx.state.files i ≡ some f
    → record_change ctx name change ≡ (
      notify
          (with_disk (with_entry ctx i (change f)) (ss_state_save_meta ctx.disk (change f)).0)
          (change f),
      some (change f),
    )
unfolding record_change
record_change_step ctx name f change i e at =
    ap recorded (change_file_step ctx name f change i e at)

pub change_file_lem :
    (ctx : SsContext) (name : Bytes) (f : SsFile) (change : SsFile → SsFile)
    → IsSorted ctx.state.files
    → lookup ctx.state.files name ≡ some f
    → (change f).name ≡ f.name
    → ((change_file ctx name change).1 ≡ some (change f))
      × Sets ctx.state.files name (change f) (change_file ctx name change).0.state.files
      × ((change_file ctx name change).0.disk ≡ ctx.disk)
change_file_lem ctx name f change sorted h kept =
    elim (find-Found ctx.state.files name f sorted h) [
      | found_at i e inside k at ↦
          rw (change_file_step ctx name f change i e at)
            (refl, set-Sets ctx.state.files name i f (change f) sorted inside k at kept, refl)
    ]

pub record_change_lem :
    (ctx : SsContext) (name : Bytes) (f : SsFile) (change : SsFile → SsFile)
    → IsSorted ctx.state.files
    → lookup ctx.state.files name ≡ some f
    → (change f).name ≡ f.name
    → ((record_change ctx name change).1 ≡ some (change f))
      × Sets ctx.state.files name (change f) (record_change ctx name change).0.state.files
      × ((record_change ctx name change).0.disk ≡ (ss_state_save_meta ctx.disk (change f)).0)
record_change_lem ctx name f change sorted h kept =
    elim (find-Found ctx.state.files name f sorted h) [
      | found_at i e inside k at ↦
          rw (record_change_step ctx name f change i e at)
            (refl, set-Sets ctx.state.files name i f (change f) sorted inside k at kept, refl)
    ]

pub load_text-save_meta_ne :
    (d : Disk) (file : SsFile) (q : Bytes)
    → q ≢ file.meta_path
    → load_text (ss_state_save_meta d file).0 q ≡ load_text d q
unfolding ss_state_save_meta write_meta_file fopen_write load_text put_cell
load_text-save_meta_ne d file q n = ground (arith, str_eq_iff file.meta_path q)
