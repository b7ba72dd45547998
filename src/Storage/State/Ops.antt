-- ===== src/Storage/State/Ops.antt =====
-- ss/ss_state.c: ss_state_add and ss_state_remove on sorted files, on every branch.
use co_write_file_system.Prelude.{
  ℕ, zero, suc, ◌<◌, ◌≡◌, ◌≢◌, refl, ap, sym, subst, ◌∙◌, Bool, true, false, List, [], ◌∷◌, none,
  some, arith, Bytes, length, get_elem?, if◌then◌else◌, str_eq, str_eq_iff, copy_into_fits,
  ≺_irrefl,
}
use co_write_file_system.Common.Array.{insert_at, remove_at}
use co_write_file_system.Common.Array.Laws.{remove_at-insert_at}
use co_write_file_system.Storage.Disk.{Disk}
use co_write_file_system.Storage.State.{
  SsFile, SsState, Lookup, found, absent, ss_state_find, insert_sorted, new_file, ss_state_add,
  ss_state_remove, add_at, with_files,
}
use co_write_file_system.Storage.Disk.{unlink}
use co_write_file_system.Storage.State.Search.{
  key, IsSorted, Splits, Locates, ss_state_find-Locates, insert_index-Splits, Splits-unique,
  get_elem?-key,
}
use co_write_file_system.Storage.State.Keys.{insert_at-IsSorted, remove_at-IsSorted}
use co_write_file_system.Storage.State.Sorted.{
  lookup, lookup_at, lookup_new, lookup-insert_at, Splits-new,
}

-- What the call does to the map: nothing on a failure; on success the name, which was free, has the
-- new file.
abbrev pub Adds : List SsFile → SsFile → List SsFile × Bool → Type 0
Adds files f (after, false) = after ≡ files
Adds files f (after, true) =
    (lookup files f.name ≡ none)
    × ((q : Bytes) → lookup after q ≡ (if str_eq f.name q then some f else lookup files q))

-- The index that the lookup of ss_state_add gives is that of the insertion.
insert_sorted_at :
    (files : List SsFile) (f : SsFile) (at : ℕ)
    → IsSorted files
    → Splits files f.name at
    → insert_sorted files f ≡ insert_at files at f
unfolding insert_sorted
insert_sorted_at files f at sorted splits =
    let same =
      Splits-unique files f.name _ at
        (insert_index-Splits files f.name sorted (Splits-new files f.name at splits)) splits in
    ap (λ i. insert_at files i f) same

abbrev pub AddsAfter : SsState → SsFile → SsState × Disk × Bool → Type 0
AddsAfter st f (after, d, done) = IsSorted after.files × Adds st.files f (after.files, done)

-- Whichever of the two files on the disk fails.
add_end :
    (st : SsState) (f : SsFile) (at : ℕ) (d₁ d₂ d₃ : Disk) (files : List SsFile)
    → files ≡ insert_at st.files at f
    → IsSorted st.files
    → Splits st.files f.name at
    → (created described : Bool)
    → AddsAfter st f (
        if created
        then if described
          then (with_files st files, d₁, true)
          else (with_files st (remove_at files at), d₂, false)
        else (with_files st (remove_at files at), d₃, false))
add_end st f at d₁ d₂ d₃ files e sorted splits false described =
    let back : remove_at files at ≡ st.files = rw e (remove_at-insert_at st.files at f splits.0) in
    (subst IsSorted (sym back) sorted, back)
add_end st f at d₁ d₂ d₃ files e sorted splits true false =
    let back : remove_at files at ≡ st.files = rw e (remove_at-insert_at st.files at f splits.0) in
    (subst IsSorted (sym back) sorted, back)
add_end st f at d₁ d₂ d₃ files e sorted splits true true =
    let new = Splits-new st.files f.name at splits in
    (
      subst IsSorted (sym e) (insert_at-IsSorted st.files at f sorted splits),
      (lookup_new st.files f.name new, λ q. rw e (lookup-insert_at st.files at f q new)),
    )

add_at_lem :
    (st : SsState) (d : Disk) (f : SsFile) (at : ℕ)
    → IsSorted st.files
    → Splits st.files f.name at
    → AddsAfter st f (add_at st d f at)
unfolding add_at
add_at_lem st d f at sorted splits =
    add_end st f at _ _ _ (insert_sorted st.files f) (insert_sorted_at st.files f at sorted splits)
      sorted splits _ _

-- On sorted files, and for a name that fits its field, ss_state_add keeps the files sorted; on
-- success the name was free and a lookup now gives the new file for it and what it gave before for
-- any other name; on a failure, of the lookup or of either file on the disk, the files are as before.
pub ss_state_add_lem :
    (st : SsState) (d : Disk) (now : ℕ) (name owner : Bytes)
    → IsSorted st.files
    → length name < 128
    → AddsAfter st (new_file st now name owner) (ss_state_add st d now name owner)
unfolding ss_state_add
ss_state_add_lem st d now name owner sorted fits =
    from (ss_state_find st.files name) (ss_state_find-Locates st.files name sorted)
  where
    from :
        (r : Lookup)
        → Locates st.files name r
        → AddsAfter st (new_file st now name owner) (elim r [
          | found _ ↦ (st, d, false)
          | absent idx ↦ add_at st d (new_file st now name owner) idx
        ])
    from (found i) l = (sorted, refl)
    from (absent at) l =
        add_at_lem st d (new_file st now name owner) at sorted
          (subst (λ n. Splits st.files n at) (sym (copy_into_fits 128 name (omega arith))) l)

after_first :
    (f : SsFile) (files : List SsFile)
    → IsSorted (f ∷ files)
    → (i : ℕ) → i < length files
    → key files i ≢ f.name
after_first f files sorted i h e =
    let before = sorted 0 (suc i) (omega arith) (omega arith) in ≺_irrefl f.name (rw e at before)

lookup-remove_at :
    (files : List SsFile) (i : ℕ) (name q : Bytes)
    → IsSorted files
    → i < length files
    → key files i ≡ name
    → lookup (remove_at files i) q ≡ (if str_eq name q then none else lookup files q)
unfolding lookup
lookup-remove_at [] i name q sorted h e = absurd (omega arith)
lookup-remove_at (f ∷ files) zero name q sorted h e =
    let gone = lookup_new files f.name (after_first f files sorted) in
    ground (arith, str_eq_iff name q, str_eq_iff f.name q)
lookup-remove_at (f ∷ files) (suc i) name q sorted h e =
    let other : f.name ≢ name = λ p. after_first f files sorted i (omega arith) (e ∙ sym p) in
    ground (
      arith,
      str_eq_iff name q,
      str_eq_iff f.name q,
      lookup-remove_at files i name q
          (λ a b p r. sorted (suc a) (suc b) (omega arith) (omega arith)) (omega arith) e,
    )

-- What the call does to the map: without a file of the name nothing; else exactly that name goes.
abbrev pub Removes : SsState → Bytes → SsState × Disk × Bool → Type 0
Removes st name (after, d, false) = (after.files ≡ st.files) × (lookup st.files name ≡ none)
Removes st name (after, d, true) =
    IsSorted after.files
    × (lookup st.files name ≢ none)
    × ((q : Bytes) → lookup after.files q ≡ (if str_eq name q then none else lookup st.files q))

-- On sorted files ss_state_remove fails just when a lookup gives no file for the name, and changes
-- nothing then; else it keeps the files sorted, and a lookup gives no file for the name any more and
-- what it gave before for any other.
pub ss_state_remove_lem :
    (st : SsState) (d : Disk) (name : Bytes)
    → IsSorted st.files
    → Removes st name (ss_state_remove st d name)
unfolding ss_state_remove
ss_state_remove_lem st d name sorted =
    from (ss_state_find st.files name) (ss_state_find-Locates st.files name sorted)
  where
    from :
        (r : Lookup)
        → Locates st.files name r
        → Removes st name (elim r [
          | absent _ ↦ (st, d, false)
          | found idx ↦ elim (get_elem? st.files idx) [
            | none ↦ (st, d, false)
            | some file ↦ (
              with_files st (remove_at st.files idx),
              unlink (unlink (unlink d file.data_path) file.meta_path) file.undo_path,
              true,
            )
          ]
        ])
    from (absent at) l = (refl, lookup_new st.files name (Splits-new st.files name at l))
    from (found i) (inside, e) =
        let (file, here, _) = get_elem?-key st.files i inside in
        let at = lookup_at st.files name i sorted inside e in
        rw here (
          remove_at-IsSorted st.files i sorted inside,
          λ q. cc (at, here, q),
          λ q. lookup-remove_at st.files i name q sorted inside e,
        )
