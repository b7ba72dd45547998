-- ===== src/Storage/State/Sorted.antt =====
-- ss/ss_state.c: ss_state_find is a lookup, and ss_state_add and ss_state_remove keep the files
-- sorted and work as the map from names to files.
use co_write_file_system.Prelude.{
  ℕ, zero, suc, ◌<◌, ◌≡◌, ◌≢◌, inl, inr, refl, sym, List, [], ◌∷◌, Option, none, some, arith, Bytes,
  length, get_elem?, if◌then◌else◌, str_eq, str_eq_iff, ≺_irrefl,
}
use co_write_file_system.Common.Array.{insert_at}
use co_write_file_system.Storage.State.{SsFile, Lookup, found, absent, entry_at, ss_state_find}
use co_write_file_system.Storage.State.Search.{
  key, IsSorted, Splits, Locates, ss_state_find-Locates, lt_or_eq_or,
}

-- The files as a map.
unfoldable pub lookup : List SsFile → Bytes → Option SsFile
lookup [] name = none
lookup (f ∷ files) name = if str_eq f.name name then some f else lookup files name

pub lookup_new :
    (files : List SsFile) (name : Bytes)
    → ((i : ℕ) → i < length files → key files i ≢ name)
    → lookup files name ≡ none
unfolding lookup
lookup_new [] name new = refl
lookup_new (f ∷ files) name new =
    let other : f.name ≢ name = new 0 (omega arith) in
    ground (arith, str_eq_iff f.name name, lookup_new files name (λ i h. new (suc i) (omega arith)))

pub lookup_at :
    (files : List SsFile) (name : Bytes) (i : ℕ)
    → IsSorted files
    → i < length files
    → key files i ≡ name
    → lookup files name ≡ get_elem? files i
unfolding lookup
lookup_at [] name i sorted h e = absurd (omega arith)
lookup_at (f ∷ files) name zero sorted h e = ground (arith, str_eq_iff f.name name)
lookup_at (f ∷ files) name (suc i) sorted h e =
    let before = sorted 0 (suc i) (omega arith) h in
    let other : f.name ≢ name = λ q. ≺_irrefl name (rw (q, e) at before) in
    ground (
      arith,
      str_eq_iff f.name name,
      lookup_at files name i (λ a b p q. sorted (suc a) (suc b) (omega arith) (omega arith)),
    )

pub Splits-new :
    (files : List SsFile) (name : Bytes) (at : ℕ)
    → Splits files name at
    → (i : ℕ) → i < length files
    → key files i ≢ name
Splits-new files name at (inside, before, behind) i h e = elim (lt_or_eq_or i at) [
  | inl p ↦ ≺_irrefl name (rw e at (before i p))
  | inr (inl p) ↦ ≺_irrefl name (rw e at (behind i (omega arith) h))
  | inr (inr p) ↦ ≺_irrefl name (rw e at (behind i (omega arith) h))
]

-- On sorted files the binary search gives the file that a lookup by the name gives.
pub ss_state_find-lookup :
    (files : List SsFile) (name : Bytes)
    → IsSorted files
    → entry_at files (ss_state_find files name) ≡ lookup files name
ss_state_find-lookup files name sorted =
    from (ss_state_find files name) (ss_state_find-Locates files name sorted)
  where
    from : (r : Lookup) → Locates files name r → entry_at files r ≡ lookup files name
    from (found i) (inside, e) = sym (lookup_at files name i sorted inside e)
    from (absent at) splits = sym (lookup_new files name (Splits-new files name at splits))

pub lookup-insert_at :
    (files : List SsFile) (at : ℕ) (f : SsFile) (name : Bytes)
    → ((i : ℕ) → i < length files → key files i ≢ f.name)
    → lookup (insert_at files at f) name
      ≡ (if str_eq f.name name then some f else lookup files name)
unfolding lookup
lookup-insert_at files zero f name new = refl
lookup-insert_at [] (suc at) f name new = refl
lookup-insert_at (g ∷ files) (suc at) f name new =
    let other : g.name ≢ f.name = new 0 (omega arith) in
    ground (
      arith,
      str_eq_iff g.name name,
      str_eq_iff f.name name,
      lookup-insert_at files at f name (λ i h. new (suc i) (omega arith)),
    )
