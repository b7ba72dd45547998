-- ===== src/Manager/Files/Walks.antt =====
-- nm/nm_state.c: what the walk of find_file_index along a chain finds.
use co_write_file_system.Prelude.{
  ℕ, zero, suc, ◌<◌, ◌≡◌, ◌≢◌, refl, inl, inr, sym, ap, ◌∙◌, true, false, List, [], ◌∷◌, Option,
  none, some, ◌==◌, arith, Bytes, length, get_elem?, str_eq, str_eq_iff, Bool-cases,
}
use co_write_file_system.Manager.Entry.{FileEntry}
use co_write_file_system.Manager.Files.{find_from}
use co_write_file_system.Manager.Files.Chains.{count, count-head, count-cons_le, IsChain}

unfoldable pub name_at : List FileEntry → ℕ → Bytes
name_at [] i = []
name_at (f ∷ files) zero = f.name
name_at (f ∷ files) (suc i) = name_at files i

pub get_elem?-name_at :
    (files : List FileEntry) (i : ℕ)
    → i < length files
    → (f : FileEntry) × (get_elem? files i ≡ some f) × (f.name ≡ name_at files i)
unfolding name_at
get_elem?-name_at [] i h = absurd (omega arith)
get_elem?-name_at (f ∷ files) zero h = (f, refl, refl)
get_elem?-name_at (f ∷ files) (suc i) h = get_elem?-name_at files i (omega arith)

-- What a walk along `l` finds.
abbrev pub FindsIn : List FileEntry → Bytes → List ℕ → Option ℕ → Type 0
FindsIn files name l none = (k : ℕ) → 0 < count k l → name_at files k ≢ name
FindsIn files name l (some i) = (0 < count i l) × (name_at files i ≡ name)

find_hit :
    (fuel : ℕ) (files : List FileEntry) (next : ℕ → Option ℕ) (name : Bytes) (i : ℕ) (f : FileEntry)
    → get_elem? files i ≡ some f
    → str_eq f.name name ≡ true
    → find_from (suc fuel) files next name (some i) ≡ some i
unfolding find_from
find_hit fuel files next name i f e q = rw (e, find_from, q) refl

find_miss :
    (fuel : ℕ) (files : List FileEntry) (next : ℕ → Option ℕ) (name : Bytes) (i : ℕ) (f : FileEntry)
    → get_elem? files i ≡ some f
    → str_eq f.name name ≡ false
    → find_from (suc fuel) files next name (some i) ≡ find_from fuel files next name (next i)
unfolding find_from
find_miss fuel files next name i f e q = rw (e, find_from, q) refl

count_other : (i k : ℕ) (l : List ℕ) → (i == k) ≡ false → 0 < count k (i ∷ l) → 0 < count k l
unfolding count
count_other i k l e h = ground arith

FindsIn-cons :
    (files : List FileEntry) (name : Bytes) (i : ℕ) (l : List ℕ) (r : Option ℕ)
    → name_at files i ≢ name
    → FindsIn files name l r
    → FindsIn files name (i ∷ l) r
FindsIn-cons files name i l none n h = λ k p. elim (Bool-cases (i == k)) [
  | inl e ↦ let same : i ≡ k = ground arith in λ q. n (ap (name_at files) same ∙ q)
  | inr e ↦ h k (count_other i k l e p)
]
FindsIn-cons files name i l (some k) n (h, q) = (omega (arith, count-cons_le k i l), q)

find_from_end :
    (fuel : ℕ) (files : List FileEntry) (next : ℕ → Option ℕ) (name : Bytes)
    → find_from fuel files next name none ≡ none
unfolding find_from
find_from_end zero files next name = refl
find_from_end (suc fuel) files next name = refl

pub find_from-FindsIn :
    (fuel : ℕ) (files : List FileEntry) (next : ℕ → Option ℕ) (name : Bytes) (o : Option ℕ)
    (l : List ℕ)
    → length l < fuel
    → ((k : ℕ) → 0 < count k l → k < length files)
    → IsChain next o l
    → FindsIn files name l (find_from fuel files next name o)
find_from-FindsIn fuel files next name o [] enough inside e =
    rw (e, find_from_end fuel files next name) (λ k h. absurd (unfold count in omega arith))
find_from-FindsIn zero files next name o (i ∷ l) enough inside c = absurd (omega arith)
find_from-FindsIn (suc fuel) files next name o (i ∷ l) enough inside (e, c) =
    let (f, at, named) = get_elem?-name_at files i (inside i (count-head i l)) in
    let rest =
      find_from-FindsIn fuel files next name (next i) l (omega arith)
        (λ k h. inside k (omega (arith, count-cons_le k i l))) c in
    elim (Bool-cases (str_eq f.name name)) [
      | inl q ↦
          rw (e, find_hit fuel files next name i f at q)
            (count-head i l, sym named ∙ (str_eq_iff f.name name).0 q)
      | inr q ↦
          rw (e, find_miss fuel files next name i f at q)
            (FindsIn-cons files name i l _
              (λ z. cc (sym q ∙ (str_eq_iff f.name name).1 (named ∙ z))) rest)
    ]
