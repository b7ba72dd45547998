-- ===== src/Manager/Files/Alters.antt =====
-- nm/nm_state.c: writes to the fields of a file other than its name, through the pointer that
-- nm_find_file gives.
use co_write_file_system.Prelude.{
  ℕ, zero, suc, ◌<◌, ◌≡◌, refl, inl, inr, sym, ap, subst, ◌∙◌, true, false, List, [], ◌∷◌, Option,
  none, some, ◌==◌, if◌then◌else◌, arith, Bytes, Bool-cases, length, get_elem?, set, str_eq,
  str_eq_iff,
}
use co_write_file_system.Manager.Entry.{FileEntry}
use co_write_file_system.Manager.Files.{
  FileTable, alter, alter_at, find_file_index, nm_find_file, file_at,
}
use co_write_file_system.Manager.Files.Walks.{name_at, get_elem?-name_at}
use co_write_file_system.Manager.Files.Valid.{length-set, name_at-set, stands-agree}
use co_write_file_system.Manager.Files.Map.{
  IsValid, Locates, find_file_index-Locates, first_named, nm_find_file-first_named, first_named-at,
}

abbrev pub mapped : (FileEntry → FileEntry) → Option FileEntry → Option FileEntry
mapped g none = none
mapped g (some f) = some (g f)

first_named-set :
    (files : List FileEntry) (i : ℕ) (f f' : FileEntry) (q : Bytes)
    → get_elem? files i ≡ some f
    → f'.name ≡ f.name
    → str_eq f.name q ≡ false
    → first_named (set files i f') q ≡ first_named files q
unfolding first_named
first_named-set [] i f f' q e n h = refl
first_named-set (x ∷ files) zero f f' q e n h =
    let same : x ≡ f = ground (arith, e) in
    let other : str_eq f'.name q ≡ false = ap (λ s. str_eq s q) n ∙ h in
    let other' : str_eq x.name q ≡ false = ap (λ s. str_eq s.name q) same ∙ h in
    rw (other, other') refl
first_named-set (x ∷ files) (suc i) f f' q e n h =
    ap (λ r. if str_eq x.name q then some x else r) (first_named-set files i f f' q e n h)

module _ (t : FileTable) (i : ℕ) (f f' : FileEntry) (v : IsValid t) (inside : i < length t.files)
    (at : get_elem? t.files i ≡ some f) (named : f'.name ≡ f.name) where
  abbrev written : FileTable
  written = record t { files = set t.files i f' }

  same_name : name_at t.files i ≡ f.name
  same_name =
      let (g, there, e) = get_elem?-name_at t.files i inside in
      let same : g ≡ f = ground (arith, at, there) in sym e ∙ ap (λ x. x.name) same

  same_names : (k : ℕ) → name_at (set t.files i f') k ≡ name_at t.files k
  same_names k = name_at-set t.files i f' k inside ∙ elim (Bool-cases (i == k)) [
    | inl e ↦
        let same : i ≡ k = ground arith in rw e (named ∙ sym same_name ∙ ap (name_at t.files) same)
    | inr e ↦ rw e refl
  ]

  pub written-IsValid : IsValid written
  written-IsValid =
      let long = length-set t.files i f' in
      record {
        chains = v.chains;
        indexed = record {
          linked = v.indexed.linked;
          counted = λ b k.
              v.indexed.counted b k
              ∙ sym (
                  stands-agree t.files (set t.files i f') (λ x. true) (λ x. true) b k
                    (λ h. (omega (arith, long, h.0), refl, same_names k))
                    (λ h. (omega (arith, long, h.0), refl)));
        };
        distinct = λ j k a b e.
            v.distinct j k (omega (arith, long)) (omega (arith, long))
              (sym (same_names j) ∙ e ∙ same_names k);
      }

  get_elem?-written :
      (files : List FileEntry) (k : ℕ) → k < length files → get_elem? (set files k f') k ≡ some f'
  get_elem?-written [] k h = absurd (omega arith)
  get_elem?-written (x ∷ files) zero h = refl
  get_elem?-written (x ∷ files) (suc k) h = get_elem?-written files k (omega arith)

  pub written-finds :
      (q : Bytes) → nm_find_file written q ≡ (if str_eq f.name q then some f' else nm_find_file t q)
  written-finds q =
      nm_find_file-first_named written q written-IsValid ∙ elim (Bool-cases (str_eq f.name q)) [
        | inl e ↦ rw e (
            first_named-at (set t.files i f') q i written-IsValid.distinct
              (omega (arith, length-set t.files i f'))
              (same_names i ∙ same_name ∙ (str_eq_iff f.name q).0 e)
            ∙ get_elem?-written t.files i inside)
        | inr e ↦
            rw e
              (first_named-set t.files i f f' q at named e ∙ sym (nm_find_file-first_named t q v))
      ]

-- What a write to the file `name` leaves.
abbrev pub Alters : FileTable → FileTable → Bytes → (FileEntry → FileEntry) → Type 0
Alters t after name g =
    IsValid after
    × ((q : Bytes)
        → nm_find_file after q
          ≡ (if str_eq name q then mapped g (nm_find_file t q) else nm_find_file t q))

nm_find_file-at :
    (t : FileTable) (q : Bytes) (i : ℕ)
    → find_file_index t q ≡ some i
    → nm_find_file t q ≡ get_elem? t.files i
unfolding nm_find_file
nm_find_file-at t q i e = ap (file_at t.files) e

nm_find_file-none :
    (t : FileTable) (q : Bytes) → find_file_index t q ≡ none → nm_find_file t q ≡ none
unfolding nm_find_file
nm_find_file-none t q e = ap (file_at t.files) e

absent-Alters :
    (t : FileTable) (name : Bytes) (g : FileEntry → FileEntry)
    → IsValid t
    → nm_find_file t name ≡ none
    → Alters t t name g
absent-Alters t name g v h = (
  v,
  λ q. elim (Bool-cases (str_eq name q)) [
    | inl e ↦
        let here : nm_find_file t q ≡ none =
          ap (nm_find_file t) (sym ((str_eq_iff name q).0 e)) ∙ h in
        rw (e, here) refl
    | inr e ↦ rw e refl
  ],
)

alter_at-Alters :
    (t : FileTable) (name : Bytes) (g : FileEntry → FileEntry)
    → IsValid t
    → ((f : FileEntry) → nm_find_file t name ≡ some f → (g f).name ≡ f.name)
    → (r : Option ℕ) → find_file_index t name ≡ r
    → Alters t (alter_at t g r) name g
alter_at-Alters t name g v same none e = absent-Alters t name g v (nm_find_file-none t name e)
alter_at-Alters t name g v same (some i) e =
    let (inside, named) = subst (Locates t.files name) e (find_file_index-Locates t name v) in
    let (f, at, has) = get_elem?-name_at t.files i inside in
    let full : f.name ≡ name = has ∙ named in
    let found : nm_find_file t name ≡ some f = nm_find_file-at t name i e ∙ at in
    rw (at, alter_at)
      (
        written-IsValid t i f (g f) v inside at (same f found),
        λ q.
            written-finds t i f (g f) v inside at (same f found) q
            ∙ ap (λ s. if str_eq s q then some (g f) else nm_find_file t q) full
            ∙ elim (Bool-cases (str_eq name q)) [
              | inl h ↦
                  let here : nm_find_file t q ≡ some f =
                    ap (nm_find_file t) (sym ((str_eq_iff name q).0 h)) ∙ found in
                  rw (h, here) refl
              | inr h ↦ rw h refl
            ],
      )

-- A write that keeps the name changes the file of that name, and no other, and keeps the table
-- valid; without such a file nothing changes.
pub alter-Alters :
    (t : FileTable) (name : Bytes) (g : FileEntry → FileEntry)
    → IsValid t
    → ((f : FileEntry) → nm_find_file t name ≡ some f → (g f).name ≡ f.name)
    → Alters t (alter t name g) name g
unfolding alter
alter-Alters t name g v same = alter_at-Alters t name g v same _ refl
