-- ===== src/Storage/State/Keys.antt =====
-- Inserting into and removing from sorted files keeps them sorted: ss/ss_state.c, insert_sorted and
-- the array calls of ss_state_remove.
use co_write_file_system.Prelude.{
  ℕ, zero, suc, ◌-◌, ◌≤◌, ◌<◌, ◌≡◌, inl, inr, refl, ap, ◌∙◌, List, [], ◌∷◌, arith, Bytes, length,
  ◌≺◌,
}
use co_write_file_system.Common.Array.{insert_at, remove_at}
use co_write_file_system.Common.Array.Laws.{length-insert_at}
use co_write_file_system.Storage.State.{SsFile}
use co_write_file_system.Storage.State.Search.{key, IsSorted, Splits, lt_or_eq_or}

key-insert_lt :
    (files : List SsFile) (at i : ℕ) (f : SsFile)
    → i < at
    → at ≤ length files
    → key (insert_at files at f) i ≡ key files i
key-insert_lt [] at i f h b = absurd (omega arith)
key-insert_lt (g ∷ files) zero i f h b = absurd (omega arith)
key-insert_lt (g ∷ files) (suc at) zero f h b = refl
key-insert_lt (g ∷ files) (suc at) (suc i) f h b =
    key-insert_lt files at i f (omega arith) (omega arith)

key-insert_eq :
    (files : List SsFile) (at : ℕ) (f : SsFile)
    → at ≤ length files
    → key (insert_at files at f) at ≡ f.name
key-insert_eq files zero f b = refl
key-insert_eq [] (suc at) f b = absurd (omega arith)
key-insert_eq (g ∷ files) (suc at) f b = key-insert_eq files at f (omega arith)

key-insert_gt :
    (files : List SsFile) (at i : ℕ) (f : SsFile)
    → at ≤ i
    → at ≤ length files
    → key (insert_at files at f) (suc i) ≡ key files i
key-insert_gt files zero i f h b = refl
key-insert_gt [] (suc at) i f h b = absurd (omega arith)
key-insert_gt (g ∷ files) (suc at) zero f h b = absurd (omega arith)
key-insert_gt (g ∷ files) (suc at) (suc i) f h b =
    key-insert_gt files at i f (omega arith) (omega arith)

key-insert_above :
    (files : List SsFile) (at i : ℕ) (f : SsFile)
    → at < i
    → at ≤ length files
    → key (insert_at files at f) i ≡ key files (i - 1)
key-insert_above files at zero f h b = absurd (omega arith)
key-insert_above files at (suc i) f h b =
    key-insert_gt files at i f (omega arith) b ∙ ap (key files) (omega arith)

key-remove_lt : (files : List SsFile) (at i : ℕ) → i < at → key (remove_at files at) i ≡ key files i
key-remove_lt [] zero i h = refl
key-remove_lt [] (suc at) i h = refl
key-remove_lt (g ∷ files) zero i h = absurd (omega arith)
key-remove_lt (g ∷ files) (suc at) zero h = refl
key-remove_lt (g ∷ files) (suc at) (suc i) h = key-remove_lt files at i (omega arith)

key-remove_ge :
    (files : List SsFile) (at i : ℕ)
    → at ≤ i
    → at < length files
    → key (remove_at files at) i ≡ key files (suc i)
key-remove_ge [] at i h b = absurd (omega arith)
key-remove_ge (g ∷ files) zero i h b = refl
key-remove_ge (g ∷ files) (suc at) zero h b = absurd (omega arith)
key-remove_ge (g ∷ files) (suc at) (suc i) h b =
    key-remove_ge files at i (omega arith) (omega arith)

pub length-remove_at :
    (files : List SsFile) (at : ℕ)
    → at < length files
    → suc (length (remove_at files at)) ≡ length files
length-remove_at [] at b = absurd (omega arith)
length-remove_at (g ∷ files) zero b = refl
length-remove_at (g ∷ files) (suc at) b = ap suc (length-remove_at files at (omega arith))

precedes : {a b c d : Bytes} → c ≡ a → d ≡ b → a ≺ b → c ≺ d
precedes e q h = rw (e, q) h

-- A file whose name splits the others at the index can be inserted there.
pub insert_at-IsSorted :
    (files : List SsFile) (at : ℕ) (f : SsFile)
    → IsSorted files
    → Splits files f.name at
    → IsSorted (insert_at files at f)
insert_at-IsSorted files at f sorted (inside, before, behind) i j p q =
    let len = length-insert_at files at f in
    elim (lt_or_eq_or j at) [
      | inl h ↦
          precedes (key-insert_lt files at i f (omega arith) inside)
            (key-insert_lt files at j f h inside) (sorted i j p (omega arith))
      | inr (inl h) ↦
          precedes (key-insert_lt files at i f (omega arith) inside)
            (ap (key (insert_at files at f)) h ∙ key-insert_eq files at f inside)
            (before i (omega arith))
      | inr (inr h) ↦
          let above = key-insert_above files at j f h inside in
          elim (lt_or_eq_or i at) [
            | inl g ↦
                precedes (key-insert_lt files at i f g inside) above
                  (sorted i (j - 1) (omega arith) (omega (arith, len)))
            | inr (inl g) ↦
                precedes (ap (key (insert_at files at f)) g ∙ key-insert_eq files at f inside) above
                  (behind (j - 1) (omega arith) (omega (arith, len)))
            | inr (inr g) ↦
                precedes (key-insert_above files at i f g inside) above
                  (sorted (i - 1) (j - 1) (omega arith) (omega (arith, len)))
          ]
    ]

pub remove_at-IsSorted :
    (files : List SsFile) (at : ℕ)
    → IsSorted files
    → at < length files
    → IsSorted (remove_at files at)
remove_at-IsSorted files at sorted b i j p q =
    let len = length-remove_at files at b in
    elim (lt_or_eq_or i at) [
      | inl h ↦ elim (lt_or_eq_or j at) [
        | inl g ↦
            precedes (key-remove_lt files at i h) (key-remove_lt files at j g)
              (sorted i j p (omega (arith, len)))
        | inr g ↦
            precedes (key-remove_lt files at i h) (key-remove_ge files at j (omega (arith, g)) b)
              (sorted i (suc j) (omega arith) (omega (arith, len)))
      ]
      | inr h ↦
          precedes (key-remove_ge files at i (omega (arith, h)) b)
            (key-remove_ge files at j (omega (arith, h)) b)
            (sorted (suc i) (suc j) (omega arith) (omega (arith, len)))
    ]
