-- ===== src/Manager/Files/Removal.antt =====
-- nm/nm_state.c: file_hash_remove keeps the invariant of the hash index.
use co_write_file_system.Prelude.{
  ℕ, suc, ◌-◌, ◌≤◌, ◌<◌, ◌≡◌, refl, inl, inr, sym, ap, subst, ◌∙◌, Bool, true, false, List, [], ◌∷◌,
  some, ◌==◌, if◌then◌else◌, arith, length, Bool-cases,
}
use co_write_file_system.Manager.Files.{
  FileTable, bucket_of, assign, unlink_after, unlink_first, file_hash_remove,
}
use co_write_file_system.Manager.Files.Chains.{
  count, erase, count-erase, IsChain, IsChain-agree, IsSimple, erase-head, erase_ne,
  unlink_after-Unlinks,
}
use co_write_file_system.Manager.Files.Walks.{name_at, get_elem?-name_at}
use co_write_file_system.Manager.Files.Index.{IsIndexed, stands, stands_unmark}
use co_write_file_system.Manager.Files.Relink.{
  same-or, assign_ne, assign_eq, IsSimple-chain, length-chain, chains_apart,
}

-- What a removal from the chain `l` of one bucket leaves.
pub record Cuts (t after : FileTable) (b i : ℕ) (l : List ℕ) : Type 0 where
  pub files : after.files ≡ t.files
  pub chained : IsChain after.next (after.buckets b) (erase i l)
  pub others : (c : ℕ) → (b == c) ≡ false → after.buckets c ≡ t.buckets c
  pub kept : (k : ℕ) → count k l ≡ 0 → after.next k ≡ t.next k

unlink_first_hit :
    (t : FileTable) (b i j : ℕ)
    → (j == i) ≡ true
    → unlink_first t b i (some j) ≡ record t { buckets = assign t.buckets b (t.next i) }
unlink_first_hit t b i j e = rw e refl

unlink_first_miss :
    (t : FileTable) (b i j : ℕ)
    → (j == i) ≡ false
    → unlink_first t b i (some j)
      ≡ record t { next = unlink_after (suc (length t.files)) t.next j i }
unlink_first_miss t b i j e = rw e refl

unlink_first-Cuts :
    (t : FileTable) (b i : ℕ) (l : List ℕ)
    → IsChain t.next (t.buckets b) l
    → IsSimple l
    → length l ≤ length t.files
    → 0 < count i l
    → Cuts t (unlink_first t b i (t.buckets b)) b i l
unfolding count
unlink_first-Cuts t b i [] c simple fits h = absurd (omega arith)
unlink_first-Cuts t b i (j ∷ l) (e, c) simple fits h = elim (Bool-cases (j == i)) [
  | inl q ↦
      let same : j ≡ i = ground arith in
      rw (e, unlink_first_hit t b i j q)
        (record {
          files = refl;
          chained = rw (assign_eq t.buckets b (t.next i), ← same, erase-head j l) c;
          others = λ d p. assign_ne t.buckets b d (t.next i) p;
          kept = λ k n. refl;
        })
  | inr q ↦
      let u = unlink_after-Unlinks (suc (length t.files)) t.next j i l (omega arith) simple c in
      rw (e, unlink_first_miss t b i j q)
        (record {
          files = refl;
          chained = rw (erase_ne i j l q) (e, u.chained);
          others = λ d p. refl;
          kept = u.kept;
        })
]

module _ (t : FileTable) (listed : ℕ → Bool) (chains : ℕ → List ℕ) (v : IsIndexed t listed chains)
    (i : ℕ) (inside : i < length t.files) (on : listed i ≡ true) where
  abbrev bucket : ℕ
  bucket = bucket_of (name_at t.files i)

  remove_step : file_hash_remove t i ≡ unlink_first t bucket i (t.buckets bucket)
  unfolding file_hash_remove
  remove_step =
      let (f, at, named) = get_elem?-name_at t.files i inside in
      rw (at, file_hash_remove, named) refl

  present : 0 < count i (chains bucket)
  present =
      let e : (bucket == bucket) ≡ true = ground arith in rw (v.counted bucket i) (ground arith)

  cuts : Cuts t (file_hash_remove t i) bucket i (chains bucket)
  cuts = rw remove_step (
      unlink_first-Cuts t bucket i (chains bucket) (v.linked bucket)
        (IsSimple-chain t listed chains v bucket) (length-chain t listed chains v bucket) present)

  abbrev left : ℕ → List ℕ
  left = assign chains bucket (erase i (chains bucket))

  pub file_hash_remove-files : (file_hash_remove t i).files ≡ t.files
  file_hash_remove-files = cuts.files

  left-linked :
      (c : ℕ) → IsChain (file_hash_remove t i).next ((file_hash_remove t i).buckets c) (left c)
  left-linked c = elim (same-or bucket c) [
    | inl e ↦
        subst (λ x. IsChain (file_hash_remove t i).next ((file_hash_remove t i).buckets x) (left x))
          e (rw (assign_eq chains bucket (erase i (chains bucket))) cuts.chained)
    | inr e ↦
        rw (cuts.others c e, assign_ne chains bucket c (erase i (chains bucket)) e)
          (IsChain-agree t.next (file_hash_remove t i).next (t.buckets c) (chains c)
            (λ k h. cuts.kept k (chains_apart t listed chains v bucket c k e h)) (v.linked c))
  ]

  left-counted : (c k : ℕ) → count k (left c) ≡ stands t.files (assign listed i false) c k
  left-counted c k = elim (same-or bucket c) [
    | inl e ↦
        subst (λ x. count k (left x) ≡ stands t.files (assign listed i false) x k) e
          (rw (assign_eq chains bucket (erase i (chains bucket))) (
            count-erase i k (chains bucket) present
            ∙ ap (λ n. n - (if i == k then 1 else 0)) (v.counted bucket k)
            ∙ sym (stands_unmark t.files listed bucket i k inside on ∙ here)))
    | inr e ↦
        rw (assign_ne chains bucket c (erase i (chains bucket)) e)
          (v.counted c k ∙ sym (stands_unmark t.files listed c i k inside on ∙ rw e (omega arith)))
  ]
    where
      here :
          stands t.files listed bucket k
            - (if bucket == bucket then (if i == k then 1 else 0) else 0)
          ≡ stands t.files listed bucket k - (if i == k then 1 else 0)
      here = let e : (bucket == bucket) ≡ true = ground arith in rw e refl

  pub file_hash_remove-IsIndexed : IsIndexed (file_hash_remove t i) (assign listed i false) left
  file_hash_remove-IsIndexed = record {
    linked = left-linked;
    counted = λ c k.
        left-counted c k
        ∙ ap (λ fs. stands fs (assign listed i false) c k) (sym file_hash_remove-files);
  }
