-- ===== src/Manager/Files/Relink.antt =====
-- nm/nm_state.c: file_hash_insert and file_hash_remove keep the invariant of the hash index.
use co_write_file_system.Prelude.{
  ℕ, ◌+◌, ◌≤◌, ◌<◌, ◌≡◌, ◌⊎◌, refl, inl, inr, sym, ap, subst, ◌∙◌, Bool, true, false, List, ◌∷◌,
  some, ◌==◌, if◌then◌else◌, arith, length,
}
use co_write_file_system.Manager.Files.{FileTable, bucket_of, assign, file_hash_insert}
use co_write_file_system.Manager.Files.Chains.{
  count, IsChain, IsChain-assign, IsSimple, length-le, assign_self,
}
use co_write_file_system.Manager.Files.Walks.{name_at, get_elem?-name_at}
use co_write_file_system.Manager.Files.Index.{
  IsIndexed, stands, stands_le, stands_lt, stands_unlisted, stands_mark,
}

-- Two buckets are the same or not.
pub same-or : (b c : ℕ) → (b ≡ c) ⊎ ((b == c) ≡ false)
same-or b c = ground arith

pub assign_ne {ℓ} :
    {A : Type ℓ} (f : ℕ → A) (b c : ℕ) (v : A) → (b == c) ≡ false → assign f b v c ≡ f c
assign_ne f b c v e = rw e refl

pub assign_eq {ℓ} : {A : Type ℓ} (f : ℕ → A) (b : ℕ) (v : A) → assign f b v b ≡ v
assign_eq f b v = let e : (b == b) ≡ true = ground arith in rw e refl

module _ (t : FileTable) (listed : ℕ → Bool) (chains : ℕ → List ℕ)
    (v : IsIndexed t listed chains) where
  pub IsSimple-chain : (b : ℕ) → IsSimple (chains b)
  IsSimple-chain b k = omega (arith, v.counted b k, stands_le t.files listed b k)

  pub chain_inside : (b k : ℕ) → 0 < count k (chains b) → k < length t.files
  chain_inside b k h = (stands_lt t.files listed b k (omega (arith, v.counted b k))).0

  pub length-chain : (b : ℕ) → length (chains b) ≤ length t.files
  length-chain b = length-le (length t.files) (chains b) (IsSimple-chain b) (chain_inside b)

  -- The chains of two buckets have no index in common.
  pub chains_apart :
      (b c k : ℕ) → (b == c) ≡ false → 0 < count k (chains c) → count k (chains b) ≡ 0
  chains_apart b c k e h =
      let (_, _, home) = stands_lt t.files listed c k (omega (arith, v.counted c k)) in
      v.counted b k ∙ ground arith

module _ (t : FileTable) (listed : ℕ → Bool) (chains : ℕ → List ℕ) (v : IsIndexed t listed chains)
    (i : ℕ) (inside : i < length t.files) where
  abbrev bucket : ℕ
  bucket = bucket_of (name_at t.files i)

  abbrev inserted : FileTable
  inserted = record t {
    next = assign t.next i (t.buckets bucket);
    buckets = assign t.buckets bucket (some i);
  }

  insert_step : file_hash_insert t i ≡ inserted
  unfolding file_hash_insert
  insert_step =
      let (f, at, named) = get_elem?-name_at t.files i inside in
      rw (at, file_hash_insert, named) refl

  inserted-linked :
      listed i ≡ false
      → (c : ℕ)
      → IsChain inserted.next (inserted.buckets c) (assign chains bucket (i ∷ chains bucket) c)
  inserted-linked free c =
      let none_of = λ (b : ℕ). v.counted b i ∙ stands_unlisted t.files listed b i free in
      elim (same-or bucket c) [
        | inl e ↦
            subst
              (λ x.
                IsChain inserted.next (inserted.buckets x)
                  (assign chains bucket (i ∷ chains bucket) x))
              e
              (rw (assign_eq chains bucket (i ∷ chains bucket)) (
                assign_eq t.buckets bucket (some i),
                rw (assign_self t.next i (t.buckets bucket)) (
                    IsChain-assign t.next (t.buckets bucket) (chains bucket) i (t.buckets bucket)
                      (none_of bucket) (v.linked bucket)),
              ))
        | inr e ↦
            rw
              (
                assign_ne t.buckets bucket c (some i) e,
                assign_ne chains bucket c (i ∷ chains bucket) e,
              )
              (IsChain-assign t.next (t.buckets c) (chains c) i (t.buckets bucket) (none_of c)
                (v.linked c))
      ]

  marked :
      (c k : ℕ)
      → listed i ≡ false
      → count k (assign chains bucket (i ∷ chains bucket) c)
        ≡ stands t.files (assign listed i true) c k
  unfolding count
  marked c k free = elim (same-or bucket c) [
    | inl e ↦
        subst
          (λ x.
            count k (assign chains bucket (i ∷ chains bucket) x)
            ≡ stands t.files (assign listed i true) x k)
          e
          (rw (assign_eq chains bucket (i ∷ chains bucket)) (
            sym (
              stands_mark t.files listed bucket i k inside free
              ∙ here
              ∙ ap (λ n. (if i == k then 1 else 0) + n) (sym (v.counted bucket k)))))
    | inr e ↦
        rw (assign_ne chains bucket c (i ∷ chains bucket) e)
          (v.counted c k ∙ sym (stands_mark t.files listed c i k inside free ∙ rw e (omega arith)))
  ]
    where
      here :
          (if bucket == bucket then (if i == k then 1 else 0) else 0)
            + stands t.files listed bucket k
          ≡ (if i == k then 1 else 0) + stands t.files listed bucket k
      here = let e : (bucket == bucket) ≡ true = ground arith in rw e refl

  pub file_hash_insert-IsIndexed :
      listed i ≡ false
      → IsIndexed
          (file_hash_insert t i)
          (assign listed i true)
          (assign chains bucket (i ∷ chains bucket))
  file_hash_insert-IsIndexed free =
      rw insert_step (record { linked = inserted-linked free; counted = λ c k. marked c k free })
