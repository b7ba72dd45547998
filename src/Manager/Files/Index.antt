-- ===== src/Manager/Files/Index.antt =====
-- nm/nm_state.c: the invariant of the hash index, and that the calls on it keep it.
use co_write_file_system.Prelude.{
  ℕ, ◌+◌, ◌-◌, ◌≤◌, ◌<◌, ◌≡◌, inl, inr, Bool, true, false, ◌&&◌, List, ltb, ◌==◌, if◌then◌else◌,
  arith, length, Bool-cases,
}
use co_write_file_system.Manager.Entry.{FileEntry}
use co_write_file_system.Manager.Files.{FileTable, bucket_of, assign}
use co_write_file_system.Manager.Files.Chains.{count, IsChain}
use co_write_file_system.Manager.Files.Walks.{name_at}

-- Whether the index stands in the chain of the bucket: as a number, 0 or 1.
abbrev pub stands : List FileEntry → (ℕ → Bool) → ℕ → ℕ → ℕ
stands files listed b i =
    if ltb i (length files) && (listed i && (bucket_of (name_at files i) == b)) then 1 else 0

-- The bucket `b` has the chain `chains b`; each index that is listed stands once, in the chain of
-- its name's bucket, and the others nowhere.
pub record IsIndexed (t : FileTable) (listed : ℕ → Bool) (chains : ℕ → List ℕ) : Type 0 where
  pub linked : (b : ℕ) → IsChain t.next (t.buckets b) (chains b)
  pub counted : (b i : ℕ) → count i (chains b) ≡ stands t.files listed b i

pub stands_le : (files : List FileEntry) (listed : ℕ → Bool) (b i : ℕ) → stands files listed b i ≤ 1
stands_le files listed b i = ground arith

pub stands_lt :
    (files : List FileEntry) (listed : ℕ → Bool) (b i : ℕ)
    → 0 < stands files listed b i
    → (i < length files) × (listed i ≡ true) × (bucket_of (name_at files i) ≡ b)
stands_lt files listed b i h = ground arith

pub stands_unlisted :
    (files : List FileEntry) (listed : ℕ → Bool) (b i : ℕ)
    → listed i ≡ false
    → stands files listed b i ≡ 0
stands_unlisted files listed b i h = rw h (ground arith)

pub stands_mark :
    (files : List FileEntry) (listed : ℕ → Bool) (b i k : ℕ)
    → i < length files
    → listed i ≡ false
    → stands files (assign listed i true) b k
      ≡ (if bucket_of (name_at files i) == b then (if i == k then 1 else 0) else 0)
        + stands files listed b k
stands_mark files listed b i k inside h = elim (Bool-cases (i == k)) [
  | inl e ↦ let same : i ≡ k = ground arith in rw (← same) (ground arith)
  | inr e ↦ rw e (ground arith)
]

pub stands_unmark :
    (files : List FileEntry) (listed : ℕ → Bool) (b i k : ℕ)
    → i < length files
    → listed i ≡ true
    → stands files (assign listed i false) b k
      ≡ stands files listed b k
        - (if bucket_of (name_at files i) == b then (if i == k then 1 else 0) else 0)
stands_unmark files listed b i k inside h = elim (Bool-cases (i == k)) [
  | inl e ↦ let same : i ≡ k = ground arith in rw (← same) (ground arith)
  | inr e ↦ rw e (ground arith)
]
