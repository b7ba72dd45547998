-- ===== src/Storage/Commit/Merge.antt =====
-- ss/ss_main.c, the merge loop of write_session_commit: the new sentences stand at the index, and
-- the others are those of the current file.
use co_write_file_system.Prelude.{
  ℕ, zero, suc, ◌+◌, ◌≤◌, ◌<◌, ◌≡◌, refl, Bool, true, false, List, [], ◌∷◌, ◌++◌, arith, Bytes,
  length, take, drop, if◌then◌else◌, append-nil,
}
use co_write_file_system.Storage.Commit.{merge_from}

merge_after :
    (replacing removed : Bool) (at : ℕ) (new rest : List Bytes) (i : ℕ)
    → at < i
    → merge_from replacing at new rest i true removed ≡ rest
unfolding merge_from
merge_after replacing removed at new [] i h = refl
merge_after replacing removed at new (s ∷ rest) i h =
    ground (arith, merge_after replacing removed at new rest (suc i))

-- What is left out behind the new sentences: the old one, if it is replaced.
abbrev pub behind : Bool → ℕ → List Bytes → List Bytes
behind replacing k latest = if replacing then drop (suc k) latest else drop k latest

pub merge_from_lem :
    (replacing : Bool) (new latest : List Bytes) (k i at : ℕ)
    → at ≡ i + k
    → k ≤ length latest
    → merge_from replacing at new latest i false false
      ≡ take k latest ++ (new ++ behind replacing k latest)
unfolding merge_from
merge_from_lem replacing new [] zero i at e h = ground (arith, append-nil new)
merge_from_lem replacing new [] (suc k) i at e h = absurd (omega arith)
merge_from_lem true new (s ∷ rest) zero i at e h =
    ground (arith, merge_after true true at new rest (suc i))
merge_from_lem false new (s ∷ rest) zero i at e h =
    ground (arith, merge_after false false at new rest (suc i))
merge_from_lem replacing new (s ∷ rest) (suc k) i at e h =
    ground (arith, merge_from_lem replacing new rest k (suc i) at)
