-- ===== src/Storage/Commit.antt =====
-- ss/ss_main.c, write_session_commit: the sentence of the session is found again in the current
-- file by its text and the sentences around it, and the edited text takes its place. Scores are
-- exact: documents have fewer than 2 ^ 31 / 10 sentences.
pub mod Match
pub mod Merge
pub mod Laws
pub mod Outcome
pub mod Saved
use co_write_file_system.Prelude.{
  ℕ, zero, suc, ◌+◌, ◌*◌, Bool, true, false, ◌||◌, ◌&&◌, not, List, [], ◌∷◌, ◌++◌, Option, none,
  some, ltb, ◌==◌, if◌then◌else◌, Bytes, length, get_elem?, ℤ, pos, negsuc, ◌+ℤ◌, ◌-ℤ◌, ltb_ℤ,
  pos_part, neg_part, str_eq,
}
use co_write_file_system.Storage.Disk.{Disk, load_or_empty, store_text_atomic}
use co_write_file_system.Storage.Text.{split_sentences, join_sentences, count_words_in_text}
use co_write_file_system.Storage.Session.{
  WriteSession, SessionError, Result, ok, err, again, failed, undefined,
}

-- The direction -1 or 1.
pub data Direction : Type 0 where
  backward forward : Direction

abbrev pub neighbour : Direction → ℤ → ℕ → ℤ
neighbour backward index step = index -ℤ pos step
neighbour forward index step = index +ℤ pos step

-- The element at an `int` index, if that is in range.
abbrev pub get_at : List Bytes → ℤ → Option Bytes
get_at xs (pos n) = get_elem? xs n
get_at xs (negsuc n) = none

-- `rounds` of the loop are left, of the four of CONTEXT_MATCH_LIMIT; the first mismatch ends it.
unfoldable pub matches_from : ℕ → Direction → List Bytes → List Bytes → ℤ → ℤ → ℕ → ℕ
matches_from zero dir latest original candidate target step = 0
matches_from (suc rounds) dir latest original candidate target step =
    elim (get_at original (neighbour dir target step)) [
      | none ↦ 0
      | some o ↦ elim (get_at latest (neighbour dir candidate step)) [
        | none ↦ 0
        | some l ↦ elim (str_eq o l) [
          | true ↦ suc (matches_from rounds dir latest original candidate target (suc step))
          | false ↦ 0
        ]
      ]
    ]

unfoldable pub count_context_matches : List Bytes → List Bytes → ℤ → ℤ → Direction → ℕ
count_context_matches latest original candidate target dir =
    matches_from 4 dir latest original candidate target 1

-- `abs(i - index)`.
abbrev pub distance : ℕ → ℤ → ℕ
distance i index = pos_part (pos i -ℤ index) + neg_part (pos i -ℤ index)

abbrev pub rating : ℕ → ℕ → ℕ → ℤ → ℤ
rating prefix_matches suffix_matches i index =
    let base = pos (prefix_matches * 1000 + suffix_matches * 500) -ℤ pos (distance i index * 10) in
    if ltb_ℤ (pos i) index then base -ℤ pos 50 else base

unfoldable pub score : List Bytes → WriteSession → ℕ → ℤ
score latest s i =
    rating (count_context_matches latest s.sentences (pos i) s.sentence_index backward)
      (count_context_matches latest s.sentences (pos i) s.sentence_index forward) i s.sentence_index

-- `none` stands for best_index = -1 and best_score = INT_MIN, which every score exceeds.
abbrev pub keep_best : ℕ → ℤ → Option (ℕ × ℤ) → Option (ℕ × ℤ)
keep_best i sc none = some (i, sc)
keep_best i sc (some (b, best)) = if ltb_ℤ best sc then some (i, sc) else some (b, best)

-- The loop over the candidates, with the score as an argument; `i` is the index of the first of
-- those left.
pub find_best : (ℕ → ℤ) → Bytes → List Bytes → ℕ → Option (ℕ × ℤ) → Option (ℕ × ℤ)
find_best rate baseline [] i best = best
find_best rate baseline (c ∷ rest) i best =
    find_best rate baseline rest (suc i)
      (if str_eq c baseline then keep_best i (rate i) best else best)

-- The merge loop: `at` is insert_index, and the two flags are those of the code.
unfoldable pub merge_from : Bool → ℕ → List Bytes → List Bytes → ℕ → Bool → Bool → List Bytes
merge_from replacing at new [] i inserted removed = if inserted then [] else new
merge_from replacing at new (s ∷ rest) i inserted removed =
    let here = not inserted && i == at in
    let skip = replacing && (not removed && i == at) in
    (if here then new else [])
    ++ ((if skip then [] else s ∷ [])
        ++ merge_from replacing at new rest (suc i) (inserted || here) (removed || skip))

-- `replacing_existing`: there is a baseline, and it is not empty.
abbrev pub replaces : Option Bytes → Bool
replaces none = false
replaces (some []) = false
replaces (some (c ∷ s)) = true

-- The index clamped into the document.
abbrev pub clamp_index : ℤ → ℕ → ℕ
clamp_index (negsuc n) len = 0
clamp_index (pos n) len = if ltb len n then len else n

abbrev pub place_found : List Bytes → Option (ℕ × ℤ) → Result ℕ
place_found latest none = err again
place_found latest (some (b, _)) = ok (if ltb (length latest) b then length latest else b)

-- The index at which the new sentences go, or the conflict (EAGAIN).
unfoldable pub place : WriteSession → List Bytes → Result ℕ
unfolding find_best
place s latest = elim s.baseline_sentence [
  | none ↦ ok (clamp_index s.sentence_index (length latest))
  | some [] ↦ ok (clamp_index s.sentence_index (length latest))
  | some (c ∷ r) ↦ place_found latest (find_best (score latest s) (c ∷ r) latest 0 none)
]

-- The sentences of the committed file.
unfoldable pub merge : WriteSession → List Bytes → ℕ → List Bytes
merge s latest at =
    merge_from (replaces s.baseline_sentence) at (split_sentences s.sentence_text) latest 0 false
      false

pub record Committed : Type 0 where
  pub session : WriteSession
  pub text : Bytes
  pub words : ℕ
  pub chars : ℕ

-- The current text goes to the undo file before the new one replaces it. Each store may fail, and
-- the disk keeps what was done up to then.
unfoldable pub write_back :
    Disk → WriteSession → Bytes → Bytes → Bytes → Bytes → Disk × Result Committed
write_back d s data_path undo_path current text =
    let saved = store_text_atomic d undo_path current in
    let stored = store_text_atomic saved.0 data_path text in
    if saved.1
    then if stored.1
      then (
        stored.0,
        ok (record {
          session = record s { active = false };
          text = text;
          words = count_words_in_text text;
          chars = length text;
        }),
      )
      else (stored.0, err failed)
    else (saved.0, err failed)

-- The `goto commit_fail` of the conflict jumps over the initialisation of merged_init, which is read
-- there. If it reads as 0, the call fails with EAGAIN; if not, an array with no value is cleared, and
-- what the process does then is not defined.
abbrev pub commit_fail : Bool → SessionError → SessionError
commit_fail true again = undefined
commit_fail merged_init e = e

-- `merged_init` is what that variable reads as before anything is written to it.
unfoldable pub write_session_commit :
    Bool → Disk → WriteSession → Bytes → Bytes → Disk × Result Committed
write_session_commit merged_init d s data_path undo_path =
    let current = load_or_empty d data_path in
    let latest = split_sentences current in
    elim (place s latest) [
      | err e ↦ (d, err (commit_fail merged_init e))
      | ok at ↦ write_back d s data_path undo_path current (join_sentences (merge s latest at))
    ]
