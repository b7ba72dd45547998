-- ===== src/Storage/Commit/Laws.antt =====
-- ss/ss_main.c, write_session_commit: the place it finds, and when it reports a conflict.
use co_write_file_system.Prelude.{
  ℕ, zero, suc, ◌≤◌, ◌<◌, ◌≡◌, ◌≢◌, ◌⊎◌, inl, inr, refl, ap, sym, ◌∙◌, Bool, if◌then◌else◌, true,
  false, List, [], ◌∷◌, ◌++◌, Option, none, some, arith, Bytes, All, length, take, drop, get_elem?,
  ℤ, pos, Option-cases,
}
use co_write_file_system.Storage.Disk.{Disk, load_or_empty, store_text_atomic}
use co_write_file_system.Storage.Text.{split_sentences, join_sentences, count_words_in_text}
use co_write_file_system.Storage.Session.{
  WriteSession, SessionError, Result, ok, err, again, failed, undefined,
}
use co_write_file_system.Storage.Commit.{
  score, find_best, replaces, place, place_found, merge, Committed, write_back, commit_fail,
  write_session_commit,
}
use co_write_file_system.Storage.Commit.Merge.{merge_from_lem}
use co_write_file_system.Storage.Commit.Match.{
  IsHit, find_best-IsHit, find_best-none, find_best_miss, find_best_top, score-top,
}

-- The sentences of the file as it is at the time of the commit.
abbrev pub latest_of : Disk → Bytes → List Bytes
latest_of d data_path = split_sentences (load_or_empty d data_path)

place_search :
    (s : WriteSession) (latest : List Bytes) (c : ℕ) (r : Bytes)
    → s.baseline_sentence ≡ some (c ∷ r)
    → place s latest ≡ place_found latest (find_best (score latest s) (c ∷ r) latest 0 none)
unfolding place
place_search s latest c r e = ground arith

pub get_elem?-lt : (xs : List Bytes) (i : ℕ) {x : Bytes} → get_elem? xs i ≡ some x → i < length xs
get_elem?-lt [] i h = cc h
get_elem?-lt (y ∷ xs) zero h = omega arith
get_elem?-lt (y ∷ xs) (suc i) h = omega (arith, get_elem?-lt xs i h)

place_found_at :
    (latest : List Bytes) (b : ℕ) (sc : ℤ) {x : Bytes}
    → get_elem? latest b ≡ some x
    → place_found latest (some (b, sc)) ≡ ok b
place_found_at latest b sc h = ground (arith, get_elem?-lt latest b h)

hit_at :
    (latest : List Bytes) (baseline : Bytes) (b : ℕ)
    → IsHit baseline latest 0 b
    → get_elem? latest b ≡ some baseline
hit_at latest baseline b (k, e, h) = let same : b ≡ k = omega arith in rw same h

module _ (s : WriteSession) (latest : List Bytes) (c : ℕ) (r : Bytes)
    (e : s.baseline_sentence ≡ some (c ∷ r)) where
  abbrev search : Option (ℕ × ℤ)
  search = find_best (score latest s) (c ∷ r) latest 0 none

  place_miss : All (λ x. x ≢ c ∷ r) latest → place s latest ≡ err again
  place_miss h =
      place_search s latest c r e
      ∙ ap (place_found latest) (find_best_miss (score latest s) (c ∷ r) latest 0 h)

  -- A search that finds something gives an index of the baseline in the current file.
  place-some :
      (b : ℕ) (sc : ℤ)
      → search ≡ some (b, sc)
      → (place s latest ≡ ok b) × (get_elem? latest b ≡ some (c ∷ r))
  place-some b sc h = elim (find_best-IsHit (score latest s) (c ∷ r) latest 0 none b sc h) [
    | inl impossible ↦ cc impossible
    | inr hit ↦
        let there = hit_at latest (c ∷ r) b hit in
        (
          place_search s latest c r e
              ∙ ap (place_found latest) h
              ∙ place_found_at latest b sc there,
          there,
        )
  ]

  pub place_hit : (at : ℕ) → place s latest ≡ ok at → get_elem? latest at ≡ some (c ∷ r)
  place_hit at h = elim (Option-cases search) [
    | inl q ↦ cc (sym h ∙ place_search s latest c r e ∙ ap (place_found latest) q)
    | inr ((b, sc), q) ↦
        let (there, hit) = place-some b sc q in
        let same : at ≡ b = cc (sym h ∙ there) in rw same hit
  ]

  place_again : place s latest ≡ err again → All (λ x. x ≢ c ∷ r) latest
  place_again h = elim (Option-cases search) [
    | inl q ↦ (find_best-none (score latest s) (c ∷ r) latest 0 none q).1
    | inr ((b, sc), q) ↦ cc (sym h ∙ (place-some b sc q).0)
  ]

  place-fails : (f : SessionError) → place s latest ≡ err f → f ≡ again
  place-fails f h = elim (Option-cases search) [
    | inl q ↦ cc (sym h ∙ place_search s latest c r e ∙ ap (place_found latest) q)
    | inr ((b, sc), q) ↦ cc (sym h ∙ (place-some b sc q).0)
  ]

-- In the document that the session read, the place is that of the session's own sentence.
pub place_top :
    (s : WriteSession) (k c : ℕ) (r : Bytes)
    → s.sentence_index ≡ pos k
    → s.baseline_sentence ≡ some (c ∷ r)
    → get_elem? s.sentences k ≡ some (c ∷ r)
    → place s s.sentences ≡ ok k
place_top s k c r i e h =
    (place-some s s.sentences c r e k (score s.sentences s k) (
      find_best_top (score s.sentences s) (c ∷ r) s.sentences 0 k k none (omega arith) h
        (λ j n. score-top s k j i n) tt)).0

-- The document with the sentence at `k` replaced by `new`.
abbrev pub replaced : ℕ → List Bytes → List Bytes → List Bytes
replaced k new xs = take k xs ++ (new ++ drop (suc k) xs)

pub merge-replaced :
    (s : WriteSession) (latest : List Bytes) (c k : ℕ) (r : Bytes)
    → s.baseline_sentence ≡ some (c ∷ r)
    → k ≤ length latest
    → merge s latest k ≡ replaced k (split_sentences s.sentence_text) latest
unfolding merge
merge-replaced s latest c k r e h =
    rw (ap replaces e)
      (merge_from_lem true (split_sentences s.sentence_text) latest k 0 k (omega arith) h)

pub merge_inserted :
    (s : WriteSession) (latest : List Bytes) (k : ℕ)
    → s.baseline_sentence ≡ none
    → k ≤ length latest
    → merge s latest k ≡ take k latest ++ (split_sentences s.sentence_text ++ drop k latest)
unfolding merge
merge_inserted s latest k e h =
    rw (ap replaces e)
      (merge_from_lem false (split_sentences s.sentence_text) latest k 0 k (omega arith) h)

Result-cases :
    {A : Type 0} (r : Result A) → ((a : A) × (r ≡ ok a)) ⊎ ((e : SessionError) × (r ≡ err e))
Result-cases (ok a) = inl (a, refl)
Result-cases (err e) = inr (e, refl)

module _ (d : Disk) (s : WriteSession) (p u : Bytes) where
  -- What the commit writes, once it has a place.
  abbrev pub committed_text : ℕ → Bytes
  committed_text at = join_sentences (merge s (latest_of d p) at)

  commit_err :
      (merged_init : Bool) (e : SessionError)
      → place s (latest_of d p) ≡ err e
      → write_session_commit merged_init d s p u ≡ (d, err (commit_fail merged_init e))
  unfolding write_session_commit
  commit_err merged_init e h = rw (h, write_session_commit)

  pub commit_at :
      (merged_init : Bool) (at : ℕ)
      → place s (latest_of d p) ≡ ok at
      → write_session_commit merged_init d s p u
        ≡ write_back d s p u (load_or_empty d p) (committed_text at)
  unfolding write_session_commit
  commit_at merged_init at h = rw (h, write_session_commit)

  pub write_back_ok :
      (current text : Bytes) (d' : Disk) (c : Committed)
      → write_back d s p u current text ≡ (d', ok c)
      → (c.text ≡ text)
        × (c.words ≡ count_words_in_text text)
        × (c.chars ≡ length text)
        × ((store_text_atomic d u current).1 ≡ true)
        × ((store_text_atomic (store_text_atomic d u current).0 p text).1 ≡ true)
        × (d' ≡ (store_text_atomic (store_text_atomic d u current).0 p text).0)
  unfolding write_back
  write_back_ok current text d' c h = ground arith

  write_back-Fails :
      (current text : Bytes) (e : SessionError)
      → (write_back d s p u current text).1 ≡ err e
      → e ≡ failed
  unfolding write_back
  write_back-Fails current text e h = ground arith

  -- A commit that succeeds has found a place and written the merged text.
  pub commit_ok :
      (merged_init : Bool) (d' : Disk) (c : Committed)
      → write_session_commit merged_init d s p u ≡ (d', ok c)
      → (at : ℕ) × (place s (latest_of d p) ≡ ok at)
        × (write_back d s p u (load_or_empty d p) (committed_text at) ≡ (d', ok c))
  commit_ok merged_init d' c h = elim (Result-cases (place s (latest_of d p))) [
    | inl (at, e) ↦ (at, e, sym (commit_at merged_init at e) ∙ h)
    | inr (e, q) ↦ cc (ap (λ r. r.1) (sym (commit_err merged_init e q) ∙ h))
  ]

  -- For a session with a non-empty baseline: if no sentence of the current file is the baseline,
  -- the commit writes nothing to the disk; if the variable merged_init, to which nothing was
  -- written on this path, reads as 0, it fails with EAGAIN, and if not, what it does is not defined.
  -- It fails with EAGAIN, or is not defined, only then.
  pub commit_conflict :
      (merged_init : Bool) (c : ℕ) (r : Bytes)
      → s.baseline_sentence ≡ some (c ∷ r)
      → (All (λ x. x ≢ c ∷ r) (latest_of d p)
          → write_session_commit merged_init d s p u
            ≡ (d, err (if merged_init then undefined else again)))
        × (((write_session_commit merged_init d s p u).1 ≡ err again)
              ⊎ ((write_session_commit merged_init d s p u).1 ≡ err undefined)
            → All (λ x. x ≢ c ∷ r) (latest_of d p))
  commit_conflict merged_init c r e = (
    λ h. commit_err merged_init again (place_miss s (latest_of d p) c r e h) ∙ fails merged_init,
    λ h. elim (Result-cases (place s (latest_of d p))) [
      | inl (at, q) ↦
          let wrote = ap (λ t. t.1) (sym (commit_at merged_init at q)) in
          absurd (elim h [
            | inl h ↦ cc (write_back-Fails _ _ again (wrote ∙ h))
            | inr h ↦ cc (write_back-Fails _ _ undefined (wrote ∙ h))
          ])
      | inr (f, q) ↦
          place_again s (latest_of d p) c r e (q ∙ ap err (place-fails s (latest_of d p) c r e f q))
    ],
  )
    where
      conflict : SessionError → Disk × Result Committed
      conflict x = (d, err x)

      fails :
          (b : Bool) → conflict (commit_fail b again) ≡ conflict (if b then undefined else again)
      fails true = refl
      fails false = refl
