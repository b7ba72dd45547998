-- ===== src/Storage/Commit/Outcome.antt =====
-- ss/ss_main.c, write_session_commit: what a commit that succeeds leaves in the document.
use co_write_file_system.Prelude.{
  ℕ, zero, suc, ◌≤◌, ◌≡◌, ◌≢◌, inl, inr, refl, ap, sym, subst, ◌∙◌, List, [], ◌∷◌, ◌++◌, Option,
  none, some, Bool, false, arith, Bytes, All, length, take, drop, get_elem?, pos,
}
use co_write_file_system.Storage.Disk.{Disk, written, store_text_atomic}
use co_write_file_system.Storage.Disk.Laws.{store_written, store-outcome}
use co_write_file_system.Storage.Text.{split_sentences, join_sentences, count_words_in_text}
use co_write_file_system.Storage.Text.Sentences.{IsClosed, IsDocument, split_sentences-IsDocument}
use co_write_file_system.Storage.Session.{WriteSession, ok, write_session_begin}
use co_write_file_system.Storage.Commit.{place, merge, Committed, write_back, write_session_commit}
use co_write_file_system.Storage.Commit.Laws.{
  latest_of, replaced, place_hit, place_top, get_elem?-lt, merge-replaced, merge_inserted,
  write_back_ok, commit_ok, commit_at,
}

abbrev pub edited : WriteSession → List Bytes
edited s = split_sentences s.sentence_text

-- The committed document is the current one with the sentences of the session in the place of one
-- sentence that has the text of the baseline; all the others stay as they are, in their order.
pub commit_replaces :
    (merged_init : Bool) (d : Disk) (s : WriteSession) (p u : Bytes) (b : ℕ) (r : Bytes) (d' : Disk)
    (c : Committed)
    → s.baseline_sentence ≡ some (b ∷ r)
    → write_session_commit merged_init d s p u ≡ (d', ok c)
    → (k : ℕ) × (get_elem? (latest_of d p) k ≡ some (b ∷ r))
      × (c.text ≡ join_sentences (replaced k (edited s) (latest_of d p)))
commit_replaces merged_init d s p u b r d' c e h =
    let (at, found, wrote) = commit_ok d s p u merged_init d' c h in
    let hit = place_hit s (latest_of d p) b r e at found in
    (
      at,
      hit,
      (write_back_ok d s p u _ _ d' c wrote).0
          ∙ ap join_sentences (
              merge-replaced s (latest_of d p) b at r e
                (omega (arith, get_elem?-lt (latest_of d p) at hit))),
    )

get_elem?-ne : (xs : List Bytes) (x : Bytes) (k : ℕ) → All (λ y. y ≢ x) xs → get_elem? xs k ≢ some x
get_elem?-ne [] x k h e = cc e
get_elem?-ne (y ∷ xs) x zero h e = let same : y ≡ x = cc e in h.0 same
get_elem?-ne (y ∷ xs) x (suc k) h e = get_elem?-ne xs x k h.1 e

get_elem?-middle :
    (pre post : List Bytes) (x : Bytes) (k : ℕ)
    → All (λ y. y ≢ x) pre
    → All (λ y. y ≢ x) post
    → get_elem? (pre ++ x ∷ post) k ≡ some x
    → k ≡ length pre
get_elem?-middle [] post x zero hp hq h = refl
get_elem?-middle [] post x (suc k) hp hq h = absurd (get_elem?-ne post x k hq h)
get_elem?-middle (y ∷ pre) post x zero hp hq h = let same : y ≡ x = cc h in absurd (hp.0 same)
get_elem?-middle (y ∷ pre) post x (suc k) hp hq h = ap suc (get_elem?-middle pre post x k hp.1 hq h)

replaced_middle :
    (pre post new : List Bytes) (x : Bytes)
    → replaced (length pre) new (pre ++ x ∷ post) ≡ pre ++ (new ++ post)
replaced_middle [] post new x = refl
replaced_middle (y ∷ pre) post new x = ap (◌∷◌ y) (replaced_middle pre post new x)

-- For a session with a non-empty baseline, and a commit that succeeds: where the text of the
-- baseline stands once in the current document, the commit replaces that sentence, wherever other
-- writers have moved it, and keeps what they wrote around it.
pub commit_keeps_others :
    (merged_init : Bool) (d : Disk) (s : WriteSession) (p u : Bytes) (b : ℕ) (r : Bytes)
    (pre post : List Bytes) (d' : Disk) (c : Committed)
    → s.baseline_sentence ≡ some (b ∷ r)
    → latest_of d p ≡ pre ++ (b ∷ r) ∷ post
    → All (λ y. y ≢ b ∷ r) pre
    → All (λ y. y ≢ b ∷ r) post
    → write_session_commit merged_init d s p u ≡ (d', ok c)
    → c.text ≡ join_sentences (pre ++ (edited s ++ post))
commit_keeps_others merged_init d s p u b r pre post d' c e now hp hq h =
    let (k, hit, text) = commit_replaces merged_init d s p u b r d' c e h in
    let here : k ≡ length pre = get_elem?-middle pre post (b ∷ r) k hp hq (rw now at hit) in
    text ∙ ap join_sentences (rw (now, here) (replaced_middle pre post (edited s) (b ∷ r)))

-- A session and an edited text for it.
abbrev pub edit : WriteSession → Bytes → WriteSession
edit s text = record s { sentence_text = text }

begin_ok :
    (d : Disk) (p user : Bytes) (k : ℕ) (s : WriteSession)
    → write_session_begin d p user (pos k) ≡ ok s
    → (s.sentence_index ≡ pos k)
      × (s.sentences ≡ latest_of d p)
      × (s.baseline_sentence ≡ get_elem? (latest_of d p) k)
      × (k ≤ length (latest_of d p))
unfolding write_session_begin
begin_ok d p user k s h = ground arith

closed-ne-nil : (s : Bytes) → IsClosed s → s ≢ []
closed-ne-nil s ([], d, e, _, _, _) n = cc (sym n ∙ e)
closed-ne-nil s (c ∷ body, d, e, _, _, _) n = cc (sym n ∙ e)

document-ne-nil :
    (xs : List Bytes) (k : ℕ) {x : Bytes} → IsDocument xs → get_elem? xs k ≡ some x → x ≢ []
document-ne-nil [] k doc h = cc h
document-ne-nil (y ∷ []) zero {x} (inl closed) h =
    let same : y ≡ x = cc h in rw (← same) (closed-ne-nil y closed)
document-ne-nil (y ∷ []) zero {x} (inr open_end) h =
    let same : y ≡ x = cc h in rw (← same) open_end.0
document-ne-nil (y ∷ []) (suc k) doc h = cc h
document-ne-nil (y ∷ z ∷ xs) zero {x} doc h =
    let same : y ≡ x = cc h in rw (← same) (closed-ne-nil y doc.0)
document-ne-nil (y ∷ z ∷ xs) (suc k) doc h = document-ne-nil (z ∷ xs) k doc.1 h

drop_past : (xs : List Bytes) (k : ℕ) → get_elem? xs k ≡ none → drop k xs ≡ drop (suc k) xs
drop_past [] zero h = refl
drop_past [] (suc k) h = refl
drop_past (x ∷ xs) zero h = cc h
drop_past (x ∷ xs) (suc k) h = drop_past xs k h

place-none :
    (s : WriteSession) (xs : List Bytes) (k : ℕ)
    → s.sentence_index ≡ pos k
    → s.baseline_sentence ≡ none
    → k ≤ length xs
    → place s xs ≡ ok k
unfolding place
place-none s xs k i e h = rw (e, place) (rw i (ground arith))

module _ (merged_init : Bool) (d : Disk) (p u user text : Bytes) (k : ℕ) (s : WriteSession)
    (begun : write_session_begin d p user (pos k) ≡ ok s) where
  -- The place of the session in the document that it read.
  in_place :
      (x : Option Bytes)
      → get_elem? (latest_of d p) k ≡ x
      → (place (edit s text) (latest_of d p) ≡ ok k)
        × (merge (edit s text) (latest_of d p) k
            ≡ replaced k (split_sentences text) (latest_of d p))
  in_place none e =
      let (i, same, base, fits) = begin_ok d p user k s begun in
      (
        place-none (edit s text) (latest_of d p) k i (base ∙ e) fits,
        merge_inserted (edit s text) (latest_of d p) k (base ∙ e) fits
            ∙ ap (λ rest. take k (latest_of d p) ++ (split_sentences text ++ rest))
                (drop_past (latest_of d p) k e),
      )
  in_place (some []) e =
      absurd (document-ne-nil (latest_of d p) k (split_sentences-IsDocument _) e refl)
  in_place (some (b ∷ r)) e =
      let (i, same, base, fits) = begin_ok d p user k s begun in
      (
        subst (λ xs. place (edit s text) xs ≡ ok k) same
            (place_top (edit s text) k b r i (base ∙ e) (ap (λ xs. get_elem? xs k) same ∙ e)),
        merge-replaced (edit s text) (latest_of d p) b k r (base ∙ e) fits,
      )

  commit_text :
      (d' : Disk) (c : Committed)
      → write_session_commit merged_init d (edit s text) p u ≡ (d', ok c)
      → c.text ≡ join_sentences (replaced k (split_sentences text) (latest_of d p))
  commit_text d' c h =
      let (found, merged) = in_place (get_elem? (latest_of d p) k) refl in
      (write_back_ok d (edit s text) p u _ _ d' c
        (sym (commit_at d (edit s text) p u merged_init k found) ∙ h)).0
      ∙ ap join_sentences merged

  -- Both stores succeed, so the commit does.
  write_back-written :
      (current merged : Bytes)
      → d.outcome u ≡ written
      → d.outcome p ≡ written
      → (d' : Disk) × (c : Committed) × (write_back d (edit s text) p u current merged ≡ (d', ok c))
  unfolding write_back
  write_back-written current merged works_undo works_data =
      let saved = store_written d u current works_undo in
      let stored =
        store_written (store_text_atomic d u current).0 p merged
          (store-outcome d u current p ∙ works_data) in
      (
        (store_text_atomic (store_text_atomic d u current).0 p merged).0,
        record {
          session = record (edit s text) { active = false };
          text = merged;
          words = count_words_in_text merged;
          chars = length merged;
        },
        rw (saved, stored, write_back) refl,
      )

  -- For a session that was just begun on sentence `k` of the file, with any edited text, and data
  -- and undo files that can be written: a commit to the same file succeeds, and replaces exactly
  -- that sentence, also where other sentences have the same text. (At the number of sentences there
  -- is none yet, and the new ones are added at the end.)
  pub commit_in_place :
      d.outcome u ≡ written
      → d.outcome p ≡ written
      → (d' : Disk) × (c : Committed) × (write_session_commit merged_init d (edit s text) p u
          ≡ (d', ok c))
        × (c.text ≡ join_sentences (replaced k (split_sentences text) (latest_of d p)))
  commit_in_place works_undo works_data =
      let (found, _) = in_place (get_elem? (latest_of d p) k) refl in
      let (d', c, wrote) = write_back-written _ _ works_undo works_data in
      let done = commit_at d (edit s text) p u merged_init k found ∙ wrote in
      (d', c, done, commit_text d' c done)
