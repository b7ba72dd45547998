-- ===== src/Storage/Commit/Saved.antt =====
-- ss/ss_main.c, write_session_commit: what it leaves on the disk.
use co_write_file_system.Prelude.{
  ℕ, ◌≡◌, ◌≢◌, sym, ◌∙◌, true, false, List, [], ◌∷◌, some, arith, Bool, suc, not, ◌&&◌, ◌||◌, ◌==◌,
  if◌then◌else◌, Bytes, All, All-append, length,
}
use co_write_file_system.Storage.Disk.{Disk, load_text, load_or_empty, store_text_atomic, tmp_path}
use co_write_file_system.Storage.Disk.Laws.{
  IsText, load_or_empty-IsText, load_text-store, load_text-store_ne,
}
use co_write_file_system.Storage.Text.{join_sentences, count_words_in_text}
use co_write_file_system.Storage.Text.Keeps.{All-split_sentences, All-join_sentences}
use co_write_file_system.Storage.Session.{WriteSession, ok}
use co_write_file_system.Storage.Commit.{merge_from, merge, Committed, write_session_commit}
use co_write_file_system.Storage.Commit.Laws.{latest_of, commit_ok, write_back_ok}

module _ (P : Bytes → Type 0) where
  All-if : (b : Bool) (xs ys : List Bytes) → All P xs → All P ys → All P (if b then xs else ys)
  All-if true xs ys hx hy = hx
  All-if false xs ys hx hy = hy

  merge_from-All :
      (replacing inserted removed : Bool) (at i : ℕ) (new rest : List Bytes)
      → All P new
      → All P rest
      → All P (merge_from replacing at new rest i inserted removed)
  unfolding merge_from
  merge_from-All replacing inserted removed at i new [] hn h = All-if inserted [] new tt hn
  merge_from-All replacing inserted removed at i new (s ∷ rest) hn (hs, h) =
      let here = not inserted && i == at in
      let skip = replacing && (not removed && i == at) in
      All-append P (if here then new else []) _ (All-if here new [] hn tt) (
        All-append P (if skip then [] else s ∷ []) _ (All-if skip [] (s ∷ []) tt (hs, tt))
          (merge_from-All replacing (inserted || here) (removed || skip) at (suc i) new rest hn h))

merge-IsText :
    (s : WriteSession) (latest : List Bytes) (at : ℕ)
    → IsText s.sentence_text
    → All IsText latest
    → IsText (join_sentences (merge s latest at))
unfolding merge
merge-IsText s latest at hs h =
    All-join_sentences (λ c. c ≢ 0) (λ e. omega arith) (λ e. omega arith) _
      (merge_from-All IsText _ false false at 0 _ latest
        (All-split_sentences (λ c. c ≢ 0) (λ e. omega arith) (λ e. omega arith) s.sentence_text hs)
        h)

-- After a commit that succeeds, with the data file and the undo file at different paths, the undo
-- file not at the temporary path of the data file, and the text of the session a C string: the data
-- file holds the committed text, the undo file the text before it, and the counts are those of the
-- committed text.
pub commit_saves :
    (merged_init : Bool) (d : Disk) (s : WriteSession) (p u : Bytes) (d' : Disk) (c : Committed)
    → p ≢ u
    → u ≢ tmp_path p
    → IsText s.sentence_text
    → write_session_commit merged_init d s p u ≡ (d', ok c)
    → (load_text d' p ≡ some c.text)
      × (load_text d' u ≡ some (load_or_empty d p))
      × (c.words ≡ count_words_in_text c.text)
      × (c.chars ≡ length c.text)
commit_saves merged_init d s p u d' c apart away is_text h =
    let (at, found, wrote) = commit_ok d s p u merged_init d' c h in
    let current = load_or_empty d p in
    let (text, words, chars, saved, stored, disk) = write_back_ok d s p u current _ d' c wrote in
    let plain = load_or_empty-IsText d p in
    let merged =
      merge-IsText s (latest_of d p) at is_text
        (All-split_sentences (λ b. b ≢ 0) (λ e. omega arith) (λ e. omega arith) current plain) in
    let d1 = (store_text_atomic d u current).0 in
    (
      rw (disk, text) (load_text-store d1 p _ merged stored),
      rw disk (
          load_text-store_ne d1 p u _ (λ e. apart (sym e)) away
          ∙ load_text-store d u current plain saved),
      rw text words,
      rw text chars,
    )
