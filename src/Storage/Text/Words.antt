-- ===== src/Storage/Text/Words.antt =====
-- Splitting a sentence into words, and joining words: ss/ss_main.c, split_words, join_words and
-- count_words_in_text.
use co_write_file_system.Prelude.{
  ℕ, suc, ◌≡◌, ◌≢◌, refl, ap, sym, inl, inr, ◌∙◌, List, [], ◌∷◌, ◌++◌, true, false, arith, Bytes,
  All, length, Bool-cases, append-nil, append_assoc, All-append,
}
use co_write_file_system.Storage.Text.{
  is_blank, flush, scan_words, split_words, join_with, join_words, count_from, count_words_in_text,
}

-- No byte of it is a blank.
abbrev pub IsSolid : Bytes → Type 0
IsSolid = All (λ c. is_blank c ≡ false)

abbrev pub IsWord : Bytes → Type 0
IsWord w = (w ≢ []) × IsSolid w

IsSolid-append : (s : Bytes) (c : ℕ) → IsSolid s → is_blank c ≡ false → IsSolid (s ++ c ∷ [])
IsSolid-append s c h hc = All-append (λ d. is_blank d ≡ false) s (c ∷ []) h (hc, tt)

flush-All : (s : Bytes) → IsSolid s → All IsWord (flush s)
flush-All [] h = tt
flush-All (c ∷ s) h = ((λ e. cc e, h), tt)

scan_words_blank :
    (c : ℕ) (cur rest : Bytes)
    → is_blank c ≡ true
    → scan_words cur (c ∷ rest) ≡ flush cur ++ scan_words [] rest
unfolding scan_words
scan_words_blank c cur rest e = rw (e, scan_words)

scan_words_solid :
    (c : ℕ) (cur rest : Bytes)
    → is_blank c ≡ false
    → scan_words cur (c ∷ rest) ≡ scan_words (cur ++ c ∷ []) rest
unfolding scan_words
scan_words_solid c cur rest e = rw (e, scan_words)

scan_words-All : (s cur : Bytes) → IsSolid cur → All IsWord (scan_words cur s)
scan_words-All [] cur h = unfold scan_words in flush-All cur h
scan_words-All (c ∷ s) cur h = elim (Bool-cases (is_blank c)) [
  | inl e ↦
      rw (scan_words_blank c cur s e)
        (All-append IsWord (flush cur) _ (flush-All cur h) (scan_words-All s [] tt))
  | inr e ↦
      rw (scan_words_solid c cur s e) (scan_words-All s (cur ++ c ∷ []) (IsSolid-append cur c h e))
]

-- Every word of a split is non-empty and holds no blank.
pub split_words-IsWord : (s : Bytes) → All IsWord (split_words s)
unfolding split_words
split_words-IsWord s = scan_words-All s [] tt

scan_words-append :
    (w cur rest : Bytes) → IsSolid w → scan_words cur (w ++ rest) ≡ scan_words (cur ++ w) rest
scan_words-append [] cur rest h = rw append-nil
scan_words-append (c ∷ w) cur rest h =
    rw (scan_words_solid c cur _ h.0, scan_words-append w (cur ++ c ∷ []) rest h.1, append_assoc)

pub flush_word : (w : Bytes) → w ≢ [] → flush w ≡ w ∷ []
flush_word [] h = absurd (h refl)
flush_word (c ∷ w) h = refl

scan_words_last : (w : Bytes) → IsWord w → scan_words [] w ≡ w ∷ []
scan_words_last w (ne, solid) =
    ap (scan_words []) (sym (append-nil w))
    ∙ scan_words-append w [] [] solid
    ∙ (unfold scan_words in flush_word w ne)

scan_words-join : (ws : List Bytes) → All IsWord ws → scan_words [] (join_with 32 ws) ≡ ws
unfolding join_with
scan_words-join [] h = unfold scan_words in refl
scan_words-join (w ∷ []) (h, _) = scan_words_last w h
scan_words-join (w ∷ v ∷ ws) ((ne, solid), h) = rw (
  scan_words-append w [] _ solid,
  scan_words_blank 32 w _ refl,
  flush_word w ne,
  scan_words-join (v ∷ ws) h,
)

-- Joining words by single spaces and splitting again gives the words back, if each of them is
-- non-empty and holds no blank.
pub split_words-join_words : (ws : List Bytes) → All IsWord ws → split_words (join_words ws) ≡ ws
unfolding split_words join_words
split_words-join_words ws h = scan_words-join ws h

-- What is counted in the rest of the text, with the word that `cur` has begun.
abbrev count_with : Bytes → Bytes → ℕ
count_with [] s = count_from false s
count_with (c ∷ cur) s = suc (count_from true s)

length-scan_words : (s cur : Bytes) → length (scan_words cur s) ≡ count_with cur s
unfolding scan_words count_from
length-scan_words [] [] = refl
length-scan_words [] (d ∷ cur) = refl
length-scan_words (c ∷ s) [] = ground (arith, length-scan_words s [], length-scan_words s (c ∷ []))
length-scan_words (c ∷ s) (d ∷ cur) =
    ground (arith, length-scan_words s [], length-scan_words s ((d ∷ cur) ++ c ∷ []))

-- The word count that the server reports is the number of words that a split finds.
pub count_words-split_words : (s : Bytes) → count_words_in_text s ≡ length (split_words s)
unfolding count_words_in_text split_words
count_words-split_words s = sym (length-scan_words s [])
