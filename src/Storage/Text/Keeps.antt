-- ===== src/Storage/Text/Keeps.antt =====
-- Splitting and joining make up no bytes but the space and the line end: ss/ss_main.c,
-- split_sentences and join_sentences.
use co_write_file_system.Prelude.{
  ℕ, inl, inr, List, [], ◌∷◌, ◌++◌, Bytes, All, All-append, Bool-cases, ◌==◌, ◌||◌,
}
use co_write_file_system.Storage.Text.{
  is_sentence_delim_char, to_space, flush, push_trimmed, scan_sentences, split_sentences, join_with,
  join_sentences,
}
use co_write_file_system.Storage.Text.Trim.{All-trim_spaces}

module _ (P : ℕ → Type 0) (space : P 32) (line_end : P 10) where
  All-flush : (s : Bytes) → All P s → All (All P) (flush s)
  All-flush [] h = tt
  All-flush (c ∷ s) h = (h, tt)

  All-push : (s : Bytes) → All P s → All (All P) (push_trimmed s)
  All-push s h = All-flush _ (All-trim_spaces P s h)

  All-to_space : (c : ℕ) → P c → P (to_space c)
  All-to_space c h = elim (Bool-cases (c == 10 || c == 13)) [
    | inl e ↦ rw (e, to_space) space
    | inr e ↦ rw (e, to_space) h
  ]

  All-scan : (s buffer : Bytes) → All P s → All P buffer → All (All P) (scan_sentences buffer s)
  unfolding scan_sentences
  All-scan [] buffer h hb = All-push buffer hb
  All-scan (c ∷ s) buffer (n, h) hb =
      let more : All P (buffer ++ to_space c ∷ []) =
        All-append P buffer _ hb (All-to_space c n, tt) in
      elim (Bool-cases (is_sentence_delim_char (to_space c))) [
        | inl e ↦
            rw (e, scan_sentences)
              (All-append (All P) (push_trimmed (buffer ++ to_space c ∷ [])) _ (All-push _ more)
                (All-scan s [] h tt))
        | inr e ↦ rw (e, scan_sentences) (All-scan s _ h more)
      ]

  pub All-split_sentences : (s : Bytes) → All P s → All (All P) (split_sentences s)
  unfolding split_sentences
  All-split_sentences s h = All-scan s [] h tt

  All-join : (ss : List Bytes) → All (All P) ss → All P (join_with 10 ss)
  unfolding join_with
  All-join [] h = tt
  All-join (s ∷ []) h = h.0
  All-join (s ∷ t ∷ ss) h = All-append P s _ h.0 (line_end, All-join (t ∷ ss) h.1)

  pub All-join_sentences : (ss : List Bytes) → All (All P) ss → All P (join_sentences ss)
  unfolding join_sentences
  All-join_sentences ss h = All-join ss h
