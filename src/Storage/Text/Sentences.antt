-- ===== src/Storage/Text/Sentences.antt =====
-- Splitting a document into sentences and joining them: ss/ss_main.c, split_sentences and
-- join_sentences.
use co_write_file_system.Prelude.{
  ℕ, ◌≡◌, ◌≢◌, refl, ap, sym, subst, inl, inr, ◌∙◌, ◌⊎◌, List, [], ◌∷◌, ◌++◌, true, false, arith,
  Bytes, All, Bool-cases, append-nil, append_assoc, All-append,
}
use co_write_file_system.Storage.Text.{
  is_blank, is_sentence_delim_char, flush, trim_start, trim_spaces, to_space, push_trimmed,
  scan_sentences, split_sentences, join_with, join_sentences,
}
use co_write_file_system.Storage.Text.Words.{flush_word}
use co_write_file_system.Storage.Text.Trim.{
  IsTrimmed, trim_spaces-append, trim_spaces-IsTrimmed, trim_spaces_blank, All-trim_start,
  All-trim_spaces,
}

-- Bytes that stand inside a sentence: no terminator, and no line end.
abbrev pub IsInner : ℕ → Type 0
IsInner c = (is_sentence_delim_char c ≡ false) × (to_space c ≡ c)

-- A sentence with its terminator, and one that the end of the text cuts off.
abbrev pub IsClosed : Bytes → Type 0
IsClosed s =
    (body : Bytes) × (d : ℕ) × (s ≡ body ++ d ∷ [])
    × All IsInner body
    × (is_sentence_delim_char d ≡ true)
    × IsTrimmed s

abbrev pub IsOpen : Bytes → Type 0
IsOpen s = (s ≢ []) × All IsInner s × IsTrimmed s

-- Only the last sentence of a document may lack its terminator.
abbrev pub IsDocument : List Bytes → Type 0
IsDocument [] = Unit
IsDocument (s ∷ []) = IsClosed s ⊎ IsOpen s
IsDocument (s ∷ t ∷ rest) = IsClosed s × IsDocument (t ∷ rest)

scan_sentences_delim :
    (c : ℕ) (buffer rest : Bytes)
    → is_sentence_delim_char (to_space c) ≡ true
    → scan_sentences buffer (c ∷ rest)
      ≡ push_trimmed (buffer ++ to_space c ∷ []) ++ scan_sentences [] rest
unfolding scan_sentences
scan_sentences_delim c buffer rest e = rw (e, scan_sentences)

scan_sentences_inner :
    (c : ℕ) (buffer rest : Bytes)
    → is_sentence_delim_char (to_space c) ≡ false
    → scan_sentences buffer (c ∷ rest) ≡ scan_sentences (buffer ++ to_space c ∷ []) rest
unfolding scan_sentences
scan_sentences_inner c buffer rest e = rw (e, scan_sentences)

delim_not_blank : (c : ℕ) → is_sentence_delim_char c ≡ true → is_blank c ≡ false
delim_not_blank c h = ground arith

to_space_delim : (c : ℕ) → is_sentence_delim_char c ≡ true → to_space c ≡ c
to_space_delim c h = ground arith

to_space-IsInner : (c : ℕ) → is_sentence_delim_char (to_space c) ≡ false → IsInner (to_space c)
to_space-IsInner c h = (h, ground arith)

-- A trimmed buffer that ends in a terminator is one closed sentence.
trimmed-IsClosed :
    (buffer : Bytes) (d : ℕ)
    → All IsInner buffer
    → is_sentence_delim_char d ≡ true
    → IsClosed (trim_start buffer ++ d ∷ [])
trimmed-IsClosed buffer d h e =
    (trim_start buffer, d, refl, All-trim_start IsInner buffer h, e, trimmed)
  where
    trimmed : IsTrimmed (trim_start buffer ++ d ∷ [])
    trimmed =
        subst IsTrimmed (trim_spaces-append buffer d (delim_not_blank d e))
          (trim_spaces-IsTrimmed (buffer ++ d ∷ []))

IsDocument-cons : (s : Bytes) (ss : List Bytes) → IsClosed s → IsDocument ss → IsDocument (s ∷ ss)
IsDocument-cons s [] c h = inl c
IsDocument-cons s (t ∷ ss) c h = (c, h)

flush_append : (s : Bytes) (d : ℕ) → flush (s ++ d ∷ []) ≡ (s ++ d ∷ []) ∷ []
flush_append [] d = refl
flush_append (c ∷ s) d = refl

flush-IsDocument : (s : Bytes) → All IsInner s → IsTrimmed s → IsDocument (flush s)
flush-IsDocument [] h t = tt
flush-IsDocument (c ∷ s) h t = inr ((λ e. cc e), h, t)

scan_sentences-IsDocument :
    (s buffer : Bytes) → All IsInner buffer → IsDocument (scan_sentences buffer s)
scan_sentences-IsDocument [] buffer h =
    unfold scan_sentences in
    flush-IsDocument (trim_spaces buffer) (All-trim_spaces IsInner buffer h)
      (trim_spaces-IsTrimmed buffer)
scan_sentences-IsDocument (c ∷ s) buffer h =
    elim (Bool-cases (is_sentence_delim_char (to_space c))) [
      | inl e ↦
          rw
            (
              scan_sentences_delim c buffer s e,
              trim_spaces-append buffer (to_space c) (delim_not_blank (to_space c) e),
              flush_append (trim_start buffer) (to_space c),
            )
            (IsDocument-cons _ _ (trimmed-IsClosed buffer (to_space c) h e)
              (scan_sentences-IsDocument s [] tt))
      | inr e ↦ rw (scan_sentences_inner c buffer s e) (
          scan_sentences-IsDocument s (buffer ++ to_space c ∷ [])
            (All-append IsInner buffer _ h (to_space-IsInner c e, tt)))
    ]

-- Every sentence of a split is trimmed and holds no line end; each but the last ends in its only
-- terminator, and the last may lack it.
pub split_sentences-IsDocument : (text : Bytes) → IsDocument (split_sentences text)
unfolding split_sentences
split_sentences-IsDocument text = scan_sentences-IsDocument text [] tt

scan_sentences-append :
    (s buffer rest : Bytes)
    → All IsInner s
    → scan_sentences buffer (s ++ rest) ≡ scan_sentences (buffer ++ s) rest
scan_sentences-append [] buffer rest h = rw append-nil
scan_sentences-append (c ∷ s) buffer rest ((d, e), h) = rw (
  scan_sentences_inner c buffer (s ++ rest) (rw e d),
  e,
  scan_sentences-append s (buffer ++ c ∷ []) rest h,
  append_assoc,
)

-- Bytes that the next trim takes off again.
abbrev IsMargin : Bytes → Type 0
IsMargin m = (s : Bytes) → trim_spaces (m ++ s) ≡ trim_spaces s

append-ne-nil : (s : Bytes) (d : ℕ) → s ++ d ∷ [] ≢ []
append-ne-nil [] d e = cc e
append-ne-nil (c ∷ s) d e = cc e

scan_sentences_end :
    (m body rest : Bytes) (d : ℕ)
    → All IsInner body
    → is_sentence_delim_char d ≡ true
    → scan_sentences m ((body ++ d ∷ []) ++ rest)
      ≡ push_trimmed (m ++ (body ++ d ∷ [])) ++ scan_sentences [] rest
scan_sentences_end m body rest d inner delim =
    let same : to_space d ≡ d = to_space_delim d delim in
    rw (
      append_assoc body,
      scan_sentences-append body m (d ∷ rest) inner,
      scan_sentences_delim d (m ++ body) rest (rw same delim),
      same,
      append_assoc,
    )

scan_sentences_closed :
    (m s rest : Bytes)
    → IsMargin m
    → IsClosed s
    → scan_sentences m (s ++ rest) ≡ s ∷ scan_sentences [] rest
scan_sentences_closed m s rest margin (body, d, e, inner, delim, trimmed) =
    ap (λ x. scan_sentences m (x ++ rest)) e
    ∙ scan_sentences_end m body rest d inner delim
    ∙ ap (λ x. flush x ++ scan_sentences [] rest)
        (ap (λ x. trim_spaces (m ++ x)) (sym e) ∙ margin s ∙ trimmed)
    ∙ ap (λ x. x ++ scan_sentences [] rest) (flush_word s (λ n. append-ne-nil body d (sym e ∙ n)))

scan_sentences_open : (m s : Bytes) → IsMargin m → IsOpen s → scan_sentences m s ≡ s ∷ []
scan_sentences_open m s margin (ne, inner, trimmed) =
    ap (scan_sentences m) (sym (append-nil s))
    ∙ scan_sentences-append s m [] inner
    ∙ (unfold scan_sentences in ap flush (margin s ∙ trimmed) ∙ flush_word s ne)

scan_sentences_margin : (m : Bytes) → IsMargin m → scan_sentences m [] ≡ []
unfolding scan_sentences trim_spaces
scan_sentences_margin m margin = ap flush (ap trim_spaces (sym (append-nil m)) ∙ margin [])

nil-IsMargin : IsMargin []
nil-IsMargin s = refl

newline-IsMargin : IsMargin (32 ∷ [])
newline-IsMargin s = trim_spaces_blank s

scan_sentences-join :
    (ss : List Bytes) (m : Bytes)
    → IsMargin m
    → IsDocument ss
    → scan_sentences m (join_with 10 ss) ≡ ss
unfolding join_with
scan_sentences-join [] m margin h = scan_sentences_margin m margin
scan_sentences-join (s ∷ []) m margin (inl c) =
    ap (scan_sentences m) (sym (append-nil s))
    ∙ scan_sentences_closed m s [] margin c
    ∙ ap (◌∷◌ s) (scan_sentences_margin [] nil-IsMargin)
scan_sentences-join (s ∷ []) m margin (inr o) = scan_sentences_open m s margin o
scan_sentences-join (s ∷ t ∷ ss) m margin (c, h) =
    rw (scan_sentences_closed m s _ margin c, scan_sentences_inner 10 [] _ refl)
      (ap (◌∷◌ s) (scan_sentences-join (t ∷ ss) (32 ∷ []) newline-IsMargin h))

-- Joining the sentences of a document line by line and splitting again gives the sentences back,
-- where in a document each sentence is trimmed, holds no line end, and ends in its only terminator,
-- which the last may lack.
pub split_sentences-join_sentences :
    (ss : List Bytes) → IsDocument ss → split_sentences (join_sentences ss) ≡ ss
unfolding split_sentences join_sentences
split_sentences-join_sentences ss h = scan_sentences-join ss [] nil-IsMargin h

-- Splitting a text, joining the sentences and splitting again finds the same sentences.
pub split-join-split :
    (text : Bytes) → split_sentences (join_sentences (split_sentences text)) ≡ split_sentences text
split-join-split text = split_sentences-join_sentences _ (split_sentences-IsDocument text)
