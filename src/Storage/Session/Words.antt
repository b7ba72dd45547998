-- ===== src/Storage/Session/Words.antt =====
-- The lists of words behind the edits: splicing words in, and moving the terminator.
use co_write_file_system.Prelude.{
  ℕ, zero, suc, ◌+◌, ◌≤◌, ◌<◌, ◌≡◌, ◌≢◌, refl, ap, sym, ◌∙◌, List, [], ◌∷◌, ◌++◌, some, arith,
  Bytes, length, take, drop, append-nil, append_assoc, length-append, take-append-drop,
}
use co_write_file_system.Common.Array.{insert_at}
use co_write_file_system.Storage.Text.{join_words}
use co_write_file_system.Storage.Session.{
  insert_words, last?, drop_last, cut_delim, add_delim, target_index, insert_before_delim,
}

module _ {ℓ} {A : Type ℓ} where
  -- `new` put before the element at `i`.
  abbrev pub splice : ℕ → List A → List A → List A
  splice i new xs = take i xs ++ (new ++ drop i xs)

  insert_at-append :
      (pre post : List A) (x : A) → insert_at (pre ++ post) (length pre) x ≡ pre ++ x ∷ post
  insert_at-append [] post x = refl
  insert_at-append (y ∷ pre) post x = ap (◌∷◌ y) (insert_at-append pre post x)

  length-snoc : (xs : List A) (x : A) → length (xs ++ x ∷ []) ≡ suc (length xs)
  length-snoc xs x = omega (arith, length-append xs (x ∷ []))

  length-drop_last : (x : A) (xs : List A) → length (drop_last (x ∷ xs)) ≡ length xs
  length-drop_last x [] = refl
  length-drop_last x (y ∷ xs) = ap suc (length-drop_last y xs)

  length-pos : (xs : List A) → xs ≢ [] → 0 < length xs
  length-pos [] h = absurd (h refl)
  length-pos (x ∷ xs) h = omega arith

  pub length-take_le : (i : ℕ) (xs : List A) → i ≤ length xs → length (take i xs) ≡ i
  length-take_le zero xs h = refl
  length-take_le (suc i) [] h = absurd (omega arith)
  length-take_le (suc i) (x ∷ xs) h = ap suc (length-take_le i xs (omega arith))

  pub last?-append : (xs : List A) (x : A) → last? (xs ++ x ∷ []) ≡ some x
  last?-append [] x = refl
  last?-append (y ∷ []) x = refl
  last?-append (y ∷ z ∷ xs) x = last?-append (z ∷ xs) x

  pub drop_last-append : (xs : List A) (x : A) → drop_last (xs ++ x ∷ []) ≡ xs
  drop_last-append [] x = refl
  drop_last-append (y ∷ []) x = refl
  drop_last-append (y ∷ z ∷ xs) x = ap (◌∷◌ y) (drop_last-append (z ∷ xs) x)

insert_words-append :
    (new pre post : List Bytes) → insert_words (length pre) new (pre ++ post) ≡ pre ++ (new ++ post)
unfolding insert_words
insert_words-append [] pre post = refl
insert_words-append (w ∷ new) pre post = rw (insert_at-append pre post w) (
    rw (length-snoc pre w, append_assoc pre (w ∷ []) post, append_assoc pre (w ∷ []) (new ++ post))
      at (insert_words-append new (pre ++ w ∷ []) post))

target-suc :
    (idx inserted count : ℕ)
    → count ≡ idx + inserted
    → 0 < idx
    → count ≡ suc (target_index idx inserted count)
target-suc idx inserted count e h = ground arith

-- The insertion loop splices the new words in.
pub insert_words-splice :
    (i : ℕ) (new words : List Bytes)
    → i ≤ length words
    → insert_words i new words ≡ splice i new words
insert_words-splice i new words h =
    rw (length-take_le i words h, take-append-drop i words) at
      (insert_words-append new (take i words) (drop i words))

add_delim-suc :
    (w : Bytes) (words : List Bytes) (n d : ℕ)
    → add_delim (w ∷ words) (suc n) d ≡ w ∷ add_delim words n d
add_delim-suc w words n d = ground arith

add_delim-ne-nil : (w : Bytes) (words : List Bytes) (n d : ℕ) → add_delim (w ∷ words) n d ≢ []
add_delim-ne-nil w words zero d e = cc e
add_delim-ne-nil w words (suc n) d e = cc (sym (add_delim-suc w words n d) ∙ e)

join_words-cons :
    (w : Bytes) (words : List Bytes)
    → words ≢ []
    → join_words (w ∷ words) ≡ w ++ (32 ∷ join_words words)
join_words-cons w [] h = absurd (h refl)
join_words-cons w (v ∷ words) h = unfold join_words in refl

-- A terminator that is put behind the last word stands at the end of the joined text.
pub join_words-add_delim :
    (words : List Bytes) (n d : ℕ)
    → length words ≡ suc n
    → join_words (add_delim words n d) ≡ join_words words ++ d ∷ []
join_words-add_delim [] n d h = absurd (omega arith)
join_words-add_delim (w ∷ []) zero d h = unfold join_words in refl
join_words-add_delim (w ∷ []) (suc n) d h = absurd (omega arith)
join_words-add_delim (w ∷ v ∷ words) zero d h = absurd (omega arith)
join_words-add_delim (w ∷ v ∷ words) (suc n) d h = rw (
  add_delim-suc w (v ∷ words) n d,
  join_words-cons w _ (add_delim-ne-nil v words n d),
  join_words-add_delim (v ∷ words) n d (omega arith),
  join_words-cons w (v ∷ words) (λ e. cc e),
  append_assoc,
)

length-cut_delim : (words : List Bytes) → words ≢ [] → length (cut_delim words) ≡ length words
length-cut_delim [] h = absurd (h refl)
length-cut_delim (w ∷ words) h =
    length-snoc (drop_last (w ∷ words)) _ ∙ ap suc (length-drop_last w words)

insert_words_end :
    (n : ℕ) (new words : List Bytes) → length words ≡ n → insert_words n new words ≡ words ++ new
insert_words_end n new words e =
    rw (e, append-nil words, append-nil new) at (insert_words-append new words [])

-- Words added behind a last word with a terminator: the joined text ends in that terminator.
pub insert_before_delim-some :
    (new words : List Bytes) (d : ℕ)
    → words ≢ []
    → join_words (insert_before_delim (length words) new words (some d))
      ≡ join_words (cut_delim words ++ new) ++ d ∷ []
insert_before_delim-some new words d h =
    let same = length-cut_delim words h in
    let added = insert_words_end (length words) new (cut_delim words) same in
    rw added (
      join_words-add_delim (cut_delim words ++ new) _ d (
        target-suc (length words) (length new) _
          (length-append (cut_delim words) new ∙ ap (λ n. n + length new) same)
          (length-pos words h)))
