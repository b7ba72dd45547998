-- ===== src/Storage/Session/Edits.antt =====
-- ss/ss_main.c, write_session_apply_insert, _replace and _delete: what an edit does to the words of
-- the session's sentence, and what it refuses.
use co_write_file_system.Prelude.{
  ℕ, zero, suc, ◌≤◌, ◌<◌, ◌≡◌, ◌≢◌, ◌⊎◌, inl, inr, ap, ◌∙◌, true, List, [], ◌∷◌, ◌++◌, none, some,
  arith, Bytes, length, take, drop, All, All-append, if◌then◌else◌, ◌==◌, ℤ, pos, ◌≤ℤ◌, ◌<ℤ◌,
}
use native.Mathlib.Nat.{le_refl}
use co_write_file_system.Common.Array.{remove_at, insert_at}
use co_write_file_system.Common.Array.Laws.{length-insert_at, remove_at-insert_at}
use co_write_file_system.Storage.Text.{split_words, join_words}
use co_write_file_system.Storage.Text.Words.{IsWord, split_words-IsWord, split_words-join_words}
use co_write_file_system.Storage.Session.{
  WriteSession, Result, ok, err, invalid, final_delim, cut_delim, insert_before_delim, insert_words,
  write_session_apply_insert, write_session_apply_replace, write_session_apply_delete,
}
use co_write_file_system.Storage.Session.Words.{
  splice, insert_words-splice, insert_before_delim-some,
}

abbrev pub words_of : WriteSession → List Bytes
words_of s = split_words s.sentence_text

-- The call succeeds, and changes nothing in the session but the text of the sentence, whose words
-- are now `ws`.
abbrev pub Rewrites : WriteSession → Result WriteSession → List Bytes → Type 0
Rewrites s r ws =
    (text : Bytes) × (r ≡ ok (record s { sentence_text = text })) × (split_words text ≡ ws)

module _ {ℓ κ} {A : Type ℓ} (P : A → Type κ) where
  All-take : (n : ℕ) (xs : List A) → All P xs → All P (take n xs)
  All-take zero xs h = tt
  All-take (suc n) [] h = tt
  All-take (suc n) (x ∷ xs) (p, h) = (p, All-take n xs h)

  All-drop : (n : ℕ) (xs : List A) → All P xs → All P (drop n xs)
  All-drop zero xs h = h
  All-drop (suc n) [] h = tt
  All-drop (suc n) (x ∷ xs) (p, h) = All-drop n xs h

  All-splice : (i : ℕ) (new xs : List A) → All P new → All P xs → All P (splice i new xs)
  All-splice i new xs hn h =
      All-append P (take i xs) _ (All-take i xs h)
        (All-append P new (drop i xs) hn (All-drop i xs h))

  All-remove_at : (i : ℕ) (xs : List A) → All P xs → All P (remove_at xs i)
  All-remove_at i xs h =
      All-append P (take i xs) (drop (suc i) xs) (All-take i xs h) (All-drop (suc i) xs h)

-- The new words are not put behind a terminator.
abbrev pub IsPlainInsert : WriteSession → ℕ → Type 0
IsPlainInsert s i = (i < length (words_of s)) ⊎ (final_delim (words_of s) ≡ none)

insert_in_range :
    (s : WriteSession) (i : ℕ) (content : Bytes)
    → s.active ≡ true
    → i ≤ length (words_of s)
    → write_session_apply_insert s (pos i) content
      ≡ ok (record s {
        sentence_text = join_words (
            insert_before_delim i
              (split_words content)
              (words_of s)
              (if i == length (words_of s) then final_delim (words_of s) else none));
      })
unfolding write_session_apply_insert
insert_in_range s i content on fits = ground arith

plain_end :
    (s : WriteSession) (i : ℕ)
    → IsPlainInsert s i
    → (if i == length (words_of s) then final_delim (words_of s) else none) ≡ none
plain_end s i (inl h) = ground arith
plain_end s i (inr e) = rw e (ground arith)

replace_in_range :
    (s : WriteSession) (i : ℕ) (content : Bytes)
    → s.active ≡ true
    → i < length (words_of s)
    → write_session_apply_replace s (pos i) content
      ≡ ok (record s {
        sentence_text =
            join_words (insert_words i (split_words content) (remove_at (words_of s) i));
      })
unfolding write_session_apply_replace
replace_in_range s i content on fits = ground arith

length-remove_at_le :
    {A : Type 0} (xs : List A) (i : ℕ) → i < length xs → i ≤ length (remove_at xs i)
length-remove_at_le [] i h = absurd (omega arith)
length-remove_at_le (x ∷ xs) zero h = omega arith
length-remove_at_le (x ∷ xs) (suc i) h = omega (arith, length-remove_at_le xs i)

-- In an active session, an insert at an index in range puts the words of the content before the
-- word at that index, if that is not behind a last word with a terminator; nothing else in the
-- session changes.
pub apply_insert_words :
    (s : WriteSession) (i : ℕ) (content : Bytes)
    → s.active ≡ true
    → i ≤ length (words_of s)
    → IsPlainInsert s i
    → Rewrites s
        (write_session_apply_insert s (pos i) content)
        (splice i (split_words content) (words_of s))
apply_insert_words s i content on fits plain = (
  join_words (splice i (split_words content) (words_of s)),
  rw (
    insert_in_range s i content on fits,
    plain_end s i plain,
    insert_words-splice i (split_words content) (words_of s) fits,
  ),
  split_words-join_words _
      (All-splice IsWord i _ _ (split_words-IsWord content) (split_words-IsWord s.sentence_text)),
)

same_length :
    (s : WriteSession)
    → (if length (words_of s) == length (words_of s) then final_delim (words_of s) else none)
      ≡ final_delim (words_of s)
same_length s = ground arith

delim-ne-nil : (words : List Bytes) (d : ℕ) → final_delim words ≡ some d → words ≢ []
delim-ne-nil [] d e n = cc e
delim-ne-nil (w ∷ words) d e n = cc n

-- In an active session, words that are inserted behind a last word with a terminator stand before
-- the terminator: the sentence still ends in it.
pub apply_insert_end :
    (s : WriteSession) (content : Bytes) (d : ℕ)
    → s.active ≡ true
    → final_delim (words_of s) ≡ some d
    → write_session_apply_insert s (pos (length (words_of s))) content
      ≡ ok (record s {
        sentence_text = join_words (cut_delim (words_of s) ++ split_words content) ++ d ∷ [];
      })
apply_insert_end s content d on e = rw (
  insert_in_range s (length (words_of s)) content on (le_refl _),
  same_length s,
  e,
  insert_before_delim-some (split_words content) (words_of s) d (delim-ne-nil (words_of s) d e),
)

-- In an active session, a replace at an index in range puts the words of the content in the place
-- of the word there; nothing else in the session changes.
pub apply_replace_words :
    (s : WriteSession) (i : ℕ) (content : Bytes)
    → s.active ≡ true
    → i < length (words_of s)
    → Rewrites s
        (write_session_apply_replace s (pos i) content)
        (splice i (split_words content) (remove_at (words_of s) i))
apply_replace_words s i content on fits =
    let words = remove_at (words_of s) i in
    let new = split_words content in
    (
      join_words (splice i new words),
      replace_in_range s i content on fits
          ∙ ap (λ ws. ok (record s { sentence_text = join_words ws }))
              (insert_words-splice i new words (length-remove_at_le (words_of s) i fits)),
      split_words-join_words _ (
          All-splice IsWord i new words (split_words-IsWord content)
            (All-remove_at IsWord i _ (split_words-IsWord s.sentence_text))),
    )

-- In an active session, a delete at an index in range takes the word there out; nothing else in the
-- session changes.
pub apply_delete_words :
    (s : WriteSession) (i : ℕ)
    → s.active ≡ true
    → i < length (words_of s)
    → Rewrites s (write_session_apply_delete s (pos i)) (remove_at (words_of s) i)
apply_delete_words s i on fits = (
  join_words (remove_at (words_of s) i),
  unfold write_session_apply_delete in ground arith,
  split_words-join_words _ (All-remove_at IsWord i _ (split_words-IsWord s.sentence_text)),
)

-- In an active session, an index out of range is refused as invalid: for an insert one below 0 or
-- above the number of words, for a replace or a delete also the number of words itself.
pub apply_out_of_range :
    (s : WriteSession) (index : ℤ) (content : Bytes)
    → s.active ≡ true
    → ((index <ℤ pos 0) ⊎ (pos (length (words_of s)) <ℤ index)
        → write_session_apply_insert s index content ≡ err invalid)
      × ((index <ℤ pos 0) ⊎ (pos (length (words_of s)) ≤ℤ index)
          → (write_session_apply_replace s index content ≡ err invalid)
            × (write_session_apply_delete s index ≡ err invalid))
unfolding write_session_apply_insert write_session_apply_replace write_session_apply_delete
apply_out_of_range s index content on = ground arith

-- In an active session, deleting a single word at the index where it was just inserted, in range
-- and not behind a last word with a terminator, gives the words of the session back.
pub delete_after_insert :
    (s : WriteSession) (i : ℕ) (content w : Bytes)
    → s.active ≡ true
    → i ≤ length (words_of s)
    → IsPlainInsert s i
    → split_words content ≡ w ∷ []
    → (text : Bytes) × (write_session_apply_insert s (pos i) content
        ≡ ok (record s { sentence_text = text }))
      × Rewrites s
          (write_session_apply_delete (record s { sentence_text = text }) (pos i))
          (words_of s)
delete_after_insert s i content w on fits plain one =
    let (text, inserted, words) = apply_insert_words s i content on fits plain in
    let there : split_words text ≡ insert_at (words_of s) i w =
      words ∙ ap (λ new. splice i new (words_of s)) one in
    let room : i < length (split_words text) =
      rw there (omega (arith, length-insert_at (words_of s) i w)) in
    let (rest, deleted, left) = apply_delete_words (record s { sentence_text = text }) i on room in
    (
      text,
      inserted,
      (
        rest,
        deleted,
        left ∙ ap (λ ws. remove_at ws i) there ∙ remove_at-insert_at (words_of s) i w fits,
      ),
    )
