-- ===== src/Storage/Session.antt =====
-- ss/ss_main.c, struct write_session and what edits it: write_session_begin and the three word edits.
-- An edit works on the words of the sentence in the session; the commit is in Storage/Commit.
pub mod Words
pub mod Edits
use co_write_file_system.Prelude.{
  ℕ, zero, suc, ◌+◌, ◌-◌, Bool, true, false, ◌||◌, List, [], ◌∷◌, ◌++◌, Option, none, some, ltb,
  leb, ◌==◌, if◌then◌else◌, Bytes, length, get_elem?, set, ℤ, pos, negsuc, pos_part, ltb_ℤ,
  copy_into,
}
use co_write_file_system.Common.Array.{insert_at, remove_at}
use co_write_file_system.Storage.Disk.{Disk, load_or_empty}
use co_write_file_system.Storage.Text.{
  is_sentence_delim_char, split_words, split_sentences, join_words,
}

-- `original_text` is only freed, and is left out. A NULL `sentence_text` is the empty text: it is
-- NULL only while the session is not active.
pub record WriteSession : Type 0 where
  pub active : Bool
  pub sentence_index : ℤ
  pub user : Bytes
  pub sentence_text : Bytes
  pub baseline_sentence : Option Bytes
  pub sentences : List Bytes

-- -1 with errno untouched, EINVAL and EAGAIN, and any other -1; and a behaviour that C does not
-- define, of which nothing is known.
pub data SessionError : Type 0 where
  inactive invalid again failed undefined : SessionError

pub data Result {ℓ} (A : Type ℓ) : Type ℓ where
  ok : A → Result A
  err : SessionError → Result A

unfoldable pub write_session_init : WriteSession
write_session_init = record {
  active = false;
  sentence_index = negsuc 0;
  user = [];
  sentence_text = [];
  baseline_sentence = none;
  sentences = [];
}

unfoldable pub write_session_clear : WriteSession → WriteSession
write_session_clear s = record s {
  active = false;
  sentence_index = negsuc 0;
  sentence_text = [];
  baseline_sentence = none;
  sentences = [];
}

abbrev pub or_empty : Option Bytes → Bytes
or_empty none = []
or_empty (some s) = s

-- `data_path` is that of the file. An index at the number of sentences opens a new, empty one.
unfoldable pub write_session_begin : Disk → Bytes → Bytes → ℤ → Result WriteSession
write_session_begin d data_path user index =
    let sentences = split_sentences (load_or_empty d data_path) in
    let existing = get_elem? sentences (pos_part index) in
    if ltb_ℤ index (pos 0) || ltb_ℤ (pos (length sentences)) index
    then err invalid
    else ok (record {
      active = true;
      sentence_index = index;
      user = copy_into 64 user;
      sentence_text = or_empty existing;
      baseline_sentence = existing;
      sentences = sentences;
    })

module _ {ℓ} {A : Type ℓ} where
  abbrev pub last? : List A → Option A
  last? [] = none
  last? (x ∷ []) = some x
  last? (x ∷ y ∷ xs) = last? (y ∷ xs)

  abbrev pub drop_last : List A → List A
  drop_last [] = []
  drop_last (x ∷ []) = []
  drop_last (x ∷ y ∷ xs) = x ∷ drop_last (y ∷ xs)

-- `for (i = 0; ...) string_array_insert(&words, index + i, new_words[i])`.
pub insert_words : ℕ → List Bytes → List Bytes → List Bytes
insert_words index [] words = words
insert_words index (w ∷ new) words = insert_words (suc index) new (insert_at words index w)

-- The terminator that ends the last word, if it has one.
abbrev pub final_delim : List Bytes → Option ℕ
final_delim words = elim (last? words) [
  | none ↦ none
  | some w ↦ elim (last? w) [
    | none ↦ none
    | some c ↦ if is_sentence_delim_char c then some c else none
  ]
]

-- The words with that terminator cut off the last word.
abbrev pub cut_delim : List Bytes → List Bytes
cut_delim words = drop_last words ++ drop_last (or_empty (last? words)) ∷ []

abbrev pub target_index : ℕ → ℕ → ℕ → ℕ
target_index idx inserted count =
    if ltb 0 inserted then idx + inserted - 1 else if ltb 0 count then count - 1 else 0

-- The terminator goes to the end of the word at `target`.
abbrev pub add_delim : List Bytes → ℕ → ℕ → List Bytes
add_delim words target delim = elim (get_elem? words target) [
  | none ↦ words
  | some w ↦ set words target (w ++ delim ∷ [])
]

-- Words that are added behind the last one go before its terminator.
abbrev pub insert_before_delim : ℕ → List Bytes → List Bytes → Option ℕ → List Bytes
insert_before_delim idx new words none = insert_words idx new words
insert_before_delim idx new words (some delim) =
    let added = insert_words idx new (cut_delim words) in
    add_delim added (target_index idx (length new) (length added)) delim

unfoldable pub write_session_apply_insert : WriteSession → ℤ → Bytes → Result WriteSession
write_session_apply_insert s index content =
    let words = split_words s.sentence_text in
    let idx = pos_part index in
    let new = split_words content in
    let at_end = if idx == length words then final_delim words else none in
    if s.active
    then if ltb_ℤ index (pos 0) || ltb (length words) idx
      then err invalid
      else ok (record s { sentence_text = join_words (insert_before_delim idx new words at_end) })
    else err inactive

unfoldable pub write_session_apply_replace : WriteSession → ℤ → Bytes → Result WriteSession
write_session_apply_replace s index content =
    let words = split_words s.sentence_text in
    let idx = pos_part index in
    let new = split_words content in
    if s.active
    then if ltb_ℤ index (pos 0) || leb (length words) idx
      then err invalid
      else ok (record s { sentence_text = join_words (insert_words idx new (remove_at words idx)) })
    else err inactive

unfoldable pub write_session_apply_delete : WriteSession → ℤ → Result WriteSession
write_session_apply_delete s index =
    let words = split_words s.sentence_text in
    let idx = pos_part index in
    if s.active
    then if ltb_ℤ index (pos 0) || (length words == 0 || leb (length words) idx)
      then err invalid
      else ok (record s { sentence_text = join_words (remove_at words idx) })
    else err inactive
