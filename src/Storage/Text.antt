-- ===== src/Storage/Text.antt =====
-- ss/ss_main.c, the text helpers: words, sentences, and how they are joined again. The scanning
-- loops become recursions on the unread input, with the token read so far as an argument.
pub mod Words
pub mod Trim
pub mod Sentences
pub mod Keeps
use co_write_file_system.Prelude.{
  ℕ, suc, List, [], ◌∷◌, ◌++◌, Bool, true, false, ◌||◌, leb, ◌==◌, if◌then◌else◌, Bytes,
}

-- The byte counts as a blank: `(unsigned char)c <= ' '`.
abbrev pub is_blank : ℕ → Bool
is_blank c = leb c 32

abbrev pub is_sentence_delim_char : ℕ → Bool
is_sentence_delim_char c = c == b'.' || (c == b'!' || c == b'?')

-- A finished token is stored unless it is empty.
abbrev pub flush : Bytes → List Bytes
flush [] = []
flush (c ∷ s) = (c ∷ s) ∷ []

-- The first loop of `trim_spaces`: the blanks at the end are cut off. `c` stays if a byte that is
-- no blank follows.
abbrev pub trim_last : ℕ → Bytes → Bytes
trim_last c [] = if is_blank c then [] else c ∷ []
trim_last c (d ∷ r) = c ∷ d ∷ r

pub trim_end : Bytes → Bytes
trim_end [] = []
trim_end (c ∷ s) = trim_last c (trim_end s)

-- The second loop: the blanks at the start are skipped.
pub trim_start : Bytes → Bytes
trim_start [] = []
trim_start (c ∷ s) = if is_blank c then trim_start s else c ∷ s

unfoldable pub trim_spaces : Bytes → Bytes
unfolding trim_end trim_start
trim_spaces s = trim_start (trim_end s)

-- `cur` holds the bytes between `start` and `p`; it is empty while blanks are skipped.
pub scan_words : Bytes → Bytes → List Bytes
scan_words cur [] = flush cur
scan_words cur (c ∷ s) = elim (is_blank c) [
  | true ↦ flush cur ++ scan_words [] s
  | false ↦ scan_words (cur ++ c ∷ []) s
]

unfoldable pub split_words : Bytes → List Bytes
unfolding scan_words
split_words s = scan_words [] s

-- A line end inside the text counts as a space.
abbrev pub to_space : ℕ → ℕ
to_space c = if c == 10 || c == 13 then 32 else c

-- The sentence in the buffer is trimmed, and pushed unless nothing is left.
abbrev pub push_trimmed : Bytes → List Bytes
push_trimmed buffer = flush (trim_spaces buffer)

pub scan_sentences : Bytes → Bytes → List Bytes
scan_sentences buffer [] = push_trimmed buffer
scan_sentences buffer (c ∷ s) = elim (is_sentence_delim_char (to_space c)) [
  | true ↦ push_trimmed (buffer ++ to_space c ∷ []) ++ scan_sentences [] s
  | false ↦ scan_sentences (buffer ++ to_space c ∷ []) s
]

unfoldable pub split_sentences : Bytes → List Bytes
unfolding scan_sentences trim_spaces
split_sentences text = scan_sentences [] text

-- The copy loop that `join_words` and `join_sentences` share: a separator after each but the last.
pub join_with : ℕ → List Bytes → Bytes
join_with sep [] = []
join_with sep (w ∷ []) = w
join_with sep (w ∷ v ∷ rest) = w ++ (sep ∷ join_with sep (v ∷ rest))

unfoldable pub join_words : List Bytes → Bytes
unfolding join_with
join_words words = join_with 32 words

unfoldable pub join_sentences : List Bytes → Bytes
unfolding join_with
join_sentences sentences = join_with 10 sentences

-- `in_word` and the rest of the text; the count is the number of words that start in the rest.
pub count_from : Bool → Bytes → ℕ
count_from in_word [] = 0
count_from in_word (c ∷ s) = elim (is_blank c) [
  | true ↦ count_from false s
  | false ↦ if in_word then count_from true s else suc (count_from true s)
]

unfoldable pub count_words_in_text : Bytes → ℕ
unfolding count_from
count_words_in_text text = count_from false text
