-- ===== src/Examples/Texts.antt =====
-- Runs of the splitting and joining of texts, of the word edits and of the JSON strings.
use co_write_file_system.Prelude.{
  ◌≤◌, ◌<◌, ◌≡◌, inl, refl, [], ◌∷◌, some, codes, arith, length, All,
}
use co_write_file_system.Common.Json.{escape_value, json_get_string_alloc, json_format_string}
use co_write_file_system.Common.Json.Escape.{escaped}
use co_write_file_system.Common.Json.Fields.{json_get_string_alloc-json_format_string}
use co_write_file_system.Storage.Text.{split_words, split_sentences, join_sentences}
use co_write_file_system.Storage.Text.Words.{IsWord}
use co_write_file_system.Storage.Text.Sentences.{
  IsDocument, split_sentences-IsDocument, split_sentences-join_sentences,
}
use co_write_file_system.Storage.Session.{WriteSession, final_delim}
use co_write_file_system.Storage.Session.Edits.{words_of, IsPlainInsert}
use co_write_file_system.Examples.Data.{session, one, two}

abbrev ab : WriteSession
ab = record session { sentence_text = codes "A b." }

two_words : words_of ab ≡ codes "A" ∷ codes "b." ∷ []
unfolding split_words
two_words = refl

in_range : 1 < length (words_of ab)
in_range = rw two_words (omega arith)

before_last : 1 ≤ length (words_of ab)
before_last = rw two_words (omega arith)

not_behind : IsPlainInsert ab 1
unfolding split_words
not_behind = inl (omega arith)

ends : final_delim (words_of ab) ≡ some 46
unfolding split_words
ends = refl

one_word : split_words (codes "x") ≡ codes "x" ∷ []
unfolding split_words
one_word = refl

are_words : All IsWord (codes "A" ∷ codes "b." ∷ [])
are_words = (((λ e. cc e), (refl, tt)), (((λ e. cc e), (refl, (refl, tt))), tt))

is_document : IsDocument (one ∷ two ∷ [])
unfolding split_sentences
is_document = split_sentences-IsDocument (codes "A b.\nC!")

split_sentences-join_sentences_example :
    split_sentences (join_sentences (one ∷ two ∷ [])) ≡ one ∷ two ∷ []
split_sentences-join_sentences_example = split_sentences-join_sentences (one ∷ two ∷ []) is_document

formats : json_format_string 20 (codes "k") (codes "v\n") ≡ some (codes "{\"k\":\"v\\n\"}")
unfolding json_format_string escape_value
formats = refl

plain_key : escaped (codes "k") ≡ codes "k"
unfolding escaped
plain_key = refl

json_get_string_alloc-json_format_string_example :
    json_get_string_alloc (codes "{\"k\":\"v\\n\"}") (codes "k") ≡ some (codes "v\n")
json_get_string_alloc-json_format_string_example =
    json_get_string_alloc-json_format_string 20 (codes "k") (codes "v\n") (codes "{\"k\":\"v\\n\"}")
      plain_key (omega arith) formats
