-- ===== src/Common/Json/Fields.antt =====
-- common/json_util.c: the two readers of a string field agree, and read what json_format_string wrote.
use co_write_file_system.Prelude.{
  ℕ, zero, suc, ◌+◌, ◌<◌, ◌≡◌, ◌≢◌, ◌⊎◌, refl, ap, sym, ◌∙◌, [], ◌∷◌, ◌++◌, Option, none, some, leb,
  ltb, if◌then◌else◌, Bytes, length, arith, append_assoc, length-append, inl, inr,
}
use co_write_file_system.Common.Json.{
  prepend, unescape, copy_value, read_into, measure, count_one, find_field, json_get_string,
  json_get_string_alloc, copy_measured, alloc_from, string_from, json_format_string, key_pattern,
  object_text, starts_with, after_first, format_escaped,
}
use co_write_file_system.Common.Json.Escape.{
  escaped, copy_value-escaped, copy_value-plain, escape_value_lem,
}

abbrev pub length? : Option Bytes → Option ℕ
length? none = none
length? (some s) = some (length s)

-- What the readers look at in a byte.
abbrev ByteCase : ℕ → Type 0
ByteCase c = (c ≡ 92) ⊎ ((c ≡ 34) ⊎ ((c ≢ 34) × (c ≢ 92)))

byte-cases : (c : ℕ) → ByteCase c
byte-cases c = ground arith

measure-plain :
    (c n : ℕ) (s : Bytes) → c ≢ 34 → c ≢ 92 → measure (c ∷ n ∷ s) ≡ count_one (measure (n ∷ s))
unfolding measure
measure-plain c n s h k = ground arith

count_one-length? :
    (x : ℕ) (o : Option Bytes) → count_one (length? o) ≡ length? (prepend (x ∷ []) o)
count_one-length? x none = refl
count_one-length? x (some v) = refl

measure-copy_value : (s : Bytes) → measure s ≡ length? (copy_value s)
unfolding measure copy_value
measure-copy_value [] = refl
measure-copy_value (c ∷ []) = ground arith
measure-copy_value (c ∷ next ∷ s) =
    let plain = measure-copy_value (next ∷ s) in
    let escaped = measure-copy_value s in
    elim (byte-cases c) [
      | inl q ↦ rw q (ap count_one escaped ∙ count_one-length? (unescape next) (copy_value s))
      | inr (inl q) ↦ rw q (refl)
      | inr (inr (h, k)) ↦
          measure-plain c next s h k
          ∙ ap count_one plain
          ∙ count_one-length? c (copy_value (next ∷ s))
          ∙ ap length? (sym (copy_value-plain c (next ∷ s) h k))
    ]

-- The value, if it and its NUL fit what is left of the buffer.
abbrev pub within : ℕ → ℕ → Option Bytes → Option Bytes
within size pos none = none
within size pos (some v) = if ltb (pos + length v) size then some v else none

within-prepend :
    (size pos x : ℕ) (o : Option Bytes)
    → (if leb size (suc pos) then none else prepend (x ∷ []) (within size (suc pos) o))
      ≡ within size pos (prepend (x ∷ []) o)
within-prepend size pos x none = ground arith
within-prepend size pos x (some v) = ground arith

read_into-plain :
    (size pos c n : ℕ) (s : Bytes)
    → c ≢ 34
    → c ≢ 92
    → read_into size pos (c ∷ n ∷ s)
      ≡ (if leb size (suc pos) then none else prepend (c ∷ []) (read_into size (suc pos) (n ∷ s)))
unfolding read_into
read_into-plain size pos c n s h k = ground arith

abbrev grown : ℕ → ℕ → ℕ → Option Bytes → Option Bytes
grown size pos x o = if leb size (suc pos) then none else prepend (x ∷ []) o

read_into-copy_value :
    (size pos : ℕ) (s : Bytes) → read_into size pos s ≡ within size pos (copy_value s)
unfolding read_into copy_value
read_into-copy_value size pos [] = refl
read_into-copy_value size pos (c ∷ []) = ground arith
read_into-copy_value size pos (c ∷ next ∷ s) =
    let plain = read_into-copy_value size (suc pos) (next ∷ s) in
    let escaped = read_into-copy_value size (suc pos) s in
    elim (byte-cases c) [
      | inl q ↦ rw q (
          unfold read_into in
          unfold copy_value in
          ap (grown size pos (unescape next)) escaped
          ∙ within-prepend size pos (unescape next) (copy_value s))
      | inr (inl q) ↦ rw q (ground arith)
      | inr (inr (h, k)) ↦
          read_into-plain size pos c next s h k
          ∙ ap (grown size pos c) plain
          ∙ within-prepend size pos c (copy_value (next ∷ s))
          ∙ ap (within size pos) (sym (copy_value-plain c (next ∷ s) h k))
    ]

copy_measured-length? :
    (rest : Bytes) (o : Option Bytes) → copy_value rest ≡ o → copy_measured (length? o) rest ≡ o
copy_measured-length? rest none e = refl
copy_measured-length? rest (some v) e = e

-- The first loop stops only where the second does.
copy_measured-copy_value : (rest : Bytes) → copy_measured (measure rest) rest ≡ copy_value rest
copy_measured-copy_value rest =
    ap (λ o. copy_measured o rest) (measure-copy_value rest)
    ∙ copy_measured-length? rest (copy_value rest) refl

within_empty : (o : Option Bytes) → none ≡ within 0 0 o
within_empty none = refl
within_empty (some v) = ground arith

string_from-alloc_from :
    (size : ℕ) (field : Option Bytes) → string_from size field ≡ within size 0 (alloc_from field)
string_from-alloc_from zero field = within_empty (alloc_from field)
string_from-alloc_from (suc n) none = refl
string_from-alloc_from (suc n) (some rest) =
    read_into-copy_value (suc n) 0 rest
    ∙ ap (within (suc n) 0) (sym (copy_measured-copy_value rest))

-- json_get_string gives what json_get_string_alloc gives if the value and its NUL fit the buffer,
-- and fails otherwise.
pub json_get_string-alloc :
    (json key : Bytes) (size : ℕ)
    → json_get_string json key size ≡ within size 0 (json_get_string_alloc json key)
unfolding json_get_string json_get_string_alloc
json_get_string-alloc json key size = string_from-alloc_from size (find_field json key)

-- The key of the object that json_format_string writes is found behind its brace.
starts_with-append : (p s : Bytes) → starts_with p (p ++ s) ≡ some s
starts_with-append [] s = refl
starts_with-append (c ∷ p) s = ground (arith, starts_with-append p s)

object-split :
    (key value : Bytes)
    → object_text key value ≡ 123 ∷ (key_pattern key ++ (value ++ (34 ∷ 125 ∷ [])))
object-split key value = ap (λ t. 123 ∷ 34 ∷ t) (sym (append_assoc key (34 ∷ 58 ∷ 34 ∷ []) _))

after_first-hit :
    (p : Bytes) (c : ℕ) (s rest : Bytes)
    → starts_with p (c ∷ s) ≡ some rest
    → after_first p (c ∷ s) ≡ some rest
unfolding after_first
after_first-hit p c s rest h = rw (h, after_first) refl

after_first-object :
    (key value : Bytes)
    → after_first (key_pattern key) (object_text key value) ≡ some (value ++ (34 ∷ 125 ∷ []))
unfolding after_first
after_first-object key value = after_first-hit (key_pattern key) 34 _ _ (
    ap (starts_with (key_pattern key))
      (ap (λ t. 34 ∷ t) (sym (append_assoc key (34 ∷ 58 ∷ 34 ∷ []) _)))
    ∙ starts_with-append (key_pattern key) (value ++ (34 ∷ 125 ∷ [])))

format_some :
    (size : ℕ) (key value buf : Bytes) (k v : Option Bytes)
    → k ≡ (if leb 128 (length key) then none else some key)
    → v ≡ (if leb 1024 (length value) then none else some value)
    → format_escaped size k v ≡ some buf
    → buf ≡ object_text key value
format_some size key value buf none v e q h = cc h
format_some size key value buf (some k) none e q h = cc h
format_some size key value buf (some k) (some v) e q h = ground arith

-- What json_format_string writes under a key of fewer than 124 bytes, none of which is escaped,
-- json_get_string_alloc reads back under that key.
pub json_get_string_alloc-json_format_string :
    (size : ℕ) (key value buf : Bytes)
    → escaped key ≡ key
    → length key < 124
    → json_format_string size key value ≡ some buf
    → json_get_string_alloc buf key ≡ some value
unfolding json_format_string json_get_string_alloc find_field
json_get_string_alloc-json_format_string size key value buf plain short h =
    let text =
      format_some size (escaped key) (escaped value) buf _ _ (escape_value_lem 128 key)
        (escape_value_lem 1024 value) h in
    let shape : buf ≡ object_text key (escaped value) =
      text ∙ ap (λ k. object_text k (escaped value)) plain in
    let pattern = length-append key (34 ∷ 58 ∷ 34 ∷ []) in
    let found : find_field buf key ≡ some (escaped value ++ (34 ∷ 125 ∷ [])) = ground (
      arith,
      pattern,
      ap (after_first (key_pattern key)) shape,
      after_first-object key (escaped value),
    ) in
    ap alloc_from found ∙ copy_measured-copy_value _ ∙ copy_value-escaped value (125 ∷ [])
