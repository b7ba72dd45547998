-- ===== src/Common/Json.antt =====
-- common/json_util.c: the escaping of a string value, and the reading of a string field. Strings are
-- C strings, so no byte is NUL and the end of the list is the terminator.
pub mod Escape
pub mod Fields
pub mod Bounds
pub mod Numbers
use co_write_file_system.Prelude.{
  ℕ, zero, suc, ◌+◌, Bool, true, false, List, [], ◌∷◌, ◌++◌, Option, none, some, leb, ◌==◌,
  if◌then◌else◌, Bytes, length,
}

-- The `switch` of escape_value: the letter that stands behind the backslash.
abbrev pub letter : ℕ → Option ℕ
letter c =
    if c == 34
    then some 34
    else if c == 92
    then some 92
    else if c == 10
    then some 110
    else if c == 13
    then some 114
    else if c == 9
    then some 116
    else none

abbrev pub piece : ℕ → Bytes
piece c = elim (letter c) [ none ↦ c ∷ [] | some l ↦ 92 ∷ l ∷ [] ]

abbrev pub prepend : Bytes → Option Bytes → Option Bytes
prepend s none = none
prepend s (some t) = some (s ++ t)

-- `pos` bytes are written, of the `size` of the buffer; `none` is -1.
pub escape_from : ℕ → ℕ → Bytes → Option Bytes
escape_from size pos [] = if leb size pos then none else some []
escape_from size pos (c ∷ s) =
    let next = pos + length (piece c) in
    let rest = escape_from size next s in if leb size next then none else prepend (piece c) rest

unfoldable pub escape_value : ℕ → Bytes → Option Bytes
unfolding escape_from
escape_value size src = escape_from size 0 src

unfoldable pub escape_length : Bytes → ℕ
escape_length [] = 0
escape_length (c ∷ s) = elim (letter c) [ none ↦ 1 | some l ↦ 2 ] + escape_length s

unfoldable pub json_escape_dup : Bytes → Option Bytes
unfolding escape_value escape_length
json_escape_dup value = escape_value (suc (escape_length value)) value

-- The `switch` of the readers.
abbrev pub unescape : ℕ → ℕ
unescape next =
    if next == 110 then 10 else if next == 114 then 13 else if next == 116 then 9 else next

abbrev pub starts_with : Bytes → Bytes → Option Bytes
starts_with [] s = some s
starts_with (p ∷ ps) [] = none
starts_with (p ∷ ps) (c ∷ s) = if p == c then starts_with ps s else none

-- `strstr(json, pattern) + strlen(pattern)`.
unfoldable pub after_first : Bytes → Bytes → Option Bytes
after_first pattern [] = starts_with pattern []
after_first pattern (c ∷ s) = elim (starts_with pattern (c ∷ s)) [
  | some rest ↦ some rest
  | none ↦ after_first pattern s
]

abbrev pub key_pattern : Bytes → Bytes
key_pattern key = 34 ∷ key ++ (34 ∷ 58 ∷ 34 ∷ [])

-- The pattern is built in 128 bytes.
unfoldable pub find_field : Bytes → Bytes → Option Bytes
unfolding after_first
find_field json key =
    if leb 128 (length (key_pattern key)) then none else after_first (key_pattern key) json

-- The copy loop of json_get_string, with `pos` bytes written, of `size`.
unfoldable pub read_into : ℕ → ℕ → Bytes → Option Bytes
read_into size pos [] = none
read_into size pos (c ∷ []) = if c == 34 then if leb size pos then none else some [] else none
read_into size pos (c ∷ next ∷ s) =
    let plain = read_into size (suc pos) (next ∷ s) in
    let escaped = read_into size (suc pos) s in
    if c == 92
    then if leb size (suc pos) then none else prepend (unescape next ∷ []) escaped
    else if c == 34
    then if leb size pos then none else some []
    else if leb size (suc pos)
    then none
    else prepend (c ∷ []) plain

-- A buffer of no bytes is refused.
abbrev pub string_from : ℕ → Option Bytes → Option Bytes
string_from zero field = none
string_from (suc n) none = none
string_from (suc n) (some rest) = read_into (suc n) 0 rest

unfoldable pub json_get_string : Bytes → Bytes → ℕ → Option Bytes
unfolding find_field
json_get_string json key size = string_from size (find_field json key)

abbrev pub count_one : Option ℕ → Option ℕ
count_one none = none
count_one (some n) = some (suc n)

-- The first loop of json_get_string_alloc, which measures the value.
unfoldable pub measure : Bytes → Option ℕ
measure [] = none
measure (c ∷ []) = if c == 34 then some 0 else none
measure (c ∷ next ∷ s) =
    let plain = measure (next ∷ s) in
    let escaped = measure s in
    if c == 92 then count_one escaped else if c == 34 then some 0 else count_one plain

-- The second, which copies it.
unfoldable pub copy_value : Bytes → Option Bytes
copy_value [] = none
copy_value (c ∷ []) = if c == 34 then some [] else none
copy_value (c ∷ next ∷ s) =
    let plain = copy_value (next ∷ s) in
    let escaped = copy_value s in
    if c == 92
    then prepend (unescape next ∷ []) escaped
    else if c == 34
    then some []
    else prepend (c ∷ []) plain

abbrev pub copy_measured : Option ℕ → Bytes → Option Bytes
copy_measured none rest = none
copy_measured (some len) rest = copy_value rest

abbrev pub alloc_from : Option Bytes → Option Bytes
alloc_from none = none
alloc_from (some rest) = copy_measured (measure rest) rest

unfoldable pub json_get_string_alloc : Bytes → Bytes → Option Bytes
json_get_string_alloc json key = alloc_from (find_field json key)

abbrev pub object_text : Bytes → Bytes → Bytes
object_text key value = 123 ∷ 34 ∷ key ++ (34 ∷ 58 ∷ 34 ∷ value ++ (34 ∷ 125 ∷ []))

abbrev pub format_escaped : ℕ → Option Bytes → Option Bytes → Option Bytes
format_escaped size none value = none
format_escaped size (some key) none = none
format_escaped size (some key) (some value) =
    if leb size (length (object_text key value)) then none else some (object_text key value)

unfoldable pub json_format_string : ℕ → Bytes → Bytes → Option Bytes
json_format_string size key value =
    format_escaped size (escape_value 128 key) (escape_value 1024 value)
