-- ===== src/Manager/Files.antt =====
-- nm/nm_state.c: the table of the files, an array with a hash index of chains through it. The field
-- hash_next of the entries is the map `next`, by index, and -1 is `none`. A walk along a chain runs
-- on fuel: the number of files and one more is enough, as no chain has an index twice
-- (Manager/Files/Chains).
pub mod Chains
pub mod Walks
pub mod Index
pub mod Relink
pub mod Removal
pub mod Valid
pub mod Map
pub mod Adds
pub mod Shrinks
pub mod Removes
pub mod Alters
use co_write_file_system.Prelude.{
  ℕ, zero, suc, ◌+◌, ◌-◌, ◌*◌, ◌%◌, ◌^◌, Bool, true, false, List, [], ◌∷◌, ◌++◌, Option, none, some,
  leb, ◌==◌, if◌then◌else◌, Bytes, length, get_elem?, set, str_eq, copy_into, ℤ, pos,
}
use co_write_file_system.Manager.Entry.{FileEntry}

pub record FileTable : Type 0 where
  pub files : List FileEntry
  pub buckets : ℕ → Option ℕ
  pub next : ℕ → Option ℕ

-- `unsigned long` has 64 bits; the shift and the sums wrap.
hash_from : ℕ → Bytes → ℕ
hash_from hash [] = hash
hash_from hash (c ∷ s) = hash_from ((hash * 2 ^ 5 + hash + c) % 2 ^ 64) s

unfoldable pub file_hash_name : Bytes → ℕ
unfolding hash_from
file_hash_name name = hash_from 5381 name

abbrev pub bucket_of : Bytes → ℕ
bucket_of name = file_hash_name name % 1024

abbrev pub assign {ℓ} : {A : Type ℓ} → (ℕ → A) → ℕ → A → ℕ → A
assign f k v i = if k == i then v else f i

unfoldable pub file_hash_insert : FileTable → ℕ → FileTable
file_hash_insert t index = elim (get_elem? t.files index) [
  | none ↦ t
  | some file ↦
      let bucket = bucket_of file.name in
      record t {
        next = assign t.next index (t.buckets bucket);
        buckets = assign t.buckets bucket (some index);
      }
]

-- The loop of file_hash_remove once `link` is the field hash_next of the entry `at`.
unfoldable pub unlink_after : ℕ → (ℕ → Option ℕ) → ℕ → ℕ → ℕ → Option ℕ
unlink_after zero next at index = next
unlink_after (suc fuel) next at index = elim (next at) [
  | none ↦ next
  | some i ↦ elim (i == index) [
    | true ↦ assign next at (next index)
    | false ↦ unlink_after fuel next i index
  ]
]

-- The first round, where `link` is the bucket.
abbrev pub unlink_first : FileTable → ℕ → ℕ → Option ℕ → FileTable
unlink_first t bucket index none = t
unlink_first t bucket index (some i) =
    if i == index
    then record t { buckets = assign t.buckets bucket (t.next index) }
    else record t { next = unlink_after (suc (length t.files)) t.next i index }

unfoldable pub file_hash_remove : FileTable → ℕ → FileTable
file_hash_remove t index = elim (get_elem? t.files index) [
  | none ↦ t
  | some file ↦ unlink_first t (bucket_of file.name) index (t.buckets (bucket_of file.name))
]

unfoldable pub find_from : ℕ → List FileEntry → (ℕ → Option ℕ) → Bytes → Option ℕ → Option ℕ
find_from zero files next name link = none
find_from (suc fuel) files next name none = none
find_from (suc fuel) files next name (some i) = elim (get_elem? files i) [
  | none ↦ none
  | some file ↦ elim (str_eq file.name name) [
    | true ↦ some i
    | false ↦ find_from fuel files next name (next i)
  ]
]

unfoldable pub find_file_index : FileTable → Bytes → Option ℕ
find_file_index t name =
    find_from (suc (length t.files)) t.files t.next name (t.buckets (bucket_of name))

abbrev pub file_at : List FileEntry → Option ℕ → Option FileEntry
file_at files none = none
file_at files (some i) = get_elem? files i

unfoldable pub nm_find_file : FileTable → Bytes → Option FileEntry
nm_find_file t name = file_at t.files (find_file_index t name)

abbrev pub added_file : Bytes → Bytes → ℤ → ℤ → ℕ → FileEntry
added_file name owner ss_index backup_index now = record {
  name = copy_into 128 name;
  owner = copy_into 64 owner;
  ss_index = ss_index;
  backup_index = backup_index;
  word_count = 0;
  char_count = 0;
  created = now;
  modified = pos now;
  last_access = pos now;
  last_access_user = copy_into 64 owner;
  acl = [];
  checkpoints = [];
}

-- ENOSPC, EEXIST and ENOENT.
pub data TableError : Type 0 where
  no_space exists not_found : TableError

pub data Outcome : Type 0 where
  done : Outcome
  failed : TableError → Outcome

abbrev pub append_file : FileTable → FileEntry → FileTable
append_file t file = record t {
  files = t.files ++ file ∷ [];
  next = assign t.next (length t.files) none;
}

abbrev pub add_absent : FileTable → FileEntry → Option ℕ → FileTable × Outcome
add_absent t file (some i) = (t, failed exists)
add_absent t file none = (file_hash_insert (append_file t file) (length t.files), done)

-- NM_MAX_FILES is 512.
unfoldable pub nm_add_file : FileTable → Bytes → Bytes → ℤ → ℤ → ℕ → FileTable × Outcome
nm_add_file t name owner ss_index backup_index now =
    if leb 512 (length t.files)
    then (t, failed no_space)
    else add_absent t (added_file name owner ss_index backup_index now) (find_file_index t name)

abbrev pub without_last : List FileEntry → List FileEntry
without_last [] = []
without_last (f ∷ []) = []
without_last (f ∷ g ∷ files) = f ∷ without_last (g ∷ files)

-- `state->files[idx] = state->files[last]`, with the field hash_next.
abbrev pub copy_entry : FileTable → ℕ → ℕ → FileTable
copy_entry t from to = elim (get_elem? t.files from) [
  | none ↦ t
  | some file ↦ record t { files = set t.files to file; next = assign t.next to (t.next from) }
]

abbrev pub move_entry : FileTable → ℕ → ℕ → FileTable
move_entry t last index =
    if index == last
    then t
    else file_hash_insert (copy_entry (file_hash_remove t last) last index) index

abbrev pub cut_last : FileTable → FileTable
cut_last t = record t { files = without_last t.files }

abbrev pub remove_found : FileTable → Option ℕ → FileTable × Outcome
remove_found t none = (t, failed not_found)
remove_found t (some index) =
    (cut_last (move_entry (file_hash_remove t index) (length t.files - 1) index), done)

unfoldable pub nm_remove_file : FileTable → Bytes → FileTable × Outcome
nm_remove_file t name = remove_found t (find_file_index t name)

-- A write through the pointer that nm_find_file gives.
abbrev pub alter_at : FileTable → (FileEntry → FileEntry) → Option ℕ → FileTable
alter_at t g none = t
alter_at t g (some i) = elim (get_elem? t.files i) [
  | none ↦ t
  | some file ↦ record t { files = set t.files i (g file) }
]

unfoldable pub alter : FileTable → Bytes → (FileEntry → FileEntry) → FileTable
alter t name g = alter_at t g (find_file_index t name)

-- The table that clear_state leaves.
abbrev pub empty : FileTable
empty = record { files = []; buckets = λ b. none; next = λ i. none }
