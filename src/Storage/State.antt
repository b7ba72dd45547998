-- ===== src/Storage/State.antt =====
-- ss/ss_state.c: the files that the server holds, sorted by name, with a data, a metadata and an
-- undo file on the disk for each. The clock is an argument, `now`. The two binary searches run on
-- fuel; the number of files and one more is enough (Storage/State/Search).
pub mod Search
pub mod Keys
pub mod Sorted
pub mod Ops
use Prim.Native.Nat.{Ordering}
use co_write_file_system.Prelude.{
  ℕ, zero, suc, ◌+◌, ◌-◌, ◌/◌, ◌%◌, Bool, true, false, List, [], ◌∷◌, ◌++◌, Option, none, some, ltb,
  if◌then◌else◌, Bytes, codes, length, get_elem?, strcmp, copy_into, ℤ, negsuc,
}
use co_write_file_system.Common.Array.{insert_at, remove_at}
use co_write_file_system.Storage.Disk.{
  Disk, written, open_fails, write_fails, rename_fails, put_cell, unlink,
}

pub record SsFile : Type 0 where
  pub name : Bytes
  pub owner : Bytes
  pub data_path : Bytes
  pub meta_path : Bytes
  pub undo_path : Bytes
  pub created : ℕ
  pub modified : ℕ
  pub last_access : ℕ
  pub last_access_user : Bytes
  pub word_count : ℕ
  pub char_count : ℕ
  pub lock_active : Bool
  pub lock_user : Bytes
  pub lock_sentence : ℤ

-- The checkpoint directory is only used by ss/ss_main.c.
pub record SsState : Type 0 where
  pub files_dir : Bytes
  pub meta_dir : Bytes
  pub undo_dir : Bytes
  pub checkpoints_dir : Bytes
  pub files : List SsFile

-- A name that is found, with its index, or the index at which it would stand.
pub data Lookup : Type 0 where
  found : ℕ → Lookup
  absent : ℕ → Lookup

-- The entry that ss_state_find returns a pointer to.
abbrev pub entry_at : List SsFile → Lookup → Option SsFile
entry_at files (absent i) = none
entry_at files (found i) = get_elem? files i

abbrev pub mid : ℕ → ℕ → ℕ
mid lo hi = lo + (hi - lo) / 2

pub find_loop : ℕ → Bytes → List SsFile → ℕ → ℕ → Lookup
find_loop zero name files lo hi = absent lo
find_loop (suc fuel) name files lo hi = elim (ltb lo hi) [
  | false ↦ absent lo
  | true ↦ elim (get_elem? files (mid lo hi)) [
    | none ↦ absent lo
    | some candidate ↦ elim (strcmp candidate.name name) [
      | Ordering.eq ↦ found (mid lo hi)
      | Ordering.lt ↦ find_loop fuel name files (mid lo hi + 1) hi
      | Ordering.gt ↦ find_loop fuel name files lo (mid lo hi)
    ]
  ]
]

unfoldable pub ss_state_find : List SsFile → Bytes → Lookup
unfolding find_loop
ss_state_find files name = find_loop (suc (length files)) name files 0 (length files)

pub insert_loop : ℕ → Bytes → List SsFile → ℕ → ℕ → ℕ
insert_loop zero name files lo hi = lo
insert_loop (suc fuel) name files lo hi = elim (ltb lo hi) [
  | false ↦ lo
  | true ↦ elim (get_elem? files (mid lo hi)) [
    | none ↦ lo
    | some candidate ↦ elim (strcmp candidate.name name) [
      | Ordering.lt ↦ insert_loop fuel name files (mid lo hi + 1) hi
      | _ ↦ insert_loop fuel name files lo (mid lo hi)
    ]
  ]
]

unfoldable pub insert_sorted : List SsFile → SsFile → List SsFile
unfolding insert_loop
insert_sorted files file =
    insert_at files (insert_loop (suc (length files)) file.name files 0 (length files)) file

-- `%ld` and `%zu`: decimal digits, of which a 64-bit number has at most twenty.
unfoldable pub decimal : ℕ → ℕ → Bytes
decimal zero n = []
decimal (suc fuel) n =
    let front = decimal fuel (n / 10) in
    if ltb n 10 then (48 + n) ∷ [] else front ++ (48 + n % 10) ∷ []

abbrev pub line : Bytes → Bytes → Bytes
line key value = key ++ (58 ∷ (value ++ 10 ∷ []))

unfoldable pub meta_text : SsFile → Bytes
unfolding decimal
meta_text file =
    line (codes "owner") file.owner
    ++ (line (codes "created") (decimal 20 file.created)
        ++ (line (codes "modified") (decimal 20 file.modified)
            ++ (line (codes "last_access") (decimal 20 file.last_access)
                ++ (line (codes "last_access_user") file.last_access_user
                    ++ (line (codes "word_count") (decimal 20 file.word_count)
                        ++ line (codes "char_count") (decimal 20 file.char_count))))))

-- A file opened by `fopen(path, "w")`, which empties it, and written with no check of the writes.
unfoldable pub fopen_write : Disk → Bytes → Bytes → Disk × Bool
fopen_write d path content = elim (d.outcome path) [
  | open_fails ↦ (d, false)
  | write_fails ↦ (put_cell d path (some []), true)
  | written ↦ (put_cell d path (some content), true)
  | rename_fails ↦ (put_cell d path (some content), true)
]

unfoldable pub write_meta_file : Disk → SsFile → Disk × Bool
unfolding fopen_write meta_text
write_meta_file d file = fopen_write d file.meta_path (meta_text file)

unfoldable pub ss_state_save_meta : Disk → SsFile → Disk × Bool
unfolding write_meta_file
ss_state_save_meta d file = write_meta_file d file

-- `fill_paths`, and the fields that `ss_state_add` sets.
abbrev pub path_in : Bytes → Bytes → Bytes → Bytes
path_in dir name suffix = copy_into 512 (dir ++ (47 ∷ (name ++ suffix)))

abbrev pub new_file : SsState → ℕ → Bytes → Bytes → SsFile
new_file st now name owner = record {
  name = copy_into 128 name;
  owner = copy_into 64 owner;
  data_path = path_in st.files_dir name [];
  meta_path = path_in st.meta_dir name (codes ".meta");
  undo_path = path_in st.undo_dir name (codes ".undo");
  created = now;
  modified = now;
  last_access = now;
  last_access_user = copy_into 64 owner;
  word_count = 0;
  char_count = 0;
  lock_active = false;
  lock_user = [];
  lock_sentence = negsuc 0;
}

abbrev pub with_files : SsState → List SsFile → SsState
with_files st files = record st { files = files }

-- `write_meta_file(array_get(&state->files, idx))`; no element at the index is a crash there.
abbrev pub write_meta_at : Disk → List SsFile → ℕ → Disk × Bool
write_meta_at d files idx = elim (get_elem? files idx) [
  | none ↦ (d, false)
  | some file ↦ write_meta_file d file
]

-- ss_state_add from the insertion on: the state and the disk, and whether the result is 0. A step
-- that fails takes the entry out again.
unfoldable pub add_at : SsState → Disk → SsFile → ℕ → SsState × Disk × Bool
add_at st d file idx =
    let files = insert_sorted st.files file in
    let created = fopen_write d file.data_path [] in
    let described = write_meta_at created.0 files idx in
    if created.1
    then if described.1
      then (with_files st files, described.0, true)
      else (with_files st (remove_at files idx), unlink described.0 file.data_path, false)
    else (with_files st (remove_at files idx), created.0, false)

unfoldable pub ss_state_add : SsState → Disk → ℕ → Bytes → Bytes → SsState × Disk × Bool
ss_state_add st d now name owner = elim (ss_state_find st.files name) [
  | found _ ↦ (st, d, false)
  | absent idx ↦ add_at st d (new_file st now name owner) idx
]

unfoldable pub ss_state_remove : SsState → Disk → Bytes → SsState × Disk × Bool
ss_state_remove st d name = elim (ss_state_find st.files name) [
  | absent _ ↦ (st, d, false)
  | found idx ↦ elim (get_elem? st.files idx) [
    | none ↦ (st, d, false)
    | some file ↦ (
      with_files st (remove_at st.files idx),
      unlink (unlink (unlink d file.data_path) file.meta_path) file.undo_path,
      true,
    )
  ]
]
