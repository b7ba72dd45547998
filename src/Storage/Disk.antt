-- ===== src/Storage/Disk.antt =====
-- ss/ss_main.c, load_text and store_text_atomic, over the files of the operating system: what each
-- path holds, how far the next write of a path gets, and which paths unlink can remove.
pub mod Laws
use co_write_file_system.Prelude.{
  Bool, true, false, List, [], ◌∷◌, ◌++◌, Option, none, some, ◌==◌, if◌then◌else◌, Bytes, codes,
  str_eq, copy_into, ℕ,
}
use mathlib.Core.Option

pub data WriteOutcome : Type 0 where
  written open_fails write_fails rename_fails : WriteOutcome

pub record Disk : Type 0 where
  pub cells : Bytes → Option Bytes
  pub outcome : Bytes → WriteOutcome
  pub unlinks : Bytes → Bool

-- The bytes up to the first NUL, which are the C string in a buffer.
unfoldable pub c_string : Bytes → Bytes
c_string [] = []
c_string (c ∷ s) = if c == 0 then [] else c ∷ c_string s

unfoldable pub put_cell : Disk → Bytes → Option Bytes → Disk
put_cell d path v = record d { cells = λ q. if str_eq path q then v else d.cells q }

-- A file that cannot be opened gives NULL.
unfoldable pub load_text : Disk → Bytes → Option Bytes
unfolding c_string
load_text d path = elim (d.cells path) [ none ↦ none | some content ↦ some (c_string content) ]

-- `char *text = load_text(...); if (!text) text = strdup("");`
unfoldable pub load_or_empty : Disk → Bytes → Bytes
load_or_empty d path = elim (load_text d path) [ none ↦ [] | some text ↦ text ]

abbrev pub tmp_path : Bytes → Bytes
tmp_path path = copy_into 512 (path ++ codes ".tmp")

unfoldable pub unlink : Disk → Bytes → Disk
unfolding put_cell
unlink d path = if d.unlinks path then put_cell d path none else d

-- The result is true for 0 and false for -1. The content goes to a temporary file, which rename puts
-- at the path; after a failure it is unlinked, which may fail too. A write that fails writes nothing.
unfoldable pub store_text_atomic : Disk → Bytes → Bytes → Disk × Bool
unfolding unlink put_cell
store_text_atomic d path content = elim (d.outcome path) [
  | written ↦ (put_cell (put_cell d (tmp_path path) none) path (some content), true)
  | open_fails ↦ (d, false)
  | write_fails ↦ (unlink (put_cell d (tmp_path path) (some [])) (tmp_path path), false)
  | rename_fails ↦ (unlink (put_cell d (tmp_path path) (some content)) (tmp_path path), false)
]
