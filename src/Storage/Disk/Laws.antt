-- ===== src/Storage/Disk/Laws.antt =====
-- What a store leaves for the next load.
use co_write_file_system.Prelude.{
  if◌then◌else◌, ◌≡◌, ◌≢◌, refl, subst, inl, inr, Option-cases, true, [], ◌∷◌, Option, none, some,
  arith, Bytes, All, str_eq_iff,
}
use co_write_file_system.Storage.Disk.{
  Disk, written, c_string, put_cell, load_text, load_or_empty, unlink, tmp_path, store_text_atomic,
}

-- A text with no NUL in it, as every C string is.
abbrev pub IsText : Bytes → Type 0
IsText = All (λ c. c ≢ 0)

pub c_string_text : (s : Bytes) → IsText s → c_string s ≡ s
unfolding c_string
c_string_text [] h = refl
c_string_text (c ∷ s) h = ground (arith, c_string_text s)

c_string-IsText : (s : Bytes) → IsText (c_string s)
unfolding c_string
c_string-IsText [] = tt
c_string-IsText (c ∷ s) = ground (arith, c_string-IsText s)

abbrev c_string? : Option Bytes → Option Bytes
c_string? none = none
c_string? (some c) = some (c_string c)

c_string?-IsText : (o : Option Bytes) {s : Bytes} → c_string? o ≡ some s → IsText s
c_string?-IsText none h = cc h
c_string?-IsText (some c) {s} h = let e : c_string c ≡ s = cc in subst IsText e (c_string-IsText c)

load_text-c_string? : (d : Disk) (path : Bytes) → load_text d path ≡ c_string? (d.cells path)
unfolding load_text
load_text-c_string? d path = ground arith

pub load_text-IsText : (d : Disk) (path : Bytes) {s : Bytes} → load_text d path ≡ some s → IsText s
load_text-IsText d path h = c_string?-IsText (d.cells path) (rw (← load_text-c_string? d path) h)

pub load_or_empty-IsText : (d : Disk) (path : Bytes) → IsText (load_or_empty d path)
load_or_empty-IsText d path = elim (Option-cases (load_text d path)) [
  | inl e ↦ unfold load_or_empty in rw (e, load_or_empty) tt
  | inr (s, e) ↦ unfold load_or_empty in rw (e, load_or_empty) (load_text-IsText d path e)
]

-- A store that succeeds is what the next load reads.
pub load_text-store :
    (d : Disk) (path content : Bytes)
    → IsText content
    → (store_text_atomic d path content).1 ≡ true
    → load_text (store_text_atomic d path content).0 path ≡ some content
unfolding load_text store_text_atomic put_cell
load_text-store d path content h done =
    ground (arith, str_eq_iff path path, c_string_text content h)

-- A path other than the one stored and its temporary file keeps its content, also on failure.
pub load_text-store_ne :
    (d : Disk) (path q content : Bytes)
    → q ≢ path
    → q ≢ tmp_path path
    → load_text (store_text_atomic d path content).0 q ≡ load_text d q
unfolding load_text store_text_atomic put_cell unlink
load_text-store_ne d path q content n m =
    ground (arith, str_eq_iff path q, str_eq_iff (tmp_path path) q)

pub load_text-unlink :
    (d : Disk) (path : Bytes)
    → load_text (unlink d path) path ≡ (if d.unlinks path then none else load_text d path)
unfolding load_text unlink put_cell
load_text-unlink d path = ground (arith, str_eq_iff path path)

pub load_text-unlink_ne :
    (d : Disk) (path q : Bytes) → q ≢ path → load_text (unlink d path) q ≡ load_text d q
unfolding load_text unlink put_cell
load_text-unlink_ne d path q n = ground (arith, str_eq_iff path q)

-- A store does not change which paths can be removed.
pub store-unlinks :
    (d : Disk) (path content q : Bytes)
    → (store_text_atomic d path content).0.unlinks q ≡ d.unlinks q
unfolding store_text_atomic put_cell unlink
store-unlinks d path content q = ground arith

-- A store does not change how far later writes get.
pub store-outcome :
    (d : Disk) (path content q : Bytes)
    → (store_text_atomic d path content).0.outcome q ≡ d.outcome q
unfolding store_text_atomic put_cell unlink
store-outcome d path content q = ground arith

pub store_written :
    (d : Disk) (path content : Bytes)
    → d.outcome path ≡ written
    → (store_text_atomic d path content).1 ≡ true
unfolding store_text_atomic
store_written d path content h = ground arith
