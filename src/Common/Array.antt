-- ===== src/Common/Array.antt =====
-- common/array.c: the growable array. The bytes of the elements are a list; `data`, the pointer, is
-- only moved by realloc. Whether a realloc succeeds is the argument `alloc`, by the number of
-- elements asked for. Capacities stay within `size_t`.
pub mod Laws
use co_write_file_system.Prelude.{
  ℕ, zero, suc, ◌+◌, ◌-◌, ◌*◌, Bool, true, false, List, [], ◌∷◌, ◌++◌, Option, none, some, ltb, leb,
  ◌==◌, if◌then◌else◌, length, get_elem?, take, drop,
}

pub record Array {ℓ} (A : Type ℓ) : Type ℓ where
  pub items : List A
  pub cap : ℕ

module _ {ℓ} {A : Type ℓ} where
  -- The two memory moves.
  abbrev pub insert_at : List A → ℕ → A → List A
  insert_at xs i v = take i xs ++ v ∷ drop i xs

  abbrev pub remove_at : List A → ℕ → List A
  remove_at xs i = take i xs ++ drop (suc i) xs

  unfoldable pub array_init : Array A
  array_init = record { items = []; cap = 0 }

  unfoldable pub array_free : Array A → Array A
  array_free arr = record { items = []; cap = 0 }

-- `while (new_cap < min_capacity) new_cap *= 2;`
pub double_until : ℕ → ℕ → ℕ → ℕ
double_until zero wanted cap = cap
double_until (suc fuel) wanted cap = elim (ltb cap wanted) [
  | true ↦ double_until fuel wanted (cap * 2)
  | false ↦ cap
]

pub grown_cap : ℕ → ℕ → ℕ
unfolding double_until
grown_cap cap wanted = double_until wanted wanted (if cap == 0 then 8 else cap * 2)

module _ {ℓ} {A : Type ℓ} (alloc : ℕ → Bool) where
  -- `none` is the result -1, with the array as it was.
  unfoldable pub array_grow : Array A → ℕ → Option (Array A)
  unfolding grown_cap
  array_grow arr wanted =
      if leb wanted arr.cap
      then some arr
      else if alloc (grown_cap arr.cap wanted)
      then some (record arr { cap = grown_cap arr.cap wanted })
      else none

  unfoldable pub array_reserve : Array A → ℕ → Option (Array A)
  unfolding array_grow
  array_reserve arr capacity = array_grow arr capacity

  unfoldable pub array_push : Array A → A → Option (Array A)
  unfolding array_grow
  array_push arr v = elim (array_grow arr (length arr.items + 1)) [
    | none ↦ none
    | some grown ↦ some (record grown { items = grown.items ++ v ∷ [] })
  ]

  unfoldable pub array_insert : Array A → ℕ → A → Option (Array A)
  unfolding array_grow
  array_insert arr index v = elim (ltb (length arr.items) index) [
    | true ↦ none
    | false ↦ elim (array_grow arr (length arr.items + 1)) [
      | none ↦ none
      | some grown ↦ some (record grown { items = insert_at grown.items index v })
    ]
  ]

module _ {ℓ} {A : Type ℓ} where
  unfoldable pub array_get : Array A → ℕ → Option A
  array_get arr index = if leb (length arr.items) index then none else get_elem? arr.items index

  unfoldable pub array_remove : Array A → ℕ → Array A
  array_remove arr index =
      if leb (length arr.items) index then arr else record arr { items = remove_at arr.items index }
