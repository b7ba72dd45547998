-- ===== src/Manager/Cache/Laws.antt =====
-- nm/nm_state.c: what nm_cache_put leaves in the cache.
use co_write_file_system.Prelude.{
  ℕ, zero, suc, subst, ◌-◌, ◌≤◌, ◌<◌, ◌≡◌, refl, inl, inr, sym, ap, ◌∙◌, false, List, [], ◌∷◌, ◌++◌,
  Option, none, some, leb, arith, Bytes, length, length-append, get_elem?, set, take, str_eq,
  str_eq_iff, copy_into_fits, All, ℤ, Bool-cases, Option-cases,
}
use co_write_file_system.Manager.Cache.{
  CacheEntry, nm_cache_lookup, update_cached, evict, oldest, new_cached, put_absent, nm_cache_put,
}

-- No entry has the name.
abbrev Lacks : Bytes → List CacheEntry → Type 0
Lacks name cache = All (λ e. str_eq e.name name ≡ false) cache

update-Lacks :
    (now : ℕ) (cache : List CacheEntry) (name : Bytes) (index : ℤ)
    → update_cached now cache name index ≡ none
    → Lacks name cache
unfolding update_cached
update-Lacks now [] name index h = tt
update-Lacks now (e ∷ cache) name index h = elim (Bool-cases (str_eq e.name name)) [
  | inl q ↦ absurd (ground (arith, h, q))
  | inr q ↦ elim (Option-cases (update_cached now cache name index)) [
    | inl r ↦ (q, update-Lacks now cache name index r)
    | inr (x, r) ↦ absurd (ground (arith, h, q, r))
  ]
]

update-finds :
    (now at : ℕ) (cache after : List CacheEntry) (name : Bytes) (index : ℤ)
    → update_cached now cache name index ≡ some after
    → ((nm_cache_lookup at after name).1 ≡ some index) × (length after ≡ length cache)
unfolding update_cached nm_cache_lookup
update-finds now at [] after name index h = absurd (cc h)
update-finds now at (e ∷ cache) after name index h = elim (Bool-cases (str_eq e.name name)) [
  | inl q ↦
      let same : record e { ss_index = index; last_used = now } ∷ cache ≡ after =
        ground (arith, h, q) in
      subst (λ x. ((nm_cache_lookup at x name).1 ≡ some index) × (length x ≡ length (e ∷ cache)))
        same (rw q refl, refl)
  | inr q ↦ elim (Option-cases (update_cached now cache name index)) [
    | inl r ↦ absurd (ground (arith, h, q, r))
    | inr (x, r) ↦
        let same : e ∷ x ≡ after = ground (arith, h, q, r) in
        let (found, long) = update-finds now at cache x name index r in
        subst (λ x. ((nm_cache_lookup at x name).1 ≡ some index) × (length x ≡ length (e ∷ cache)))
          same (rw (q, found) refl, ap suc long)
  ]
]

Lacks-set :
    (name : Bytes) (cache : List CacheEntry) (i : ℕ) (e : CacheEntry)
    → str_eq e.name name ≡ false
    → Lacks name cache
    → Lacks name (set cache i e)
Lacks-set name [] i e q l = tt
Lacks-set name (x ∷ cache) zero e q (_, l) = (q, l)
Lacks-set name (x ∷ cache) (suc i) e q (p, l) = (p, Lacks-set name cache i e q l)

Lacks-take :
    (name : Bytes) (cache : List CacheEntry) (n : ℕ) → Lacks name cache → Lacks name (take n cache)
Lacks-take name cache zero l = tt
Lacks-take name [] (suc n) l = tt
Lacks-take name (x ∷ cache) (suc n) (p, l) = (p, Lacks-take name cache n l)

Lacks-at :
    (name : Bytes) (cache : List CacheEntry) (i : ℕ) (e : CacheEntry)
    → get_elem? cache i ≡ some e
    → Lacks name cache
    → str_eq e.name name ≡ false
Lacks-at name [] i e h l = absurd (cc h)
Lacks-at name (x ∷ cache) zero e h (p, l) =
    let same : x ≡ e = ground (arith, h) in ap (λ y. str_eq y.name name) (sym same) ∙ p
Lacks-at name (x ∷ cache) (suc i) e h (p, l) = Lacks-at name cache i e h l

length-take_le : (cache : List CacheEntry) (n : ℕ) → length (take n cache) ≤ n
length-take_le cache zero = omega arith
length-take_le [] (suc n) = omega arith
length-take_le (x ∷ cache) (suc n) = omega (arith, length-take_le cache n)

evict-Lacks : (name : Bytes) (cache : List CacheEntry) → Lacks name cache → Lacks name (evict cache)
unfolding evict
evict-Lacks name cache l = elim (Option-cases (get_elem? cache (length cache - 1))) [
  | inl e ↦ rw (e, evict) l
  | inr (last, e) ↦
      rw (e, evict)
        (Lacks-take name _ (length cache - 1)
          (Lacks-set name cache (oldest cache) last (Lacks-at name cache _ last e l) l))
]

get_elem?-none : (cache : List CacheEntry) (i : ℕ) → get_elem? cache i ≡ none → length cache ≤ i
get_elem?-none [] i h = omega arith
get_elem?-none (x ∷ cache) zero h = absurd (cc h)
get_elem?-none (x ∷ cache) (suc i) h = omega (arith, get_elem?-none cache i h)

length-evict :
    (cache : List CacheEntry) → 0 < length cache → length (evict cache) ≤ length cache - 1
unfolding evict
length-evict cache h = elim (Option-cases (get_elem? cache (length cache - 1))) [
  | inl e ↦ absurd (omega (arith, get_elem?-none cache _ e))
  | inr (last, e) ↦ rw (e, evict) (length-take_le _ (length cache - 1))
]

lookup-append :
    (at : ℕ) (cache : List CacheEntry) (e : CacheEntry) (name : Bytes)
    → Lacks name cache
    → e.name ≡ name
    → (nm_cache_lookup at (cache ++ e ∷ []) name).1 ≡ some e.ss_index
unfolding nm_cache_lookup
lookup-append at [] e name l h = rw ((str_eq_iff e.name name).1 h) refl
lookup-append at (x ∷ cache) e name (p, l) h = rw (p, lookup-append at cache e name l h) refl

-- What nm_cache_put leaves: the name is found with its server, and the cache keeps its bound.
abbrev Puts : ℕ → List CacheEntry → Bytes → ℤ → Type 0
Puts at after name index = ((nm_cache_lookup at after name).1 ≡ some index) × (length after ≤ 128)

put-Puts :
    (now at : ℕ) (cache : List CacheEntry) (name : Bytes) (index : ℤ) (r : Option (List CacheEntry))
    → length name < 128
    → length cache ≤ 128
    → update_cached now cache name index ≡ r
    → Puts at (put_absent now cache name index r) name index
put-Puts now at cache name index (some after) fits bound e =
    let (found, long) = update-finds now at cache after name index e in (found, omega arith)
put-Puts now at cache name index none fits bound e =
    let lacks = update-Lacks now cache name index e in
    let named = copy_into_fits 128 name (omega arith) in
    elim (Bool-cases (leb 128 (length cache))) [
      | inl full ↦ rw full (
        lookup-append at (evict cache) (new_cached now name index) name
            (evict-Lacks name cache lacks) named,
        let long = length-append (evict cache) (new_cached now name index ∷ []) in
            ground (arith, long, length-evict cache),
      )
      | inr room ↦ rw room (
        lookup-append at cache (new_cached now name index) name lacks named,
        let long = length-append cache (new_cached now name index ∷ []) in ground (arith, long),
      )
    ]

-- After nm_cache_put of a name that fits in its field, a lookup of the name gives the server that was
-- put, at whatever time, and the cache has at most 128 entries, if it had before.
pub nm_cache_put_lem :
    (now at : ℕ) (cache : List CacheEntry) (name : Bytes) (index : ℤ)
    → length name < 128
    → length cache ≤ 128
    → ((nm_cache_lookup at (nm_cache_put now cache name index) name).1 ≡ some index)
      × (length (nm_cache_put now cache name index) ≤ 128)
unfolding nm_cache_put
nm_cache_put_lem now at cache name index fits bound =
    put-Puts now at cache name index _ fits bound refl
