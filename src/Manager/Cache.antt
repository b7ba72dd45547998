-- ===== src/Manager/Cache.antt =====
-- nm/nm_state.c: the cache from file names to servers, and the table of the users. The argument
-- `now` is time(NULL).
pub mod Laws
use co_write_file_system.Prelude.{
  ℕ, suc, ◌-◌, List, [], ◌∷◌, ◌++◌, Option, none, some, ltb, leb, if◌then◌else◌, Bytes, length,
  get_elem?, set, take, str_eq, copy_into, ℤ,
}

pub record CacheEntry : Type 0 where
  pub name : Bytes
  pub ss_index : ℤ
  pub last_used : ℕ

pub record UserEntry : Type 0 where
  pub name : Bytes
  pub last_seen : ℕ

abbrev pub touch : ℕ → CacheEntry → CacheEntry
touch now entry = record entry { last_used = now }

abbrev pub keep_first : CacheEntry → List CacheEntry × Option ℤ → List CacheEntry × Option ℤ
keep_first entry (cache, result) = (entry ∷ cache, result)

-- `none` is -1.
unfoldable pub nm_cache_lookup : ℕ → List CacheEntry → Bytes → List CacheEntry × Option ℤ
nm_cache_lookup now [] name = ([], none)
nm_cache_lookup now (entry ∷ cache) name =
    let rest = nm_cache_lookup now cache name in
    if str_eq entry.name name
    then (touch now entry ∷ cache, some entry.ss_index)
    else keep_first entry rest

abbrev pub or_add : CacheEntry → Option (List CacheEntry) → Option (List CacheEntry)
or_add entry none = none
or_add entry (some cache) = some (entry ∷ cache)

-- The first loop of nm_cache_put: `none` when no entry has the name.
unfoldable pub update_cached : ℕ → List CacheEntry → Bytes → ℤ → Option (List CacheEntry)
update_cached now [] name index = none
update_cached now (entry ∷ cache) name index =
    let rest = update_cached now cache name index in
    if str_eq entry.name name
    then some (record entry { ss_index = index; last_used = now } ∷ cache)
    else or_add entry rest

-- The second loop, at the index `i`, which looks for the entry that was used the longest time ago.
unfoldable pub oldest_from : List CacheEntry → ℕ → ℕ → ℕ → ℕ
oldest_from [] i oldest oldest_ts = oldest
oldest_from (entry ∷ cache) i oldest oldest_ts =
    if ltb entry.last_used oldest_ts
    then oldest_from cache (suc i) i entry.last_used
    else oldest_from cache (suc i) oldest oldest_ts

abbrev pub oldest : List CacheEntry → ℕ
oldest [] = 0
oldest (entry ∷ cache) = oldest_from cache 1 0 entry.last_used

-- The last entry takes the place of the oldest.
unfoldable pub evict : List CacheEntry → List CacheEntry
evict cache = elim (get_elem? cache (length cache - 1)) [
  | none ↦ cache
  | some last ↦ take (length cache - 1) (set cache (oldest cache) last)
]

abbrev pub new_cached : ℕ → Bytes → ℤ → CacheEntry
new_cached now name index = record { name = copy_into 128 name; ss_index = index; last_used = now }

-- NM_MAX_CACHE is 128.
abbrev pub put_absent : ℕ → List CacheEntry → Bytes → ℤ → Option (List CacheEntry) → List CacheEntry
put_absent now cache name index (some updated) = updated
put_absent now cache name index none =
    (if leb 128 (length cache) then evict cache else cache) ++ new_cached now name index ∷ []

unfoldable pub nm_cache_put : ℕ → List CacheEntry → Bytes → ℤ → List CacheEntry
nm_cache_put now cache name index =
    put_absent now cache name index (update_cached now cache name index)

abbrev pub or_add_user : UserEntry → Option (List UserEntry) → Option (List UserEntry)
or_add_user entry none = none
or_add_user entry (some users) = some (entry ∷ users)

-- find_user with the write to last_seen; `none` when there is no such user.
unfoldable pub see_user : ℕ → List UserEntry → Bytes → Option (List UserEntry)
see_user now [] user = none
see_user now (entry ∷ users) user =
    let rest = see_user now users user in
    if str_eq entry.name user
    then some (record entry { last_seen = now } ∷ users)
    else or_add_user entry rest

abbrev pub new_user : ℕ → Bytes → UserEntry
new_user now user = record { name = copy_into 64 user; last_seen = now }

-- NM_MAX_USERS is 512; `none` is -1.
abbrev pub add_unseen :
    ℕ → List UserEntry → Bytes → Option (List UserEntry) → Option (List UserEntry)
add_unseen now users user (some seen) = some seen
add_unseen now users user none =
    if leb 512 (length users) then none else some (users ++ new_user now user ∷ [])

unfoldable pub nm_add_user : ℕ → List UserEntry → Bytes → Option (List UserEntry)
nm_add_user now users user = add_unseen now users user (see_user now users user)
