-- ===== src/Manager/Servers/Table.antt =====
-- nm/nm_state.c: the table of the servers under the writes of nm_register_server and nm_mark_server_down.
use co_write_file_system.Prelude.{
  ℕ, zero, suc, ◌<◌, ◌≡◌, ◌≢◌, refl, inl, inr, sym, ap, subst, ◌∙◌, List, [], ◌∷◌, ◌++◌, none, some,
  if◌then◌else◌, arith, Bytes, Bool-cases, Option-cases, length, get_elem?, set, str_eq, str_eq_iff,
  ℤ,
}
use co_write_file_system.Manager.Servers.{
  StorageServer, available_at, nonneg, shift, nm_find_server_by_id,
}

pub get_elem?-set_self :
    (servers : List StorageServer) (i : ℕ) (s : StorageServer)
    → i < length servers
    → get_elem? (set servers i s) i ≡ some s
get_elem?-set_self [] i s h = absurd (omega arith)
get_elem?-set_self (x ∷ servers) zero s h = refl
get_elem?-set_self (x ∷ servers) (suc i) s h = get_elem?-set_self servers i s (omega arith)

pub get_elem?-set_other :
    (servers : List StorageServer) (i j : ℕ) (s : StorageServer)
    → i ≢ j
    → get_elem? (set servers i s) j ≡ get_elem? servers j
get_elem?-set_other [] i j s n = refl
get_elem?-set_other (x ∷ servers) zero zero s n = absurd (n refl)
get_elem?-set_other (x ∷ servers) zero (suc j) s n = refl
get_elem?-set_other (x ∷ servers) (suc i) zero s n = refl
get_elem?-set_other (x ∷ servers) (suc i) (suc j) s n =
    get_elem?-set_other servers i j s (λ e. n (ap suc e))

pub get_elem?-inside :
    (servers : List StorageServer) (i : ℕ) (s : StorageServer)
    → get_elem? servers i ≡ some s
    → i < length servers
get_elem?-inside [] i s e = absurd (cc e)
get_elem?-inside (x ∷ servers) zero s e = omega arith
get_elem?-inside (x ∷ servers) (suc i) s e = omega (arith, get_elem?-inside servers i s e)

pub get_elem?-append_left :
    (servers : List StorageServer) (s : StorageServer) (j : ℕ)
    → j < length servers
    → get_elem? (servers ++ s ∷ []) j ≡ get_elem? servers j
get_elem?-append_left [] s j h = absurd (omega arith)
get_elem?-append_left (x ∷ servers) s zero h = refl
get_elem?-append_left (x ∷ servers) s (suc j) h = get_elem?-append_left servers s j (omega arith)

pub get_elem?-append_new :
    (servers : List StorageServer) (s : StorageServer)
    → get_elem? (servers ++ s ∷ []) (length servers) ≡ some s
get_elem?-append_new [] s = refl
get_elem?-append_new (x ∷ servers) s = get_elem?-append_new servers s

pub find-set :
    (servers : List StorageServer) (i : ℕ) (s s' : StorageServer) (q : Bytes)
    → get_elem? servers i ≡ some s
    → s'.id ≡ s.id
    → nm_find_server_by_id (set servers i s') q ≡ nm_find_server_by_id servers q
unfolding nm_find_server_by_id
find-set [] i s s' q e same = refl
find-set (x ∷ servers) zero s s' q e same =
    let first : x.id ≡ s.id = ground (arith, e) in
    ap (λ n. if str_eq n q then some 0 else shift (nm_find_server_by_id servers q))
      (same ∙ sym first)
find-set (x ∷ servers) (suc i) s s' q e same =
    ap (λ r. if str_eq x.id q then some 0 else shift r) (find-set servers i s s' q e same)

pub find-at :
    (servers : List StorageServer) (q : Bytes) (i : ℕ)
    → nm_find_server_by_id servers q ≡ some i
    → (s : StorageServer) × (get_elem? servers i ≡ some s) × (s.id ≡ q)
unfolding nm_find_server_by_id
find-at [] q i e = absurd (cc e)
find-at (x ∷ servers) q i e = elim (Bool-cases (str_eq x.id q)) [
  | inl h ↦
      let first : 0 ≡ i = ground (arith, e, h) in
      subst (λ k. (s : StorageServer) × (get_elem? (x ∷ servers) k ≡ some s) × (s.id ≡ q)) first
        (x, refl, (str_eq_iff x.id q).0 h)
  | inr h ↦ elim (Option-cases (nm_find_server_by_id servers q)) [
    | inl r ↦ absurd (ground (arith, e, h, r))
    | inr (k, r) ↦
        let next : suc k ≡ i = ground (arith, e, h, r) in
        subst (λ k. (s : StorageServer) × (get_elem? (x ∷ servers) k ≡ some s) × (s.id ≡ q)) next
          (find-at servers q k r)
  ]
]

pub find-append :
    (servers : List StorageServer) (s : StorageServer) (q : Bytes)
    → s.id ≢ q
    → nm_find_server_by_id (servers ++ s ∷ []) q ≡ nm_find_server_by_id servers q
unfolding nm_find_server_by_id
find-append [] s q n = elim (Bool-cases (str_eq s.id q)) [
  | inl h ↦ absurd (n ((str_eq_iff s.id q).0 h))
  | inr h ↦ rw h refl
]
find-append (x ∷ servers) s q n =
    ap (λ r. if str_eq x.id q then some 0 else shift r) (find-append servers s q n)

pub find-append_new :
    (servers : List StorageServer) (s : StorageServer) (q : Bytes)
    → s.id ≡ q
    → nm_find_server_by_id servers q ≡ none
    → nm_find_server_by_id (servers ++ s ∷ []) q ≡ some (length servers)
unfolding nm_find_server_by_id
find-append_new [] s q e h = rw ((str_eq_iff s.id q).1 e) refl
find-append_new (x ∷ servers) s q e h = elim (Bool-cases (str_eq x.id q)) [
  | inl a ↦ absurd (ground (arith, h, a))
  | inr a ↦ elim (Option-cases (nm_find_server_by_id servers q)) [
    | inl r ↦ rw (a, find-append_new servers s q e r) refl
    | inr (k, r) ↦ absurd (ground (arith, h, a, r))
  ]
]

-- What a table answers once the server `id` is registered at `i`.
abbrev pub Registered : List StorageServer → List StorageServer → Bytes → ℤ → ℕ → Type 0
Registered before after id fd i =
    (nm_find_server_by_id after id ≡ some i)
    × (available_at after i ≡ nonneg fd)
    × ((q : Bytes) → id ≢ q → nm_find_server_by_id after q ≡ nm_find_server_by_id before q)
    × ((j : ℕ) → j < length before → i ≢ j → get_elem? after j ≡ get_elem? before j)
