-- ===== src/Manager/Servers/Registers.antt =====
-- nm/nm_state.c: nm_register_server and nm_mark_server_down, by what the table answers after them.
use co_write_file_system.Prelude.{
  ℕ, ◌≤◌, ◌<◌, ◌≡◌, ◌≢◌, refl, inl, inr, sym, ap, ◌∙◌, Bool, true, false, ◌&&◌, [], ◌∷◌, ◌++◌,
  Option, none, some, leb, arith, Bytes, Bool-cases, Option-cases, length, get_elem?,
  copy_into_fits, ℤ, pos,
}
use co_write_file_system.Manager.Servers.{
  Servers, StorageServer, available_at, server_is_available, nonneg, nm_find_server_by_id,
  nm_register_server, nm_mark_server_down, register_found, refresh, refresh_at, blank, down,
  down_at,
}
use co_write_file_system.Manager.Servers.Table.{
  get_elem?-set_self, get_elem?-set_other, get_elem?-inside, get_elem?-append_left,
  get_elem?-append_new, find-set, find-at, find-append, find-append_new, Registered,
}

and-true : (b : Bool) → (b && true) ≡ b
and-true true = refl
and-true false = refl

module _ (t : Servers) (id host ctrl_port data_port : Bytes) (fd : ℤ) (fits : length id < 128) where
  abbrev fresh : StorageServer → StorageServer
  fresh s = refresh s host ctrl_port data_port fd

  known-Registered :
      (i : ℕ)
      → nm_find_server_by_id t.servers id ≡ some i
      → Registered t.servers (refresh_at t.servers i host ctrl_port data_port fd) id fd i
  known-Registered i e =
      let (s, at, named) = find-at t.servers id i e in
      rw (at, refresh_at)
        (
          find-set t.servers i s (fresh s) id at refl ∙ e,
          ap server_is_available
                (get_elem?-set_self t.servers i (fresh s) (get_elem?-inside t.servers i s at))
              ∙ and-true (nonneg fd),
          λ q n. find-set t.servers i s (fresh s) q at refl,
          λ j h n. get_elem?-set_other t.servers i j (fresh s) n,
        )

  named_new : (fresh (blank id)).id ≡ id
  named_new = copy_into_fits 128 id (omega arith)

  new-Registered :
      nm_find_server_by_id t.servers id ≡ none
      → Registered t.servers (t.servers ++ fresh (blank id) ∷ []) id fd (length t.servers)
  new-Registered e = (
    find-append_new t.servers _ id named_new e,
    ap server_is_available (get_elem?-append_new t.servers _) ∙ and-true (nonneg fd),
    λ q n. find-append t.servers _ q (λ z. n (sym named_new ∙ z)),
    λ j h n. get_elem?-append_left t.servers _ j h,
  )

  -- What the registration returns, by what it found.
  abbrev pub Registers : Servers × Option ℕ → Type 0
  Registers (after, none) =
      (after ≡ t) × (nm_find_server_by_id t.servers id ≡ none) × (32 ≤ length t.servers)
  Registers (after, some i) = Registered t.servers after.servers id fd i

  found-Registers :
      (r : Option ℕ)
      → nm_find_server_by_id t.servers id ≡ r
      → Registers (register_found t r id host ctrl_port data_port fd)
  found-Registers (some i) e = known-Registered i e
  found-Registers none e = elim (Bool-cases (leb 32 (length t.servers))) [
    | inl full ↦ rw full (refl, e, ground arith)
    | inr room ↦ rw room (new-Registered e)
  ]

  -- A registration under an id that fits in its field returns an index under which the server is
  -- then found by its id, available exactly when its descriptor is not negative, and leaves every
  -- other server and what every other id finds; it returns -1, and changes nothing, only for a new
  -- id when 32 servers are registered.
  pub nm_register_server-Registers : Registers (nm_register_server t id host ctrl_port data_port fd)
  unfolding nm_register_server
  nm_register_server-Registers = found-Registers _ refl

-- A server that is marked down is not available; the other servers stay as they were, and the ids
-- find what they found.
pub nm_mark_server_down_lem :
    (t : Servers) (i : ℕ)
    → (available_at (nm_mark_server_down t (pos i)).servers i ≡ false)
      × ((j : ℕ)
          → i ≢ j
          → get_elem? (nm_mark_server_down t (pos i)).servers j ≡ get_elem? t.servers j)
      × ((q : Bytes)
          → nm_find_server_by_id (nm_mark_server_down t (pos i)).servers q
            ≡ nm_find_server_by_id t.servers q)
unfolding nm_mark_server_down
nm_mark_server_down_lem t i = elim (Option-cases (get_elem? t.servers i)) [
  | inl e ↦ rw (e, down_at) (ap server_is_available e, λ j n. refl, λ q. refl)
  | inr (s, e) ↦
      rw (e, down_at)
        (
          ap server_is_available
              (get_elem?-set_self t.servers i (down s) (get_elem?-inside t.servers i s e)),
          λ j n. get_elem?-set_other t.servers i j (down s) n,
          λ q. find-set t.servers i s (down s) q e refl,
        )
]
