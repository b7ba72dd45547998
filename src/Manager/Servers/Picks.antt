-- ===== src/Manager/Servers/Picks.antt =====
-- nm/nm_state.c: nm_pick_server and nm_pick_backup_server.
use co_write_file_system.Prelude.{
  ℕ, zero, suc, ◌-◌, ◌%◌, ◌≤◌, ◌<◌, ◌≡◌, ◌≢◌, refl, inl, inr, sym, ap, subst, ◌∙◌, true, false,
  Option, none, some, ltb, ◌==◌, arith, Bool-cases, Option-cases, mod-below, mod-less, mod-lt,
  length, ℤ,
}
use co_write_file_system.Manager.Servers.{
  Servers, scan, available_at, backup_at, picked_primary, picked_backup, nm_pick_server,
  nm_pick_backup_server,
}
use co_write_file_system.Manager.Servers.Rounds.{IsFirst, distance, scan-IsFirst}

picked_primary_result : (t : Servers) (r : Option ℕ) → (picked_primary t r).1 ≡ r
picked_primary_result t none = refl
picked_primary_result t (some i) = refl

picked_backup_result : (t : Servers) (r : Option ℕ) → (picked_backup t r).1 ≡ r
picked_backup_result t none = refl
picked_backup_result t (some i) = refl

pub pick_step :
    (t : Servers)
    → 0 < length t.servers
    → nm_pick_server t
      ≡ picked_primary t (
          scan
            (length t.servers)
            (available_at t.servers)
            (t.next_primary_index % length t.servers)
            (length t.servers)
            0)
unfolding nm_pick_server
pick_step t h = let e : (length t.servers == 0) ≡ false = ground arith in rw e refl

backup_step :
    (t : Servers) (exclude : ℤ)
    → 0 < length t.servers
    → nm_pick_backup_server t exclude
      ≡ picked_backup t (
          scan
            (length t.servers)
            (backup_at t.servers exclude)
            (t.next_backup_index % length t.servers)
            (length t.servers)
            0)
unfolding nm_pick_backup_server
backup_step t exclude h = let e : (length t.servers == 0) ≡ false = ground arith in rw e refl

pick_empty : (t : Servers) → (length t.servers == 0) ≡ true → nm_pick_server t ≡ (t, none)
unfolding nm_pick_server
pick_empty t e = rw e refl

backup_empty :
    (t : Servers) (exclude : ℤ)
    → (length t.servers == 0) ≡ true
    → nm_pick_backup_server t exclude ≡ (t, none)
unfolding nm_pick_backup_server
backup_empty t exclude e = rw e refl

-- nm_pick_server returns the first available server in the order that starts at its counter and
-- goes round, and -1 exactly when no server is available.
pub nm_pick_server-IsFirst :
    (t : Servers)
    → IsFirst
        (length t.servers)
        (available_at t.servers)
        (t.next_primary_index % length t.servers)
        (nm_pick_server t).1
nm_pick_server-IsFirst t = elim (Bool-cases (length t.servers == 0)) [
  | inl e ↦ rw (pick_empty t e) (λ i h. absurd (ground arith))
  | inr e ↦
      let some_server : 0 < length t.servers = ground arith in
      rw (pick_step t some_server, picked_primary_result t _)
        (scan-IsFirst _ _ _ (mod-lt t.next_primary_index (length t.servers) some_server))
]

-- nm_pick_backup_server does so with its own counter, among the servers other than the excluded
-- one.
pub nm_pick_backup_server-IsFirst :
    (t : Servers) (exclude : ℤ)
    → IsFirst
        (length t.servers)
        (backup_at t.servers exclude)
        (t.next_backup_index % length t.servers)
        (nm_pick_backup_server t exclude).1
nm_pick_backup_server-IsFirst t exclude = elim (Bool-cases (length t.servers == 0)) [
  | inl e ↦ rw (backup_empty t exclude e) (λ i h. absurd (ground arith))
  | inr e ↦
      let some_server : 0 < length t.servers = ground arith in
      rw (backup_step t exclude some_server, picked_backup_result t _)
        (scan-IsFirst _ _ _ (mod-lt t.next_backup_index (length t.servers) some_server))
]

-- The state after some picks.
unfoldable pub after_picks : ℕ → Servers → Servers
after_picks zero t = t
after_picks (suc n) t = after_picks n (nm_pick_server t).0

picked_primary_moves :
    (t : Servers) (r : Option ℕ) (i : ℕ)
    → (picked_primary t r).1 ≡ some i
    → (picked_primary t r).0 ≡ record t { next_primary_index = suc i % length t.servers }
picked_primary_moves t none i e = absurd (ground (arith, e))
picked_primary_moves t (some j) i e =
    let same : j ≡ i = ground (arith, e) in
    ap (λ x. record t { next_primary_index = suc x % length t.servers }) same

pick_moves :
    (t : Servers) (i : ℕ)
    → 0 < length t.servers
    → (nm_pick_server t).1 ≡ some i
    → (nm_pick_server t).0 ≡ record t { next_primary_index = suc i % length t.servers }
pick_moves t i h e =
    let step = pick_step t h in
    ap (λ x. x.0) step ∙ picked_primary_moves t _ i (sym (ap (λ x. x.1) step) ∙ e)

-- The counter stands past the server that was picked: each other server is closer.
closer :
    (count start i j : ℕ)
    → start < count
    → i < count
    → j < count
    → distance count start i ≤ distance count start j
    → i ≢ j
    → distance count (suc i % count % count) j < distance count start j
closer count start i j a b c h n = elim (Bool-cases (ltb (suc i) count)) [
  | inl e ↦
      let k : suc i < count = ground arith in
      rw (mod-below (suc i) count k, mod-below (suc i) count k) (ground arith)
  | inr e ↦
      let zero_next : suc i % count ≡ 0 =
        mod-less (suc i) count (ground arith) (omega arith) ∙ ground arith in
      rw (zero_next, mod-below 0 count (omega arith)) (ground arith)
]

abbrev PickedWithin : Servers → ℕ → ℕ → Type 0
PickedWithin t i n = (k : ℕ) × (k ≤ n) × ((nm_pick_server (after_picks k t)).1 ≡ some i)

PickedWithin-later :
    (t : Servers) (i n : ℕ) → PickedWithin (nm_pick_server t).0 i n → PickedWithin t i (suc n)
unfolding after_picks
PickedWithin-later t i n (k, h, e) = (suc k, omega arith, e)

pick-some :
    (t : Servers) (i : ℕ)
    → i < length t.servers
    → available_at t.servers i ≡ true
    → (j : ℕ) × ((nm_pick_server t).1 ≡ some j)
      × (j < length t.servers)
      × (distance (length t.servers) (t.next_primary_index % length t.servers) j
          ≤ distance (length t.servers) (t.next_primary_index % length t.servers) i)
pick-some t i h e = elim (Option-cases (nm_pick_server t).1) [
  | inl none_picked ↦
      let no =
        subst (IsFirst (length t.servers) (available_at t.servers) _) none_picked
          (nm_pick_server-IsFirst t) i h in
      absurd (cc (e, no))
  | inr (j, picked) ↦
      let (inside, _, first) =
        subst (IsFirst (length t.servers) (available_at t.servers) _) picked
          (nm_pick_server-IsFirst t) in
      (j, picked, inside, first i h e)
]

picks_soon :
    (n : ℕ) (t : Servers) (i : ℕ)
    → i < length t.servers
    → available_at t.servers i ≡ true
    → distance (length t.servers) (t.next_primary_index % length t.servers) i ≤ n
    → PickedWithin t i n
unfolding after_picks
picks_soon zero t i h e d =
    let (j, picked, inside, first) = pick-some t i h e in
    let start : t.next_primary_index % length t.servers < length t.servers =
      mod-lt t.next_primary_index (length t.servers) (omega arith) in
    elim (Bool-cases (j == i)) [
      | inl q ↦ (0, omega arith, picked ∙ ground arith)
      | inr q ↦
          let near = closer _ _ j i start inside h first (ground arith) in absurd (omega arith)
    ]
picks_soon (suc n) t i h e d =
    let (j, picked, inside, first) = pick-some t i h e in
    let start : t.next_primary_index % length t.servers < length t.servers =
      mod-lt t.next_primary_index (length t.servers) (omega arith) in
    elim (Bool-cases (j == i)) [
      | inl q ↦ (0, omega arith, picked ∙ ground arith)
      | inr q ↦
          let near = closer _ _ j i start inside h first (ground arith) in
          PickedWithin-later t i n (
            subst (λ u. PickedWithin u i n) (sym (pick_moves t j (omega arith) picked))
              (picks_soon n (record t { next_primary_index = suc j % length t.servers }) i h e
                (omega arith)))
    ]

-- No server starves: from any state, as long as the servers stay as they are, an available server is
-- picked by one of the next picks, as many as there are servers.
pub nm_pick_server-picks :
    (t : Servers) (i : ℕ)
    → i < length t.servers
    → available_at t.servers i ≡ true
    → (k : ℕ) × (k < length t.servers) × ((nm_pick_server (after_picks k t)).1 ≡ some i)
nm_pick_server-picks t i h e =
    let start = mod-lt t.next_primary_index (length t.servers) (omega arith) in
    let (k, p, picked) = picks_soon (length t.servers - 1) t i h e (ground arith) in
    (k, omega arith, picked)
