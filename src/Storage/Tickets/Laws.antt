-- ===== src/Storage/Tickets/Laws.antt =====
-- A ticket is good for one request, for what it was issued for, and until it expires.
use co_write_file_system.Prelude.{
  ℕ, suc, ◌≤◌, ◌<◌, ◌≡◌, ◌≢◌, refl, sym, ◌∙◌, ◌⊎◌, ◌↔◌, inl, inr, true, false, not, ◌&&◌, Bool,
  List, [], ◌∷◌, ◌++◌, none, some, arith, if◌then◌else◌, All, length, str_eq_refl, copy_into_fits,
  Bool-cases,
}
use co_write_file_system.Storage.Tickets.{
  AuthTicket, Request, new_ticket, is_expired, matches, ticket_table_prune, ticket_table_add,
  take_first, ticket_table_take,
}

abbrev pub is_usable : ℕ → Request → AuthTicket → Bool
is_usable now r t = matches r t && not (is_expired now t)

-- How many tickets of the table the request can still use.
unfoldable pub count_usable : ℕ → Request → List AuthTicket → ℕ
count_usable now r [] = 0
count_usable now r (t ∷ rest) =
    if is_usable now r t then suc (count_usable now r rest) else count_usable now r rest

pub count_matching : Request → List AuthTicket → ℕ
count_matching r [] = 0
count_matching r (t ∷ rest) =
    if matches r t then suc (count_matching r rest) else count_matching r rest

count-prune :
    (now : ℕ) (r : Request) (table : List AuthTicket)
    → count_matching r (ticket_table_prune now table) ≡ count_usable now r table
unfolding count_matching count_usable ticket_table_prune
count-prune now r [] = refl
count-prune now r (t ∷ rest) = ground (arith, count-prune now r rest)

take_first-none :
    (r : Request) (table : List AuthTicket)
    → (take_first r table).1 ≡ none
    → count_matching r table ≡ 0
unfolding take_first count_matching
take_first-none r [] h = refl
take_first-none r (t ∷ rest) h = ground (arith, take_first-none r rest)

take_first_zero :
    (r : Request) (table : List AuthTicket)
    → count_matching r table ≡ 0
    → (take_first r table).1 ≡ none
unfolding take_first count_matching
take_first_zero r [] h = refl
take_first_zero r (t ∷ rest) h = ground (arith, take_first_zero r rest)

take_first-some :
    (r : Request) (table : List AuthTicket) {t : AuthTicket}
    → (take_first r table).1 ≡ some t
    → (count_matching r table ≡ suc (count_matching r (take_first r table).0))
      × (matches r t ≡ true)
unfolding take_first count_matching
take_first-some r [] h = cc h
take_first-some r (u ∷ rest) {t} h = ground (arith, take_first-some r rest {t = t})

take_first_other :
    (r r' : Request) (table : List AuthTicket) {t : AuthTicket}
    → (take_first r table).1 ≡ some t
    → matches r' t ≡ false
    → count_matching r' (take_first r table).0 ≡ count_matching r' table
unfolding take_first count_matching
take_first_other r r' [] h n = cc
take_first_other r r' (u ∷ rest) {t} h n = ground (arith, take_first_other r r' rest {t = t})

take_first-All :
    (P : AuthTicket → Type 0) (r : Request) (table : List AuthTicket) {t : AuthTicket}
    → All P table
    → (take_first r table).1 ≡ some t
    → P t
unfolding take_first
take_first-All P r [] all h = cc h
take_first-All P r (u ∷ rest) {t} (p, all) h = elim (Bool-cases (matches r u)) [
  | inl e ↦ let same : u ≡ t = ground arith in rw (← same) p
  | inr e ↦ take_first-All P r rest all (ground arith)
]

prune-All :
    (now : ℕ) (table : List AuthTicket)
    → All (λ t. is_expired now t ≡ false) (ticket_table_prune now table)
unfolding ticket_table_prune
prune-All now [] = tt
prune-All now (t ∷ rest) = elim (Bool-cases (is_expired now t)) [
  | inl e ↦ rw (e, ticket_table_prune) (prune-All now rest)
  | inr e ↦ rw (e, ticket_table_prune) (e, prune-All now rest)
]

prune_twice :
    (now later : ℕ) (table : List AuthTicket) (r : Request)
    → now ≤ later
    → count_usable later r (ticket_table_prune now table) ≡ count_usable later r table
unfolding ticket_table_prune count_usable
prune_twice now later [] r h = refl
prune_twice now later (t ∷ rest) r h = ground (arith, prune_twice now later rest r)

usable-le-matching :
    (now : ℕ) (r : Request) (table : List AuthTicket)
    → count_usable now r table ≤ count_matching r table
unfolding count_usable count_matching
usable-le-matching now r [] = omega arith
usable-le-matching now r (t ∷ rest) = ground (arith, usable-le-matching now r rest)

-- A take succeeds exactly when the table has a ticket for the token, user, file and operation of the
-- request that has not expired.
pub take_none_iff :
    (now : ℕ) (r : Request) (table : List AuthTicket)
    → ((ticket_table_take now r table).1 ≡ none) ↔ (count_usable now r table ≡ 0)
unfolding ticket_table_take
take_none_iff now r table = (
  (λ h. sym (count-prune now r table) ∙ take_first-none r (ticket_table_prune now table) h),
  (λ h. take_first_zero r (ticket_table_prune now table) (count-prune now r table ∙ h)),
)

-- The ticket that a take gives is for the request and has not expired, and it is used up: one
-- ticket less is left for the request.
pub take_some :
    (now : ℕ) (r : Request) (table : List AuthTicket) {t : AuthTicket}
    → (ticket_table_take now r table).1 ≡ some t
    → (matches r t ≡ true)
      × (is_expired now t ≡ false)
      × (count_usable now r table ≡ suc (count_matching r (ticket_table_take now r table).0))
unfolding ticket_table_take
take_some now r table {t} h =
    let pruned = ticket_table_prune now table in
    let (count, fits) = take_first-some r pruned {t = t} h in
    (
      fits,
      take_first-All (λ u. is_expired now u ≡ false) r pruned (prune-All now table) h,
      sym (count-prune now r table) ∙ count,
    )

-- Where one ticket is left for a request, it can be used once: after a take that succeeds, every
-- later take for the same request fails.
pub take_once :
    (now later : ℕ) (r : Request) (table : List AuthTicket) {t : AuthTicket}
    → count_usable now r table ≡ 1
    → (ticket_table_take now r table).1 ≡ some t
    → (ticket_table_take later r (ticket_table_take now r table).0).1 ≡ none
take_once now later r table {t} one h =
    let left = (ticket_table_take now r table).0 in
    (take_none_iff later r left).1
      (omega (arith, (take_some now r table {t = t} h).2, usable-le-matching later r left))

one_more :
    (now : ℕ) (r : Request) (table : List AuthTicket) (t : AuthTicket)
    → is_usable now r t ≡ true
    → count_usable now r (table ++ t ∷ []) ≢ 0
unfolding count_usable
one_more now r [] t e h = ground arith
one_more now r (u ∷ table) t e h = ground (arith, one_more now r table t)

-- The fields of the request fit the buffers of a ticket.
abbrev pub Fits : Request → Type 0
Fits r = (length r.token < 64) × (length r.file < 128) × (length r.user < 64) × (length r.op < 16)

new_ticket_usable :
    (now : ℕ) (r : Request) (expiry : ℕ)
    → Fits r
    → (expiry ≡ 0) ⊎ (now ≤ expiry)
    → is_usable now r (new_ticket r expiry) ≡ true
new_ticket_usable now r expiry (token, file, user, op) live =
    rw
      (
        copy_into_fits 64 r.token token,
        copy_into_fits 128 r.file file,
        copy_into_fits 64 r.user user,
        copy_into_fits 16 r.op op,
        str_eq_refl r.token,
        str_eq_refl r.user,
        str_eq_refl r.file,
        str_eq_refl r.op,
      )
      (ground arith)

-- A ticket that was added, with fields that fit, can be taken by its request until it expires, and
-- at any time if it has the expiry 0.
pub take-add :
    (now : ℕ) (r : Request) (table : List AuthTicket) (expiry : ℕ)
    → Fits r
    → (expiry ≡ 0) ⊎ (now ≤ expiry)
    → (ticket_table_take now r (ticket_table_add table r expiry)).1 ≢ none
take-add now r table expiry fits live h =
    let alive = new_ticket_usable now r expiry fits live in
    let none_left = (take_none_iff now r (ticket_table_add table r expiry)).0 h in
    one_more now r table (new_ticket r expiry) alive (unfold ticket_table_add in none_left)
