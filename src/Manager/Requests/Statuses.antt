-- ===== src/Manager/Requests/Statuses.antt =====
-- nm/nm_main.c: the states of an access request, and the writes to them.
use co_write_file_system.Prelude.{
  ℕ, zero, suc, ◌≡◌, refl, inl, inr, sym, ap, ◌∙◌, ◌⊎◌, ◌&&◌, List, [], ◌∷◌, ◌++◌, Option, none,
  some, if◌then◌else◌, arith, Bytes, get_elem?, set, Bool-cases, str_eq,
}
use co_write_file_system.Manager.State.{AccessRequest, Status, pending, approved, denied}
use co_write_file_system.Manager.Requests.{is_for}
use co_write_file_system.Manager.Requests.Decide.{AccessCommand, reqaccess, handlereq}

-- The state of the request of a user for a file.
unfoldable pub status_of : List AccessRequest → Bytes → Bytes → Option Status
status_of [] file requester = none
status_of (req ∷ rest) file requester =
    if is_for file requester req then some req.status else status_of rest file requester

-- A request may be made, again or for the first time, in any state; it is decided only from pending.
pub data Moves : AccessCommand → Option Status → Option Status → Type 0 where
  stays : (c : AccessCommand) (o : Option Status) → Moves c o o
  asks : (o : Option Status) → Moves reqaccess o (some pending)
  approves : Moves handlereq (some pending) (some approved)
  denies : Moves handlereq (some pending) (some denied)

-- A write to one request, of the file and the user that it has.
pub set-status :
    (requests : List AccessRequest) (i : ℕ) (req after : AccessRequest) (file requester : Bytes)
    → get_elem? requests i ≡ some req
    → after.file ≡ req.file
    → after.requester ≡ req.requester
    → ((status_of requests file requester ≡ some req.status)
        × (status_of (set requests i after) file requester ≡ some after.status))
      ⊎ (status_of (set requests i after) file requester ≡ status_of requests file requester)
unfolding status_of
set-status [] i req after file requester e f r = inr refl
set-status (x ∷ requests) zero req after file requester e f r =
    let same : x ≡ req = ground (arith, e) in
    let tests : is_for file requester after ≡ is_for file requester x =
      ap (λ b. str_eq b file && str_eq after.requester requester) f
      ∙ ap (λ b. str_eq req.file file && str_eq b requester) r
      ∙ ap (is_for file requester) (sym same) in
    elim (Bool-cases (is_for file requester x)) [
      | inl q ↦ inl (rw q (ap (λ y. some y.status) same), rw (tests ∙ q) refl)
      | inr q ↦ inr (rw (tests ∙ q, q) refl)
    ]
set-status (x ∷ requests) (suc i) req after file requester e f r =
    elim (Bool-cases (is_for file requester x)) [
      | inl q ↦ inr (rw q refl)
      | inr q ↦ rw q (set-status requests i req after file requester e f r)
    ]

pub append-status :
    (requests : List AccessRequest) (req : AccessRequest) (file requester : Bytes)
    → (status_of (requests ++ req ∷ []) file requester ≡ some req.status)
      ⊎ (status_of (requests ++ req ∷ []) file requester ≡ status_of requests file requester)
unfolding status_of
append-status [] req file requester = elim (Bool-cases (is_for file requester req)) [
  | inl q ↦ inl (rw q refl)
  | inr q ↦ inr (rw q refl)
]
append-status (x ∷ requests) req file requester = elim (Bool-cases (is_for file requester x)) [
  | inl q ↦ inr (rw q refl)
  | inr q ↦ rw q (append-status requests req file requester)
]
