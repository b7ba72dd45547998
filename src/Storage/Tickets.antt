-- ===== src/Storage/Tickets.antt =====
-- ss/ss_main.c, the table of capability tickets. The clock is an argument, `now`; a ticket with the
-- expiry 0 never expires.
pub mod Laws
use co_write_file_system.Prelude.{
  ℕ, Bool, true, false, ◌&&◌, not, List, [], ◌∷◌, ◌++◌, Option, none, some, ltb, ◌==◌,
  if◌then◌else◌, Bytes, str_eq, copy_into,
}

pub record AuthTicket : Type 0 where
  pub token : Bytes
  pub file : Bytes
  pub user : Bytes
  pub op : Bytes
  pub expiry : ℕ

-- What a client presents.
pub record Request : Type 0 where
  pub token : Bytes
  pub user : Bytes
  pub file : Bytes
  pub op : Bytes

abbrev pub is_expired : ℕ → AuthTicket → Bool
is_expired now t = not (t.expiry == 0) && ltb t.expiry now

abbrev pub matches : Request → AuthTicket → Bool
matches r t =
    str_eq t.token r.token && (str_eq t.user r.user && (str_eq t.file r.file && str_eq t.op r.op))

pub ticket_table_prune : ℕ → List AuthTicket → List AuthTicket
ticket_table_prune now [] = []
ticket_table_prune now (t ∷ rest) =
    if is_expired now t then ticket_table_prune now rest else t ∷ ticket_table_prune now rest

abbrev pub new_ticket : Request → ℕ → AuthTicket
new_ticket r expiry = record {
  token = copy_into 64 r.token;
  file = copy_into 128 r.file;
  user = copy_into 64 r.user;
  op = copy_into 16 r.op;
  expiry = expiry;
}

unfoldable pub ticket_table_add : List AuthTicket → Request → ℕ → List AuthTicket
ticket_table_add table r expiry = table ++ new_ticket r expiry ∷ []

-- The loop over the pruned table: the first match is copied out and removed.
pub take_first : Request → List AuthTicket → List AuthTicket × Option AuthTicket
take_first r [] = ([], none)
take_first r (t ∷ rest) =
    let (others, found) = take_first r rest in
    if matches r t then (rest, some t) else (t ∷ others, found)

unfoldable pub ticket_table_take :
    ℕ → Request → List AuthTicket → List AuthTicket × Option AuthTicket
unfolding ticket_table_prune take_first
ticket_table_take now r table = take_first r (ticket_table_prune now table)

-- validate_ticket with no place for the ticket: it is used up, and the result is whether there was
-- one.
unfoldable pub validate_ticket : ℕ → Request → List AuthTicket → List AuthTicket × Bool
validate_ticket now r table =
    let (left, found) = ticket_table_take now r table in
    (left, elim found [ none ↦ false | some t ↦ true ])
