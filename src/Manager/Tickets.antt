-- ===== src/Manager/Tickets.antt =====
-- nm/nm_main.c: the tickets that the name server gives a client for a file, of one of its two
-- storage servers. The clock, the random tokens, the answers of the storage servers and the memory
-- are arguments: the times of one command are one time.
pub mod Chosen
pub mod Outcome
pub mod Backup
use co_write_file_system.Prelude.{
  ℕ, zero, suc, ◌+◌, Bool, true, false, ◌&&◌, List, [], ◌∷◌, ◌++◌, Option, none, some, ltb, leb,
  ◌==◌, if◌then◌else◌, Bytes, codes, length, str_eq, copy_into, ℤ,
}
use co_write_file_system.Common.Json.{json_get_string}
use co_write_file_system.Storage.State.{decimal}
use co_write_file_system.Manager.Entry.{Permission, FileEntry}
use co_write_file_system.Manager.Files.{alter, nm_find_file}
use co_write_file_system.Manager.Servers.{nm_mark_server_down}
use co_write_file_system.Manager.Cache.{nm_cache_put}
use co_write_file_system.Manager.State.{
  NmState, TicketEntry, ReplyCode, err_not_found, err_no_auth, err_unavailable, file_has_access,
}
use co_write_file_system.Manager.Replicas.{select_storage_server}

abbrev pub ticket_expired : ℕ → TicketEntry → Bool
ticket_expired now entry = if entry.expiry == 0 then false else ltb entry.expiry now

unfoldable pub ticket_prune : ℕ → List TicketEntry → List TicketEntry
ticket_prune now [] = []
ticket_prune now (entry ∷ tickets) =
    let rest = ticket_prune now tickets in if ticket_expired now entry then rest else entry ∷ rest

-- TICKET_TTL is 30.
abbrev pub ticket_entry : ℕ → Bytes → ℤ → Bytes → Bytes → Bytes → TicketEntry
ticket_entry now token index file user op = record {
  token = copy_into 64 token;
  file = copy_into 128 file;
  user = copy_into 64 user;
  op = copy_into 16 op;
  expiry = now + 30;
  ss_index = index;
}

abbrev pub quoted : Bytes → Bytes → Bytes
quoted key value = codes ",\"" ++ (key ++ (codes "\":\"" ++ (value ++ codes "\"")))

unfoldable pub ticket_payload : TicketEntry → Bytes
ticket_payload entry =
    codes "{\"type\":\"NM_TICKET\""
    ++ (quoted (codes "token") entry.token
        ++ (quoted (codes "file") entry.file
            ++ (quoted (codes "user") entry.user
                ++ (quoted (codes "op") entry.op
                    ++ (codes ",\"expiry\":" ++ (decimal 20 entry.expiry ++ codes "}"))))))

-- What a storage server answers to a command: `none` when forward_command returns -1.
abbrev pub Answers : Type 0
Answers = ℤ → Bytes → Option Bytes

abbrev pub is_ok : Option Bytes → Bool
is_ok none = false
is_ok (some status) = str_eq status (codes "OK")

abbrev pub accepted : Option Bytes → Bool
accepted none = false
accepted (some response) = is_ok (json_get_string response (codes "status") 16)

-- The tickets after the call, and whether it returned 0; `push` is whether array_push finds memory.
unfoldable pub issue_ticket :
    ℕ
    → Bytes
    → Answers
    → Bool
    → List TicketEntry
    → ℤ
    → Bytes
    → Bytes
    → Bytes
    → List TicketEntry × Bool
issue_ticket now token answers push tickets index file user op =
    let pruned = ticket_prune now tickets in
    let entry = ticket_entry now token index file user op in
    if leb 512 (length (ticket_payload entry))
    then (pruned, false)
    else if accepted (answers index (ticket_payload entry)) && push
    then (pruned ++ entry ∷ [], true)
    else (pruned, false)

pub data Obtained : Type 0 where
  ticket : Bytes → ℤ → Obtained
  refused : ReplyCode → Obtained

abbrev pub with_file : NmState → Bytes → FileEntry → NmState
with_file s name file = record s { table = alter s.table name (λ f. file) }

module _ (now : ℕ) (tokens : ℕ → Bytes) (answers : Answers) (push : Bool) where
  -- One attempt; `retry` is what the next one does.
  abbrev pub issued :
      (NmState → NmState × Obtained)
      → NmState
      → Bytes
      → Bytes
      → ℤ
      → List TicketEntry × Bool
      → NmState × Obtained
  issued retry s token name index (tickets, true) = (
    record s { tickets = tickets; cache = nm_cache_put now s.cache name index },
    ticket (copy_into 64 token) index,
  )
  issued retry s token name index (tickets, false) =
      retry (record s { tickets = tickets; servers = nm_mark_server_down s.servers index })

  abbrev pub selected :
      (NmState → NmState × Obtained)
      → ℕ
      → NmState
      → Bytes
      → Bytes
      → Bytes
      → FileEntry × Option ℤ
      → NmState × Obtained
  selected retry attempt s name user op (file, none) =
      (with_file s name file, refused err_unavailable)
  selected retry attempt s name user op (file, some index) =
      issued retry (with_file s name file) (tokens attempt) name index
        (issue_ticket now (tokens attempt) answers push s.tickets index name user op)

  abbrev pub obtain_found :
      (NmState → NmState × Obtained)
      → ℕ
      → NmState
      → Bytes
      → Bytes
      → Permission
      → Bytes
      → Option FileEntry
      → NmState × Obtained
  obtain_found retry attempt s name user perm op none = (s, refused err_not_found)
  obtain_found retry attempt s name user perm op (some file) =
      if file_has_access file user perm
      then selected retry attempt s name user op (select_storage_server s.servers.servers file)
      else (s, refused err_no_auth)

  -- The loop, with `left` attempts to go.
  unfoldable pub obtain_from :
      ℕ → ℕ → NmState → Bytes → Bytes → Permission → Bytes → NmState × Obtained
  obtain_from zero attempt s name user perm op = (s, refused err_unavailable)
  obtain_from (suc left) attempt s name user perm op =
      obtain_found (λ after. obtain_from left (suc attempt) after name user perm op) attempt s name
        user perm op (nm_find_file s.table name)

  unfoldable pub obtain_ticket_for_file :
      NmState → Bytes → Bytes → Permission → Bytes → NmState × Obtained
  obtain_ticket_for_file s name user perm op = obtain_from 2 0 s name user perm op
