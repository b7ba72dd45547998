-- ===== src/Manager/Create.antt =====
-- nm/nm_main.c: the command CREATE. The function valid_filename of the name server is that of the
-- storage server, word for word. The state lock is let go of while a storage server is asked; the
-- whole command is one step here. The answers of the storage servers and the clock are arguments.
pub mod Laws
pub mod Made
use co_write_file_system.Prelude.{
  ℕ, zero, suc, Bool, true, false, List, [], ◌∷◌, ◌++◌, Option, none, some, leb, if◌then◌else◌,
  Bytes, codes, length, ℤ, pos, negsuc, eq_ℤ,
}
use co_write_file_system.Common.Json.{json_get_string}
use co_write_file_system.Storage.History.{valid_filename}
use co_write_file_system.Manager.Entry.{Permission, FileEntry}
use co_write_file_system.Manager.Files.{FileTable, Outcome, done, failed, nm_add_file, nm_find_file}
use co_write_file_system.Manager.Servers.{
  Servers, StorageServer, nm_pick_server, nm_mark_server_down, server_is_available,
}
use co_write_file_system.Manager.Cache.{nm_cache_put}
use co_write_file_system.Manager.State.{
  NmState, ClientReply, send_ok, err_bad_req, err_no_auth, err_exists, err_unavailable,
  err_internal, grant_access, is_empty,
}
use co_write_file_system.Manager.Requests.{fail}
use co_write_file_system.Manager.Tickets.{Answers, accepted, quoted}

unfoldable pub create_payload : Bytes → Bytes → Bytes
create_payload name user =
    codes "{\"type\":\"NM_CREATE\""
    ++ (quoted (codes "file") name ++ (quoted (codes "owner") user ++ codes "}"))

-- The loop that looks for a backup, at the index `i`: the first other server that is available and
-- accepts the file; -1 when there is none.
unfoldable pub backup_from : Answers → Bytes → ℕ → List StorageServer → ℕ → ℤ
backup_from answers payload primary [] i = negsuc 0
backup_from answers payload primary (s ∷ servers) i =
    let rest = backup_from answers payload primary servers (suc i) in
    if eq_ℤ (pos i) (pos primary)
    then rest
    else if server_is_available (some s)
    then if accepted (answers (pos i) payload) then pos i else rest
    else rest

abbrev pub owner_perm : Permission
owner_perm = record { read = true; write = true }

abbrev pub or_same : FileTable → Option FileTable → FileTable
or_same t none = t
or_same t (some after) = after

abbrev pub create_added :
    ℕ → NmState → Bytes → Bytes → ℕ → FileTable × Outcome → NmState × ClientReply
create_added now s user name primary (t, failed e) =
    fail s err_internal (codes "state update failed")
create_added now s user name primary (t, done) = (
  record s {
    table = or_same t (grant_access t name user owner_perm);
    cache = nm_cache_put now s.cache name (pos primary);
  },
  send_ok (codes "\"op\":\"CREATE\""),
)

-- After the answer of the primary.
abbrev pub create_answered :
    ℕ → Answers → NmState → Bytes → Bytes → ℕ → Option Bytes → NmState × ClientReply
create_answered now answers s user name primary none =
    fail (record s { servers = nm_mark_server_down s.servers (pos primary) }) err_unavailable
      (codes "server unreachable")
create_answered now answers s user name primary (some response) =
    if accepted (some response)
    then create_added now s user name primary (
        nm_add_file s.table name user (pos primary)
          (backup_from answers (create_payload name user) primary s.servers.servers 0) now)
    else fail s err_internal (codes "create failed")

-- After the pick; the second look at the server that the code takes is of the one just picked,
-- which has a descriptor.
abbrev pub create_picked :
    ℕ → Answers → NmState → Bytes → Bytes → Servers × Option ℕ → NmState × ClientReply
create_picked now answers s user name (servers, none) =
    fail (record s { servers = servers }) err_unavailable (codes "no storage server")
create_picked now answers s user name (servers, some primary) =
    if leb 512 (length (create_payload name user))
    then fail (record s { servers = servers }) err_internal (codes "payload too large")
    else create_answered now answers (record s { servers = servers }) user name primary
        (answers (pos primary) (create_payload name user))

abbrev pub create_absent :
    ℕ → Answers → NmState → Bytes → Bytes → Option FileEntry → NmState × ClientReply
create_absent now answers s user name (some file) = fail s err_exists (codes "file exists")
create_absent now answers s user name none =
    create_picked now answers s user name (nm_pick_server s.servers)

abbrev pub create_named : ℕ → Answers → NmState → Bytes → Option Bytes → NmState × ClientReply
create_named now answers s user none = fail s err_bad_req (codes "missing file")
create_named now answers s user (some name) =
    if valid_filename name
    then if is_empty user
      then fail s err_no_auth (codes "anonymous user")
      else create_absent now answers s user name (nm_find_file s.table name)
    else fail s err_bad_req (codes "invalid name")

unfoldable pub handle_client_create : ℕ → Answers → NmState → Bytes → Bytes → NmState × ClientReply
handle_client_create now answers s user json =
    create_named now answers s user (json_get_string json (codes "file") 128)
