-- ===== src/Manager/Delete.antt =====
-- nm/nm_main.c: the command DELETE. The answers of the storage servers are an argument; what the
-- backup answers is not looked at, so it is not asked here. The whole command is one step.
pub mod Laws
use co_write_file_system.Prelude.{
  ℕ, Bool, true, false, List, [], ◌∷◌, ◌++◌, Option, none, some, leb, if◌then◌else◌, Bytes, codes,
  length, ℤ,
}
use co_write_file_system.Common.Json.{json_get_string}
use co_write_file_system.Manager.Entry.{Permission, FileEntry}
use co_write_file_system.Manager.Files.{nm_find_file, nm_remove_file}
use co_write_file_system.Manager.Servers.{nm_mark_server_down}
use co_write_file_system.Manager.State.{
  NmState, ClientReply, send_ok, err_bad_req, err_no_auth, err_not_found, err_unavailable,
  err_internal, file_has_access,
}
use co_write_file_system.Manager.Requests.{fail}
use co_write_file_system.Manager.Replicas.{select_storage_server}
use co_write_file_system.Manager.Tickets.{Answers, accepted, quoted, with_file}

unfoldable pub delete_payload : Bytes → Bytes
delete_payload name = codes "{\"type\":\"NM_DELETE\"" ++ (quoted (codes "file") name ++ codes "}")

abbrev pub write_perm : Permission
write_perm = record { read = false; write = true }

-- After the answer of the server.
abbrev pub delete_answered : NmState → Bytes → ℤ → Option Bytes → NmState × ClientReply
delete_answered s name index none =
    fail (record s { servers = nm_mark_server_down s.servers index }) err_unavailable
      (codes "server unreachable")
delete_answered s name index (some response) =
    if accepted (some response)
    then (record s { table = (nm_remove_file s.table name).0 }, send_ok (codes "\"op\":\"DELETE\""))
    else fail s err_internal (codes "delete failed")

-- Without a server forward_command fails.
abbrev pub asked : Answers → Bytes → Option ℤ → Option Bytes
asked answers payload none = none
asked answers payload (some index) = answers index payload

-- After the second selection, on the file that the first one left.
abbrev pub delete_again :
    Answers → NmState → Bytes → ℤ → FileEntry × Option ℤ → NmState × ClientReply
delete_again answers s name index (file, r) =
    if leb 256 (length (delete_payload name))
    then fail (with_file s name file) err_internal (codes "payload too large")
    else delete_answered (with_file s name file) name index (asked answers (delete_payload name) r)

abbrev pub delete_selected :
    Answers → NmState → Bytes → FileEntry × Option ℤ → NmState × ClientReply
delete_selected answers s name (file, none) =
    fail (with_file s name file) err_unavailable (codes "server offline")
delete_selected answers s name (file, some index) =
    delete_again answers (with_file s name file) name index
      (select_storage_server s.servers.servers file)

abbrev pub delete_found :
    Answers → NmState → Bytes → Bytes → Option FileEntry → NmState × ClientReply
delete_found answers s user name none = fail s err_not_found (codes "file not found")
delete_found answers s user name (some file) =
    if file_has_access file user write_perm
    then delete_selected answers s name (select_storage_server s.servers.servers file)
    else fail s err_no_auth (codes "no write access")

abbrev pub delete_named : Answers → NmState → Bytes → Option Bytes → NmState × ClientReply
delete_named answers s user none = fail s err_bad_req (codes "missing file")
delete_named answers s user (some name) =
    delete_found answers s user name (nm_find_file s.table name)

unfoldable pub handle_client_delete : Answers → NmState → Bytes → Bytes → NmState × ClientReply
handle_client_delete answers s user json =
    delete_named answers s user (json_get_string json (codes "file") 128)
