-- ===== src/Manager/Requests/Decide.antt =====
-- nm/nm_main.c: the command by which the owner decides a request, and the four commands of access
-- together, as handle_client_message picks them.
use co_write_file_system.Prelude.{
  Bool, ◌||◌, Option, none, some, if◌then◌else◌, Bytes, codes, get_elem?, set, str_eq, ℕ,
}
use co_write_file_system.Common.Json.{json_get_string}
use co_write_file_system.Manager.Entry.{FileEntry}
use co_write_file_system.Manager.Files.{FileTable, nm_find_file}
use co_write_file_system.Manager.State.{
  NmState, AccessRequest, Status, pending, approved, denied, err_no_auth, err_not_found,
  err_bad_req, err_conflict, err_internal, ClientReply, send_ok, grant_access,
}
use co_write_file_system.Manager.Requests.{
  casecmp_eq, find_access_request, fail, handle_client_addaccess, handle_client_removeaccess,
  handle_client_reqaccess,
}

abbrev pub with_status : Status → AccessRequest → AccessRequest
with_status status req = record req { status = status }

abbrev pub decided : ClientReply
decided = send_ok (codes "\"op\":\"HANDLEREQ\"")

-- After nm_grant_access, whose result -1 is `none`.
abbrev pub approve : NmState → ℕ → AccessRequest → Option FileTable → NmState × ClientReply
approve s i req none = fail s err_internal (codes "grant failed")
approve s i req (some t) =
    (record s { table = t; requests = set s.requests i (with_status approved req) }, decided)

abbrev pub decide_pending :
    NmState → Bytes → Bytes → Bool → ℕ → AccessRequest → NmState × ClientReply
decide_pending s name requester approves i req =
    if approves
    then approve s i req (grant_access s.table name requester req.perm)
    else (record s { requests = set s.requests i (with_status denied req) }, decided)

abbrev pub decide_status :
    NmState → Bytes → Bytes → Bool → ℕ → AccessRequest → Status → NmState × ClientReply
decide_status s name requester approves i req pending =
    decide_pending s name requester approves i req
decide_status s name requester approves i req approved =
    fail s err_conflict (codes "request already handled")
decide_status s name requester approves i req denied =
    fail s err_conflict (codes "request already handled")

abbrev pub decide_at :
    NmState → Bytes → Bytes → Bool → ℕ → Option AccessRequest → NmState × ClientReply
decide_at s name requester approves i none = fail s err_not_found (codes "request not found")
decide_at s name requester approves i (some req) =
    decide_status s name requester approves i req req.status

abbrev pub decide_request : NmState → Bytes → Bytes → Bool → Option ℕ → NmState × ClientReply
decide_request s name requester approves none = fail s err_not_found (codes "request not found")
decide_request s name requester approves (some i) =
    decide_at s name requester approves i (get_elem? s.requests i)

abbrev pub handlereq_file :
    NmState → Bytes → Bytes → Bytes → Bool → Option FileEntry → NmState × ClientReply
handlereq_file s user name requester approves none = fail s err_not_found (codes "file not found")
handlereq_file s user name requester approves (some file) =
    if str_eq file.owner user
    then decide_request s name requester approves (find_access_request s.requests name requester)
    else fail s err_no_auth (codes "only owner")

abbrev pub handlereq_fields :
    NmState → Bytes → Option Bytes → Option Bytes → Option Bytes → NmState × ClientReply
handlereq_fields s user (some name) (some requester) (some action) =
    if casecmp_eq action (codes "APPROVE") || casecmp_eq action (codes "DENY")
    then handlereq_file s user name requester (casecmp_eq action (codes "APPROVE"))
        (nm_find_file s.table name)
    else fail s err_bad_req (codes "invalid action")
handlereq_fields s user _ _ _ = fail s err_bad_req (codes "missing fields")

unfoldable pub handle_client_handlereq : NmState → Bytes → Bytes → NmState × ClientReply
handle_client_handlereq s user json =
    handlereq_fields s user (json_get_string json (codes "file") 128)
      (json_get_string json (codes "user") 64) (json_get_string json (codes "action") 16)

-- The types of message that lead to these handlers.
pub data AccessCommand : Type 0 where
  addaccess remaccess reqaccess handlereq : AccessCommand

unfoldable pub handle_access : AccessCommand → NmState → Bytes → Bytes → NmState × ClientReply
handle_access addaccess s user json = handle_client_addaccess s user json
handle_access remaccess s user json = handle_client_removeaccess s user json
handle_access reqaccess s user json = handle_client_reqaccess s user json
handle_access handlereq s user json = handle_client_handlereq s user json
