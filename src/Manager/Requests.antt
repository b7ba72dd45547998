-- ===== src/Manager/Requests.antt =====
-- nm/nm_main.c: the commands by which the owner of a file gives access, and others ask for it. The
-- argument `user` is the name of the client whose connection the command came on. The answer to the
-- client is part of the result; the log is left out.
pub mod Decide
pub mod Tables
pub mod Statuses
pub mod Moves
pub mod Effects
pub mod Rights
use co_write_file_system.Prelude.{
  ℕ, suc, ◌+◌, Bool, true, false, ◌&&◌, ◌||◌, List, [], ◌∷◌, ◌++◌, map, Option, none, some, leb,
  ◌==◌, if◌then◌else◌, Bytes, codes, length, get_elem?, set, str_eq, copy_into,
}
use co_write_file_system.Common.Json.{json_get_string}
use co_write_file_system.Manager.Entry.{Permission, FileEntry}
use co_write_file_system.Manager.Files.{FileTable, nm_find_file}
use co_write_file_system.Manager.Servers.{shift}
use co_write_file_system.Manager.State.{
  NmState, AccessRequest, pending, ReplyCode, err_no_auth, err_not_found, err_bad_req, err_conflict,
  err_internal, ClientReply, send_ok, send_error_response, grant_access, remove_access,
  check_access,
}

-- `strchr(s, c)`, as a test.
unfoldable pub contains : ℕ → Bytes → Bool
contains c [] = false
contains c (x ∷ s) = x == c || contains c s

abbrev pub to_lower : ℕ → ℕ
to_lower c = if leb 65 c && leb c 90 then c + 32 else c

-- `strcasecmp(s, t) == 0`.
unfoldable pub casecmp_eq : Bytes → Bytes → Bool
casecmp_eq s t = str_eq (map to_lower s) (map to_lower t)

abbrev pub is_for : Bytes → Bytes → AccessRequest → Bool
is_for file requester req = str_eq req.file file && str_eq req.requester requester

unfoldable pub find_access_request : List AccessRequest → Bytes → Bytes → Option ℕ
find_access_request [] file requester = none
find_access_request (req ∷ rest) file requester =
    let later = find_access_request rest file requester in
    if is_for file requester req then some 0 else shift later

abbrev pub mode_writes : Bytes → Bool
mode_writes mode = contains 87 mode || contains 119 mode

abbrev pub mode_reads : Bytes → Bool
mode_reads mode = contains 82 mode || contains 114 mode

abbrev pub mode_perm : Bytes → Permission
mode_perm mode = record { read = true; write = mode_writes mode }

abbrev pub fail : NmState → ReplyCode → Bytes → NmState × ClientReply
fail s code message = (s, send_error_response code message)

-- The table after a call that returns -1, or not.
abbrev pub granted : NmState → ClientReply → Option FileTable → NmState × ClientReply
granted s reply none = fail s err_internal (codes "grant failed")
granted s reply (some t) = (record s { table = t }, reply)

abbrev pub addaccess_file :
    NmState → Bytes → Bytes → Bytes → Bytes → Option FileEntry → NmState × ClientReply
addaccess_file s user name target mode none = fail s err_not_found (codes "file not found")
addaccess_file s user name target mode (some file) =
    if str_eq file.owner user
    then granted s (send_ok (codes "\"op\":\"ADDACCESS\""))
        (grant_access s.table name target (mode_perm mode))
    else fail s err_no_auth (codes "only owner")

abbrev pub addaccess_fields :
    NmState → Bytes → Option Bytes → Option Bytes → Option Bytes → NmState × ClientReply
addaccess_fields s user (some name) (some target) (some mode) =
    addaccess_file s user name target mode (nm_find_file s.table name)
addaccess_fields s user _ _ _ = fail s err_bad_req (codes "missing fields")

unfoldable pub handle_client_addaccess : NmState → Bytes → Bytes → NmState × ClientReply
handle_client_addaccess s user json =
    addaccess_fields s user (json_get_string json (codes "file") 128)
      (json_get_string json (codes "user") 64) (json_get_string json (codes "mode") 8)

abbrev pub removeaccess_file :
    NmState → Bytes → Bytes → Bytes → Option FileEntry → NmState × ClientReply
removeaccess_file s user name target none = fail s err_not_found (codes "file not found")
removeaccess_file s user name target (some file) =
    if str_eq file.owner user
    then (
      record s { table = remove_access s.table name target },
      send_ok (codes "\"op\":\"REMACCESS\""),
    )
    else fail s err_no_auth (codes "only owner")

abbrev pub removeaccess_fields :
    NmState → Bytes → Option Bytes → Option Bytes → NmState × ClientReply
removeaccess_fields s user (some name) (some target) =
    removeaccess_file s user name target (nm_find_file s.table name)
removeaccess_fields s user _ _ = fail s err_bad_req (codes "missing fields")

unfoldable pub handle_client_removeaccess : NmState → Bytes → Bytes → NmState × ClientReply
handle_client_removeaccess s user json =
    removeaccess_fields s user (json_get_string json (codes "file") 128)
      (json_get_string json (codes "user") 64)

abbrev pub ask : Bytes → Permission → AccessRequest → AccessRequest
ask owner perm req = record req { owner = copy_into 64 owner; perm = perm; status = pending }

abbrev pub blank_request : Bytes → Bytes → AccessRequest
blank_request name user = record {
  file = copy_into 128 name;
  owner = [];
  requester = copy_into 64 user;
  perm = record { read = false; write = false };
  status = pending;
}

abbrev pub ask_at : List AccessRequest → ℕ → Bytes → Permission → List AccessRequest
ask_at requests i owner perm = elim (get_elem? requests i) [
  | none ↦ requests
  | some req ↦ set requests i (ask owner perm req)
]

-- NM_MAX_REQUESTS is 1024.
abbrev pub reqaccess_request :
    NmState → Bytes → Bytes → Permission → FileEntry → Option ℕ → NmState × ClientReply
reqaccess_request s user name perm file (some i) = (
  record s { requests = ask_at s.requests i file.owner perm },
  send_ok (codes "\"op\":\"REQACCESS\""),
)
reqaccess_request s user name perm file none =
    if leb 1024 (length s.requests) then fail s err_internal (codes "request limit reached") else (
      record s { requests = s.requests ++ ask file.owner perm (blank_request name user) ∷ [] },
      send_ok (codes "\"op\":\"REQACCESS\""),
    )

abbrev pub reqaccess_file :
    NmState → Bytes → Bytes → Permission → Option FileEntry → NmState × ClientReply
reqaccess_file s user name perm none = fail s err_not_found (codes "file not found")
reqaccess_file s user name perm (some file) =
    if str_eq file.owner user
    then fail s err_conflict (codes "owner already has access")
    else if check_access s.table name user perm
    then fail s err_conflict (codes "access already granted")
    else reqaccess_request s user name perm file (find_access_request s.requests name user)

abbrev pub reqaccess_fields : NmState → Bytes → Option Bytes → Option Bytes → NmState × ClientReply
reqaccess_fields s user (some name) (some mode) =
    if mode_reads mode || mode_writes mode
    then reqaccess_file s user name (mode_perm mode) (nm_find_file s.table name)
    else fail s err_bad_req (codes "invalid mode")
reqaccess_fields s user _ _ = fail s err_bad_req (codes "missing fields")

unfoldable pub handle_client_reqaccess : NmState → Bytes → Bytes → NmState × ClientReply
handle_client_reqaccess s user json =
    reqaccess_fields s user (json_get_string json (codes "file") 128)
      (json_get_string json (codes "mode") 8)
