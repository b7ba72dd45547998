-- ===== src/Examples/Requests.antt =====
-- Runs of the commands of access of the name server.
use co_write_file_system.Prelude.{
  ◌≡◌, ◌≢◌, subst, copy_into, false, refl, sym, ap, ◌∙◌, Bool, true, List, [], ◌∷◌, none, some,
  codes, str_eq, Bytes, if◌then◌else◌, set,
}
use co_write_file_system.Common.Json.{json_get_string, read_into, after_first}
use co_write_file_system.Manager.Entry.{Permission, FileEntry}
use co_write_file_system.Manager.Access.Laws.{IsUnique}
use co_write_file_system.Manager.Files.{empty, nm_find_file}
use co_write_file_system.Manager.State.{NmState, AccessRequest, pending, approved}
use co_write_file_system.Manager.Requests.{find_access_request, casecmp_eq}
use co_write_file_system.Manager.Requests.Decide.{
  addaccess, remaccess, handlereq, handle_access, handle_client_handlereq, decided, with_status,
}
use co_write_file_system.Manager.Requests.Tables.{IsSound, Owned}
use co_write_file_system.Manager.Requests.Rights.{Sent, run, handle_access-Owned, run-keeps}
use co_write_file_system.Manager.Requests.Statuses.{Moves, status_of}
use co_write_file_system.Manager.Requests.Moves.{handle_access-Moves}
use co_write_file_system.Manager.Requests.Effects.{Gives, handle_client_handlereq-Gives}
use co_write_file_system.Manager.Files.Map.{first_named, nm_find_file-first_named, empty-IsValid}
use co_write_file_system.Examples.Registry.{
  one_file, file_a, one_file-IsValid, finds_a, one_file-finds, three,
}

abbrev writes : Permission
writes = record { read = true; write = true }

abbrev asked : AccessRequest
asked = record {
  file = codes "a";
  owner = codes "ann";
  requester = codes "bob";
  perm = writes;
  status = pending;
}

abbrev pub state : NmState
state = record {
  table = one_file;
  servers = three;
  users = [];
  cache = [];
  requests = asked ∷ [];
  tickets = [];
}

only_in : (b : Bool) (f : FileEntry) → (if b then some file_a else none) ≡ some f → file_a ≡ f
only_in true f h = cc h
only_in false f h = absurd (cc h)

none-empty : (q : Bytes) → nm_find_file empty q ≡ none
unfolding first_named
none-empty q = nm_find_file-first_named empty q empty-IsValid

only_a : (q : Bytes) (f : FileEntry) → nm_find_file one_file q ≡ some f → file_a ≡ f
only_a q f h = only_in (str_eq (codes "a") q) f (
    ap (λ r. if str_eq (codes "a") q then some file_a else r) (sym (none-empty q))
    ∙ sym (one_file-finds q)
    ∙ h)

pub sound : IsSound one_file
sound = record {
  valid = one_file-IsValid;
  unique = λ q f h. subst (λ x. IsUnique x.acl) (only_a q f h) tt;
}

abbrev add_json : Bytes
add_json = codes "{\"type\":\"ADDACCESS\",\"file\":\"a\",\"user\":\"bob\",\"mode\":\"RW\"}"

abbrev approve_json : Bytes
approve_json =
    codes "{\"type\":\"HANDLEREQ\",\"file\":\"a\",\"user\":\"bob\",\"action\":\"approve\"}"

other_user : file_a.owner ≢ codes "eve"
unfolding str_eq copy_into
other_user h = let e : false ≡ true = ap (λ s. str_eq s (codes "eve")) h in cc e

abbrev sent : List Sent
sent =
    record { command = addaccess; user = codes "eve"; json = add_json }
    ∷ record { command = remaccess; user = codes "eve"; json = add_json }
    ∷ []

run-keeps_example : nm_find_file (run sent state).table (codes "a") ≡ some file_a
run-keeps_example =
    run-keeps sent state (codes "a") file_a sound finds_a (other_user, (other_user, tt))

handle_access-Owned_example :
    Owned one_file (handle_access addaccess state (codes "ann") add_json).0.table (codes "ann")
handle_access-Owned_example = handle_access-Owned state (codes "ann") sound addaccess add_json

handle_access-Moves_example : Moves handlereq (some pending) (
    status_of
      (handle_access handlereq state (codes "ann") approve_json).0.requests
      (codes "a")
      (codes "bob"))
unfolding status_of str_eq
handle_access-Moves_example =
    handle_access-Moves state (codes "ann") (codes "a") (codes "bob") handlereq approve_json

add_file : json_get_string add_json (codes "file") 128 ≡ some (codes "a")
unfolding json_get_string read_into after_first
add_file = refl

add_user : json_get_string add_json (codes "user") 64 ≡ some (codes "bob")
unfolding json_get_string read_into after_first
add_user = refl

add_mode : json_get_string add_json (codes "mode") 8 ≡ some (codes "RW")
unfolding json_get_string read_into after_first
add_mode = refl

approve_file : json_get_string approve_json (codes "file") 128 ≡ some (codes "a")
unfolding json_get_string read_into after_first
approve_file = refl

approve_user : json_get_string approve_json (codes "user") 64 ≡ some (codes "bob")
unfolding json_get_string read_into after_first
approve_user = refl

approve_action : json_get_string approve_json (codes "action") 16 ≡ some (codes "approve")
unfolding json_get_string read_into after_first
approve_action = refl

approves : casecmp_eq (codes "approve") (codes "APPROVE") ≡ true
unfolding casecmp_eq str_eq
approves = refl

finds_request : find_access_request state.requests (codes "a") (codes "bob") ≡ some 0
unfolding find_access_request str_eq
finds_request = refl

handle_client_handlereq-Gives_example :
    Gives state
      (handle_client_handlereq state (codes "ann") approve_json)
      (codes "a")
      (codes "bob")
      writes
      decided
    × ((handle_client_handlereq state (codes "ann") approve_json).1 ≡ decided
        → (handle_client_handlereq state (codes "ann") approve_json).0.requests
          ≡ set state.requests 0 (with_status approved asked))
unfolding copy_into
handle_client_handlereq-Gives_example =
    handle_client_handlereq-Gives state (codes "ann") approve_json (codes "a") (codes "bob") file_a
      sound approve_file approve_user finds_a refl 0 asked (codes "approve") approve_action approves
      finds_request refl refl
