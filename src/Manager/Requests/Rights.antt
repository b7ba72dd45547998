-- ===== src/Manager/Requests/Rights.antt =====
-- nm/nm_main.c: the commands of access change no file but the client's own.
use co_write_file_system.Prelude.{
  ℕ, ◌<◌, ◌≡◌, ◌≢◌, refl, inl, inr, Bool, true, false, ◌||◌, List, [], ◌∷◌, Option, none, some,
  if◌then◌else◌, Bytes, codes, length, Bool-cases, str_eq, str_eq_iff, All,
}
use co_write_file_system.Common.Json.{json_get_string}
use co_write_file_system.Common.Json.Bounds.{json_get_string-length}
use co_write_file_system.Manager.Entry.{Permission, FileEntry}
use co_write_file_system.Manager.Files.{FileTable, nm_find_file}
use co_write_file_system.Manager.State.{
  NmState, AccessRequest, Status, pending, approved, denied, ClientReply,
}
use co_write_file_system.Manager.Requests.{
  handle_client_addaccess, handle_client_removeaccess, handle_client_reqaccess, addaccess_file,
  addaccess_fields, granted, removeaccess_file, removeaccess_fields, reqaccess_fields,
  reqaccess_file, reqaccess_request, mode_perm, mode_reads, mode_writes,
}
use co_write_file_system.Manager.Requests.Decide.{
  handle_client_handlereq, handlereq_fields, handlereq_file, decide_request, decide_at,
  decide_status, approve, AccessCommand, addaccess, remaccess, reqaccess, handlereq, handle_access,
}
use co_write_file_system.Manager.Requests.Tables.{
  IsSound, Owned, same-Owned, grant-Owned, remove-Owned,
}

module _ (s : NmState) (user : Bytes) (v : IsSound s.table) where
  -- What a handler leaves.
  abbrev Leaves : NmState × ClientReply → Type 0
  Leaves (after, reply) = Owned s.table after.table user

  kept : Owned s.table s.table user
  kept = same-Owned s.table user v

  granted-Leaves :
      (reply : ClientReply) (r : Option FileTable)
      → ((t : FileTable) → r ≡ some t → Owned s.table t user)
      → Leaves (granted s reply r)
  granted-Leaves reply none h = kept
  granted-Leaves reply (some t) h = h t refl

  addaccess_file-Leaves :
      (name target mode : Bytes) (o : Option FileEntry)
      → length target < 64
      → nm_find_file s.table name ≡ o
      → Leaves (addaccess_file s user name target mode o)
  addaccess_file-Leaves name target mode none fits e = kept
  addaccess_file-Leaves name target mode (some file) fits e =
      elim (Bool-cases (str_eq file.owner user)) [
        | inl q ↦ rw q (
            granted-Leaves _ _ (λ t h.
              (grant-Owned s.table name user target file v e ((str_eq_iff file.owner user).0 q)
                (mode_perm mode) t fits h).0))
        | inr q ↦ rw q kept
      ]

  addaccess-Leaves :
      (name target mode : Option Bytes)
      → ((x : Bytes) → target ≡ some x → length x < 64)
      → Leaves (addaccess_fields s user name target mode)
  addaccess-Leaves (some name) (some target) (some mode) h =
      addaccess_file-Leaves name target mode _ (h target refl) refl
  addaccess-Leaves none target mode h = kept
  addaccess-Leaves (some name) none mode h = kept
  addaccess-Leaves (some name) (some target) none h = kept

  removeaccess_file-Leaves :
      (name target : Bytes) (o : Option FileEntry)
      → nm_find_file s.table name ≡ o
      → Leaves (removeaccess_file s user name target o)
  removeaccess_file-Leaves name target none e = kept
  removeaccess_file-Leaves name target (some file) e = elim (Bool-cases (str_eq file.owner user)) [
    | inl q ↦
        rw q (remove-Owned s.table name user target file v e ((str_eq_iff file.owner user).0 q)).0
    | inr q ↦ rw q kept
  ]

  removeaccess-Leaves :
      (name target : Option Bytes) → Leaves (removeaccess_fields s user name target)
  removeaccess-Leaves (some name) (some target) = removeaccess_file-Leaves name target _ refl
  removeaccess-Leaves none target = kept
  removeaccess-Leaves (some name) none = kept

  Leaves-if :
      (b : Bool) (x y : NmState × ClientReply) → Leaves x → Leaves y → Leaves (if b then x else y)
  Leaves-if true x y h k = h
  Leaves-if false x y h k = k

  request-Leaves :
      (name : Bytes) (perm : Permission) (file : FileEntry) (r : Option ℕ)
      → Leaves (reqaccess_request s user name perm file r)
  request-Leaves name perm file (some i) = kept
  request-Leaves name perm file none = Leaves-if _ _ _ kept kept

  reqaccess_file-Leaves :
      (name : Bytes) (perm : Permission) (o : Option FileEntry)
      → Leaves (reqaccess_file s user name perm o)
  reqaccess_file-Leaves name perm none = kept
  reqaccess_file-Leaves name perm (some file) =
      Leaves-if (str_eq file.owner user) _ _ kept
        (Leaves-if _ _ _ kept (request-Leaves name perm file _))

  reqaccess-Leaves : (name mode : Option Bytes) → Leaves (reqaccess_fields s user name mode)
  reqaccess-Leaves (some name) (some mode) =
      Leaves-if (mode_reads mode || mode_writes mode) _ _
        (reqaccess_file-Leaves name (mode_perm mode) _) kept
  reqaccess-Leaves none mode = kept
  reqaccess-Leaves (some name) none = kept

  module _ (name requester : Bytes) (file : FileEntry)
      (found : nm_find_file s.table name ≡ some file) (mine : file.owner ≡ user)
      (fits : length requester < 64) where
    approve-Leaves :
        (i : ℕ) (req : AccessRequest) (r : Option FileTable)
        → ((t : FileTable) → r ≡ some t → Owned s.table t user)
        → Leaves (approve s i req r)
    approve-Leaves i req none h = kept
    approve-Leaves i req (some t) h = h t refl

    status-Leaves :
        (approves : Bool) (i : ℕ) (req : AccessRequest) (status : Status)
        → Leaves (decide_status s name requester approves i req status)
    status-Leaves approves i req approved = kept
    status-Leaves approves i req denied = kept
    status-Leaves approves i req pending =
        Leaves-if approves _ _
          (approve-Leaves i req _ (λ t h.
            (grant-Owned s.table name user requester file v found mine req.perm t fits h).0))
          kept

    decide_at-Leaves :
        (approves : Bool) (i : ℕ) (r : Option AccessRequest)
        → Leaves (decide_at s name requester approves i r)
    decide_at-Leaves approves i none = kept
    decide_at-Leaves approves i (some req) = status-Leaves approves i req req.status

    decide-Leaves :
        (approves : Bool) (r : Option ℕ) → Leaves (decide_request s name requester approves r)
    decide-Leaves approves none = kept
    decide-Leaves approves (some i) = decide_at-Leaves approves i _

  handlereq_file-Leaves :
      (name requester : Bytes) (approves : Bool) (o : Option FileEntry)
      → length requester < 64
      → nm_find_file s.table name ≡ o
      → Leaves (handlereq_file s user name requester approves o)
  handlereq_file-Leaves name requester approves none fits e = kept
  handlereq_file-Leaves name requester approves (some file) fits e =
      elim (Bool-cases (str_eq file.owner user)) [
        | inl q ↦
            rw q (
              decide-Leaves name requester file e ((str_eq_iff file.owner user).0 q) fits approves
                _)
        | inr q ↦ rw q kept
      ]

  handlereq-Leaves :
      (name requester action : Option Bytes)
      → ((x : Bytes) → requester ≡ some x → length x < 64)
      → Leaves (handlereq_fields s user name requester action)
  handlereq-Leaves (some name) (some requester) (some action) h =
      Leaves-if _ _ _ (handlereq_file-Leaves name requester _ _ (h requester refl) refl) kept
  handlereq-Leaves none requester action h = kept
  handlereq-Leaves (some name) none action h = kept
  handlereq-Leaves (some name) (some requester) none h = kept

  user_fits : (json x : Bytes) → json_get_string json (codes "user") 64 ≡ some x → length x < 64
  user_fits json x h = json_get_string-length json (codes "user") 64 h

  -- Every command of access keeps the table sound, changes no file that has another owner than the
  -- client, and neither makes nor removes a file: each name finds an entry afterwards if it found
  -- one before, with the same name and the same owner.
  pub handle_access-Owned :
      (c : AccessCommand) (json : Bytes) → Owned s.table (handle_access c s user json).0.table user
  unfolding handle_access handle_client_addaccess handle_client_removeaccess handle_client_reqaccess
      handle_client_handlereq
  handle_access-Owned addaccess json = addaccess-Leaves _ _ _ (user_fits json)
  handle_access-Owned remaccess json = removeaccess-Leaves _ _
  handle_access-Owned reqaccess json = reqaccess-Leaves _ _
  handle_access-Owned handlereq json = handlereq-Leaves _ _ _ (user_fits json)

-- A command, the client that sends it, and its text.
pub record Sent : Type 0 where
  pub command : AccessCommand
  pub user : Bytes
  pub json : Bytes

unfoldable pub run : List Sent → NmState → NmState
run [] s = s
run (m ∷ rest) s = run rest (handle_access m.command s m.user m.json).0

-- Whatever commands of access come, in any order, and from any clients but its owner, a file stays
-- as it is, with its access list.
pub run-keeps :
    (sent : List Sent) (s : NmState) (q : Bytes) (f : FileEntry)
    → IsSound s.table
    → nm_find_file s.table q ≡ some f
    → All (λ m. f.owner ≢ m.user) sent
    → nm_find_file (run sent s).table q ≡ some f
unfolding run
run-keeps [] s q f v h others = h
run-keeps (m ∷ rest) s q f v h (other, others) =
    let (sound, (leaves, _)) = handle_access-Owned s m.user v m.command m.json in
    run-keeps rest _ q f sound (leaves q f h other) others
