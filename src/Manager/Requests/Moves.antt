-- ===== src/Manager/Requests/Moves.antt =====
-- nm/nm_main.c: the commands that move an access request between its states.
use co_write_file_system.Prelude.{
  ℕ, ◌≡◌, refl, inl, inr, sym, ap, subst, ◌∙◌, ◌⊎◌, Bool, true, false, ◌||◌, List, Option, none,
  some, if◌then◌else◌, Bytes, get_elem?, set, Option-cases, str_eq,
}
use co_write_file_system.Manager.Entry.{Permission, FileEntry}
use co_write_file_system.Manager.Files.{FileTable, nm_find_file}
use co_write_file_system.Manager.State.{
  NmState, AccessRequest, Status, pending, approved, denied, ClientReply,
}
use co_write_file_system.Manager.Requests.{
  handle_client_addaccess, handle_client_removeaccess, handle_client_reqaccess, addaccess_file,
  addaccess_fields, granted, removeaccess_file, removeaccess_fields, reqaccess_fields,
  reqaccess_file, reqaccess_request, mode_perm, mode_reads, mode_writes, ask, ask_at, blank_request,
}
use co_write_file_system.Manager.Requests.Decide.{
  handle_client_handlereq, handlereq_fields, handlereq_file, decide_request, decide_at,
  decide_status, approve, AccessCommand, addaccess, remaccess, reqaccess, handlereq, handle_access,
  with_status,
}
use co_write_file_system.Manager.Requests.Statuses.{
  Moves, stays, asks, approves, denies, status_of, set-status, append-status,
}

module _ (s : NmState) (user file requester : Bytes) where
  abbrev before : Option Status
  before = status_of s.requests file requester

  -- What a handler does to the request.
  abbrev Moved : AccessCommand → NmState × ClientReply → Type 0
  Moved c (after, reply) = Moves c before (status_of after.requests file requester)

  Moved-if :
      (c : AccessCommand) (b : Bool) (x y : NmState × ClientReply)
      → Moved c x
      → Moved c y
      → Moved c (if b then x else y)
  Moved-if c true x y h k = h
  Moved-if c false x y h k = k

  kept : (c : AccessCommand) → Moves c before before
  kept c = stays c before

  granted-Moved : (reply : ClientReply) (r : Option FileTable) → Moved addaccess (granted s reply r)
  granted-Moved reply none = kept addaccess
  granted-Moved reply (some t) = kept addaccess

  addaccess-Moved :
      (name target mode : Option Bytes) → Moved addaccess (addaccess_fields s user name target mode)
  addaccess-Moved (some name) (some target) (some mode) = file-Moved (nm_find_file s.table name)
    where
      file-Moved :
          (o : Option FileEntry) → Moved addaccess (addaccess_file s user name target mode o)
      file-Moved none = kept addaccess
      file-Moved (some f) = Moved-if addaccess _ _ _ (granted-Moved _ _) (kept addaccess)
  addaccess-Moved none target mode = kept addaccess
  addaccess-Moved (some name) none mode = kept addaccess
  addaccess-Moved (some name) (some target) none = kept addaccess

  removeaccess-Moved :
      (name target : Option Bytes) → Moved remaccess (removeaccess_fields s user name target)
  removeaccess-Moved (some name) (some target) = file-Moved (nm_find_file s.table name)
    where
      file-Moved : (o : Option FileEntry) → Moved remaccess (removeaccess_file s user name target o)
      file-Moved none = kept remaccess
      file-Moved (some f) = Moved-if remaccess _ _ _ (kept remaccess) (kept remaccess)
  removeaccess-Moved none target = kept remaccess
  removeaccess-Moved (some name) none = kept remaccess

  ask-Moves :
      (requests : List AccessRequest)
      → (status_of requests file requester ≡ some pending)
        ⊎ (status_of requests file requester ≡ before)
      → Moves reqaccess before (status_of requests file requester)
  ask-Moves requests (inl e) = subst (Moves reqaccess before) (sym e) (asks before)
  ask-Moves requests (inr e) = subst (Moves reqaccess before) (sym e) (kept reqaccess)

  ask_at-Moves :
      (i : ℕ) (owner : Bytes) (perm : Permission)
      → Moves reqaccess before (status_of (ask_at s.requests i owner perm) file requester)
  ask_at-Moves i owner perm = elim (Option-cases (get_elem? s.requests i)) [
    | inl e ↦ rw (e, ask_at) (kept reqaccess)
    | inr (req, e) ↦
        rw (e, ask_at)
          (ask-Moves _
            (elim (set-status s.requests i req (ask owner perm req) file requester e refl refl) [
              | inl (a, b) ↦ inl b
              | inr b ↦ inr b
            ]))
  ]

  request-Moved :
      (name : Bytes) (perm : Permission) (f : FileEntry) (r : Option ℕ)
      → Moved reqaccess (reqaccess_request s user name perm f r)
  request-Moved name perm f (some i) = ask_at-Moves i f.owner perm
  request-Moved name perm f none = Moved-if reqaccess _ _ _ (kept reqaccess) (
      ask-Moves _
        (append-status s.requests (ask f.owner perm (blank_request name user)) file requester))

  reqaccess_file-Moved :
      (name : Bytes) (perm : Permission) (o : Option FileEntry)
      → Moved reqaccess (reqaccess_file s user name perm o)
  reqaccess_file-Moved name perm none = kept reqaccess
  reqaccess_file-Moved name perm (some f) =
      Moved-if reqaccess (str_eq f.owner user) _ _ (kept reqaccess)
        (Moved-if reqaccess _ _ _ (kept reqaccess) (request-Moved name perm f _))

  reqaccess-Moved : (name mode : Option Bytes) → Moved reqaccess (reqaccess_fields s user name mode)
  reqaccess-Moved (some name) (some mode) =
      Moved-if reqaccess (mode_reads mode || mode_writes mode) _ _
        (reqaccess_file-Moved name (mode_perm mode) _) (kept reqaccess)
  reqaccess-Moved none mode = kept reqaccess
  reqaccess-Moved (some name) none = kept reqaccess

  decide-Moves :
      (i : ℕ) (req : AccessRequest) (status : Status)
      → get_elem? s.requests i ≡ some req
      → req.status ≡ pending
      → ((o : Option Status) → o ≡ some pending → Moves handlereq o (some status))
      → Moves handlereq before
          (status_of (set s.requests i (with_status status req)) file requester)
  decide-Moves i req status e p move =
      elim (set-status s.requests i req (with_status status req) file requester e refl refl) [
        | inl (a, b) ↦ subst (Moves handlereq before) (sym b) (move before (a ∙ ap some p))
        | inr b ↦ subst (Moves handlereq before) (sym b) (kept handlereq)
      ]

  approve-Moved :
      (i : ℕ) (req : AccessRequest) (r : Option FileTable)
      → get_elem? s.requests i ≡ some req
      → req.status ≡ pending
      → Moved handlereq (approve s i req r)
  approve-Moved i req none e p = kept handlereq
  approve-Moved i req (some t) e p =
      decide-Moves i req approved e p
        (λ o h. subst (λ x. Moves handlereq x (some approved)) (sym h) approves)

  status-Moved :
      (name who : Bytes) (b : Bool) (i : ℕ) (req : AccessRequest) (status : Status)
      → get_elem? s.requests i ≡ some req
      → req.status ≡ status
      → Moved handlereq (decide_status s name who b i req status)
  status-Moved name who b i req approved e p = kept handlereq
  status-Moved name who b i req denied e p = kept handlereq
  status-Moved name who b i req pending e p = Moved-if handlereq b _ _ (approve-Moved i req _ e p) (
      decide-Moves i req denied e p
        (λ o h. subst (λ x. Moves handlereq x (some denied)) (sym h) denies))

  decide_at-Moved :
      (name who : Bytes) (b : Bool) (i : ℕ) (r : Option AccessRequest)
      → get_elem? s.requests i ≡ r
      → Moved handlereq (decide_at s name who b i r)
  decide_at-Moved name who b i none e = kept handlereq
  decide_at-Moved name who b i (some req) e = status-Moved name who b i req req.status e refl

  decide_request-Moved :
      (name who : Bytes) (b : Bool) (r : Option ℕ) → Moved handlereq (decide_request s name who b r)
  decide_request-Moved name who b none = kept handlereq
  decide_request-Moved name who b (some i) = decide_at-Moved name who b i _ refl

  handlereq_file-Moved :
      (name who : Bytes) (b : Bool) (o : Option FileEntry)
      → Moved handlereq (handlereq_file s user name who b o)
  handlereq_file-Moved name who b none = kept handlereq
  handlereq_file-Moved name who b (some f) =
      Moved-if handlereq (str_eq f.owner user) _ _ (decide_request-Moved name who b _)
        (kept handlereq)

  handlereq-Moved :
      (name who action : Option Bytes) → Moved handlereq (handlereq_fields s user name who action)
  handlereq-Moved (some name) (some who) (some action) =
      Moved-if handlereq _ _ _ (handlereq_file-Moved name who _ _) (kept handlereq)
  handlereq-Moved none who action = kept handlereq
  handlereq-Moved (some name) none action = kept handlereq
  handlereq-Moved (some name) (some who) none = kept handlereq

  -- Every command of access moves the request of each user for each file as the states allow: it is
  -- approved or denied only by HANDLEREQ and only from pending, and becomes pending only by REQACCESS.
  pub handle_access-Moves :
      (c : AccessCommand) (json : Bytes)
      → Moves c before (status_of (handle_access c s user json).0.requests file requester)
  unfolding handle_access handle_client_addaccess handle_client_removeaccess handle_client_reqaccess
      handle_client_handlereq
  handle_access-Moves addaccess json = addaccess-Moved _ _ _
  handle_access-Moves remaccess json = removeaccess-Moved _ _
  handle_access-Moves reqaccess json = reqaccess-Moved _ _
  handle_access-Moves handlereq json = handlereq-Moved _ _ _
