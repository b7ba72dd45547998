-- ===== src/Manager/Requests/Effects.antt =====
-- nm/nm_main.c: what the commands of the owner do to the access of the user that they name.
use co_write_file_system.Prelude.{
  ℕ, ◌<◌, ◌≡◌, ◌≢◌, refl, inl, inr, sym, ◌∙◌, ◌⊎◌, true, false, some, Bytes, codes, length,
  get_elem?, set, str_eq, str_eq_iff, Option-cases,
}
use co_write_file_system.Common.Json.{json_get_string}
use co_write_file_system.Common.Json.Bounds.{json_get_string-length}
use co_write_file_system.Manager.Entry.{Permission, FileEntry}
use co_write_file_system.Manager.Files.{nm_find_file}
use co_write_file_system.Manager.State.{
  NmState, AccessRequest, pending, approved, err_internal, ClientReply, send_ok, grant_access,
  remove_access, check_access,
}
use co_write_file_system.Manager.Requests.{
  handle_client_addaccess, handle_client_removeaccess, granted, fail, mode_perm,
  find_access_request, casecmp_eq,
}
use co_write_file_system.Manager.Requests.Decide.{
  handle_client_handlereq, approve, with_status, decided,
}
use co_write_file_system.Manager.Requests.Tables.{IsSound, grant-Owned, remove-Owned}

-- The command succeeded and gave the permission, or the grant failed and nothing changed.
abbrev pub Gives :
    NmState → NmState × ClientReply → Bytes → Bytes → Permission → ClientReply → Type 0
Gives s (after, reply) name target perm success =
    ((reply ≡ success) × (check_access after.table name target perm ≡ true))
    ⊎ ((after, reply) ≡ fail s err_internal (codes "grant failed"))

module _ (s : NmState) (user json name target : Bytes) (file : FileEntry) (v : IsSound s.table)
    (has_name : json_get_string json (codes "file") 128 ≡ some name)
    (has_user : json_get_string json (codes "user") 64 ≡ some target)
    (found : nm_find_file s.table name ≡ some file) (mine : file.owner ≡ user) where
  owns : str_eq file.owner user ≡ true
  owns = (str_eq_iff file.owner user).1 mine

  fits : length target < 64
  fits = json_get_string-length json (codes "user") 64 has_user

  add_step :
      (mode : Bytes)
      → json_get_string json (codes "mode") 8 ≡ some mode
      → handle_client_addaccess s user json
        ≡ granted s
            (send_ok (codes "\"op\":\"ADDACCESS\""))
            (grant_access s.table name target (mode_perm mode))
  unfolding handle_client_addaccess
  add_step mode m = rw (has_name, has_user, m, found, owns) refl

  -- ADDACCESS by the owner of a file: it answers OK and the user then has the access of the mode,
  -- or it answers that the grant failed and changes nothing.
  pub handle_client_addaccess-Gives :
      (mode : Bytes)
      → json_get_string json (codes "mode") 8 ≡ some mode
      → Gives s
          (handle_client_addaccess s user json)
          name
          target
          (mode_perm mode)
          (send_ok (codes "\"op\":\"ADDACCESS\""))
  handle_client_addaccess-Gives mode m =
      elim (Option-cases (grant_access s.table name target (mode_perm mode))) [
        | inl e ↦ rw (add_step mode m, e) (inr refl)
        | inr (t, e) ↦
            rw (add_step mode m, e)
              (inl (
                refl,
                (grant-Owned s.table name user target file v found mine (mode_perm mode) t fits
                    e).1,
              ))
      ]

  remove_step : handle_client_removeaccess s user json ≡ (
    record s { table = remove_access s.table name target },
    send_ok (codes "\"op\":\"REMACCESS\""),
  )
  unfolding handle_client_removeaccess
  remove_step = rw (has_name, has_user, found, owns) refl

  -- REMACCESS by the owner of a file answers OK, and a user other than the owner then has no access
  -- to it.
  pub handle_client_removeaccess_lem :
      ((handle_client_removeaccess s user json).1 ≡ send_ok (codes "\"op\":\"REMACCESS\""))
      × (target ≢ user
          → (perm : Permission)
          → check_access (handle_client_removeaccess s user json).0.table name target perm ≡ false)
  handle_client_removeaccess_lem = rw remove_step (
    refl,
    λ n perm.
        (remove-Owned s.table name user target file v found mine).1 (λ e. n (sym e ∙ mine)) perm,
  )

  module _ (i : ℕ) (req : AccessRequest) (action : Bytes)
      (has_action : json_get_string json (codes "action") 16 ≡ some action)
      (approves : casecmp_eq action (codes "APPROVE") ≡ true)
      (asked : find_access_request s.requests name target ≡ some i)
      (at : get_elem? s.requests i ≡ some req) (waits : req.status ≡ pending) where
    handle_step :
        handle_client_handlereq s user json
        ≡ approve s i req (grant_access s.table name target req.perm)
    unfolding handle_client_handlereq
    handle_step = rw (has_name, has_user, has_action, approves, found, owns, asked, at, waits) refl

    -- HANDLEREQ with APPROVE by the owner of a file, for a request that is pending: it answers OK,
    -- the user then has the access that was asked for and the request is approved, or it answers
    -- that the grant failed and changes nothing.
    pub handle_client_handlereq-Gives :
        Gives s (handle_client_handlereq s user json) name target req.perm decided
        × ((handle_client_handlereq s user json).1 ≡ decided
            → (handle_client_handlereq s user json).0.requests
              ≡ set s.requests i (with_status approved req))
    handle_client_handlereq-Gives =
        elim (Option-cases (grant_access s.table name target req.perm)) [
          | inl e ↦ rw (handle_step, e) (inr refl, λ z. absurd (cc z))
          | inr (t, e) ↦
              rw (handle_step, e)
                (
                  inl (
                    refl,
                    (grant-Owned s.table name user target file v found mine req.perm t fits e).1,
                  ),
                  λ z. refl,
                )
        ]
