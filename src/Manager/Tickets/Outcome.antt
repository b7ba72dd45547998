-- ===== src/Manager/Tickets/Outcome.antt =====
-- nm/nm_main.c: what obtain_ticket_for_file answers, whatever the storage servers do.
use co_write_file_system.Prelude.{
  ℕ, zero, suc, ◌≡◌, refl, inl, inr, sym, ap, subst, ◌∙◌, ◌⊎◌, Bool, true, false, List, Option,
  none, some, Bytes, Bool-cases, ℤ,
}
use co_write_file_system.Manager.Entry.{Permission, FileEntry}
use co_write_file_system.Manager.Files.{nm_find_file}
use co_write_file_system.Manager.Files.Map.{IsValid}
use co_write_file_system.Manager.Files.Alters.{Alters, alter-Alters}
use co_write_file_system.Manager.Servers.{nm_mark_server_down}
use co_write_file_system.Manager.State.{
  NmState, TicketEntry, err_not_found, err_no_auth, err_unavailable, err_bad_req, err_conflict,
  err_internal, err_exists, file_has_access,
}
use co_write_file_system.Manager.Replicas.{replica_available}
use co_write_file_system.Manager.Replicas.Laws.{Selects, select_storage_server-Selects}
use co_write_file_system.Manager.Tickets.{
  Answers, Obtained, ticket, refused, issued, selected, obtain_found, obtain_from,
  obtain_ticket_for_file, with_file,
}
use co_write_file_system.Manager.Tickets.Chosen.{
  available-before, Chosen, chosen_name, chosen_access, chosen_index, with_file-found,
}

-- What the answer says of the state and the client.
abbrev pub Says : NmState → Bytes → Bytes → Permission → Obtained → Type 0
Says s name user perm (ticket token i) =
    (file : FileEntry) × (nm_find_file s.table name ≡ some file)
    × (file_has_access file user perm ≡ true)
    × ((i ≡ file.ss_index) ⊎ (i ≡ file.backup_index))
    × (replica_available s.servers.servers i ≡ true)
Says s name user perm (refused err_not_found) = nm_find_file s.table name ≡ none
Says s name user perm (refused err_no_auth) =
    (file : FileEntry) × (nm_find_file s.table name ≡ some file)
    × (file_has_access file user perm ≡ false)
Says s name user perm (refused err_unavailable) =
    (file : FileEntry) × (nm_find_file s.table name ≡ some file)
    × (file_has_access file user perm ≡ true)
Says s name user perm (refused _) = ⊥

module _ (now : ℕ) (tokens : ℕ → Bytes) (answers : Answers) (push : Bool) (name user : Bytes)
    (perm : Permission) (op : Bytes) where
  -- What an attempt says of the state that it left to the next one holds of the state it had.
  module _ (s : NmState) (file after : FileEntry) (index : ℤ) (tickets : List TicketEntry)
      (v : IsValid s.table) (found : nm_find_file s.table name ≡ some file)
      (access : file_has_access file user perm ≡ true) (c : Chosen file after) where
    abbrev next : NmState
    next = record (with_file s name after) {
      tickets = tickets;
      servers = nm_mark_server_down s.servers index;
    }

    next-Alters : Alters s.table next.table name (λ f. after)
    next-Alters =
        alter-Alters s.table name (λ f. after) v
          (λ f h. chosen_name file after c ∙ ap (λ x. x.name) (some_inj (sym found ∙ h)))
      where
        some_inj : {x y : FileEntry} → some x ≡ some y → x ≡ y
        some_inj h = cc h

    next_found : nm_find_file next.table name ≡ some after
    next_found = with_file-found s name file after v found next-Alters

    same_file : (f : FileEntry) → nm_find_file next.table name ≡ some f → after ≡ f
    same_file f h = let e = sym next_found ∙ h in cc e

    next-Says : (r : Obtained) → Says next name user perm r → Says s name user perm r
    next-Says (ticket token i) (f, h, _, at, on) =
        let same = same_file f h in
        let on_before = available-before s.servers index i on in
        (
          file,
          found,
          access,
          chosen_index file after c s.servers.servers i
              (subst (λ x. (i ≡ x.ss_index) ⊎ (i ≡ x.backup_index)) (sym same) at) on_before,
          on_before,
        )
    next-Says (refused err_not_found) h = absurd (cc (sym next_found ∙ h))
    next-Says (refused err_no_auth) (f, h, off) =
        let same = same_file f h in
        let on = chosen_access file after c user perm ∙ access in
        absurd (cc (sym on ∙ ap (λ x. file_has_access x user perm) same ∙ off))
    next-Says (refused err_unavailable) h = (file, found, access)
    next-Says (refused err_bad_req) h = absurd h
    next-Says (refused err_conflict) h = absurd h
    next-Says (refused err_internal) h = absurd h
    next-Says (refused err_exists) h = absurd h

  -- What an attempt answers, if the next ones say what is right.
  abbrev Right : (NmState → NmState × Obtained) → Type 0
  Right retry =
      (s : NmState) (file : FileEntry)
      → IsValid s.table
      → nm_find_file s.table name ≡ some file
      → file_has_access file user perm ≡ true
      → Says s name user perm (retry s).1

  module _ (retry : NmState → NmState × Obtained) (right : Right retry) (attempt : ℕ) (s : NmState)
      (v : IsValid s.table) where
    issued-Says :
        (file after : FileEntry) (i : ℤ) (r : List TicketEntry × Bool)
        → nm_find_file s.table name ≡ some file
        → file_has_access file user perm ≡ true
        → Chosen file after
        → (i ≡ file.ss_index) ⊎ (i ≡ file.backup_index)
        → replica_available s.servers.servers i ≡ true
        → Says s name user perm
            (issued now tokens answers push retry
              (with_file s name after)
              (tokens attempt)
              name
              i
              r).1
    issued-Says file after i (tickets, true) found access c at on = (file, found, access, at, on)
    issued-Says file after i (tickets, false) found access c at on =
        next-Says s file after i tickets v found access c _ (
          right _ after (next-Alters s file after i tickets v found access c).0
            (next_found s file after i tickets v found access c)
            (chosen_access file after c user perm ∙ access))

    selected-Says :
        (file : FileEntry) (r : FileEntry × Option ℤ)
        → nm_find_file s.table name ≡ some file
        → file_has_access file user perm ≡ true
        → Selects s.servers.servers file r
        → Says s name user perm (selected now tokens answers push retry attempt s name user op r).1
    selected-Says file (after, none) found access h = (file, found, access)
    selected-Says file (after, some i) found access (on, inl (at, same)) =
        issued-Says file after i _ found access (inl same) (inl at) on
    selected-Says file (after, some i) found access (on, inr (_, at, same)) =
        issued-Says file after i _ found access (inr same) (inr at) on

    found-Says :
        (o : Option FileEntry)
        → nm_find_file s.table name ≡ o
        → Says s name user perm
            (obtain_found now tokens answers push retry attempt s name user perm op o).1
    found-Says none e = e
    found-Says (some file) e = elim (Bool-cases (file_has_access file user perm)) [
      | inl h ↦
          rw h (selected-Says file _ e h (select_storage_server-Selects s.servers.servers file))
      | inr h ↦ rw h (file, e, h)
    ]

  from-Right :
      (left attempt : ℕ)
      → Right (λ s. obtain_from now tokens answers push left attempt s name user perm op)
  unfolding obtain_from
  from-Right zero attempt s file v found access = (file, found, access)
  from-Right (suc left) attempt s file v found access =
      found-Says (λ x. obtain_from now tokens answers push left (suc attempt) x name user perm op)
        (from-Right left (suc attempt)) attempt s v _ refl

  -- Whatever the storage servers answer, of a valid table: a ticket is given only to a client that
  -- has the access that it asks for, and for a server that is available and one of the two of the
  -- file; the answer is ERR_NOTFOUND only without such a file, ERR_NOAUTH only without the access,
  -- ERR_UNAVAILABLE only with both; there is no other answer.
  pub obtain_ticket_for_file-Says :
      (s : NmState)
      → IsValid s.table
      → Says s name user perm (obtain_ticket_for_file now tokens answers push s name user perm op).1
  unfolding obtain_ticket_for_file obtain_from
  obtain_ticket_for_file-Says s v =
      found-Says (λ x. obtain_from now tokens answers push 1 1 x name user perm op) (from-Right 1 1)
        0 s v _ refl
