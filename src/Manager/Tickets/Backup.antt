-- ===== src/Manager/Tickets/Backup.antt =====
-- nm/nm_main.c: obtain_ticket_for_file goes over to the backup.
use co_write_file_system.Prelude.{
  ℕ, suc, ◌≡◌, ◌≢◌, refl, inl, inr, sym, ap, subst, ◌∙◌, ◌⊎◌, Bool, true, false, List, Option, none,
  some, Bytes, ℤ, pos, negsuc,
}
use co_write_file_system.Manager.Entry.{Permission, FileEntry}
use co_write_file_system.Manager.Files.{nm_find_file}
use co_write_file_system.Manager.Files.Map.{IsValid}
use co_write_file_system.Manager.Files.Alters.{alter-Alters}
use co_write_file_system.Manager.Servers.{Servers, nm_mark_server_down, server_is_available}
use co_write_file_system.Manager.Servers.Registers.{nm_mark_server_down_lem}
use co_write_file_system.Manager.State.{NmState, TicketEntry, file_has_access}
use co_write_file_system.Manager.Replicas.{replica_available}
use co_write_file_system.Manager.Replicas.Laws.{Selects, select_storage_server-Selects}
use co_write_file_system.Manager.Tickets.{
  Answers, Obtained, ticket, refused, issued, selected, obtain_from, obtain_ticket_for_file,
  with_file, issue_ticket,
}
use co_write_file_system.Manager.Tickets.Chosen.{with_file-found}

-- After the call the server is not available, and every other one is if it was.
down-unavailable :
    (t : Servers) (i : ℤ) → replica_available (nm_mark_server_down t i).servers i ≡ false
down-unavailable t (negsuc i) = refl
down-unavailable t (pos i) = (nm_mark_server_down_lem t i).0

down-others :
    (t : Servers) (i j : ℤ)
    → i ≢ j
    → replica_available t.servers j ≡ true
    → replica_available (nm_mark_server_down t i).servers j ≡ true
unfolding nm_mark_server_down
down-others t (negsuc i) j n h = h
down-others t (pos i) (negsuc j) n h = absurd (cc h)
down-others t (pos i) (pos j) n h =
    ap server_is_available ((nm_mark_server_down_lem t i).1 j (λ e. n (ap pos e))) ∙ h

-- The answer is a ticket for one of the two servers of the file.
abbrev pub IsTicketOf : FileEntry → Obtained → Type 0
IsTicketOf file (ticket token i) = (i ≡ file.ss_index) ⊎ (i ≡ file.backup_index)
IsTicketOf file (refused code) = ⊥

module _ (now : ℕ) (tokens : ℕ → Bytes) (answers : Answers) (push : Bool) (name user : Bytes)
    (perm : Permission) (op : Bytes) (file : FileEntry)
    (access : file_has_access file user perm ≡ true) (apart : file.ss_index ≢ file.backup_index)
    (takes : (attempt : ℕ) (tickets : List TicketEntry)
      → (issue_ticket now (tokens attempt) answers push tickets file.backup_index name user op).1
        ≡ true) where
  -- A selection of the backup ends the attempts.
  backup-ticket :
      (retry : NmState → NmState × Obtained) (attempt : ℕ) (s : NmState) (after : FileEntry)
      → IsTicketOf file
          (selected now tokens answers push retry attempt s name user op
            (after, some file.backup_index)).1
  backup-ticket retry attempt s after =
      by (issue_ticket now (tokens attempt) answers push s.tickets file.backup_index name user op)
        (takes attempt s.tickets)
    where
      by :
          (r : List TicketEntry × Bool)
          → r.1 ≡ true
          → IsTicketOf file
              (issued now tokens answers push retry
                (with_file s name after)
                (tokens attempt)
                name
                file.backup_index
                r).1
      by (tickets, true) e = inr refl
      by (tickets, false) e = absurd (cc e)

  -- The first attempt has failed with the primary, which is marked down.
  module _ (s : NmState) (v : IsValid s.table) (found : nm_find_file s.table name ≡ some file)
      (on : replica_available s.servers.servers file.backup_index ≡ true) where
    select-backup :
        (retry : NmState → NmState × Obtained) (attempt : ℕ) (r : FileEntry × Option ℤ)
        → replica_available s.servers.servers file.ss_index ≡ false
        → Selects s.servers.servers file r
        → IsTicketOf file (selected now tokens answers push retry attempt s name user op r).1
    select-backup retry attempt (after, none) off (_, off_too, _) = absurd (cc (on, off_too))
    select-backup retry attempt (after, some i) off (here, inl (at, _)) =
        absurd (cc (sym off ∙ ap (replica_available s.servers.servers) (sym at) ∙ here))
    select-backup retry attempt (after, some i) off (here, inr (_, at, _)) =
        subst
          (λ x.
            IsTicketOf file
              (selected now tokens answers push retry attempt s name user op (after, some x)).1)
          (sym at) (backup-ticket retry attempt s after)

    backup-attempt :
        (left attempt : ℕ)
        → replica_available s.servers.servers file.ss_index ≡ false
        → IsTicketOf file
            (obtain_from now tokens answers push (suc left) attempt s name user perm op).1
    unfolding obtain_from
    backup-attempt left attempt off =
        rw (found, access)
          (select-backup
            (λ x. obtain_from now tokens answers push left (suc attempt) x name user perm op)
            attempt _ off (select_storage_server-Selects s.servers.servers file))

  module _ (s : NmState) (v : IsValid s.table) (found : nm_find_file s.table name ≡ some file)
      (on : replica_available s.servers.servers file.backup_index ≡ true) where
    some_inj : {x y : FileEntry} → some x ≡ some y → x ≡ y
    some_inj h = cc h

    -- The first attempt takes the primary: a ticket, or the primary is down for the second attempt.
    primary-attempt :
        (r : List TicketEntry × Bool)
        → IsTicketOf file
            (issued now tokens answers push
              (λ x. obtain_from now tokens answers push 1 1 x name user perm op)
              (with_file s name file)
              (tokens 0)
              name
              file.ss_index
              r).1
    primary-attempt (tickets, true) = inl refl
    primary-attempt (tickets, false) =
        let a =
          alter-Alters s.table name (λ f. file) v
            (λ f h. ap (λ x. x.name) (some_inj (sym found ∙ h))) in
        backup-attempt _ a.0 (with_file-found s name file file v found a)
          (down-others s.servers file.ss_index file.backup_index apart on) 0 1
          (down-unavailable s.servers file.ss_index)

    first-attempt :
        (r : FileEntry × Option ℤ)
        → Selects s.servers.servers file r
        → IsTicketOf file
            (selected now tokens answers push
              (λ x. obtain_from now tokens answers push 1 1 x name user perm op)
              0
              s
              name
              user
              op
              r).1
    first-attempt (after, none) (_, off, _) = absurd (cc (on, off))
    first-attempt (after, some i) (here, inl (at, same)) =
        rw (at, same)
          (primary-attempt
            (issue_ticket now (tokens 0) answers push s.tickets file.ss_index name user op))
    first-attempt (after, some i) (here, inr (_, at, _)) =
        rw at (
          backup-ticket (λ x. obtain_from now tokens answers push 1 1 x name user perm op) 0 s
            after)

    -- Whatever the primary does, a client that has the access gets a ticket for one of the two
    -- servers of a file, when the backup is another server, is available and takes tickets: a
    -- primary that is down, or fails, is replaced within the two attempts.
    pub obtain_ticket_for_file-IsTicketOf :
        IsTicketOf file (obtain_ticket_for_file now tokens answers push s name user perm op).1
    unfolding obtain_ticket_for_file obtain_from
    obtain_ticket_for_file-IsTicketOf =
        rw (found, access) (first-attempt _ (select_storage_server-Selects s.servers.servers file))
