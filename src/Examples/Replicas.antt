-- ===== src/Examples/Replicas.antt =====
-- Runs of the choice of a server and of the tickets of the name server.
use co_write_file_system.Prelude.{
  ℕ, zero, suc, ◌≡◌, ◌≢◌, refl, true, false, List, [], ◌∷◌, Option, none, some, arith, codes, pos,
  negsuc, Bytes, ℤ, if◌then◌else◌, str_eq, ◌&&◌,
}
use co_write_file_system.Manager.Entry.{Permission}
use co_write_file_system.Manager.State.{TicketEntry, file_has_access}
use co_write_file_system.Manager.Replicas.{select_storage_server}
use co_write_file_system.Manager.Replicas.Laws.{Selects, select_storage_server-Selects}
use co_write_file_system.Manager.Tickets.{
  Answers, obtain_ticket_for_file, issue_ticket, ticket_payload,
}
use co_write_file_system.Manager.Tickets.Outcome.{Says, obtain_ticket_for_file-Says}
use co_write_file_system.Manager.Tickets.Backup.{IsTicketOf, obtain_ticket_for_file-IsTicketOf}
use co_write_file_system.Examples.Registry.{file_a, one_file-IsValid, finds_a, three}
use co_write_file_system.Examples.Requests.{state}

select_storage_server-Selects_example :
    Selects three.servers file_a (select_storage_server three.servers file_a)
select_storage_server-Selects_example = select_storage_server-Selects three.servers file_a

abbrev reads : Permission
reads = record { read = true; write = false }

-- The first server does not answer, the others accept.
abbrev pub answers : Answers
answers (pos zero) payload = none
answers (pos (suc i)) payload = some (codes "{\"status\":\"OK\"}")
answers (negsuc i) payload = none

abbrev tokens : ℕ → Bytes
tokens attempt = codes "t"

obtain_ticket_for_file-Says_example :
    Says state
      (codes "a")
      (codes "ann")
      reads
      (obtain_ticket_for_file 5 tokens answers true state
        (codes "a")
        (codes "ann")
        reads
        (codes "READ")).1
obtain_ticket_for_file-Says_example =
    obtain_ticket_for_file-Says 5 tokens answers true (codes "a") (codes "ann") reads (codes "READ")
      state one_file-IsValid

owner_reads : file_has_access file_a (codes "ann") reads ≡ true
unfolding file_has_access str_eq co_write_file_system.Prelude.copy_into
owner_reads = refl

apart : file_a.ss_index ≢ file_a.backup_index
apart h = cc h

takes :
    (attempt : ℕ) (tickets : List TicketEntry)
    → (issue_ticket 5
        (tokens attempt)
        answers
        true
        tickets
        file_a.backup_index
        (codes "a")
        (codes "ann")
        (codes "READ")).1
      ≡ true
unfolding issue_ticket ticket_payload co_write_file_system.Prelude.copy_into
    co_write_file_system.Storage.State.decimal co_write_file_system.Common.Json.json_get_string
    co_write_file_system.Common.Json.read_into str_eq
takes attempt tickets = refl

obtain_ticket_for_file-IsTicketOf_example :
    IsTicketOf file_a
      (obtain_ticket_for_file 5 tokens answers true state
        (codes "a")
        (codes "ann")
        reads
        (codes "READ")).1
obtain_ticket_for_file-IsTicketOf_example =
    obtain_ticket_for_file-IsTicketOf 5 tokens answers true (codes "a") (codes "ann") reads
      (codes "READ") file_a owner_reads apart takes state one_file-IsValid finds_a refl
