-- ===== src/Manager/Replication/Worker.antt =====
-- nm/nm_main.c: a round of replication_worker, with the copy that it makes.
pub mod Apart
use co_write_file_system.Prelude.{
  ℕ, suc, Bool, true, false, ◌&&◌, ◌||◌, not, List, [], ◌∷◌, ◌++◌, Option, none, some, leb,
  if◌then◌else◌, Bytes, codes, length, copy_into, ℤ, pos, eq_ℤ,
}
use co_write_file_system.Common.Json.{escape_value}
use co_write_file_system.Manager.Entry.{FileEntry}
use co_write_file_system.Manager.Files.{alter, nm_find_file}
use co_write_file_system.Manager.Servers.{StorageServer, nm_get_server, server_is_available, nonneg}
use co_write_file_system.Manager.State.{NmState, TicketEntry}
use co_write_file_system.Manager.Tickets.{Answers, accepted, quoted, issue_ticket}
use co_write_file_system.Manager.Replication.{
  ReplicationTask, Replication, handle_replication_failure,
}

-- The sizes of the five buffers are 256, 128, 256, 64 and 64.
abbrev pub sync_text :
    Option Bytes → Option Bytes → Option Bytes → Option Bytes → Option Bytes → Option Bytes
sync_text (some file) (some owner) (some host) (some port) (some token) = some (
    codes "{\"type\":\"NM_SYNC\""
    ++ (quoted (codes "file") file
        ++ (quoted (codes "owner") owner
            ++ (quoted (codes "sourceHost") host
                ++ (quoted (codes "sourcePort") port
                    ++ (quoted (codes "ticket") token ++ codes "}"))))))
sync_text _ _ _ _ _ = none

-- MAX_JSON is 4096.
abbrev pub sync_sent : Answers → ℤ → Option Bytes → Bool
sync_sent answers backup none = false
sync_sent answers backup (some payload) =
    if leb 4096 (length payload) then false else accepted (answers backup payload)

-- The first other server that is available; the loop is at the index `i`.
unfoldable pub first_candidate : List StorageServer → ℤ → ℕ → Option ℤ
first_candidate [] primary i = none
first_candidate (s ∷ servers) primary i =
    let rest = first_candidate servers primary (suc i) in
    if eq_ℤ (pos i) primary
    then rest
    else if server_is_available (some s)
    then some (pos i)
    else rest

-- After the copy: the file is looked up again.
abbrev pub assigned : ReplicationTask → ℤ → ℤ → Option FileEntry → NmState → NmState
assigned task primary target none s = s
assigned task primary target (some file) s =
    if eq_ℤ file.ss_index primary && task.assign_mode
    then record s { table = alter s.table task.file (λ f. record f { backup_index = target }) }
    else s

-- The backup that the task is for.
abbrev pub target_of : NmState → ReplicationTask → FileEntry → Option ℤ
target_of s task file =
    if task.assign_mode
    then first_candidate s.servers.servers file.ss_index 0
    else if eq_ℤ file.backup_index task.backup_index
    then some task.backup_index
    else none

module _ (now : ℕ) (token : Bytes) (answers : Answers) (push : Bool) where
  abbrev pub sync_issued :
      NmState → Bytes → Bytes → ℤ → StorageServer → List TicketEntry × Bool → NmState × Bool
  sync_issued s name owner backup server (tickets, false) = (record s { tickets = tickets }, false)
  sync_issued s name owner backup server (tickets, true) = (
    record s { tickets = tickets },
    sync_sent answers backup (
        sync_text (escape_value 256 name) (escape_value 128 owner) (escape_value 256 server.host)
          (escape_value 64 server.data_port) (escape_value 64 (copy_into 64 token))),
  )

  abbrev pub sync_from : NmState → Bytes → Bytes → ℤ → ℤ → Option StorageServer → NmState × Bool
  sync_from s name owner primary backup none = (s, false)
  sync_from s name owner primary backup (some server) =
      if server_is_available (some server)
        && server_is_available (nm_get_server s.servers.servers backup)
      then sync_issued s name owner backup server
          (issue_ticket now token answers push s.tickets primary name owner (codes "READ"))
      else (s, false)

  -- Whether the copy was made.
  unfoldable pub replicate_file_to_backup : NmState → Bytes → Bytes → ℤ → ℤ → NmState × Bool
  replicate_file_to_backup s name owner primary backup =
      if not (nonneg primary) || (not (nonneg backup) || eq_ℤ primary backup)
      then (s, false)
      else sync_from s name owner primary backup (nm_get_server s.servers.servers primary)

  abbrev pub round_copied : Replication → ReplicationTask → ℤ → ℤ → NmState × Bool → Replication
  round_copied r task primary target (s, false) =
      handle_replication_failure push (record r { state = s }) task target
  round_copied r task primary target (s, true) = record r {
    state = assigned task primary target (nm_find_file s.table task.file) s;
  }

  abbrev pub round_target : Replication → ReplicationTask → FileEntry → Option ℤ → Replication
  round_target r task file none = r
  round_target r task file (some target) =
      round_copied r task file.ss_index target
        (replicate_file_to_backup r.state task.file (copy_into 64 file.owner) file.ss_index target)

  abbrev pub round_found : Replication → ReplicationTask → Option FileEntry → Replication
  round_found r task none = r
  round_found r task (some file) =
      if not (nonneg file.ss_index) || not (eq_ℤ file.ss_index task.primary_index)
      then r
      else round_target r task file (target_of r.state task file)

  abbrev pub round_queue : Replication → List ReplicationTask → Replication
  round_queue r [] = r
  round_queue r (task ∷ rest) =
      let left = record r { queue = rest } in
      round_found left task (nm_find_file left.state.table task.file)

  unfoldable pub worker_round : Replication → Replication
  worker_round r = round_queue r r.queue
