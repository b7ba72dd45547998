-- ===== src/Manager/Replication.antt =====
-- nm/nm_main.c: the queue of the copies from the primary of a file to its backup, and the worker that
-- takes them off it. A round of the worker is one step, though the code lets go of its locks between.
-- The answers of the storage servers, the clock, the random token and the memory are arguments.
pub mod Queue
pub mod Worker
pub mod Update
use co_write_file_system.Prelude.{
  ℕ, zero, suc, Bool, true, false, ◌&&◌, ◌||◌, not, List, [], ◌∷◌, ◌++◌, Option, none, some, leb,
  if◌then◌else◌, Bytes, codes, length, str_eq, copy_into, ℤ, pos, negsuc, eq_ℤ,
}
use co_write_file_system.Common.Json.{escape_value}
use co_write_file_system.Manager.Entry.{FileEntry}
use co_write_file_system.Manager.Files.{FileTable, alter, nm_find_file}
use co_write_file_system.Manager.Servers.{StorageServer, nm_get_server, server_is_available, nonneg}
use co_write_file_system.Manager.State.{NmState, TicketEntry}
use co_write_file_system.Manager.Replicas.{drop_backup_only}
use co_write_file_system.Manager.Tickets.{Answers, accepted, quoted, issue_ticket}

-- `assign_mode` tells a search for a new backup from a copy to the one that the file has.
pub record ReplicationTask : Type 0 where
  pub file : Bytes
  pub owner : Bytes
  pub primary_index : ℤ
  pub backup_index : ℤ
  pub assign_mode : Bool

-- The state and the queue.
pub record Replication : Type 0 where
  pub state : NmState
  pub queue : List ReplicationTask

-- Whether the queue need not take the task, for the one that it has.
abbrev pub covers : ReplicationTask → ReplicationTask → Bool
covers old task =
    str_eq old.file task.file
    && ((old.assign_mode && task.assign_mode)
        || (not old.assign_mode
            && (not task.assign_mode
                && (eq_ℤ old.primary_index task.primary_index
                    && eq_ℤ old.backup_index task.backup_index))))

unfoldable pub covered : List ReplicationTask → ReplicationTask → Bool
covered [] task = false
covered (old ∷ queue) task = covers old task || covered queue task

abbrev pub new_task : Bytes → Bytes → ℤ → ℤ → Bool → ReplicationTask
new_task file owner primary backup assign = record {
  file = copy_into 128 file;
  owner = copy_into 64 owner;
  primary_index = primary;
  backup_index = backup;
  assign_mode = assign;
}

abbrev pub refused_task : Bytes → ℤ → ℤ → Bool → Bool
refused_task [] primary backup assign = true
refused_task (c ∷ file) primary backup assign =
    not (nonneg primary) || (not assign && not (nonneg backup))

-- The queue after the call, and whether it returned 0; `push` is whether array_push finds memory.
unfoldable pub schedule_replication :
    Bool → List ReplicationTask → Bytes → Bytes → ℤ → ℤ → Bool → List ReplicationTask × Bool
schedule_replication push queue file owner primary backup assign =
    let task = new_task file owner primary backup assign in
    if refused_task file primary backup assign
    then (queue, false)
    else if covered queue task
    then (queue, true)
    else if push
    then (queue ++ task ∷ [], true)
    else (queue, false)

abbrev pub try_assign_found :
    Bool → List ReplicationTask → Bytes → Option FileEntry → List ReplicationTask
try_assign_found push queue name none = queue
try_assign_found push queue name (some file) =
    if nonneg file.backup_index || not (nonneg file.ss_index)
    then queue
    else (schedule_replication push queue name file.owner file.ss_index (negsuc 0) true).0

-- An empty name is no file's.
unfoldable pub try_assign_backup : Bool → Replication → Bytes → Replication
try_assign_backup push r [] = r
try_assign_backup push r (c ∷ name) = record r {
  queue = try_assign_found push r.queue (c ∷ name) (nm_find_file r.state.table (c ∷ name));
}

-- The backup of the file is dropped when the copy to it failed; then a new one is looked for.
abbrev pub drops : ReplicationTask → ℤ → Option FileEntry → Bool
drops task attempted none = false
drops task attempted (some file) = not task.assign_mode && eq_ℤ file.backup_index attempted

abbrev pub has_primary : Option FileEntry → Bool
has_primary none = false
has_primary (some file) = nonneg file.ss_index

unfoldable pub handle_replication_failure : Bool → Replication → ReplicationTask → ℤ → Replication
handle_replication_failure push r task attempted =
    let found = nm_find_file r.state.table task.file in
    let dropped = alter r.state.table task.file drop_backup_only in
    let after =
      if drops task attempted found
      then record r { state = record (r.state) { table = dropped } }
      else r in
    if task.assign_mode || (drops task attempted found && has_primary found)
    then try_assign_backup push after task.file
    else after
