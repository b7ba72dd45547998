-- ===== src/Manager/Replication/Update.antt =====
-- nm/nm_main.c: handle_ss_file_update, by which a storage server tells of a change of a file.
pub mod Laws
use co_write_file_system.Prelude.{
  ℕ, ◌≡◌, refl, inl, inr, ap, Bool, true, false, ◌&&◌, ◌||◌, not, List, [], ◌∷◌, Option, none, some,
  if◌then◌else◌, arith, Bytes, codes, ℤ, pos, negsuc, eq_ℤ, Bool-cases, Option-cases,
}
use co_write_file_system.Common.Json.{json_get_string}
use co_write_file_system.Common.Json.Numbers.{json_get_int}
use co_write_file_system.Manager.Entry.{FileEntry}
use co_write_file_system.Manager.Files.{alter, nm_find_file}
use co_write_file_system.Manager.Servers.{nonneg, has_backup_candidate}
use co_write_file_system.Manager.State.{NmState, with_metadata, nm_update_file_metadata}
use co_write_file_system.Manager.Replication.{
  ReplicationTask, Replication, new_task, schedule_replication, handle_replication_failure,
}
use co_write_file_system.Manager.Replication.Queue.{
  IsSingle, schedule_replication-IsSingle, handle_replication_failure-IsSingle,
}
use co_write_file_system.Manager.Replication.Worker.Apart.{
  IsFine, IsSound, alter-IsApart, failure-IsSound,
}

-- A count that the message lacks, or that is negative, is 0.
abbrev pub count_in : Bytes → Bytes → ℕ
count_in json key = elim (json_get_int json key) [
  | none ↦ 0
  | some (pos n) ↦ n
  | some (negsuc n) ↦ 0
]

abbrev pub time_in : Bytes → Bytes → ℤ
time_in json key = elim (json_get_int json key) [ none ↦ pos 0 | some n ↦ n ]

-- The buffer has no value of its own: `stale` is what it reads as when the field cannot be read.
abbrev pub last_user_in : Bytes → Bytes → Bytes
last_user_in stale json = elim (json_get_string json (codes "lastAccessUser") 64) [
  | none ↦ stale
  | some user ↦ user
]

abbrev pub metadata_of : Bytes → Bytes → FileEntry → FileEntry
metadata_of stale json =
    with_metadata (count_in json (codes "words")) (count_in json (codes "chars"))
      (time_in json (codes "modified")) (time_in json (codes "lastAccess"))
      (last_user_in stale json)

-- A change of the text is copied to the backup; the copy that cannot be queued has failed.
abbrev pub sync_scheduled :
    Bool → Replication → Bytes → FileEntry → List ReplicationTask × Bool → Replication
sync_scheduled push r name file (queue, true) = record r { queue = queue }
sync_scheduled push r name file (queue, false) =
    handle_replication_failure push (record r { queue = queue })
      (new_task name file.owner file.ss_index file.backup_index false) file.backup_index

abbrev pub after_update : Bool → Replication → Bytes → FileEntry → FileEntry → Replication
after_update push r name before file =
    if not (eq_ℤ file.modified before.modified) && nonneg file.backup_index
    then sync_scheduled push r name file
        (schedule_replication push r.queue name file.owner file.ss_index file.backup_index false)
    else if not (nonneg file.backup_index)
        && (nonneg file.ss_index && has_backup_candidate r.state.servers.servers file.ss_index)
    then record r {
      queue = (schedule_replication push r.queue name file.owner file.ss_index (negsuc 0) true).0;
    }
    else r

abbrev pub update_found :
    Bool → Bytes → Bytes → Replication → Bytes → Option FileEntry → Replication
update_found push stale json r name none = r
update_found push stale json r name (some file) =
    let table =
      nm_update_file_metadata r.state.table name (count_in json (codes "words"))
        (count_in json (codes "chars")) (time_in json (codes "modified"))
        (time_in json (codes "lastAccess")) (last_user_in stale json) in
    after_update push (record r { state = record (r.state) { table = table } }) name file
      (metadata_of stale json file)

abbrev pub update_named : Bool → Bytes → Bytes → Replication → Option Bytes → Replication
update_named push stale json r none = r
update_named push stale json r (some name) =
    update_found push stale json r name (nm_find_file r.state.table name)

unfoldable pub handle_ss_file_update : Bool → Bytes → Bytes → Replication → Replication
handle_ss_file_update push stale json r =
    update_named push stale json r (json_get_string json (codes "file") 128)
