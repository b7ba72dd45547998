-- ===== src/Manager/Replication/Update/Laws.antt =====
-- nm/nm_main.c: what handle_ss_file_update keeps.
use co_write_file_system.Prelude.{
  ◌≡◌, refl, inl, inr, Bool, true, false, ◌&&◌, not, List, Option, none, some, Bytes, codes, negsuc,
  eq_ℤ, Bool-cases,
}
use co_write_file_system.Common.Json.{json_get_string}
use co_write_file_system.Manager.Entry.{FileEntry}
use co_write_file_system.Manager.Files.{nm_find_file}
use co_write_file_system.Manager.Servers.{nonneg, has_backup_candidate}
use co_write_file_system.Manager.State.{nm_update_file_metadata}
use co_write_file_system.Manager.Replication.{ReplicationTask, Replication, new_task}
use co_write_file_system.Manager.Replication.Queue.{
  IsSingle, schedule_replication-IsSingle, handle_replication_failure-IsSingle,
}
use co_write_file_system.Manager.Replication.Worker.Apart.{IsFine, alter-IsApart, failure-IsSound}
use co_write_file_system.Manager.Replication.Update.{
  metadata_of, sync_scheduled, after_update, update_found, update_named, handle_ss_file_update,
}

queued-IsFine :
    (r : Replication) (queue : List ReplicationTask)
    → IsFine r
    → IsSingle queue
    → IsFine (record r { queue = queue })
queued-IsFine r queue v u = record { valid = v.valid; apart = v.apart; single = u }

module _ (push : Bool) (name : Bytes) where
  sync-IsFine :
      (r : Replication) (file : FileEntry) (x : List ReplicationTask × Bool)
      → IsFine r
      → IsSingle x.0
      → IsFine (sync_scheduled push r name file x)
  sync-IsFine r file (queue, true) v u = queued-IsFine r queue v u
  sync-IsFine r file (queue, false) v u =
      let task = new_task name file.owner file.ss_index file.backup_index false in
      let (valid, apart) =
        failure-IsSound push (record r { queue = queue }) task file.backup_index
          (v.valid, v.apart) in
      record {
        valid = valid;
        apart = apart;
        single =
            handle_replication_failure-IsSingle push (record r { queue = queue }) task
              file.backup_index u;
      }

  after-IsFine :
      (r : Replication) (before file : FileEntry)
      → IsFine r
      → IsFine (after_update push r name before file)
  after-IsFine r before file v =
      elim (Bool-cases (not (eq_ℤ file.modified before.modified) && nonneg file.backup_index)) [
        | inl e ↦ rw e (
            sync-IsFine r file _ v (
              schedule_replication-IsSingle push r.queue name file.owner file.ss_index
                file.backup_index false v.single))
        | inr e ↦
            elim (Bool-cases (
              not (nonneg file.backup_index)
              && (nonneg file.ss_index
                  && has_backup_candidate r.state.servers.servers file.ss_index))) [
                    | inl c ↦
                        rw (e, c)
                          (queued-IsFine r _ v (
                            schedule_replication-IsSingle push r.queue name file.owner file.ss_index
                              (negsuc 0) true v.single))
                    | inr c ↦ rw (e, c) v
                  ]
      ]

  update-IsFine :
      (stale json : Bytes) (r : Replication) (o : Option FileEntry)
      → nm_find_file r.state.table name ≡ o
      → IsFine r
      → IsFine (update_found push stale json r name o)
  unfolding nm_update_file_metadata
  update-IsFine stale json r none at v = v
  update-IsFine stale json r (some file) at v =
      let (valid, apart) =
        alter-IsApart r.state.table name (metadata_of stale json) v.valid v.apart (λ f. refl)
          (λ f here. v.apart name f here) in
      after-IsFine _ file (metadata_of stale json file)
        (record { valid = valid; apart = apart; single = v.single })

-- A message of a storage server on a change of a file, whatever it says, keeps the table valid, the
-- backup of each file another server than its primary, and at most one search for a backup of
-- each file in the queue.
pub handle_ss_file_update-IsFine :
    (push : Bool) (stale json : Bytes) (r : Replication)
    → IsFine r
    → IsFine (handle_ss_file_update push stale json r)
unfolding handle_ss_file_update
handle_ss_file_update-IsFine push stale json r v = by (json_get_string json (codes "file") 128)
  where
    by : (o : Option Bytes) → IsFine (update_named push stale json r o)
    by none = v
    by (some name) = update-IsFine push name stale json r _ refl v
