-- ===== src/Manager/Replicas.antt =====
-- nm/nm_main.c: which of the two replicas of a file answers, and what happens to the files when a
-- storage server goes. The log is left out, and with it the argument `reason`; nm_state_save only
-- writes the state to the disk.
pub mod Laws
use co_write_file_system.Prelude.{
  ℕ, Bool, true, false, ◌&&◌, ◌||◌, List, [], ◌∷◌, map, Option, none, some, if◌then◌else◌, Bytes, ℤ,
  pos, negsuc, eq_ℤ,
}
use co_write_file_system.Manager.Entry.{FileEntry}
use co_write_file_system.Manager.Files.{FileTable}
use co_write_file_system.Manager.Servers.{
  StorageServer, Servers, nm_get_server, server_is_available, nonneg, has_backup_candidate,
  nm_mark_server_down,
}

abbrev pub replica_available : List StorageServer → ℤ → Bool
replica_available servers index = server_is_available (nm_get_server servers index)

abbrev pub drop_backup_only : FileEntry → FileEntry
drop_backup_only file =
    if nonneg file.backup_index then record file { backup_index = negsuc 0 } else file

abbrev pub promote : FileEntry → FileEntry
promote file = record file { ss_index = file.backup_index; backup_index = negsuc 0 }

-- The file after the call, and the index of the server; `none` is NULL.
unfoldable pub select_storage_server : List StorageServer → FileEntry → FileEntry × Option ℤ
select_storage_server servers file =
    if nonneg file.ss_index && replica_available servers file.ss_index
    then (file, some file.ss_index)
    else if nonneg file.backup_index
    then if replica_available servers file.backup_index
      then (promote file, some file.backup_index)
      else (drop_backup_only file, none)
    else (file, none)

-- The body of the loop of handle_server_disconnect, for the server `gone`: the first test …
abbrev pub primary_gone : List StorageServer → ℤ → FileEntry → FileEntry
primary_gone servers gone file =
    if eq_ℤ file.ss_index gone
    then if nonneg file.backup_index
      then if replica_available servers file.backup_index
        then promote file
        else drop_backup_only file
      else file
    else file

-- … and the second.
abbrev pub backup_gone : ℤ → FileEntry → FileEntry
backup_gone gone file = if eq_ℤ file.backup_index gone then drop_backup_only file else file

unfoldable pub fail_over : List StorageServer → ℤ → FileEntry → FileEntry
fail_over servers gone file = backup_gone gone (primary_gone servers gone file)

abbrev pub file_dirty : List StorageServer → ℤ → FileEntry → Bool
file_dirty servers gone file =
    eq_ℤ file.ss_index gone || eq_ℤ (primary_gone servers gone file).backup_index gone

-- Whether the file wants a new backup.
abbrev pub wants_backup : List StorageServer → FileEntry → Bool
wants_backup servers file =
    (if nonneg file.backup_index then false else true)
    && (nonneg file.ss_index && has_backup_candidate servers file.ss_index)

unfoldable pub pending_backup : List StorageServer → ℤ → List FileEntry → List Bytes
pending_backup servers gone [] = []
pending_backup servers gone (file ∷ files) =
    let rest = pending_backup servers gone files in
    if file_dirty servers gone file && wants_backup servers (fail_over servers gone file)
    then file.name ∷ rest
    else rest

-- What handle_server_disconnect leaves of a server's connection, before try_assign_backup is called
-- for each of the names.
unfoldable pub handle_server_disconnect : Servers → FileTable → ℕ → Servers × FileTable × List Bytes
handle_server_disconnect s t index =
    let after = nm_mark_server_down s (pos index) in
    (
      after,
      record t { files = map (fail_over after.servers (pos index)) t.files },
      pending_backup after.servers (pos index) t.files,
    )
