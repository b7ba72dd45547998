-- ===== src/Examples/Registry.antt =====
-- Runs of the file table, the servers and the cache of the name server.
use co_write_file_system.Prelude.{
  ℕ, ◌+◌, ◌%◌, ◌≤◌, ◌<◌, ◌≡◌, ◌≢◌, refl, true, false, List, [], ◌∷◌, Option, none, some, arith,
  codes, pos, negsuc, str_eq, Bytes, length, if◌then◌else◌,
}
use co_write_file_system.Manager.Entry.{FileEntry}
use co_write_file_system.Manager.Files.{
  FileTable, Outcome, done, empty, added_file, nm_add_file, nm_find_file, nm_remove_file,
}
use co_write_file_system.Manager.Files.Map.{
  IsValid, first_named, nm_find_file-first_named, empty-IsValid,
}
use co_write_file_system.Manager.Files.Adds.{nm_add_file-adds}
use co_write_file_system.Manager.Files.Removes.{nm_remove_file-removes}
use co_write_file_system.Manager.Servers.{
  StorageServer, Servers, nm_pick_server, nm_register_server,
}
use co_write_file_system.Manager.Servers.Picks.{nm_pick_server-picks, after_picks}
use co_write_file_system.Manager.Servers.Registers.{Registers, nm_register_server-Registers}

abbrev pub one_file : FileTable
one_file = (nm_add_file empty (codes "a") (codes "ann") (pos 0) (pos 1) 5).0

abbrev pub file_a : FileEntry
file_a = added_file (codes "a") (codes "ann") (pos 0) (pos 1) 5

absent : nm_find_file empty (codes "a") ≡ none
unfolding nm_find_file co_write_file_system.Manager.Files.find_file_index
    co_write_file_system.Manager.Files.find_from
absent = refl

nm_add_file-adds_example :
    ((nm_add_file empty (codes "a") (codes "ann") (pos 0) (pos 1) 5).1 ≡ done)
    × IsValid one_file
    × ((q : Bytes)
        → nm_find_file one_file q
          ≡ (if str_eq (codes "a") q then some file_a else nm_find_file empty q))
nm_add_file-adds_example =
    nm_add_file-adds empty (codes "a") (codes "ann") (pos 0) (pos 1) 5 empty-IsValid (omega arith)
      (omega arith) absent

pub one_file-IsValid : IsValid one_file
one_file-IsValid =
    (nm_add_file-adds empty (codes "a") (codes "ann") (pos 0) (pos 1) 5 empty-IsValid (omega arith)
      (omega arith) absent).1

pub one_file-finds :
    (q : Bytes)
    → nm_find_file one_file q ≡ (if str_eq (codes "a") q then some file_a else nm_find_file empty q)
one_file-finds =
    (nm_add_file-adds empty (codes "a") (codes "ann") (pos 0) (pos 1) 5 empty-IsValid (omega arith)
      (omega arith) absent).2

pub finds_a : nm_find_file one_file (codes "a") ≡ some file_a
unfolding nm_find_file co_write_file_system.Manager.Files.find_file_index
    co_write_file_system.Manager.Files.find_from nm_add_file
    co_write_file_system.Manager.Files.file_hash_insert
    co_write_file_system.Manager.Files.file_hash_name co_write_file_system.Prelude.copy_into str_eq
finds_a = refl

no_b : nm_find_file one_file (codes "b") ≡ none
unfolding nm_find_file co_write_file_system.Manager.Files.find_file_index
    co_write_file_system.Manager.Files.find_from nm_add_file
    co_write_file_system.Manager.Files.file_hash_insert
    co_write_file_system.Manager.Files.file_hash_name co_write_file_system.Prelude.copy_into
no_b = refl

abbrev two_files : FileTable
two_files = (nm_add_file one_file (codes "b") (codes "bob") (pos 1) (negsuc 0) 6).0

two_files-IsValid : IsValid two_files
unfolding nm_add_file co_write_file_system.Manager.Files.find_file_index
    co_write_file_system.Manager.Files.find_from co_write_file_system.Manager.Files.file_hash_insert
two_files-IsValid =
    (nm_add_file-adds one_file (codes "b") (codes "bob") (pos 1) (negsuc 0) 6 one_file-IsValid
      (omega arith) (omega arith) no_b).1

nm_find_file-first_named_example :
    nm_find_file two_files (codes "b") ≡ first_named two_files.files (codes "b")
nm_find_file-first_named_example = nm_find_file-first_named two_files (codes "b") two_files-IsValid

still_a : nm_find_file two_files (codes "a") ≡ some file_a
unfolding nm_find_file co_write_file_system.Manager.Files.find_file_index
    co_write_file_system.Manager.Files.find_from nm_add_file
    co_write_file_system.Manager.Files.file_hash_insert
    co_write_file_system.Manager.Files.file_hash_name co_write_file_system.Prelude.copy_into str_eq
still_a = refl

nm_remove_file-removes_example :
    ((nm_remove_file two_files (codes "a")).1 ≡ done)
    × IsValid (nm_remove_file two_files (codes "a")).0
    × ((q : Bytes)
        → nm_find_file (nm_remove_file two_files (codes "a")).0 q
          ≡ (if str_eq (codes "a") q then none else nm_find_file two_files q))
nm_remove_file-removes_example =
    nm_remove_file-removes two_files (codes "a") two_files-IsValid file_a still_a

abbrev pub on : Bytes → StorageServer
on id = record {
  id = id;
  host = codes "h";
  ctrl_port = codes "1";
  data_port = codes "2";
  ctrl_fd = pos 7;
  online = true;
}

abbrev pub three : Servers
three = record {
  servers = on (codes "x") ∷ on (codes "y") ∷ on (codes "z") ∷ [];
  next_primary_index = 1;
  next_backup_index = 0;
}

nm_pick_server-picks_example :
    (k : ℕ) × (k < 3) × ((nm_pick_server (after_picks k three)).1 ≡ some 0)
nm_pick_server-picks_example = nm_pick_server-picks three 0 (omega arith) refl

nm_register_server-Registers_example :
    Registers three
      (codes "w")
      (codes "h")
      (codes "1")
      (codes "2")
      (pos 8)
      (omega arith)
      (nm_register_server three (codes "w") (codes "h") (codes "1") (codes "2") (pos 8))
nm_register_server-Registers_example =
    nm_register_server-Registers three (codes "w") (codes "h") (codes "1") (codes "2") (pos 8)
      (omega arith)
