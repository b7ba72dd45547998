-- ===== src/Examples/Replication.antt =====
-- A round of the replication worker, and the message of a change of a file with its numbers.
use co_write_file_system.Prelude.{
  Bytes, negsuc, refl, subst, ◌≡◌, true, false, Bool, List, [], some, none, arith, codes, pos,
  str_eq, if◌then◌else◌, sym, ◌∙◌,
}
use co_write_file_system.Common.Json.{after_first}
use co_write_file_system.Common.Json.Numbers.{json_get_int, skip_spaces, digits_from, to_int}
use co_write_file_system.Manager.Replication.Update.{handle_ss_file_update}
use co_write_file_system.Manager.Replication.Update.Laws.{handle_ss_file_update-IsFine}
use co_write_file_system.Manager.Entry.{FileEntry}
use co_write_file_system.Manager.Files.{nm_find_file}
use co_write_file_system.Manager.Replication.{
  Replication, ReplicationTask, new_task, schedule_replication,
}
use co_write_file_system.Manager.Replication.Queue.{IsSingle, schedule_replication-IsSingle}
use co_write_file_system.Manager.Replication.Worker.{worker_round}
use co_write_file_system.Manager.Replication.Worker.Apart.{
  ApartFile, IsApart, IsFine, worker_round-IsFine,
}
use co_write_file_system.Examples.Registry.{one_file, file_a, one_file-IsValid, one_file-finds}
use co_write_file_system.Examples.Requests.{state}
use co_write_file_system.Examples.Replicas.{answers}

abbrev waiting : List ReplicationTask
waiting = (schedule_replication true [] (codes "a") (codes "ann") (pos 0) (pos 1) false).0

abbrev replication : Replication
replication = record { state = state; queue = waiting }

no_tasks : IsSingle []
unfolding co_write_file_system.Manager.Replication.Queue.assign_count
no_tasks name = omega arith

apart_if : (b : Bool) (f : FileEntry) → (if b then some file_a else none) ≡ some f → ApartFile f
apart_if true f h = λ on same. absurd (cc (differ (cc h) same))
  where
    differ : file_a ≡ f → f.backup_index ≡ f.ss_index → pos 1 ≡ pos 0
    differ e same = subst (λ x. x.backup_index ≡ x.ss_index) (sym e) same
apart_if false f h = absurd (cc h)

one_file-IsApart : IsApart one_file
unfolding nm_find_file co_write_file_system.Manager.Files.find_file_index
    co_write_file_system.Manager.Files.find_from
one_file-IsApart q f e = apart_if (str_eq (codes "a") q) f (sym (one_file-finds q) ∙ e)

fine : IsFine replication
fine = record {
  valid = one_file-IsValid;
  apart = one_file-IsApart;
  single =
      schedule_replication-IsSingle true [] (codes "a") (codes "ann") (pos 0) (pos 1) false
        no_tasks;
}

worker_round-IsFine_example : IsFine (worker_round 9 (codes "t") answers true replication)
worker_round-IsFine_example = worker_round-IsFine 9 (codes "t") answers true replication fine

abbrev update_json : Bytes
update_json =
    codes
      "{\"type\":\"SS_FILE_UPDATE\",\"file\":\"a\",\"words\":3,\"modified\": 8,\"shift\":-7,\"much\":4294967298}"

reads_words : json_get_int update_json (codes "words") ≡ some (pos 3)
unfolding json_get_int skip_spaces digits_from to_int after_first
reads_words = refl

reads_modified : json_get_int update_json (codes "modified") ≡ some (pos 8)
unfolding json_get_int skip_spaces digits_from to_int after_first
reads_modified = refl

reads_shift : json_get_int update_json (codes "shift") ≡ some (negsuc 6)
unfolding json_get_int skip_spaces digits_from to_int after_first
reads_shift = refl

reads_much : json_get_int update_json (codes "much") ≡ some (pos 2)
unfolding json_get_int skip_spaces digits_from to_int after_first
reads_much = refl

handle_ss_file_update-IsFine_example :
    IsFine (handle_ss_file_update true (codes "x") update_json replication)
handle_ss_file_update-IsFine_example =
    handle_ss_file_update-IsFine true (codes "x") update_json replication fine
