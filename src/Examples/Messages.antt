-- ===== src/Examples/Messages.antt =====
-- Runs of CREATE and DELETE, and of a message that is cut on its way.
use co_write_file_system.Prelude.{
  ℕ, ◌<◌, ◌≡◌, ◌↔◌, All, ◌⊎◌, refl, true, false, Bool, List, [], ◌∷◌, ◌++◌, some, arith, codes,
  Bytes, length,
}
use co_write_file_system.Common.Json.{json_get_string, read_into, after_first}
use co_write_file_system.Common.Net.{
  Step, interrupted, moved, net_send_json, net_recv_json, message, overrun, recv_all,
}
use co_write_file_system.Common.Net.Round.{left_after, net_recv_json-net_send_json}
use co_write_file_system.Common.Net.Overrun.{BringsMore, net_recv_json-overrun}
use co_write_file_system.Storage.History.{valid_filename}
use co_write_file_system.Manager.State.{is_empty}
use co_write_file_system.Manager.Create.{handle_client_create}
use co_write_file_system.Manager.Create.Made.{Refuses, Makes, handle_client_create_lem}
use co_write_file_system.Manager.Delete.{handle_client_delete}
use co_write_file_system.Manager.Delete.Laws.{Deletes, handle_client_delete-Deletes}
use co_write_file_system.Examples.Registry.{one_file, file_a, one_file-IsValid, finds_a}
use co_write_file_system.Examples.Requests.{state, sound}
use co_write_file_system.Examples.Replicas.{answers}

abbrev create_json : Bytes
create_json = codes "{\"type\":\"CREATE\",\"file\":\"n\"}"

abbrev delete_json : Bytes
delete_json = codes "{\"type\":\"DELETE\",\"file\":\"a\"}"

create_name : json_get_string create_json (codes "file") 128 ≡ some (codes "n")
unfolding json_get_string read_into after_first
create_name = refl

delete_name : json_get_string delete_json (codes "file") 128 ≡ some (codes "a")
unfolding json_get_string read_into after_first
delete_name = refl

handle_client_create_lem_example :
    Refuses one_file (handle_client_create 9 answers state (codes "bob") create_json)
    ⊎ (Makes 9 answers state
          (codes "bob")
          (codes "n")
          (handle_client_create 9 answers state (codes "bob") create_json)
        × (valid_filename (codes "n") ≡ true)
        × (is_empty (codes "bob") ≡ false))
handle_client_create_lem_example =
    handle_client_create_lem 9 answers state (codes "bob") sound (omega arith) create_json
      (codes "n") create_name

handle_client_delete-Deletes_example :
    Deletes state
      (codes "ann")
      (codes "a")
      file_a
      (handle_client_delete answers state (codes "ann") delete_json)
handle_client_delete-Deletes_example =
    handle_client_delete-Deletes answers state (codes "ann") (codes "a") file_a one_file-IsValid
      finds_a delete_json delete_name

abbrev cut : List Step
cut = moved 1 ∷ interrupted ∷ moved 0 ∷ moved 0 ∷ moved 0 ∷ moved 0 ∷ moved 9 ∷ []

-- The calls left after the four bytes, and after the two of the text.
abbrev cut_head : List Step
cut_head = moved 0 ∷ moved 0 ∷ moved 9 ∷ []

abbrev cut_text : List Step
cut_text = moved 9 ∷ []

moves_head : left_after cut 4 ≡ some cut_head
unfolding left_after
moves_head = refl

moves_text : left_after cut_head (length (codes "hi")) ≡ some cut_text
unfolding left_after
moves_text = refl

abbrev plenty : ℕ → Bool
plenty n = true

net_recv_json-net_send_json_example :
    net_recv_json plenty cut ((net_send_json cut (codes "hi")).bytes ++ codes "x")
    ≡ message (codes "hi") (codes "x") cut_text
net_recv_json-net_send_json_example =
    net_recv_json-net_send_json (codes "hi") (omega arith) plenty refl cut cut_head cut_text cut
      cut_head cut_text (codes "x") moves_head moves_text moves_head moves_text

abbrev longest : Bytes
longest = 255 ∷ 255 ∷ 255 ∷ 255 ∷ 65 ∷ []

longest-bytes : All (λ b. b < 256) longest
longest-bytes = (omega arith, (omega arith, (omega arith, (omega arith, (omega arith, tt)))))

net_recv_json-overrun_example :
    (net_recv_json plenty cut longest ≡ overrun) ↔ BringsMore plenty cut longest
net_recv_json-overrun_example = net_recv_json-overrun plenty cut longest longest-bytes

brings : BringsMore plenty cut longest
unfolding recv_all left_after
brings = (refl, refl, (cut_head, refl, omega arith))

overruns : net_recv_json plenty cut longest ≡ overrun
overruns = (net_recv_json-overrun plenty cut longest longest-bytes).1 brings
