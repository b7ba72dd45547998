-- ===== src/Manager/Servers.antt =====
-- nm/nm_state.c: the table of the storage servers, with the two counters of the round robin. An
-- index of type `int` that is -1 in the source is `none` where it is a result.
pub mod Rounds
pub mod Picks
pub mod Table
pub mod Registers
use co_write_file_system.Prelude.{
  ℕ, zero, suc, ◌+◌, ◌%◌, Bool, true, false, ◌&&◌, List, [], ◌∷◌, ◌++◌, Option, none, some, leb,
  ◌==◌, if◌then◌else◌, Bytes, length, get_elem?, set, str_eq, copy_into, ℤ, pos, negsuc, eq_ℤ,
}

pub record StorageServer : Type 0 where
  pub id : Bytes
  pub host : Bytes
  pub ctrl_port : Bytes
  pub data_port : Bytes
  pub ctrl_fd : ℤ
  pub online : Bool

-- The fields of nm_state that the servers use.
pub record Servers : Type 0 where
  pub servers : List StorageServer
  pub next_primary_index : ℕ
  pub next_backup_index : ℕ

abbrev pub shift : Option ℕ → Option ℕ
shift none = none
shift (some i) = some (suc i)

unfoldable pub nm_find_server_by_id : List StorageServer → Bytes → Option ℕ
nm_find_server_by_id [] id = none
nm_find_server_by_id (s ∷ servers) id =
    let rest = nm_find_server_by_id servers id in if str_eq s.id id then some 0 else shift rest

abbrev pub nm_get_server : List StorageServer → ℤ → Option StorageServer
nm_get_server servers (pos i) = get_elem? servers i
nm_get_server servers (negsuc i) = none

abbrev pub nonneg : ℤ → Bool
nonneg (pos n) = true
nonneg (negsuc n) = false

abbrev pub server_is_available : Option StorageServer → Bool
server_is_available none = false
server_is_available (some s) = nonneg s.ctrl_fd && s.online

abbrev pub refresh : StorageServer → Bytes → Bytes → Bytes → ℤ → StorageServer
refresh s host ctrl_port data_port fd = record s {
  host = copy_into 128 host;
  ctrl_port = copy_into 16 ctrl_port;
  data_port = copy_into 16 data_port;
  ctrl_fd = fd;
  online = true;
}

abbrev pub blank : Bytes → StorageServer
blank id = record {
  id = copy_into 128 id;
  host = [];
  ctrl_port = [];
  data_port = [];
  ctrl_fd = pos 0;
  online = false;
}

abbrev pub refresh_at : List StorageServer → ℕ → Bytes → Bytes → Bytes → ℤ → List StorageServer
refresh_at servers i host ctrl_port data_port fd = elim (get_elem? servers i) [
  | none ↦ servers
  | some s ↦ set servers i (refresh s host ctrl_port data_port fd)
]

-- NM_MAX_SERVERS is 32.
abbrev pub register_found :
    Servers → Option ℕ → Bytes → Bytes → Bytes → Bytes → ℤ → Servers × Option ℕ
register_found t (some i) id host ctrl_port data_port fd =
    (record t { servers = refresh_at t.servers i host ctrl_port data_port fd }, some i)
register_found t none id host ctrl_port data_port fd =
    if leb 32 (length t.servers) then (t, none) else (
      record t { servers = t.servers ++ refresh (blank id) host ctrl_port data_port fd ∷ [] },
      some (length t.servers),
    )

unfoldable pub nm_register_server : Servers → Bytes → Bytes → Bytes → Bytes → ℤ → Servers × Option ℕ
nm_register_server t id host ctrl_port data_port fd =
    register_found t (nm_find_server_by_id t.servers id) id host ctrl_port data_port fd

abbrev pub down : StorageServer → StorageServer
down s = record s { ctrl_fd = negsuc 0; online = false }

abbrev pub down_at : List StorageServer → ℕ → List StorageServer
down_at servers i = elim (get_elem? servers i) [ none ↦ servers | some s ↦ set servers i (down s) ]

unfoldable pub nm_mark_server_down : Servers → ℤ → Servers
nm_mark_server_down t (pos i) = record t { servers = down_at t.servers i }
nm_mark_server_down t (negsuc i) = t

-- The loop of the two pickers, with `left` offsets to go; `ok` is the condition on an index.
unfoldable pub scan : ℕ → (ℕ → Bool) → ℕ → ℕ → ℕ → Option ℕ
scan zero ok start count offset = none
scan (suc left) ok start count offset = elim (ok ((start + offset) % count)) [
  | true ↦ some ((start + offset) % count)
  | false ↦ scan left ok start count (suc offset)
]

abbrev pub available_at : List StorageServer → ℕ → Bool
available_at servers i = server_is_available (get_elem? servers i)

abbrev pub backup_at : List StorageServer → ℤ → ℕ → Bool
backup_at servers exclude i = if eq_ℤ (pos i) exclude then false else available_at servers i

abbrev pub picked_primary : Servers → Option ℕ → Servers × Option ℕ
picked_primary t none = (t, none)
picked_primary t (some i) = (record t { next_primary_index = suc i % length t.servers }, some i)

unfoldable pub nm_pick_server : Servers → Servers × Option ℕ
nm_pick_server t =
    let count = length t.servers in
    if count == 0
    then (t, none)
    else picked_primary t
        (scan count (available_at t.servers) (t.next_primary_index % count) count 0)

abbrev pub picked_backup : Servers → Option ℕ → Servers × Option ℕ
picked_backup t none = (t, none)
picked_backup t (some i) = (record t { next_backup_index = suc i % length t.servers }, some i)

unfoldable pub nm_pick_backup_server : Servers → ℤ → Servers × Option ℕ
nm_pick_backup_server t exclude =
    let count = length t.servers in
    if count == 0
    then (t, none)
    else picked_backup t
        (scan count (backup_at t.servers exclude) (t.next_backup_index % count) count 0)

-- Whether a server other than the primary can take a backup; the loop over the servers is at `i`.
unfoldable pub candidate_from : List StorageServer → ℤ → ℕ → Bool
candidate_from [] primary i = false
candidate_from (s ∷ servers) primary i =
    let rest = candidate_from servers primary (suc i) in
    if eq_ℤ (pos i) primary then rest else if server_is_available (some s) then true else rest

abbrev pub has_backup_candidate : List StorageServer → ℤ → Bool
has_backup_candidate servers primary = candidate_from servers primary 0
