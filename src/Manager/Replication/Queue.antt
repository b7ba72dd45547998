-- ===== src/Manager/Replication/Queue.antt =====
-- nm/nm_main.c: the queue has one search for a backup of a file at most.
use co_write_file_system.Prelude.{
  ℕ, ◌+◌, ◌≤◌, ◌≡◌, refl, inl, inr, sym, ap, ◌∙◌, Bool, true, false, ◌&&◌, ◌||◌, not, List, [], ◌∷◌,
  ◌++◌, Option, none, some, if◌then◌else◌, arith, Bytes, str_eq, str_eq_iff, ℤ, negsuc, Bool-cases,
}
use co_write_file_system.Manager.Entry.{FileEntry}
use co_write_file_system.Manager.Files.{nm_find_file}
use co_write_file_system.Manager.Servers.{nonneg}
use co_write_file_system.Manager.Replication.{
  ReplicationTask, Replication, covered, new_task, refused_task, schedule_replication,
  try_assign_found, try_assign_backup, drops, handle_replication_failure,
}

abbrev searches : Bytes → ReplicationTask → Bool
searches name task = task.assign_mode && str_eq task.file name

-- How many tasks look for a backup of the file.
unfoldable pub assign_count : List ReplicationTask → Bytes → ℕ
assign_count [] name = 0
assign_count (task ∷ queue) name = (if searches name task then 1 else 0) + assign_count queue name

abbrev pub IsSingle : List ReplicationTask → Type 0
IsSingle queue = (name : Bytes) → assign_count queue name ≤ 1

pub tail-IsSingle :
    (task : ReplicationTask) (queue : List ReplicationTask)
    → IsSingle (task ∷ queue)
    → IsSingle queue
unfolding assign_count
tail-IsSingle task queue v name = omega (arith, v name)

assign_count-append :
    (queue : List ReplicationTask) (task : ReplicationTask) (name : Bytes)
    → assign_count (queue ++ task ∷ []) name
      ≡ assign_count queue name + (if searches name task then 1 else 0)
unfolding assign_count
assign_count-append [] task name = omega arith
assign_count-append (old ∷ queue) task name = omega (arith, assign_count-append queue task name)

-- A queue that does not cover a search has none for its file.
uncovered :
    (queue : List ReplicationTask) (task : ReplicationTask)
    → task.assign_mode ≡ true
    → covered queue task ≡ false
    → assign_count queue task.file ≡ 0
unfolding assign_count covered
uncovered [] task a h = refl
uncovered (old ∷ queue) task a h = ground (arith, uncovered queue task a)

append-IsSingle :
    (queue : List ReplicationTask) (task : ReplicationTask)
    → IsSingle queue
    → covered queue task ≡ false
    → IsSingle (queue ++ task ∷ [])
append-IsSingle queue task v h = λ name. elim (Bool-cases (searches name task)) [
  | inl e ↦
      let a : task.assign_mode ≡ true = ground arith in
      let same : task.file ≡ name = (str_eq_iff task.file name).0 (ground arith) in
      let free : assign_count queue name ≡ 0 =
        ap (assign_count queue) (sym same) ∙ uncovered queue task a h in
      ground (arith, assign_count-append queue task name)
  | inr e ↦ ground (arith, assign_count-append queue task name, v name)
]

-- schedule_replication keeps at most one search for a backup of each file in the queue.
pub schedule_replication-IsSingle :
    (push : Bool) (queue : List ReplicationTask) (file owner : Bytes) (primary backup : ℤ)
    (assign : Bool)
    → IsSingle queue
    → IsSingle (schedule_replication push queue file owner primary backup assign).0
unfolding schedule_replication
schedule_replication-IsSingle push queue file owner primary backup assign v =
    elim (Bool-cases (refused_task file primary backup assign)) [
      | inl e ↦ rw (e, schedule_replication) v
      | inr e ↦ elim (Bool-cases (covered queue (new_task file owner primary backup assign))) [
        | inl c ↦ rw (e, c, schedule_replication) v
        | inr c ↦ elim (Bool-cases push) [
          | inl p ↦ rw (e, c, p, schedule_replication) (append-IsSingle queue _ v c)
          | inr p ↦ rw (e, c, p, schedule_replication) v
        ]
      ]
    ]

pub try_assign_backup-IsSingle :
    (push : Bool) (r : Replication) (name : Bytes)
    → IsSingle r.queue
    → IsSingle (try_assign_backup push r name).queue
unfolding try_assign_backup
try_assign_backup-IsSingle push r [] v = v
try_assign_backup-IsSingle push r (c ∷ name) v = by (nm_find_file r.state.table (c ∷ name))
  where
    by : (o : Option FileEntry) → IsSingle (try_assign_found push r.queue (c ∷ name) o)
    by none = v
    by (some file) = elim (Bool-cases (nonneg file.backup_index || not (nonneg file.ss_index))) [
      | inl e ↦ rw e v
      | inr e ↦ rw e (
          schedule_replication-IsSingle push r.queue (c ∷ name) file.owner file.ss_index (negsuc 0)
            true v)
    ]

abbrev queue_of : Replication → List ReplicationTask
queue_of r = r.queue

if-IsSingle :
    (b : Bool) (x y : Replication)
    → IsSingle x.queue
    → IsSingle y.queue
    → IsSingle (queue_of (if b then x else y))
if-IsSingle true x y h k = h
if-IsSingle false x y h k = k

pub handle_replication_failure-IsSingle :
    (push : Bool) (r : Replication) (task : ReplicationTask) (attempted : ℤ)
    → IsSingle r.queue
    → IsSingle (handle_replication_failure push r task attempted).queue
unfolding handle_replication_failure
handle_replication_failure-IsSingle push r task attempted v =
    let after = if-IsSingle (drops task attempted (nm_find_file r.state.table task.file)) _ r v v in
    if-IsSingle (task.assign_mode || _) _ _ (try_assign_backup-IsSingle push _ task.file after)
      after
