-- ===== src/Manager/Replication/Worker/Apart.antt =====
-- nm/nm_main.c: what a round of replication_worker keeps.
use co_write_file_system.Prelude.{
  ℕ, suc, ◌≡◌, ◌≢◌, refl, inl, inr, sym, ap, subst, ◌∙◌, Bool, true, false, ◌&&◌, ◌||◌, not, List,
  [], ◌∷◌, Option, none, some, if◌then◌else◌, arith, Bytes, copy_into, str_eq, str_eq_iff, ℤ, pos,
  eq_ℤ, eq_ℤ_iff, Bool-cases, Option-cases,
}
use co_write_file_system.Manager.Entry.{FileEntry}
use co_write_file_system.Manager.Files.{FileTable, alter, nm_find_file}
use co_write_file_system.Manager.Files.Map.{IsValid}
use co_write_file_system.Manager.Files.Alters.{mapped, alter-Alters}
use co_write_file_system.Manager.Servers.{StorageServer, nm_get_server, server_is_available, nonneg}
use co_write_file_system.Manager.State.{NmState, TicketEntry}
use co_write_file_system.Manager.Replicas.{drop_backup_only}
use co_write_file_system.Manager.Tickets.{Answers}
use co_write_file_system.Manager.Replication.{
  ReplicationTask, Replication, drops, handle_replication_failure, try_assign_backup,
}
use co_write_file_system.Manager.Replication.Queue.{
  IsSingle, tail-IsSingle, handle_replication_failure-IsSingle,
}
use co_write_file_system.Manager.Replication.Worker.{
  sync_issued, sync_from, replicate_file_to_backup, first_candidate, assigned, round_copied,
  round_target, target_of, round_found, round_queue, worker_round,
}

-- A file's backup is another server than its primary.
abbrev pub ApartFile : FileEntry → Type 0
ApartFile f = nonneg f.backup_index ≡ true → f.backup_index ≢ f.ss_index

abbrev pub IsApart : FileTable → Type 0
IsApart t = (q : Bytes) (f : FileEntry) → nm_find_file t q ≡ some f → ApartFile f

-- The table is valid, no file has one server twice, and the queue has one search for each file.
pub record IsFine (r : Replication) : Type 0 where
  pub valid : IsValid r.state.table
  pub apart : IsApart r.state.table
  pub single : IsSingle r.queue

drop-ApartFile : (f : FileEntry) → ApartFile (drop_backup_only f)
drop-ApartFile f = elim (Bool-cases (nonneg f.backup_index)) [
  | inl e ↦ rw e (λ h. absurd (cc h))
  | inr e ↦ rw e (λ h. absurd (cc (sym e ∙ h)))
]

drop-name : (f : FileEntry) → (drop_backup_only f).name ≡ f.name
drop-name f = elim (Bool-cases (nonneg f.backup_index)) [ inl e ↦ rw e refl | inr e ↦ rw e refl ]

mapped-ApartFile :
    (g : FileEntry → FileEntry) (o : Option FileEntry) (f : FileEntry)
    → ((x : FileEntry) → o ≡ some x → ApartFile (g x))
    → mapped g o ≡ some f
    → ApartFile f
mapped-ApartFile g none f h e = absurd (cc e)
mapped-ApartFile g (some x) f h e = let same : g x ≡ f = cc e in subst ApartFile same (h x refl)

pub alter-IsApart :
    (t : FileTable) (name : Bytes) (g : FileEntry → FileEntry)
    → IsValid t
    → IsApart t
    → ((f : FileEntry) → (g f).name ≡ f.name)
    → ((f : FileEntry) → nm_find_file t name ≡ some f → ApartFile (g f))
    → IsValid (alter t name g) × IsApart (alter t name g)
alter-IsApart t name g v a named h =
    let (valid, finds) = alter-Alters t name g v (λ f e. named f) in
    (
      valid,
      λ q f e. elim (Bool-cases (str_eq name q)) [
        | inl s ↦
            let same = ap (nm_find_file t) ((str_eq_iff name q).0 s) in
            mapped-ApartFile g (nm_find_file t q) f (λ x at. h x (same ∙ at))
              (sym (finds q ∙ rw s refl) ∙ e)
        | inr s ↦ a q f (sym (finds q ∙ rw s refl) ∙ e)
      ],
    )

candidate_ne :
    (servers : List StorageServer) (primary : ℤ) (i : ℕ) (target : ℤ)
    → first_candidate servers primary i ≡ some target
    → target ≢ primary
unfolding first_candidate
candidate_ne [] primary i target e = absurd (cc e)
candidate_ne (s ∷ servers) primary i target e = elim (Bool-cases (eq_ℤ (pos i) primary)) [
  | inl h ↦ candidate_ne servers primary (suc i) target (sym (rw h refl) ∙ e)
  | inr h ↦ elim (Bool-cases (server_is_available (some s))) [
    | inl on ↦
        let same : pos i ≡ target = some_inj (sym (rw (h, on) refl) ∙ e) in
        λ z. cc (sym h ∙ (eq_ℤ_iff (pos i) primary).1 (same ∙ z))
    | inr off ↦ candidate_ne servers primary (suc i) target (sym (rw (h, off) refl) ∙ e)
  ]
]
  where
    some_inj : {x y : ℤ} → some x ≡ some y → x ≡ y
    some_inj z = cc z

abbrev pub IsSound : NmState → Type 0
IsSound s = IsValid s.table × IsApart s.table

abbrev state_of : Replication → NmState
state_of r = r.state

if-IsSound :
    (b : Bool) (x y : Replication)
    → IsSound x.state
    → IsSound y.state
    → IsSound (state_of (if b then x else y))
if-IsSound true x y h k = h
if-IsSound false x y h k = k

some_inj : {x y : ℤ} → some x ≡ some y → x ≡ y
some_inj z = cc z

target_ne :
    (s : NmState) (task : ReplicationTask) (file : FileEntry) (target : ℤ)
    → ApartFile file
    → nonneg file.ss_index ≡ true
    → target_of s task file ≡ some target
    → target ≢ file.ss_index
target_ne s task file target a on e = elim (Bool-cases task.assign_mode) [
  | inl m ↦ candidate_ne s.servers.servers file.ss_index 0 target (sym (rw m refl) ∙ e)
  | inr m ↦ elim (Bool-cases (eq_ℤ file.backup_index task.backup_index)) [
    | inl b ↦
        let asked : task.backup_index ≡ target = some_inj (sym (rw (m, b) refl) ∙ e) in
        let own : file.backup_index ≡ target =
          (eq_ℤ_iff file.backup_index task.backup_index).0 b ∙ asked in
        λ same. a (ap nonneg (own ∙ same) ∙ on) (own ∙ same)
    | inr b ↦
        let skipped : target_of s task file ≡ none = rw (m, b) refl in absurd (cc (sym e ∙ skipped))
  ]
]

module _ (push : Bool) where
  try-state : (r : Replication) (name : Bytes) → (try_assign_backup push r name).state ≡ r.state
  unfolding try_assign_backup
  try-state r [] = refl
  try-state r (c ∷ name) = refl

  pub failure-IsSound :
      (r : Replication) (task : ReplicationTask) (attempted : ℤ)
      → IsSound r.state
      → IsSound (handle_replication_failure push r task attempted).state
  unfolding handle_replication_failure
  failure-IsSound r task attempted v =
      let found = nm_find_file r.state.table task.file in
      let cut : IsSound
          (record (r.state) { table = alter r.state.table task.file drop_backup_only }) =
        alter-IsApart r.state.table task.file drop_backup_only v.0 v.1 drop-name
          (λ f e. drop-ApartFile f) in
      let after = if-IsSound (drops task attempted found) (record r { state = _ }) r cut v in
      if-IsSound (task.assign_mode || _) (try_assign_backup push _ task.file) _
        (subst IsSound (sym (try-state _ task.file)) after) after

module _ (now : ℕ) (token : Bytes) (answers : Answers) (push : Bool) where
  -- The copy leaves the files.
  issued-table :
      (s : NmState) (name owner : Bytes) (backup : ℤ) (server : StorageServer)
      (r : List TicketEntry × Bool)
      → (sync_issued now token answers push s name owner backup server r).0.table ≡ s.table
  issued-table s name owner backup server (tickets, true) = refl
  issued-table s name owner backup server (tickets, false) = refl

  from-table :
      (s : NmState) (name owner : Bytes) (primary backup : ℤ) (o : Option StorageServer)
      → (sync_from now token answers push s name owner primary backup o).0.table ≡ s.table
  from-table s name owner primary backup none = refl
  from-table s name owner primary backup (some server) =
      elim (Bool-cases (
        server_is_available (some server)
        && server_is_available (nm_get_server s.servers.servers backup))) [
          | inl e ↦ rw e (issued-table s name owner backup server _)
          | inr e ↦ rw e refl
        ]

  replicate-table :
      (s : NmState) (name owner : Bytes) (primary backup : ℤ)
      → (replicate_file_to_backup now token answers push s name owner primary backup).0.table
        ≡ s.table
  unfolding replicate_file_to_backup
  replicate-table s name owner primary backup =
      elim (Bool-cases (not (nonneg primary) || (not (nonneg backup) || eq_ℤ primary backup))) [
        | inl e ↦ rw e refl
        | inr e ↦ rw e (from-table s name owner primary backup _)
      ]

  assigned-IsSound :
      (s : NmState) (task : ReplicationTask) (primary target : ℤ)
      → target ≢ primary
      → IsSound s
      → IsSound (assigned task primary target (nm_find_file s.table task.file) s)
  assigned-IsSound s task primary target ne v =
      elim (Option-cases (nm_find_file s.table task.file)) [
        | inl none_at ↦ rw none_at v
        | inr (file, at) ↦ elim (Bool-cases (eq_ℤ file.ss_index primary && task.assign_mode)) [
          | inl e ↦
              let given : IsSound (record s {
                table = alter s.table task.file (λ f. record f { backup_index = target });
              }) =
                alter-IsApart s.table task.file (λ f. record f { backup_index = target }) v.0 v.1
                  (λ f. refl)
                  (λ f here on same.
                    let held : file ≡ f = cc (sym at ∙ here) in
                    ne (
                      same
                      ∙ ap (λ x. x.ss_index) (sym held)
                      ∙ (eq_ℤ_iff file.ss_index primary).0 (ground arith))) in
              rw (at, e) given
          | inr e ↦ rw (at, e) v
        ]
      ]

  copied-IsFine :
      (r : Replication) (task : ReplicationTask) (primary target : ℤ) (x : NmState × Bool)
      → target ≢ primary
      → IsSound x.0
      → IsSingle r.queue
      → IsFine (round_copied now token answers push r task primary target x)
  copied-IsFine r task primary target (s, false) ne v u =
      let (valid, apart) = failure-IsSound push (record r { state = s }) task target v in
      record {
        valid = valid;
        apart = apart;
        single = handle_replication_failure-IsSingle push (record r { state = s }) task target u;
      }
  copied-IsFine r task primary target (s, true) ne v u =
      let (valid, apart) = assigned-IsSound s task primary target ne v in
      record { valid = valid; apart = apart; single = u }

  target-IsFine :
      (r : Replication) (task : ReplicationTask) (file : FileEntry) (o : Option ℤ)
      → ((target : ℤ) → o ≡ some target → target ≢ file.ss_index)
      → IsFine r
      → IsFine (round_target now token answers push r task file o)
  target-IsFine r task file none ne v = v
  target-IsFine r task file (some target) ne v =
      copied-IsFine r task file.ss_index target _ (ne target refl)
        (subst (λ t. IsValid t × IsApart t)
          (sym (replicate-table r.state task.file (copy_into 64 file.owner) file.ss_index target))
          (v.valid, v.apart))
        v.single

  found-IsFine :
      (r : Replication) (task : ReplicationTask) (o : Option FileEntry)
      → nm_find_file r.state.table task.file ≡ o
      → IsFine r
      → IsFine (round_found now token answers push r task o)
  found-IsFine r task none at v = v
  found-IsFine r task (some file) at v =
      elim (Bool-cases
        (not (nonneg file.ss_index) || not (eq_ℤ file.ss_index task.primary_index))) [
          | inl e ↦ rw e v
          | inr e ↦ rw e (
              target-IsFine r task file (target_of r.state task file)
                (λ target.
                  target_ne r.state task file target (v.apart task.file file at) (ground arith))
                v)
        ]

  -- A round of replication_worker keeps a state that is fine, whatever the task, the answers of the
  -- servers and the memory are: the table stays valid, the backup of no file is its primary,
  -- and the queue has one search for a backup of each file at most.
  pub worker_round-IsFine :
      (r : Replication) → IsFine r → IsFine (worker_round now token answers push r)
  unfolding worker_round
  worker_round-IsFine r v = by r.queue v.single
    where
      by :
          (queue : List ReplicationTask)
          → IsSingle queue
          → IsFine (round_queue now token answers push r queue)
      by [] u = v
      by (task ∷ rest) u =
          let left : Replication = record r { queue = rest } in
          found-IsFine left task _ refl
            (record { valid = v.valid; apart = v.apart; single = tail-IsSingle task rest u })
