-- ===== src/Manager/Replicas/Laws.antt =====
-- nm/nm_main.c: select_storage_server and handle_server_disconnect, on every branch.
use co_write_file_system.Prelude.{
  ℕ, ◌≡◌, ◌≢◌, refl, inl, inr, sym, ap, ◌∙◌, ◌⊎◌, Bool, true, false, ◌&&◌, List, Option, none, some,
  if◌then◌else◌, Bytes, Bool-cases, ℤ, pos, negsuc, eq_ℤ, eq_ℤ_iff,
}
use co_write_file_system.Manager.Entry.{FileEntry}
use co_write_file_system.Manager.Files.{FileTable}
use co_write_file_system.Manager.Files.Map.{IsValid}
use co_write_file_system.Manager.Servers.{StorageServer, Servers, nonneg}
use co_write_file_system.Manager.Replicas.{
  replica_available, drop_backup_only, promote, select_storage_server, primary_gone, backup_gone,
  fail_over, handle_server_disconnect,
}

-- A server with a negative index is never available.
available-nonneg :
    (servers : List StorageServer) (i : ℤ) → replica_available servers i ≡ true → nonneg i ≡ true
available-nonneg servers (pos n) h = refl
available-nonneg servers (negsuc n) h = absurd (cc h)

-- What a selection gives.
abbrev pub Selects : List StorageServer → FileEntry → FileEntry × Option ℤ → Type 0
Selects servers file (after, none) =
    (replica_available servers file.ss_index ≡ false)
    × (replica_available servers file.backup_index ≡ false)
    × (after ≡ drop_backup_only file)
Selects servers file (after, some i) =
    (replica_available servers i ≡ true)
    × (((i ≡ file.ss_index) × (after ≡ file))
        ⊎ ((replica_available servers file.ss_index ≡ false)
            × (i ≡ file.backup_index)
            × (after ≡ promote file)))

module _ (servers : List StorageServer) (file : FileEntry) where
  backup-Selects :
      replica_available servers file.ss_index ≡ false
      → (b : Bool) → nonneg file.backup_index ≡ b
      → Selects servers file (
          if b
          then if replica_available servers file.backup_index
            then (promote file, some file.backup_index)
            else (drop_backup_only file, none)
          else (file, none))
  backup-Selects off false e = (
    off,
    elim (Bool-cases (replica_available servers file.backup_index)) [
      | inl q ↦ absurd (cc (e, available-nonneg servers file.backup_index q))
      | inr q ↦ q
    ],
    rw e refl,
  )
  backup-Selects off true e = elim (Bool-cases (replica_available servers file.backup_index)) [
    | inl q ↦ rw q (q, inr (off, refl, refl))
    | inr q ↦ rw q (off, q, refl)
  ]

  -- A selection gives the primary when it is available, else the backup when that is available,
  -- which then is the file's primary, without a backup; it gives none exactly when neither is
  -- available, and then the file loses its backup.
  pub select_storage_server-Selects : Selects servers file (select_storage_server servers file)
  unfolding select_storage_server
  select_storage_server-Selects = elim (Bool-cases (replica_available servers file.ss_index)) [
    | inl e ↦ rw (e, available-nonneg servers file.ss_index e) (e, inl (refl, refl))
    | inr e ↦ rw (e, and-false (nonneg file.ss_index)) (backup-Selects e _ refl)
  ]
    where
      and-false : (b : Bool) → (b && false) ≡ false
      and-false true = refl
      and-false false = refl

-- What the loss of the server `gone` leaves of a file.
abbrev pub FailsOver : List StorageServer → ℤ → FileEntry → FileEntry → Type 0
FailsOver servers gone file after =
    (after.backup_index ≢ gone)
    × (file.ss_index ≡ gone
        → replica_available servers file.backup_index ≡ true
        → after ≡ promote file)
    × (file.ss_index ≢ gone → after.ss_index ≡ file.ss_index)
    × (file.ss_index ≢ gone → file.backup_index ≢ gone → after ≡ file)

eq_ℤ-false : (a b : ℤ) → a ≢ b → eq_ℤ a b ≡ false
eq_ℤ-false a b n = elim (Bool-cases (eq_ℤ a b)) [
  | inl e ↦ absurd (n ((eq_ℤ_iff a b).0 e))
  | inr e ↦ e
]

drop_ne :
    (n : ℕ) (file : FileEntry)
    → eq_ℤ file.backup_index (pos n) ≡ true
    → drop_backup_only file ≡ record file { backup_index = negsuc 0 }
drop_ne n file e =
    let here : nonneg file.backup_index ≡ true =
      ap nonneg ((eq_ℤ_iff file.backup_index (pos n)).0 e) in
    rw here refl

drop_ss : (file : FileEntry) → (drop_backup_only file).ss_index ≡ file.ss_index
drop_ss file = elim (Bool-cases (nonneg file.backup_index)) [
  | inl e ↦ rw e refl
  | inr e ↦ rw e refl
]

backup_gone_ne : (n : ℕ) (file : FileEntry) → (backup_gone (pos n) file).backup_index ≢ pos n
backup_gone_ne n file = elim (Bool-cases (eq_ℤ file.backup_index (pos n))) [
  | inl e ↦ rw (e, drop_ne n file e) (λ z. cc z)
  | inr e ↦ rw e (λ z. cc (sym e ∙ (eq_ℤ_iff file.backup_index (pos n)).1 z))
]

backup_gone_ss : (n : ℕ) (file : FileEntry) → (backup_gone (pos n) file).ss_index ≡ file.ss_index
backup_gone_ss n file = elim (Bool-cases (eq_ℤ file.backup_index (pos n))) [
  | inl e ↦ rw e (drop_ss file)
  | inr e ↦ rw e refl
]

module _ (servers : List StorageServer) (n : ℕ) (file : FileEntry) where
  primary_stays : file.ss_index ≢ pos n → primary_gone servers (pos n) file ≡ file
  primary_stays h = rw (eq_ℤ-false file.ss_index (pos n) h) refl

  promoted :
      file.ss_index ≡ pos n
      → replica_available servers file.backup_index ≡ true
      → primary_gone servers (pos n) file ≡ promote file
  promoted e h =
      rw ((eq_ℤ_iff file.ss_index (pos n)).1 e, available-nonneg servers file.backup_index h, h)
        refl

  -- When a server is gone, no file has it as its backup; a file that had it as its primary goes over
  -- to its backup, when that is available; a file on other servers stays as it is.
  pub fail_over-FailsOver : FailsOver servers (pos n) file (fail_over servers (pos n) file)
  unfolding fail_over
  fail_over-FailsOver = (
    backup_gone_ne n (primary_gone servers (pos n) file),
    λ e h. ap (backup_gone (pos n)) (promoted e h),
    λ h. backup_gone_ss n _ ∙ ap (λ f. f.ss_index) (primary_stays h),
    λ h k.
        ap (backup_gone (pos n)) (primary_stays h)
        ∙ rw (eq_ℤ-false file.backup_index (pos n) k) refl,
  )

module _ (s : Servers) (t : FileTable) (n : ℕ) (v : IsValid t) where
  abbrev left : Servers × FileTable × List Bytes
  left = handle_server_disconnect s t n
