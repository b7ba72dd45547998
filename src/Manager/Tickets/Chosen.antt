-- ===== src/Manager/Tickets/Chosen.antt =====
-- nm/nm_main.c: the file and the servers after an attempt of obtain_ticket_for_file that failed.
use co_write_file_system.Prelude.{
  ◌≡◌, refl, inl, inr, sym, ap, subst, ◌∙◌, ◌⊎◌, true, false, List, some, arith, Bytes, Bool-cases,
  str_eq_refl, ℤ, pos, negsuc, get_elem?, ◌==◌,
}
use co_write_file_system.Manager.Entry.{Permission, FileEntry}
use co_write_file_system.Manager.Files.{alter, nm_find_file}
use co_write_file_system.Manager.Files.Map.{IsValid}
use co_write_file_system.Manager.Files.Alters.{Alters}
use co_write_file_system.Manager.Servers.{
  Servers, StorageServer, nm_mark_server_down, server_is_available,
}
use co_write_file_system.Manager.Servers.Registers.{nm_mark_server_down_lem}
use co_write_file_system.Manager.State.{NmState, file_has_access}
use co_write_file_system.Manager.Replicas.{replica_available, promote}
use co_write_file_system.Manager.Tickets.{with_file}

-- A server that is available after another was marked down was so before.
pub available-before :
    (t : Servers) (index i : ℤ)
    → replica_available (nm_mark_server_down t index).servers i ≡ true
    → replica_available t.servers i ≡ true
available-before t (negsuc k) i h = unfold nm_mark_server_down in h
available-before t (pos k) (negsuc i) h = absurd (cc h)
available-before t (pos k) (pos i) h =
    let (off, others, _) = nm_mark_server_down_lem t k in
    elim (Bool-cases (k == i)) [
      | inl e ↦
          let same : k ≡ i = ground arith in
          let off_here =
            subst
              (λ x.
                server_is_available (get_elem? (nm_mark_server_down t (pos k)).servers x) ≡ false)
              same off in
          absurd (cc (h, off_here))
      | inr e ↦ ap server_is_available (sym (others i (ground arith))) ∙ h
    ]

access_same :
    (file after : FileEntry) (user : Bytes) (perm : Permission)
    → after.owner ≡ file.owner
    → after.acl ≡ file.acl
    → file_has_access after user perm ≡ file_has_access file user perm
unfolding file_has_access
access_same file after user perm o a = rw (o, a) refl

-- The file after a selection that gave a server.
abbrev pub Chosen : FileEntry → FileEntry → Type 0
Chosen file after = (after ≡ file) ⊎ (after ≡ promote file)

module _ (file after : FileEntry) (c : Chosen file after) where
  pub chosen_name : after.name ≡ file.name
  chosen_name = elim c [ inl e ↦ ap (λ f. f.name) e | inr e ↦ ap (λ f. f.name) e ]

  pub chosen_access :
      (user : Bytes) (perm : Permission)
      → file_has_access after user perm ≡ file_has_access file user perm
  chosen_access user perm = elim c [
    | inl e ↦ ap (λ f. file_has_access f user perm) e
    | inr e ↦
        ap (λ f. file_has_access f user perm) e
        ∙ access_same file (promote file) user perm refl refl
  ]

  pub chosen_index :
      (servers : List StorageServer) (i : ℤ)
      → (i ≡ after.ss_index) ⊎ (i ≡ after.backup_index)
      → replica_available servers i ≡ true
      → (i ≡ file.ss_index) ⊎ (i ≡ file.backup_index)
  chosen_index servers i h a = elim c [
    | inl e ↦ subst (λ f. (i ≡ f.ss_index) ⊎ (i ≡ f.backup_index)) e h
    | inr e ↦ elim h [
      | inl q ↦ inr (q ∙ ap (λ f. f.ss_index) e)
      | inr q ↦
          let gone : i ≡ negsuc 0 = q ∙ ap (λ f. f.backup_index) e in
          absurd (cc (sym a ∙ ap (replica_available servers) gone))
    ]
  ]

-- A write of a file over the one of its name is found in its place.
pub with_file-found :
    (s : NmState) (name : Bytes) (file after : FileEntry)
    → IsValid s.table
    → nm_find_file s.table name ≡ some file
    → Alters s.table (alter s.table name (λ f. after)) name (λ f. after)
    → nm_find_file (with_file s name after).table name ≡ some after
with_file-found s name file after v found a = a.1 name ∙ rw (str_eq_refl name, found) refl
