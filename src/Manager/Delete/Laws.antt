-- ===== src/Manager/Delete/Laws.antt =====
-- nm/nm_main.c: DELETE removes the file that it names, or none.
use co_write_file_system.Common.Json.{json_get_string}
use co_write_file_system.Prelude.{
  leb, length, ◌≡◌, refl, inl, inr, sym, ap, subst, ◌∙◌, ◌⊎◌, true, false, Option, none, some,
  if◌then◌else◌, Bytes, codes, Bool-cases, ℤ, str_eq, str_eq_refl, List,
}
use co_write_file_system.Manager.Entry.{FileEntry}
use co_write_file_system.Manager.Files.{FileTable, alter, nm_find_file}
use co_write_file_system.Manager.Files.Map.{IsValid}
use co_write_file_system.Manager.Files.Alters.{alter-Alters}
use co_write_file_system.Manager.Files.Removes.{nm_remove_file-removes}
use co_write_file_system.Manager.Servers.{StorageServer, nonneg}
use co_write_file_system.Manager.State.{
  NmState, ReplyCode, ClientReply, send_ok, send_error_response, err_no_auth, file_has_access,
}
use co_write_file_system.Manager.Requests.{fail}
use co_write_file_system.Manager.Replicas.{select_storage_server, drop_backup_only}
use co_write_file_system.Manager.Replicas.Laws.{Selects, select_storage_server-Selects}
use co_write_file_system.Manager.Tickets.{Answers, accepted, with_file}
use co_write_file_system.Manager.Delete.{
  write_perm, delete_payload, delete_answered, asked, delete_again, delete_selected,
  handle_client_delete,
}

-- Two entries that differ in their replicas at most.
abbrev pub SameFile : FileEntry → FileEntry → Type 0
SameFile file after =
    after ≡ record file { ss_index = after.ss_index; backup_index = after.backup_index }

trans-SameFile : (a b c : FileEntry) → SameFile a b → SameFile b c → SameFile a c
trans-SameFile a b c e e' =
    let moved : FileEntry → FileEntry =
      λ f. record f { ss_index = c.ss_index; backup_index = c.backup_index } in
    e' ∙ ap moved e

drop-SameFile : (file : FileEntry) → SameFile file (drop_backup_only file)
drop-SameFile file = elim (Bool-cases (nonneg file.backup_index)) [
  | inl e ↦ rw e refl
  | inr e ↦ rw e refl
]

Selects-SameFile :
    (servers : List StorageServer) (file : FileEntry) (r : FileEntry × Option ℤ)
    → Selects servers file r
    → SameFile file r.0
Selects-SameFile servers file (after, none) (_, _, e) =
    subst (SameFile file) (sym e) (drop-SameFile file)
Selects-SameFile servers file (after, some i) (_, inl (_, e)) = subst (SameFile file) (sym e) refl
Selects-SameFile servers file (after, some i) (_, inr (_, _, e)) =
    subst (SameFile file) (sym e) refl

-- The files of a table are those of another, but for the replicas of the file `name`.
abbrev pub Keeps : FileTable → FileTable → Bytes → FileEntry → Type 0
Keeps t after name file =
    IsValid after
    × ((f : FileEntry) × (nm_find_file after name ≡ some f) × SameFile file f)
    × ((q : Bytes) → str_eq name q ≡ false → nm_find_file after q ≡ nm_find_file t q)

Keeps-write :
    (t u : FileTable) (name : Bytes) (file next : FileEntry)
    → Keeps t u name file
    → SameFile file next
    → Keeps t (alter u name (λ f. next)) name file
Keeps-write t u name file next (v, (f, at, same), others) s =
    let a =
      alter-Alters u name (λ x. next) v
        (λ x h.
          let e : f ≡ x = some_inj (sym at ∙ h) in
          ap (λ y. y.name) s ∙ sym (ap (λ y. y.name) same) ∙ ap (λ y. y.name) e) in
    (a.0, (next, a.1 name ∙ rw (str_eq_refl name, at) refl, s), λ q e. a.1 q ∙ rw e (others q e))
  where
    some_inj : {x y : FileEntry} → some x ≡ some y → x ≡ y
    some_inj h = cc h

-- The file is gone, and every other name finds what it found.
abbrev pub Gone : FileTable → FileTable → Bytes → Type 0
Gone t after name =
    IsValid after
    × ((q : Bytes) → nm_find_file after q ≡ (if str_eq name q then none else nm_find_file t q))

abbrev pub Deletes : NmState → Bytes → Bytes → FileEntry → NmState × ClientReply → Type 0
Deletes s user name file (after, reply) =
    ((reply ≡ send_ok (codes "\"op\":\"DELETE\""))
      × (file_has_access file user write_perm ≡ true)
      × Gone s.table after.table name)
    ⊎ (((code : ReplyCode) × (text : Bytes) × (reply ≡ send_error_response code text))
        × Keeps s.table after.table name file)

module _ (answers : Answers) (s : NmState) (user name : Bytes) (file : FileEntry)
    (v : IsValid s.table) (found : nm_find_file s.table name ≡ some file) where
  start : Keeps s.table s.table name file
  start = (v, (file, found, refl), λ q e. refl)

  module _ (access : file_has_access file user write_perm ≡ true) where
    answered-Deletes :
        (u : NmState) (index : ℤ) (answer : Option Bytes)
        → Keeps s.table u.table name file
        → Deletes s user name file (delete_answered u name index answer)
    answered-Deletes u index none k = inr ((_, _, refl), k)
    answered-Deletes u index (some response) k = elim (Bool-cases (accepted (some response))) [
      | inl e ↦
          let (valid, (f, at, _), others) = k in
          let (_, sound, finds) = nm_remove_file-removes u.table name valid f at in
          rw e (
            inl (
              refl,
              access,
              (
                sound,
                λ q. finds q ∙ elim (Bool-cases (str_eq name q)) [
                  | inl h ↦ rw h refl
                  | inr h ↦ rw h (others q h)
                ],
              ),
            ))
      | inr e ↦ rw e (inr ((_, _, refl), k))
    ]

    again-Deletes :
        (u : NmState) (index : ℤ) (r : FileEntry × Option ℤ)
        → Keeps s.table u.table name file
        → SameFile file r.0
        → Deletes s user name file (delete_again answers u name index r)
    again-Deletes u index (next, r) k same =
        let k' = Keeps-write s.table u.table name file next k same in
        elim (Bool-cases (leb 256 (length (delete_payload name)))) [
          | inl e ↦ rw e (inr ((_, _, refl), k'))
          | inr e ↦ rw e (
              answered-Deletes (with_file u name next) index (asked answers (delete_payload name) r)
                k')
        ]

    selected-Deletes :
        (r : FileEntry × Option ℤ)
        → SameFile file r.0
        → Deletes s user name file (delete_selected answers s name r)
    selected-Deletes (next, none) same =
        inr ((_, _, refl), Keeps-write s.table s.table name file next start same)
    selected-Deletes (next, some index) same =
        again-Deletes (with_file s name next) index (select_storage_server s.servers.servers next)
          (Keeps-write s.table s.table name file next start same)
          (trans-SameFile file next (select_storage_server s.servers.servers next).0 same (
            Selects-SameFile s.servers.servers next _
              (select_storage_server-Selects s.servers.servers next)))

  delete_allowed :
      (json : Bytes)
      → json_get_string json (codes "file") 128 ≡ some name
      → file_has_access file user write_perm ≡ true
      → delete_selected answers s name (select_storage_server s.servers.servers file)
        ≡ handle_client_delete answers s user json
  unfolding handle_client_delete
  delete_allowed json e h = rw (e, found, h) refl

  delete_refused :
      (json : Bytes)
      → json_get_string json (codes "file") 128 ≡ some name
      → file_has_access file user write_perm ≡ false
      → fail s err_no_auth (codes "no write access") ≡ handle_client_delete answers s user json
  unfolding handle_client_delete
  delete_refused json e h = rw (e, found, h) refl

  -- DELETE of a file removes it, or answers with an error and leaves it, but for its replicas: it
  -- removes it only for a client that may write it; then the name is not found any more, every
  -- other name finds what it found, and the table stays valid.
  pub handle_client_delete-Deletes :
      (json : Bytes)
      → json_get_string json (codes "file") 128 ≡ some name
      → Deletes s user name file (handle_client_delete answers s user json)
  handle_client_delete-Deletes json e = elim (Bool-cases (file_has_access file user write_perm)) [
    | inl h ↦ subst (Deletes s user name file) (delete_allowed json e h) (
        selected-Deletes h (select_storage_server s.servers.servers file) (
          Selects-SameFile s.servers.servers file _
            (select_storage_server-Selects s.servers.servers file)))
    | inr h ↦ subst (Deletes s user name file) (delete_refused json e h) (inr ((_, _, refl), start))
  ]
