-- ===== src/Manager/Create/Made.antt =====
-- nm/nm_main.c: what CREATE answers, and the file that it makes.
use co_write_file_system.Prelude.{
  ℕ, ◌==◌, ◌<◌, ◌≡◌, ◌≢◌, refl, inl, inr, ap, ◌∙◌, subst, ◌⊎◌, true, false, Option, none, some, leb,
  ltb, arith, Bytes, codes, length, Bool-cases, ℤ, pos,
}
use co_write_file_system.Common.Json.{json_get_string}
use co_write_file_system.Common.Json.Bounds.{json_get_string-length}
use co_write_file_system.Storage.History.{valid_filename}
use co_write_file_system.Manager.Entry.{FileEntry}
use co_write_file_system.Manager.Files.{
  FileTable, Outcome, done, failed, added_file, nm_add_file, nm_find_file,
}
use co_write_file_system.Manager.Files.Adds.{nm_add_file-adds, nm_add_file-full}
use co_write_file_system.Manager.Servers.{Servers, available_at, nm_pick_server, picked_primary}
use co_write_file_system.Manager.Servers.Rounds.{IsFirst}
use co_write_file_system.Manager.Servers.Picks.{nm_pick_server-IsFirst}
use co_write_file_system.Manager.State.{
  NmState, ReplyCode, ClientReply, send_ok, send_error_response, grant_access, is_empty,
}
use co_write_file_system.Manager.Requests.Tables.{IsSound}
use co_write_file_system.Manager.Tickets.{Answers, accepted}
use co_write_file_system.Manager.Create.{
  backup_from, or_same, owner_perm, create_added, create_answered, create_picked, create_absent,
  create_payload, handle_client_create,
}
use co_write_file_system.Manager.Create.Laws.{
  takes, IsFirstPlace, backup_from-IsFirstPlace, backup_from_ne, Holds, created-Holds,
}

-- An error, and the files as they were.
abbrev pub Refuses : FileTable → NmState × ClientReply → Type 0
Refuses t (after, reply) =
    (after.table ≡ t)
    × ((code : ReplyCode) × (text : Bytes) × (reply ≡ send_error_response code text))

-- The file is made, on the server that was picked, which was available and accepted it, with the first
-- other one for its backup that was available and accepted it, or with none when there was none.
abbrev pub Makes : ℕ → Answers → NmState → Bytes → Bytes → NmState × ClientReply → Type 0
Makes now answers s user name (after, reply) =
    (reply ≡ send_ok (codes "\"op\":\"CREATE\""))
    × (nm_find_file s.table name ≡ none)
    × ((primary : ℕ) × (backup : ℤ) × ((nm_pick_server s.servers).1 ≡ some primary)
        × (available_at s.servers.servers primary ≡ true)
        × (accepted (answers (pos primary) (create_payload name user)) ≡ true)
        × (backup ≢ pos primary)
        × IsFirstPlace (takes answers (create_payload name user) primary s.servers.servers 0) 0
            backup
        × Holds s.table after.table name (added_file name user (pos primary) backup now))

picked_servers : (t : Servers) (r : Option ℕ) → (picked_primary t r).0.servers ≡ t.servers
picked_servers t none = refl
picked_servers t (some i) = refl

pick_servers : (t : Servers) → (nm_pick_server t).0.servers ≡ t.servers
unfolding nm_pick_server
pick_servers t = elim (Bool-cases (length t.servers == 0)) [
  | inl e ↦ rw e refl
  | inr e ↦ rw e (picked_servers t _)
]

module _ (now : ℕ) (answers : Answers) (s : NmState) (user : Bytes) (v : IsSound s.table)
    (fits : length user < 64) where
  abbrev Creates : Bytes → NmState × ClientReply → Type 0
  Creates name r = Refuses s.table r ⊎ Makes now answers s user name r

  module _ (name : Bytes) (short : length name < 128)
      (absent : nm_find_file s.table name ≡ none) where
    -- The state at the answer: only the servers may have changed.
    added-Creates :
        (servers : Servers) (primary : ℕ) (backup : ℤ)
        → (nm_pick_server s.servers).1 ≡ some primary
        → available_at s.servers.servers primary ≡ true
        → accepted (answers (pos primary) (create_payload name user)) ≡ true
        → backup ≢ pos primary
        → IsFirstPlace
            (takes answers (create_payload name user) primary s.servers.servers 0)
            0
            backup
        → Creates name (
            create_added now
              (record s { servers = servers })
              user
              name
              primary
              (nm_add_file s.table name user (pos primary) backup now))
    added-Creates servers primary backup pick on yes_ok apart first =
        elim (Bool-cases (ltb (length s.table.files) 512)) [
          | inl e ↦
              let room : length s.table.files < 512 = ground arith in
              let added =
                nm_add_file-adds s.table name user (pos primary) backup now v.valid room short
                  absent in
              by_outcome (nm_add_file s.table name user (pos primary) backup now) added.0
                (created-Holds s.table name user (pos primary) backup now v short fits absent room)
          | inr e ↦
              rw (nm_add_file-full s.table name user (pos primary) backup now (ground arith))
                (inl (refl, (_, _, refl)))
        ]
      where
        by_outcome :
            (r : FileTable × Outcome)
            → r.1 ≡ done
            → Holds s.table
                (or_same r.0 (grant_access r.0 name user owner_perm))
                name
                (added_file name user (pos primary) backup now)
            → Creates name (create_added now (record s { servers = servers }) user name primary r)
        by_outcome (t, done) e h =
            inr (refl, absent, (primary, backup, pick, on, yes_ok, apart, first, h))
        by_outcome (t, failed x) e h = absurd (cc e)

    answered-Creates :
        (servers : Servers) (primary : ℕ) (answer : Option Bytes)
        → servers.servers ≡ s.servers.servers
        → answers (pos primary) (create_payload name user) ≡ answer
        → (nm_pick_server s.servers).1 ≡ some primary
        → available_at s.servers.servers primary ≡ true
        → Creates name
            (create_answered now answers (record s { servers = servers }) user name primary answer)
    answered-Creates servers primary none same answer pick on = inl (refl, (_, _, refl))
    answered-Creates servers primary (some response) same answer pick on =
        elim (Bool-cases (accepted (some response))) [
          | inl e ↦ rw e (
              added-Creates servers primary
                (backup_from answers (create_payload name user) primary servers.servers 0) pick on
                (ap accepted answer ∙ e)
                (backup_from_ne answers (create_payload name user) primary servers.servers 0)
                (subst
                  (λ l.
                    IsFirstPlace (takes answers (create_payload name user) primary l 0) 0
                      (backup_from answers (create_payload name user) primary servers.servers 0))
                  same
                  (backup_from-IsFirstPlace answers (create_payload name user) primary
                    servers.servers 0)))
          | inr e ↦ rw e (inl (refl, (_, _, refl)))
        ]

    picked-Creates :
        (r : Servers × Option ℕ)
        → r.0.servers ≡ s.servers.servers
        → (nm_pick_server s.servers).1 ≡ r.1
        → ((i : ℕ) → r.1 ≡ some i → available_at s.servers.servers i ≡ true)
        → Creates name (create_picked now answers s user name r)
    picked-Creates (servers, none) same pick on = inl (refl, (_, _, refl))
    picked-Creates (servers, some primary) same pick on =
        elim (Bool-cases (leb 512 (length (create_payload name user)))) [
          | inl e ↦ rw e (inl (refl, (_, _, refl)))
          | inr e ↦ rw e (answered-Creates servers primary _ same refl pick (on primary refl))
        ]

    pick_available :
        (i : ℕ) → (nm_pick_server s.servers).1 ≡ some i → available_at s.servers.servers i ≡ true
    pick_available i e =
        let (_, on, _) =
          subst (IsFirst (length s.servers.servers) (available_at s.servers.servers) _) e
            (nm_pick_server-IsFirst s.servers) in
        on

  absent-Creates :
      (name : Bytes) (o : Option FileEntry)
      → length name < 128
      → nm_find_file s.table name ≡ o
      → Creates name (create_absent now answers s user name o)
  absent-Creates name (some f) short e = inl (refl, (_, _, refl))
  absent-Creates name none short e =
      picked-Creates name short e _ (pick_servers s.servers) refl (pick_available name short e)

  -- CREATE makes the file or answers with an error and leaves the files: it makes it only under a
  -- valid name that no file had, for a client with a name, on the server that was picked, which was
  -- available and accepted it; its backup is the first other server that was available and accepted
  -- it, or none when no server was and did; then the file is found by its name,
  -- every other name finds what it found, and the table stays sound.
  pub handle_client_create_lem :
      (json name : Bytes)
      → json_get_string json (codes "file") 128 ≡ some name
      → (Refuses s.table (handle_client_create now answers s user json)
          ⊎ (Makes now answers s user name (handle_client_create now answers s user json)
              × (valid_filename name ≡ true)
              × (is_empty user ≡ false)))
  unfolding handle_client_create
  handle_client_create_lem json name e =
      let short = json_get_string-length json (codes "file") 128 e in
      elim (Bool-cases (valid_filename name)) [
        | inl a ↦ elim (Bool-cases (is_empty user)) [
          | inl b ↦ rw (e, a, b) (inl (refl, (_, _, refl)))
          | inr b ↦
              rw (e, a, b)
                (elim (absent-Creates name (nm_find_file s.table name) short refl) [
                  | inl r ↦ inl r
                  | inr m ↦ inr (m, refl, refl)
                ])
        ]
        | inr a ↦ rw (e, a) (inl (refl, (_, _, refl)))
      ]
