-- ===== src/Storage/Write/Refuses.antt =====
-- ss/ss_main.c: UNDO and REVERT while a session runs.
use co_write_file_system.Prelude.{ℕ, ◌≡◌, Bytes}
use co_write_file_system.Storage.Server.{SsContext, refused, busy}
use co_write_file_system.Storage.History.{perform_undo, ss_read_checkpoint, ss_revert_checkpoint}
use co_write_file_system.Storage.History.Laws.{busy_after}

-- UNDO of the file, and its revert to any checkpoint, are refused and change nothing.
abbrev pub Refuses : SsContext → Bytes → Type 0
Refuses ctx name =
    (now : ℕ) (user tag : Bytes)
    → (perform_undo ctx now name user ≡ (ctx, refused busy))
      × (ss_revert_checkpoint ctx now name tag user
          ≡ (ctx, busy_after (ss_read_checkpoint ctx name tag)))
