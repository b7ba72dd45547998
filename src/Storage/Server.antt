-- ===== src/Storage/Server.antt =====
-- ss/ss_main.c, struct ss_context and the calls that read and change the entry of one file: what is
-- held under state_lock is one step. The connection to the name server is the list of the updates
-- sent over it.
pub mod Entries
use co_write_file_system.Prelude.{
  ℕ, Bool, true, false, List, [], ◌∷◌, ◌++◌, Option, none, some, if◌then◌else◌, Bytes, get_elem?,
  set, ℤ, negsuc, copy_into, length,
}
use co_write_file_system.Storage.Disk.{Disk}
use co_write_file_system.Storage.Text.{count_words_in_text}
use co_write_file_system.Storage.Locks.{SentenceLock}
use co_write_file_system.Storage.Tickets.{AuthTicket}
use co_write_file_system.Storage.State.{
  SsFile, SsState, Lookup, found, absent, entry_at, ss_state_find, ss_state_save_meta, with_files,
}

pub record SsContext : Type 0 where
  pub state : SsState
  pub disk : Disk
  pub locks : List SentenceLock
  pub tickets : List AuthTicket
  pub updates : List SsFile

-- -1, by its errno: ENOENT, EBUSY, EINVAL, ENAMETOOLONG, and that of a call which failed.
pub data FileError : Type 0 where
  not_found busy bad_name too_long io_error : FileError

pub data Answer {ℓ} (A : Type ℓ) : Type ℓ where
  done : A → Answer A
  refused : FileError → Answer A

unfoldable pub snapshot_file : SsContext → Bytes → Option SsFile
snapshot_file ctx name = entry_at ctx.state.files (ss_state_find ctx.state.files name)

abbrev pub with_entry : SsContext → ℕ → SsFile → SsContext
with_entry ctx i file = record ctx { state = with_files ctx.state (set ctx.state.files i file) }

abbrev pub with_disk : SsContext → Disk → SsContext
with_disk ctx d = record ctx { disk = d }

-- `user` is NULL in the calls that clear the state.
abbrev pub lock_entry : Bool → ℤ → Option Bytes → SsFile → SsFile
lock_entry true sentence (some user) file = record file {
  lock_active = true;
  lock_sentence = sentence;
  lock_user = copy_into 64 user;
}
lock_entry true sentence none file = record file {
  lock_active = true;
  lock_sentence = sentence;
  lock_user = [];
}
lock_entry false sentence user file = record file {
  lock_active = false;
  lock_sentence = negsuc 0;
  lock_user = [];
}

-- An entry changed in place, and the change of it that the caller copies out.
abbrev pub change_at : SsContext → Lookup → (SsFile → SsFile) → SsContext × Option SsFile
change_at ctx (absent i) change = (ctx, none)
change_at ctx (found i) change = elim (get_elem? ctx.state.files i) [
  | none ↦ (ctx, none)
  | some file ↦ (with_entry ctx i (change file), some (change file))
]

unfoldable pub change_file : SsContext → Bytes → (SsFile → SsFile) → SsContext × Option SsFile
change_file ctx name change = change_at ctx (ss_state_find ctx.state.files name) change

unfoldable pub set_file_lock_state : SsContext → Bytes → Bool → ℤ → Option Bytes → SsContext
unfolding change_file
set_file_lock_state ctx name active sentence user =
    (change_file ctx name (lock_entry active sentence user)).0

-- notify_nm_file_update.
abbrev pub notify : SsContext → SsFile → SsContext
notify ctx file = record ctx { updates = ctx.updates ++ file ∷ [] }

abbrev pub accessed : ℕ → Bytes → SsFile → SsFile
accessed now user file = record file { last_access = now; last_access_user = copy_into 64 user }

abbrev pub edited : ℕ → Bytes → Bytes → SsFile → SsFile
edited now user text file = record file {
  char_count = length text;
  word_count = count_words_in_text text;
  modified = now;
  last_access = now;
  last_access_user = copy_into 64 user;
}

-- The metadata of a changed entry is saved, with no check of the result, and the name server told.
abbrev pub recorded : SsContext × Option SsFile → SsContext × Option SsFile
recorded (after, none) = (after, none)
recorded (after, some file) =
    (notify (with_disk after (ss_state_save_meta after.disk file).0) file, some file)

unfoldable pub record_change : SsContext → Bytes → (SsFile → SsFile) → SsContext × Option SsFile
unfolding change_file
record_change ctx name change = recorded (change_file ctx name change)
