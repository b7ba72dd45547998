-- ===== src/Storage/Locks.antt =====
-- ss/ss_main.c, the table of sentence locks: one entry for each sentence that a session edits. Each
-- call runs under sentence_lock_mutex, so a call is one step.
pub mod Laws
use co_write_file_system.Prelude.{
  Bool, true, false, ◌&&◌, List, [], ◌∷◌, ◌++◌, Option, none, some, if◌then◌else◌, Bytes, ℤ, eq_ℤ,
  str_eq, copy_into,
}

pub record SentenceLock : Type 0 where
  pub file : Bytes
  pub sentence : ℤ
  pub user : Bytes

abbrev pub is_lock_of : Bytes → ℤ → SentenceLock → Bool
is_lock_of file sentence entry = eq_ℤ entry.sentence sentence && str_eq entry.file file

unfoldable pub sentence_lock_find : List SentenceLock → Bytes → ℤ → Option SentenceLock
sentence_lock_find [] file sentence = none
sentence_lock_find (entry ∷ rest) file sentence =
    if is_lock_of file sentence entry then some entry else sentence_lock_find rest file sentence

abbrev pub new_lock : Bytes → ℤ → Bytes → SentenceLock
new_lock file sentence user = record {
  file = copy_into 128 file;
  sentence = sentence;
  user = copy_into 64 user;
}

-- `none` is -1 with EBUSY.
unfoldable pub sentence_lock_acquire :
    List SentenceLock → Bytes → ℤ → Bytes → Option (List SentenceLock)
unfolding sentence_lock_find
sentence_lock_acquire table file sentence user = elim (sentence_lock_find table file sentence) [
  | some existing ↦ none
  | none ↦ some (table ++ new_lock file sentence user ∷ [])
]

-- The first entry for the sentence is removed; the user is not looked at.
unfoldable pub sentence_lock_release : List SentenceLock → Bytes → ℤ → List SentenceLock
sentence_lock_release [] file sentence = []
sentence_lock_release (entry ∷ rest) file sentence =
    if is_lock_of file sentence entry
    then rest
    else entry ∷ sentence_lock_release rest file sentence
