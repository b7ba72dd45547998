-- ===== src/Examples/Data.antt =====
-- A file with two sentences, its disk and the server that holds it.
use co_write_file_system.Prelude.{
  ◌≡◌, ◌≢◌, refl, sym, ◌∙◌, str_eq_iff, copy_into, true, false, List, [], ◌∷◌, none, some,
  if◌then◌else◌, arith, Bytes, codes, str_eq, negsuc, pos,
}
use co_write_file_system.Storage.Disk.{Disk, written}
use co_write_file_system.Storage.State.{SsFile, SsState}
use co_write_file_system.Storage.State.Search.{IsSorted}
use co_write_file_system.Storage.Session.{WriteSession}
use co_write_file_system.Storage.Locks.{SentenceLock}
use co_write_file_system.Storage.Server.{SsContext}
use co_write_file_system.Storage.History.Laws.{ArePathsApart}

abbrev pub one : Bytes
one = codes "A b."

abbrev pub two : Bytes
two = codes "C!"

abbrev pub document : Disk
document = record {
  cells = λ q.
      if str_eq q (codes "d")
      then some (codes "A b.\nC!")
      else if str_eq q (codes "u")
      then some (codes "Old.")
      else if str_eq q (codes "k/f/t")
      then some (codes "Tag.")
      else none;
  outcome = λ q. written;
  unlinks = λ q. true;
}

abbrev pub file : SsFile
file = record {
  name = codes "f";
  owner = codes "o";
  data_path = codes "d";
  meta_path = codes "m";
  undo_path = codes "u";
  created = 1;
  modified = 1;
  last_access = 1;
  last_access_user = codes "o";
  word_count = 3;
  char_count = 7;
  lock_active = false;
  lock_user = [];
  lock_sentence = negsuc 0;
}

abbrev pub locked_file : SsFile
locked_file = record file { lock_active = true }

abbrev pub state_of : SsFile → SsState
state_of f = record {
  files_dir = codes "files";
  meta_dir = codes "meta";
  undo_dir = codes "undo";
  checkpoints_dir = codes "k";
  files = f ∷ [];
}

abbrev pub server_of : SsFile → List SentenceLock → SsContext
server_of f locks = record {
  state = state_of f;
  disk = document;
  locks = locks;
  tickets = [];
  updates = [];
}

pub one-IsSorted : (f : SsFile) → IsSorted (f ∷ [])
one-IsSorted f i j p q = absurd (omega arith)

pub differ : (s t : Bytes) → str_eq s t ≡ false → s ≢ t
differ s t h e = cc (sym h ∙ (str_eq_iff s t).1 e)

pub apart : ArePathsApart file
unfolding str_eq copy_into
apart = record {
  undo_data = differ _ _ refl;
  undo_tmp = differ _ _ refl;
  data_tmp = differ _ _ refl;
  data_meta = differ _ _ refl;
  undo_meta = differ _ _ refl;
}

abbrev pub session : WriteSession
session = record {
  active = true;
  sentence_index = pos 1;
  user = codes "x";
  sentence_text = two;
  baseline_sentence = some two;
  sentences = one ∷ two ∷ [];
}
