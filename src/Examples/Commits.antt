-- ===== src/Examples/Commits.antt =====
-- Runs of a commit, and of the edits before it.
use co_write_file_system.Prelude.{
  ℕ, ◌⊎◌, ◌≡◌, ◌≢◌, refl, Bool, true, false, List, [], ◌∷◌, ◌++◌, some, Bytes, length, sym, str_eq,
  copy_into, ◌+ℤ◌, ◌-ℤ◌, arith, codes, pos, All,
}
use co_write_file_system.Storage.Disk.{
  Disk, load_text, load_or_empty, store_text_atomic, put_cell, unlink,
}
use co_write_file_system.Storage.Disk.Laws.{IsText}
use co_write_file_system.Storage.Text.{split_sentences, join_sentences, count_words_in_text}
use co_write_file_system.Storage.Session.{
  WriteSession, ok, err, again, undefined, write_session_begin,
}
use co_write_file_system.Storage.Commit.{
  Committed, write_session_commit, place, score, count_context_matches, matches_from, merge,
  merge_from, write_back,
}
use co_write_file_system.Storage.Commit.Saved.{commit_saves}
use co_write_file_system.Storage.Commit.Laws.{latest_of, replaced, commit_conflict}
use co_write_file_system.Storage.Commit.Outcome.{edit, edited, commit_in_place, commit_keeps_others}
use co_write_file_system.Examples.Data.{document, one, two, session, differ, apart}

begun : write_session_begin document (codes "d") (codes "x") (pos 1) ≡ ok session
unfolding write_session_begin split_sentences co_write_file_system.Storage.Disk.load_or_empty
    co_write_file_system.Storage.Disk.load_text co_write_file_system.Prelude.str_eq
    co_write_file_system.Prelude.copy_into
begun = refl

abbrev changed : WriteSession
changed = edit session (codes "D e?")

after : Disk
after = (write_session_commit false document changed (codes "d") (codes "u")).0

abbrev committed : Committed
committed = record {
  session = record changed { active = false };
  text = codes "A b.\nD e?";
  words = 4;
  chars = 9;
}

commits :
    write_session_commit false document changed (codes "d") (codes "u") ≡ (after, ok committed)
unfolding write_session_commit after place score count_context_matches matches_from merge merge_from
    write_back load_or_empty load_text store_text_atomic put_cell unlink str_eq copy_into
    split_sentences join_sentences count_words_in_text ◌+ℤ◌ ◌-ℤ◌
commits = refl

reads : latest_of document (codes "d") ≡ (one ∷ []) ++ two ∷ []
unfolding split_sentences load_or_empty load_text str_eq
reads = refl

commit_in_place_example :
    (d' : Disk) × (c : Committed) × (write_session_commit false document changed
        (codes "d")
        (codes "u")
      ≡ (d', ok c))
    × (c.text
        ≡ join_sentences
            (replaced 1 (split_sentences (codes "D e?")) (latest_of document (codes "d"))))
commit_in_place_example =
    commit_in_place false document (codes "d") (codes "u") (codes "x") (codes "D e?") 1 session
      begun refl refl

commit_keeps_others_example : committed.text ≡ join_sentences ((one ∷ []) ++ (edited changed ++ []))
commit_keeps_others_example =
    commit_keeps_others false document changed (codes "d") (codes "u") 67 (codes "!") (one ∷ []) []
      after committed refl reads (one-two, tt) tt commits
  where
    one-two : one ≢ two
    one-two = differ one two (unfold str_eq in refl)

-- Another baseline, which the file does not have any more.
abbrev stale : WriteSession
stale = record session { baseline_sentence = some (codes "Z.") }

commit_conflict_example :
    (All (λ x. x ≢ codes "Z.") (latest_of document (codes "d"))
      → write_session_commit true document stale (codes "d") (codes "u")
        ≡ (document, err undefined))
    × (((write_session_commit true document stale (codes "d") (codes "u")).1 ≡ err again)
          ⊎ ((write_session_commit true document stale (codes "d") (codes "u")).1 ≡ err undefined)
        → All (λ x. x ≢ codes "Z.") (latest_of document (codes "d")))
commit_conflict_example =
    commit_conflict document stale (codes "d") (codes "u") true 90 (codes ".") refl

plain : IsText changed.sentence_text
plain = (omega arith, (omega arith, (omega arith, (omega arith, tt))))

commit_saves_example :
    (load_text after (codes "d") ≡ some committed.text)
    × (load_text after (codes "u") ≡ some (load_or_empty document (codes "d")))
    × (committed.words ≡ count_words_in_text committed.text)
    × (committed.chars ≡ length committed.text)
commit_saves_example =
    commit_saves false document changed (codes "d") (codes "u") after committed
      (λ e. apart.undo_data (sym e)) apart.undo_tmp plain commits
