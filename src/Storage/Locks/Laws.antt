-- ===== src/Storage/Locks/Laws.antt =====
-- The sentence locks exclude each other.
use co_write_file_system.Prelude.{
  ◌≡◌, ◌≢◌, inl, inr, refl, ◌⊎◌, ◌↔◌, suc, ◌≤◌, length, copy_into_fits, Option, Option-cases, sym,
  ◌∙◌, true, false, List, [], ◌∷◌, ◌++◌, none, some, arith, Bytes, ℤ, eq_ℤ_iff, str_eq_iff,
  Bool-cases,
}
use co_write_file_system.Storage.Locks.{
  SentenceLock, new_lock, sentence_lock_acquire, is_lock_of, sentence_lock_find,
  sentence_lock_release,
}

-- Somebody holds the lock of the sentence.
abbrev pub IsHeld : List SentenceLock → Bytes → ℤ → Type 0
IsHeld table file sentence = sentence_lock_find table file sentence ≢ none

-- No sentence is locked twice.
abbrev pub IsExclusive : List SentenceLock → Type 0
IsExclusive [] = Unit
IsExclusive (entry ∷ rest) =
    (sentence_lock_find rest entry.file entry.sentence ≡ none) × IsExclusive rest

is_lock_of→≡ :
    (file : Bytes) (sentence : ℤ) (entry : SentenceLock)
    → is_lock_of file sentence entry ≡ true
    → (entry.file ≡ file) × (entry.sentence ≡ sentence)
is_lock_of→≡ file sentence entry h =
    ground (arith, eq_ℤ_iff entry.sentence sentence, str_eq_iff entry.file file)

find-append :
    (table : List SentenceLock) (entry : SentenceLock) (file : Bytes) (sentence : ℤ)
    → is_lock_of file sentence entry ≡ false
    → sentence_lock_find (table ++ entry ∷ []) file sentence
      ≡ sentence_lock_find table file sentence
unfolding sentence_lock_find
find-append [] entry file sentence h = rw h
find-append (e ∷ table) entry file sentence h =
    ground (arith, find-append table entry file sentence)

find-append_none :
    (table : List SentenceLock) (entry : SentenceLock) (file : Bytes) (sentence : ℤ)
    → sentence_lock_find table file sentence ≡ none
    → is_lock_of file sentence entry ≡ true
    → sentence_lock_find (table ++ entry ∷ []) file sentence ≡ some entry
unfolding sentence_lock_find
find-append_none [] entry file sentence h e = rw e
find-append_none (f ∷ table) entry file sentence h e =
    ground (arith, find-append_none table entry file sentence)

release-find_self :
    (table : List SentenceLock) (file : Bytes) (sentence : ℤ)
    → IsExclusive table
    → sentence_lock_find (sentence_lock_release table file sentence) file sentence ≡ none
unfolding sentence_lock_find sentence_lock_release
release-find_self [] file sentence h = refl
release-find_self (e ∷ table) file sentence (first, h) =
    elim (Bool-cases (is_lock_of file sentence e)) [
      | inl q ↦
          let (same_file, same_sentence) = is_lock_of→≡ file sentence e q in
          rw (q, sentence_lock_release) (rw (← same_file, ← same_sentence) first)
      | inr q ↦
          rw (q, sentence_lock_release, q, sentence_lock_find)
            (release-find_self table file sentence h)
    ]

-- Two entries are for one sentence in either order.
is_lock_of_sym :
    (e f : SentenceLock)
    → is_lock_of f.file f.sentence e ≡ false
    → is_lock_of e.file e.sentence f ≡ false
is_lock_of_sym e f h = ground (
  arith,
  eq_ℤ_iff e.sentence f.sentence,
  eq_ℤ_iff f.sentence e.sentence,
  str_eq_iff e.file f.file,
  str_eq_iff f.file e.file,
)

find_cons_none :
    (e : SentenceLock) (table : List SentenceLock) (file : Bytes) (sentence : ℤ)
    → sentence_lock_find (e ∷ table) file sentence ≡ none
    → (is_lock_of file sentence e ≡ false) × (sentence_lock_find table file sentence ≡ none)
unfolding sentence_lock_find
find_cons_none e table file sentence h = ground arith

IsExclusive-append :
    (table : List SentenceLock) (entry : SentenceLock)
    → IsExclusive table
    → sentence_lock_find table entry.file entry.sentence ≡ none
    → IsExclusive (table ++ entry ∷ [])
IsExclusive-append [] entry h free = (unfold sentence_lock_find in refl, tt)
IsExclusive-append (e ∷ table) entry (first, h) free =
    let (other, rest) = find_cons_none e table entry.file entry.sentence free in
    (
      find-append table entry e.file e.sentence (is_lock_of_sym e entry other) ∙ first,
      IsExclusive-append table entry h rest,
    )

pub release-find_ne :
    (table : List SentenceLock) (file g : Bytes) (sentence m : ℤ)
    → (g ≢ file) ⊎ (m ≢ sentence)
    → sentence_lock_find (sentence_lock_release table file sentence) g m
      ≡ sentence_lock_find table g m
unfolding sentence_lock_find sentence_lock_release
release-find_ne [] file g sentence m h = refl
release-find_ne (e ∷ table) file g sentence m h = ground (
  arith,
  eq_ℤ_iff e.sentence sentence,
  eq_ℤ_iff e.sentence m,
  str_eq_iff e.file file,
  str_eq_iff e.file g,
  release-find_ne table file g sentence m,
)

release_append :
    (table : List SentenceLock) (entry : SentenceLock) (file : Bytes) (sentence : ℤ)
    → sentence_lock_find table file sentence ≡ none
    → is_lock_of file sentence entry ≡ true
    → sentence_lock_release (table ++ entry ∷ []) file sentence ≡ table
unfolding sentence_lock_find sentence_lock_release
release_append [] entry file sentence h e = rw e
release_append (f ∷ table) entry file sentence h e =
    ground (arith, release_append table entry file sentence)

abbrev pub IsOther : Bytes → ℤ → Bytes → ℤ → Type 0
IsOther file sentence g m = (g ≢ file) ⊎ (m ≢ sentence)

new_lock-is_lock_of :
    (file user : Bytes) (sentence : ℤ)
    → suc (length file) ≤ 128
    → is_lock_of file sentence (new_lock file sentence user) ≡ true
new_lock-is_lock_of file user sentence h =
    rw (copy_into_fits 128 file h)
      (ground (arith, eq_ℤ_iff sentence sentence, str_eq_iff file file))

-- An acquire is refused exactly when the sentence is held.
pub acquire_busy_iff :
    (table : List SentenceLock) (file user : Bytes) (sentence : ℤ)
    → (sentence_lock_acquire table file sentence user ≡ none) ↔ IsHeld table file sentence
unfolding sentence_lock_acquire
acquire_busy_iff table file user sentence = (
  (λ h e. acquired-ne-none (sentence_lock_find table file sentence) e h),
  (λ h. elim (Option-cases (sentence_lock_find table file sentence)) [
    | inl e ↦ absurd (h e)
    | inr (entry, e) ↦ rw (e, sentence_lock_acquire)
  ]),
)
  where
    acquired-ne-none :
        (o : Option SentenceLock)
        → o ≡ none
        → elim o as (λ _. Option (List SentenceLock)) [
          | none ↦ some (table ++ new_lock file sentence user ∷ [])
          | some existing ↦ none
        ]
          ≢ none
    acquired-ne-none none e h = cc h
    acquired-ne-none (some x) e h = cc e

new_lock_other :
    (file user g : Bytes) (sentence m : ℤ)
    → suc (length file) ≤ 128
    → IsOther file sentence g m
    → is_lock_of g m (new_lock file sentence user) ≡ false
new_lock_other file user g sentence m h other =
    rw (copy_into_fits 128 file h) (ground (arith, eq_ℤ_iff sentence m, str_eq_iff file g))

acquire_free :
    (table : List SentenceLock) (file user : Bytes) (sentence : ℤ) {after : List SentenceLock}
    → sentence_lock_acquire table file sentence user ≡ some after
    → sentence_lock_find table file sentence ≡ none
acquire_free table file user sentence h =
    elim (Option-cases (sentence_lock_find table file sentence)) [
      | inl e ↦ e
      | inr (entry, e) ↦
          cc (sym ((acquire_busy_iff table file user sentence).1 (λ f. cc (sym e ∙ f))) ∙ h)
    ]

acquire_after :
    (table : List SentenceLock) (file user : Bytes) (sentence : ℤ) {after : List SentenceLock}
    → sentence_lock_acquire table file sentence user ≡ some after
    → after ≡ table ++ new_lock file sentence user ∷ []
unfolding sentence_lock_acquire
acquire_after table file user sentence h = ground arith

release_keeps_none :
    (table : List SentenceLock) (file g : Bytes) (sentence m : ℤ)
    → sentence_lock_find table g m ≡ none
    → sentence_lock_find (sentence_lock_release table file sentence) g m ≡ none
unfolding sentence_lock_find sentence_lock_release
release_keeps_none [] file g sentence m h = refl
release_keeps_none (e ∷ table) file g sentence m h =
    ground (arith, release_keeps_none table file g sentence m)

release-IsExclusive :
    (table : List SentenceLock) (file : Bytes) (sentence : ℤ)
    → IsExclusive table
    → IsExclusive (sentence_lock_release table file sentence)
unfolding sentence_lock_release
release-IsExclusive [] file sentence h = tt
release-IsExclusive (e ∷ table) file sentence (first, h) =
    elim (Bool-cases (is_lock_of file sentence e)) [
      | inl q ↦ rw (q, sentence_lock_release) h
      | inr q ↦
          rw (q, sentence_lock_release)
            (
              release_keeps_none table file e.file sentence e.sentence first,
              release-IsExclusive table file sentence h,
            )
    ]

module _ (table : List SentenceLock) (file user : Bytes) (sentence : ℤ)
    (fits : suc (length file) ≤ 128) where
  -- For a file name that fits its field: an acquire that succeeds locks the sentence for its user, leaves every other sentence as it
  -- was, and keeps the table free of double locks; releasing it restores the table.
  pub acquire_lem :
      {after : List SentenceLock}
      → sentence_lock_acquire table file sentence user ≡ some after
      → (sentence_lock_find table file sentence ≡ none)
        × (sentence_lock_find after file sentence ≡ some (new_lock file sentence user))
        × ((g : Bytes) (m : ℤ)
            → IsOther file sentence g m
            → sentence_lock_find after g m ≡ sentence_lock_find table g m)
        × (IsExclusive table → IsExclusive after)
        × (sentence_lock_release after file sentence ≡ table)
  acquire_lem {after} h =
      let free = acquire_free table file user sentence h in
      let same = acquire_after table file user sentence h in
      let mine = new_lock-is_lock_of file user sentence fits in
      (
        free,
        rw same (find-append_none table _ file sentence free mine),
        (λ g m other.
            rw same (find-append table _ g m (new_lock_other file user g sentence m fits other))),
        (λ h. rw same (IsExclusive-append table _ h (rw (copy_into_fits 128 file fits) free))),
        rw same (release_append table _ file sentence free mine),
      )

  -- For a file name that fits its field, in a table without double locks: a release frees the
  -- sentence, leaves every other sentence as it was, and makes no double lock.
  pub release_lem :
      IsExclusive table
      → (sentence_lock_find (sentence_lock_release table file sentence) file sentence ≡ none)
        × ((g : Bytes) (m : ℤ)
            → IsOther file sentence g m
            → sentence_lock_find (sentence_lock_release table file sentence) g m
              ≡ sentence_lock_find table g m)
        × IsExclusive (sentence_lock_release table file sentence)
  release_lem h = (
    release-find_self table file sentence h,
    (λ g m other. release-find_ne table file g sentence m other),
    release-IsExclusive table file sentence h,
  )
