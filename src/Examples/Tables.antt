-- ===== src/Examples/Tables.antt =====
-- Runs of the lock table, the ticket table and the array.
use co_write_file_system.Prelude.{
  suc, ◌≡◌, refl, true, false, List, [], ◌∷◌, ◌++◌, none, some, Bytes, codes, ℤ, pos, arith, str_eq,
}
use co_write_file_system.Storage.Locks.{
  SentenceLock, new_lock, sentence_lock_find, sentence_lock_acquire, sentence_lock_release,
}
use co_write_file_system.Storage.Locks.Laws.{IsExclusive, IsOther, acquire_lem, release_lem}
use co_write_file_system.Storage.Tickets.{
  AuthTicket, Request, matches, is_expired, ticket_table_take,
}
use co_write_file_system.Storage.Tickets.Laws.{
  Fits, count_usable, count_matching, take_some, take_once,
}

abbrev table : List SentenceLock
table = new_lock (codes "f") (pos 1) (codes "y") ∷ []

abbrev both : List SentenceLock
both = table ++ new_lock (codes "f") (pos 0) (codes "x") ∷ []

acquires : sentence_lock_acquire table (codes "f") (pos 0) (codes "x") ≡ some both
unfolding sentence_lock_acquire
acquires = refl

acquire_lem_example :
    (sentence_lock_find table (codes "f") (pos 0) ≡ none)
    × (sentence_lock_find both (codes "f") (pos 0)
        ≡ some (new_lock (codes "f") (pos 0) (codes "x")))
    × ((g : Bytes) (m : ℤ)
        → IsOther (codes "f") (pos 0) g m
        → sentence_lock_find both g m ≡ sentence_lock_find table g m)
    × (IsExclusive table → IsExclusive both)
    × (sentence_lock_release both (codes "f") (pos 0) ≡ table)
acquire_lem_example = acquire_lem table (codes "f") (codes "x") (pos 0) (omega arith) acquires

single : IsExclusive table
unfolding sentence_lock_find
single = (refl, tt)

release_lem_example :
    (sentence_lock_find (sentence_lock_release table (codes "f") (pos 1)) (codes "f") (pos 1)
      ≡ none)
    × ((g : Bytes) (m : ℤ)
        → IsOther (codes "f") (pos 1) g m
        → sentence_lock_find (sentence_lock_release table (codes "f") (pos 1)) g m
          ≡ sentence_lock_find table g m)
    × IsExclusive (sentence_lock_release table (codes "f") (pos 1))
release_lem_example = release_lem table (codes "f") (codes "x") (pos 1) (omega arith) single

abbrev request : Request
request = record { token = codes "t"; user = codes "x"; file = codes "f"; op = codes "READ" }

abbrev ticket : AuthTicket
ticket = record {
  token = codes "t";
  file = codes "f";
  user = codes "x";
  op = codes "READ";
  expiry = 20;
}

takes : (ticket_table_take 10 request (ticket ∷ [])).1 ≡ some ticket
unfolding ticket_table_take str_eq
takes = refl

one_usable : count_usable 10 request (ticket ∷ []) ≡ 1
unfolding count_usable str_eq
one_usable = refl

take_some_example :
    (matches request ticket ≡ true)
    × (is_expired 10 ticket ≡ false)
    × (count_usable 10 request (ticket ∷ [])
        ≡ suc (count_matching request (ticket_table_take 10 request (ticket ∷ [])).0))
take_some_example = take_some 10 request (ticket ∷ []) takes

take_once_example :
    (ticket_table_take 15 request (ticket_table_take 10 request (ticket ∷ [])).0).1 ≡ none
take_once_example = take_once 10 15 request (ticket ∷ []) one_usable takes

fits : Fits request
fits = (omega arith, omega arith, omega arith, omega arith)
