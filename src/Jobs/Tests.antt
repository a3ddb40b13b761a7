-- ===== src/Jobs/Tests.antt =====
-- The theorems about the queue of jobs at small queues.
use unp_and_apue3e.Prelude.{◌≡◌, refl, none, some, [], ◌∷◌, arith}
use unp_and_apue3e.Jobs.{Queue}
use unp_and_apue3e.Jobs.Contents.{IsQueue}
use unp_and_apue3e.Jobs.Runs.{insert, append, remove, calls, SameIds, calls-IsQueue}

-- A job at each address, with its address as its id.
abbrev empty : Queue
empty = record {
  q_head = none;
  q_tail = none;
  job = λ p. some (record { j_next = some 9; j_prev = some 9; j_id = p });
}

calls-IsQueue_example :
    (t : Queue) × (calls (insert 7 ∷ append 3 ∷ insert 8 ∷ remove 7 ∷ []) empty ≡ some t)
    × SameIds empty t
    × IsQueue t (8 ∷ 3 ∷ [])
calls-IsQueue_example =
    calls-IsQueue (insert 7 ∷ append 3 ∷ insert 8 ∷ remove 7 ∷ []) empty [] (8 ∷ 3 ∷ [])
      (record { seg = (refl, refl); distinct = tt }) ((_, refl), ((_, refl), ((_, refl), (tt, tt))))
      (
        7 ∷ [],
        (tt, refl),
        (
          7 ∷ 3 ∷ [],
          ((omega arith, tt), refl),
          (
            8 ∷ 7 ∷ 3 ∷ [],
            ((omega arith, (omega arith, tt)), refl),
            (8 ∷ 3 ∷ [], (8 ∷ [], 3 ∷ [], refl, refl), refl),
          ),
        ),
      )
