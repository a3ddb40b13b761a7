-- ===== src/Jobs.antt =====
-- The queue of jobs of more01/apue.3e/threads/rwlock.c, a doubly linked list. Each function runs
-- under the lock of the queue, so its effect is one step. A read or a write through a null pointer,
-- or one to no job, is `none`.
pub mod Contents
pub mod Order
pub mod Runs
mod Tests
use unp_and_apue3e.Prelude.{
  ℕ, zero, suc, ◌≡◌, ◌≢◌, refl, Bool, true, false, Option, none, some, ◌==◌, if◌then◌else◌, arith,
  ==_refl, ne→==,
}

abbrev pub Ptr : Type 0
Ptr = ℕ

-- `struct job`
pub record Job : Type 0 where
  pub j_next : Option Ptr
  pub j_prev : Option Ptr
  pub j_id : ℕ

-- `struct queue`, less its lock, and what pointers point to.
pub record Queue : Type 0 where
  pub q_head : Option Ptr
  pub q_tail : Option Ptr
  pub job : Ptr → Option Job

unfoldable pub queue_init : Queue → Queue
queue_init q = record q { q_head = none; q_tail = none }

unfoldable pub put_job : (Ptr → Option Job) → Ptr → Job → Ptr → Option Job
put_job h p j q = if p == q then some j else h q

-- p->... = ..., as a change of the job at `p`
unfoldable pub change : Option Ptr → (Job → Job) → Queue → Option Queue
change none f q = none
change (some p) f q = elim (q.job p) [
  | none ↦ none
  | some j ↦ some (record q { job = put_job q.job p (f j) })
]

abbrev pub set_head : Option Ptr → Option Queue → Option Queue
set_head p none = none
set_head p (some q) = some (record q { q_head = p })

abbrev pub set_tail : Option Ptr → Option Queue → Option Queue
set_tail p none = none
set_tail p (some q) = some (record q { q_tail = p })

abbrev pub then_change : Option Queue → Option Ptr → (Job → Job) → Option Queue
then_change none p f = none
then_change (some q) p f = change p f q

-- The old head, if there is one, points back to the job; else the job is the tail too.
abbrev pub hook_head : Ptr → Option Ptr → Option Queue → Option Queue
hook_head p none q = set_tail (some p) q
hook_head p (some h) q = then_change q (some h) (λ j. record j { j_prev = some p })

unfoldable pub job_insert : Ptr → Queue → Option Queue
job_insert p q =
    set_head (some p) (
      hook_head p q.q_head (change (some p) (λ j. record j { j_next = q.q_head; j_prev = none }) q))

abbrev pub hook_tail : Ptr → Option Ptr → Option Queue → Option Queue
hook_tail p none q = set_head (some p) q
hook_tail p (some t) q = then_change q (some t) (λ j. record j { j_next = some p })

unfoldable pub job_append : Ptr → Queue → Option Queue
job_append p q =
    set_tail (some p) (
      hook_tail p q.q_tail (change (some p) (λ j. record j { j_next = none; j_prev = q.q_tail }) q))

abbrev pub is_at : Option Ptr → Ptr → Bool
is_at none p = false
is_at (some q) p = q == p

-- The three branches of job_remove, of the job `j` at `p`.
unfoldable pub remove_job : Ptr → Job → Queue → Option Queue
remove_job p j q =
    if is_at q.q_head p
    then (if is_at q.q_tail p
        then some (record q { q_head = j.j_next; q_tail = none })
        else change j.j_next (λ n. record n { j_prev = j.j_prev }) (record q { q_head = j.j_next }))
    else if is_at q.q_tail p
    then change j.j_prev (λ n. record n { j_next = j.j_next }) (record q { q_tail = j.j_prev })
    else then_change (change j.j_prev (λ n. record n { j_next = j.j_next }) q) j.j_next
        (λ n. record n { j_prev = j.j_prev })

unfoldable pub job_remove : Ptr → Queue → Option Queue
job_remove p q = elim (q.job p) [ none ↦ none | some j ↦ remove_job p j q ]

-- The loop of job_find, on fuel: `none` is a fault or too little fuel, `some none` the null pointer.
unfoldable pub find_job : ℕ → Option Ptr → ℕ → Queue → Option (Option Ptr)
find_job k none id q = some none
find_job zero (some p) id q = none
find_job (suc k) (some p) id q = elim (q.job p) [
  | none ↦ none
  | some j ↦ let rest = find_job k j.j_next id q in if j.j_id == id then some (some p) else rest
]

-- job_find; the lock is taken.
unfoldable pub job_find : ℕ → ℕ → Queue → Option (Option Ptr)
job_find k id q = find_job k q.q_head id q

pub put_job_self : (h : Ptr → Option Job) (p : Ptr) (j : Job) → put_job h p j p ≡ some j
unfolding put_job
put_job_self h p j = rw (==_refl p)

-- Where the head of the queue is null and a job stands at the pointer, job_insert makes the job the
-- head and the tail, and job_remove of it makes both null again.
pub job_remove-job_insert :
    (p : Ptr) (j : Job) (q : Queue)
    → q.q_head ≡ none
    → q.job p ≡ some j
    → (t u : Queue) × (job_insert p q ≡ some t)
      × (t.q_head ≡ some p)
      × (t.q_tail ≡ some p)
      × (job_remove p t ≡ some u)
      × (u.q_head ≡ none)
      × (u.q_tail ≡ none)
unfolding job_insert change job_remove remove_job
job_remove-job_insert p j q e h =
    let made : Job = record j { j_next = none; j_prev = none } in
    let t : Queue = record { q_head = some p; q_tail = some p; job = put_job q.job p made } in
    let u : Queue = record { q_head = none; q_tail = none; job = put_job q.job p made } in
    (
      t,
      u,
      rw (e, h) refl,
      refl,
      refl,
      rw (job_remove, put_job_self q.job p made, ==_refl p),
      refl,
      refl,
    )
