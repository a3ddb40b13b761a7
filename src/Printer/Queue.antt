-- ===== src/Printer/Queue.antt =====
-- The list of pending jobs of more01/apue.3e/printer/printd.c, under joblock. `none` is a read or a
-- write through a null pointer or to no job.
use unp_and_apue3e.Prelude.{
  ℕ, ◌+◌, ◌%◌, ◌^◌, Bool, ◌||◌, Option, none, some, ◌==◌, leb, if◌then◌else◌,
}
use unp_and_apue3e.Links.{Ptr, put}

-- `struct job`; what a request holds is `R`.
pub record Job (R : Type 0) : Type 0 where
  pub next : Option Ptr
  pub prev : Option Ptr
  pub jobid : ℕ
  pub req : R

-- The variables about jobs, and what pointers point to. A number of 32 bits below 0 is the one that
-- is larger by 2 ^ 32.
pub record Jobs (R : Type 0) : Type 0 where
  pub jobhead : Option Ptr
  pub jobtail : Option Ptr
  pub nextjob : ℕ
  pub job : Ptr → Option (Job R)

-- Is a number of 32 bits with a sign 0 or less?
abbrev pub not_positive : ℕ → Bool
not_positive n = (n == 0) || leb (2 ^ 31) n

-- The next job number.
unfoldable pub get_newjobno : {R : Type 0} → Jobs R → ℕ × Jobs R
get_newjobno q =
    let next = (q.nextjob + 1) % 2 ^ 32 in
    (q.nextjob, record q { nextjob = if not_positive next then 1 else next })

-- jp->... = ..., as a change of the job at `jp`
unfoldable pub change : {R : Type 0} → Ptr → (Job R → Job R) → Jobs R → Option (Jobs R)
change p f q = elim (q.job p) [ none ↦ none | some j ↦ some (record q { job = put q.job p (f j) }) ]

abbrev pub set_head : {R : Type 0} → Option Ptr → Option (Jobs R) → Option (Jobs R)
set_head p none = none
set_head p (some q) = some (record q { jobhead = p })

abbrev pub set_tail : {R : Type 0} → Option Ptr → Option (Jobs R) → Option (Jobs R)
set_tail p none = none
set_tail p (some q) = some (record q { jobtail = p })

abbrev pub hook_tail : {R : Type 0} → Ptr → Option Ptr → Jobs R → Option (Jobs R)
hook_tail p none q = some (record q { jobhead = some p })
hook_tail p (some t) q = change t (λ j. record j { next = some p }) q

-- add_job, with the address that malloc(3) returns.
unfoldable pub add_job : {R : Type 0} → R → ℕ → Ptr → Jobs R → Option (Jobs R)
add_job r id jp q = set_tail (some jp) (
    hook_tail jp q.jobtail (record q {
      job = put q.job jp (record { next = none; prev = q.jobtail; jobid = id; req = r });
    }))

abbrev pub hook_head : {R : Type 0} → Ptr → Option Ptr → Option (Jobs R) → Option (Jobs R)
hook_head p h none = none
hook_head p none (some q) = some (record q { jobtail = some p })
hook_head p (some h) (some q) = change h (λ j. record j { prev = some p }) q

unfoldable pub replace_job : {R : Type 0} → Ptr → Jobs R → Option (Jobs R)
replace_job jp q =
    set_head (some jp)
      (hook_head jp q.jobhead (change jp (λ j. record j { prev = none; next = q.jobhead }) q))

-- The first test of remove_job, of the job `j`.
abbrev pub unhook_next : {R : Type 0} → Job R → Jobs R → Option (Jobs R)
unhook_next j q = elim j.next [
  | none ↦ some (record q { jobtail = j.prev })
  | some n ↦ change n (λ i. record i { prev = j.prev }) q
]

-- The second.
abbrev pub unhook_prev : {R : Type 0} → Job R → Jobs R → Option (Jobs R)
unhook_prev j q = elim j.prev [
  | none ↦ some (record q { jobhead = j.next })
  | some p ↦ change p (λ i. record i { next = j.next }) q
]

abbrev pub then_unhook : {R : Type 0} → Ptr → Option (Jobs R) → Option (Jobs R)
then_unhook target none = none
then_unhook target (some q) = elim (q.job target) [ none ↦ none | some j ↦ unhook_prev j q ]

unfoldable pub remove_job : {R : Type 0} → Ptr → Jobs R → Option (Jobs R)
remove_job target q = elim (q.job target) [
  | none ↦ none
  | some j ↦ then_unhook target (unhook_next j q)
]
