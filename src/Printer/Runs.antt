-- ===== src/Printer/Runs.antt =====
-- The list of pending jobs of more01/apue.3e/printer/printd.c under any interleaving of the client
-- threads and of the printer thread, against a line of jobs with the one that is being printed.
use unp_and_apue3e.Prelude.{ℕ, ◌≡◌, Option, none, some, List, [], ◌∷◌, ◌++◌, if◌then◌else◌, ◌==◌}
use unp_and_apue3e.Links.{Ptr, Absent}
use unp_and_apue3e.Printer.Queue.{Job, Jobs, add_job, replace_job, remove_job}
use unp_and_apue3e.Printer.Contents.{IsQueue}
use unp_and_apue3e.Printer.Order.{held}

-- What a thread does: a client's job comes, the printer thread picks a job up, puts it back, or is
-- done with it.
pub data Event (R : Type 0) : Type 0 where
  arrive : (id : ℕ) (r : R) → Event R
  pick : Event R
  defer : Event R
  finish : Event R

-- The variables about jobs, and `jp` of printer_thread between two jobs (none) or with a job.
pub record Daemon (R : Type 0) : Type 0 where
  pub jobs : Jobs R
  pub jp : Option Ptr

-- free(p)
unfoldable pub free : {A : Type 0} → Ptr → (Ptr → Option A) → Ptr → Option A
free p h x = if p == x then none else h x

abbrev pub then_jp : {R : Type 0} → Option Ptr → Option (Jobs R) → Option (Daemon R)
then_jp p none = none
then_jp p (some q) = some (record { jobs = q; jp = p })

-- malloc(3) returns an address where there is nothing.
abbrev pub arrives : {R : Type 0} → Ptr → ℕ → R → Daemon R → Option (Daemon R)
arrives p id r d = elim (d.jobs.job p) [
  | none ↦ then_jp d.jp (add_job r id p d.jobs)
  | some j ↦ none
]

-- The printer thread waits where there is no job.
abbrev pub picks : {R : Type 0} → Daemon R → Option (Daemon R)
picks d = elim d.jp [
  | none ↦ elim d.jobs.jobhead [ none ↦ none | some p ↦ then_jp (some p) (remove_job p d.jobs) ]
  | some p ↦ none
]

abbrev pub defers : {R : Type 0} → Daemon R → Option (Daemon R)
defers d = elim d.jp [ none ↦ none | some p ↦ then_jp none (replace_job p d.jobs) ]

abbrev pub finishes : {R : Type 0} → Daemon R → Option (Daemon R)
finishes d = elim d.jp [
  | none ↦ none
  | some p ↦ some (record { jobs = record d.jobs { job = free p d.jobs.job }; jp = none })
]

-- The job that comes gets the address `p`.
unfoldable pub act : {R : Type 0} → Ptr → Event R → Daemon R → Option (Daemon R)
act p (arrive id r) d = arrives p id r d
act p pick d = picks d
act p defer d = defers d
act p finish d = finishes d

-- The jobs that wait, the first to be printed first, and the one that is being printed.
pub record Line (R : Type 0) : Type 0 where
  pub waiting : List (ℕ × R)
  pub printing : Option (ℕ × R)

abbrev pub pop : {R : Type 0} → List (ℕ × R) → Option (Line R)
pop [] = none
pop (x ∷ xs) = some (record { waiting = xs; printing = some x })

-- What each event means for the line; `none` where it cannot happen.
unfoldable pub plan : {R : Type 0} → Event R → Line R → Option (Line R)
plan (arrive id r) s = some (record s { waiting = s.waiting ++ (id, r) ∷ [] })
plan pick s = elim s.printing [ none ↦ pop s.waiting | some x ↦ none ]
plan defer s = elim s.printing [
  | none ↦ none
  | some x ↦ some (record { waiting = x ∷ s.waiting; printing = none })
]
plan finish s = elim s.printing [ none ↦ none | some x ↦ some (record s { printing = none }) ]

-- The jobs at the pointers are these.
abbrev pub Holds : {R : Type 0} → (Ptr → Option (Job R)) → List Ptr → List (ℕ × R) → Type 0
Holds h [] [] = Unit
Holds h [] (w ∷ ws) = ⊥
Holds h (x ∷ xs) [] = ⊥
Holds h (x ∷ xs) (w ∷ ws) = (held (h x) ≡ some w) × Holds h xs ws

-- The job in hand is this one, and does not wait.
abbrev pub InHand :
    {R : Type 0} → (Ptr → Option (Job R)) → List Ptr → Option Ptr → Option (ℕ × R) → Type 0
InHand h xs none none = Unit
InHand h xs none (some w) = ⊥
InHand h xs (some p) none = ⊥
InHand h xs (some p) (some w) = (held (h p) ≡ some w) × Absent p xs

pub record Shows {R : Type 0} (d : Daemon R) (s : Line R) : Type 0 where
  pub at : List Ptr
  pub queue : IsQueue d.jobs at
  pub holds : Holds d.jobs.job at s.waiting
  pub in_hand : InHand d.jobs.job at d.jp s.printing

-- A sequence of events, each with an address for the job that it may bring.
unfoldable pub acts : {R : Type 0} → List (Ptr × Event R) → Daemon R → Option (Daemon R)
acts [] d = some d
acts ((p, e) ∷ es) d = elim (act p e d) [ none ↦ none | some d' ↦ acts es d' ]

unfoldable pub plans : {R : Type 0} → List (Ptr × Event R) → Line R → Option (Line R)
plans [] s = some s
plans ((p, e) ∷ es) s = elim (plan e s) [ none ↦ none | some s' ↦ plans es s' ]

-- At its time nothing stands at the address of each event.
abbrev pub Fresh : {R : Type 0} → List (Ptr × Event R) → Daemon R → Type 0
Fresh [] d = Unit
Fresh ((p, e) ∷ es) d =
    (d.jobs.job p ≡ none) × ((d' : Daemon _) → act p e d ≡ some d' → Fresh es d')
