-- ===== src/Printer/Turn.antt =====
-- One turn of printer_thread of more01/apue.3e/printer/printd.c: the job at the head of the list is
-- printed, dropped or put back.
use unp_and_apue3e.Prelude.{ℕ, Bool, ◌&&◌, Option, none, some, if◌then◌else◌}
use unp_and_apue3e.Links.{Ptr}
use unp_and_apue3e.Printer.Queue.{Job, Jobs, remove_job, replace_job}
use unp_and_apue3e.Printer.Runs.{free}
use unp_and_apue3e.Printer.Client.{Server, put_file}

-- What the calls of one turn answer: could the data file be opened and its size be found, was the
-- printer reached, was all written and read without an error, and what printer_status returned.
pub record PrinterAnswers : Type 0 where
  pub opened : Bool
  pub stat_ok : Bool
  pub connected : Bool
  pub transferred : Bool
  pub status : Bool

-- free(jp)
abbrev pub freed : {R : Type 0} → Ptr → Server R → Server R
freed p s = record s { jobs = record s.jobs { job = free p s.jobs.job } }

-- Both files of the job are unlinked.
abbrev pub unlinked_files : {R : Type 0} → ℕ → Server R → Server R
unlinked_files jobid s = record s {
  data_files = put_file s.data_files jobid none;
  req_files = put_file s.req_files jobid none;
}

-- From `defer` on, with a job in hand.
abbrev pub deferred : {R : Type 0} → Server R → Option (Jobs R) → Option (Server R)
deferred s none = none
deferred s (some q) = some (record s { jobs = q })

-- Was the job printed?
abbrev pub printed : PrinterAnswers → Bool
printed e = e.connected && e.transferred && e.status

-- The turn with the job at `p`, which is taken off the list.
abbrev pub print_job : {R : Type 0} → PrinterAnswers → Ptr → Job R → Server R → Option (Server R)
print_job e p j s =
    if e.opened && e.stat_ok
    then (if printed e
        then some (freed p (unlinked_files j.jobid s))
        else deferred s (replace_job p s.jobs))
    else some (freed p s)

abbrev pub print_at : {R : Type 0} → PrinterAnswers → Ptr → Server R → Option (Server R)
print_at e p s = elim (s.jobs.job p) [ none ↦ none | some j ↦ print_job e p j s ]

abbrev pub picked :
    {R : Type 0} → PrinterAnswers → Ptr → Server R → Option (Jobs R) → Option (Server R)
picked e p s none = none
picked e p s (some q) = print_at e p (record s { jobs = q })

-- The turn; with no job the thread waits, and nothing changes.
unfoldable pub turn : {R : Type 0} → PrinterAnswers → Server R → Option (Server R)
turn e s = elim s.jobs.jobhead [ none ↦ some s | some p ↦ picked e p s (remove_job p s.jobs) ]
