-- ===== src/Printer/Tests.antt =====
-- The theorems about the printer daemon at small inputs.
use unp_and_apue3e.Prelude.{
  ℕ, ◌+◌, ◌≡◌, refl, true, Option, none, some, List, [], ◌∷◌, ◌++◌, arith, ◌==◌, if◌then◌else◌,
}
use unp_and_apue3e.Links.{Ptr, put}
use unp_and_apue3e.Text.{Bytes}
use unp_and_apue3e.Text.Literal.{text}
use unp_and_apue3e.Printer.Queue.{Jobs, add_job, remove_job, replace_job, change}
use unp_and_apue3e.Printer.Contents.{IsQueue}
use unp_and_apue3e.Printer.Runs.{
  act, plan, free, Event, arrive, pick, defer, Daemon, Line, Shows, acts, plans, Fresh,
}
use unp_and_apue3e.Printer.Refines.{acts-Shows}
use unp_and_apue3e.Printer.Workers.{Workers, add_worker, kill_workers, client_cleanup}
use unp_and_apue3e.Printer.Lost.{client_cleanup-add_worker}
use unp_and_apue3e.Printer.Options.{Ipp, Print, attributes, document_format}
use unp_and_apue3e.Printer.Read.{read_attributes, read_attributes-attributes}
use unp_and_apue3e.Printer.Client.{Server, Requests, Answers}
use unp_and_apue3e.Printer.Safe.{IsSpool}
use unp_and_apue3e.Printer.Service.{Step, client, printer, serve_all, serve_all-IsSpool}

-- A request is its flags.
abbrev no_jobs : Jobs ℕ
no_jobs = record { jobhead = none; jobtail = none; nextjob = 1; job = λ p. none }

no_jobs-IsQueue : IsQueue no_jobs []
no_jobs-IsQueue = record { seg = (refl, refl); distinct = tt }

abbrev idle : Daemon ℕ
idle = record { jobs = no_jobs; jp = none }

abbrev no_line : Line ℕ
no_line = record { waiting = []; printing = none }

idle-Shows : Shows idle no_line
idle-Shows = record { at = []; queue = no_jobs-IsQueue; holds = tt; in_hand = tt }

-- The printer cannot be reached for the only job.
abbrev day : List (Ptr × Event ℕ)
day = (10, arrive 1 0) ∷ (20, pick) ∷ (30, defer) ∷ []

abbrev FreshAfter : List (Ptr × Event ℕ) → Option (Daemon ℕ) → Type 0
FreshAfter es none = Unit
FreshAfter es (some d) = Fresh es d

Fresh-after :
    (es : List (Ptr × Event ℕ)) (o : Option (Daemon ℕ))
    → FreshAfter es o
    → (d : Daemon ℕ) → o ≡ some d
    → Fresh es d
Fresh-after es none f d e = absurd (cc)
Fresh-after es (some x) f d e = let at : x ≡ d = cc in rw (← at) f

day-Fresh : Fresh day idle
unfolding act add_job remove_job replace_job change free put
day-Fresh = (
  refl,
  Fresh-after ((20, pick) ∷ (30, defer) ∷ []) (act 10 (arrive 1 0) idle)
      (refl, Fresh-after ((30, defer) ∷ []) _ (refl, Fresh-after [] _ tt)),
)

acts-Shows_example :
    (d : Daemon ℕ) × (acts day idle ≡ some d)
    × Shows d (record { waiting = (1, 0) ∷ []; printing = none })
acts-Shows_example =
    acts-Shows day idle no_line (record { waiting = (1, 0) ∷ []; printing = none }) day-Fresh
      idle-Shows (unfold plans plan in refl)

abbrev one_worker : Workers
one_worker = record {
  workers = some 10;
  worker = λ p.
      if p == 10 then some (record { next = none; prev = none; tid = 1; sockfd = 4 }) else none;
}

abbrev no_workers : Workers
no_workers = record { workers = none; worker = λ p. none }

client_cleanup-add_worker_example :
    (t u v : Workers) × (add_worker 1 4 10 no_workers ≡ some t)
    × (add_worker 2 5 20 t ≡ some u)
    × (client_cleanup 1 2 u ≡ some (none, u))
    × (client_cleanup 1 1 u ≡ some (some 4, v))
    × (v.workers ≡ some 10)
    × (kill_workers 1 v ≡ none)
client_cleanup-add_worker_example =
    client_cleanup-add_worker no_workers 10 20 1 2 4 5 0 refl (omega arith) (omega arith)

abbrev ipp : Ipp
ipp = record {
  tag_operation_attr = 1;
  tag_charset = 71;
  tag_natulang = 72;
  tag_uri = 69;
  tag_namewolang = 66;
  tag_mimetype = 73;
  tag_end_of_attr = 3;
  ipp_port = 631;
  header = λ n. 1 ∷ 1 ∷ 0 ∷ 2 ∷ 0 ∷ 0 ∷ 0 ∷ n ∷ [];
  ibufsz = 512;
  hbufsz = 512;
}

abbrev a_print : Print
a_print = record { jobid = 7; usernm = 97 ∷ []; jobnm = 98 ∷ []; pr_text = true }

-- The head of ibuf.
abbrev before_options : Bytes
before_options = 1 ∷ 1 ∷ 0 ∷ 2 ∷ 0 ∷ 0 ∷ 0 ∷ 7 ∷ 1 ∷ []

read_attributes-attributes_example :
    (s : Bytes) × (attributes ipp (112 ∷ []) a_print before_options ≡ some (before_options ++ s))
    × (read_attributes 7 3 s
        ≡ some (
            (71, text "attributes-charset", text "utf-8")
            ∷ (72, text "attributes-natural-language", text "en-us")
            ∷ (69, text "printer-uri", text "http://" ++ (112 ∷ []) ++ text "/ipp")
            ∷ (66, text "requesting-user-name", 97 ∷ [])
            ∷ (66, text "job-name", 98 ∷ [])
            ∷ (73, text "document-format", document_format true)
            ∷ []))
unfolding document_format text
read_attributes-attributes_example =
    read_attributes-attributes ipp (112 ∷ []) a_print before_options (omega arith) (omega arith)
      (omega arith) (omega arith) (omega arith) (omega arith) (omega arith) (omega arith)

abbrev server : Server ℕ
server = record { jobs = no_jobs; data_files = λ n. none; req_files = λ n. none }

abbrev requests : Requests ℕ
requests = record { sizeof_printreq = 8; to_host = λ n. n; set_text = λ n. n + 2 }

-- A file of two bytes, in one piece.
abbrev answers : Answers ℕ
answers = record {
  request = some 4;
  data_created = true;
  chunks = (120 ∷ 121 ∷ [], some 2) ∷ [];
  req_created = true;
  req_wrote = some 8;
  stale = [];
  jp = 10;
}

-- A job comes, and the printer prints it.
abbrev service : List (Step ℕ)
service =
    client answers
    ∷ printer (record {
      opened = true;
      stat_ok = true;
      connected = true;
      transferred = true;
      status = true;
    })
    ∷ []

serve_all-IsSpool_example :
    (t : Server ℕ) × (serve_all requests service server ≡ some t) × ((ys : List Ptr) × IsSpool t ys)
serve_all-IsSpool_example =
    serve_all-IsSpool requests service server []
      (record { queue = no_jobs-IsQueue; safe = tt; numbers = tt })
      ((refl, refl, refl), (λ s e. (tt, λ t f. tt)))
