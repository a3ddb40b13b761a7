-- ===== src/Printer/Service.antt =====
-- Client threads and the printer thread of more01/apue.3e/printer/printd.c together, over any
-- sequence of their turns.
use unp_and_apue3e.Prelude.{◌≡◌, refl, Option, none, some, List, [], ◌∷◌}
use unp_and_apue3e.Links.{Ptr}
use unp_and_apue3e.Printer.Client.{Server, Requests, Answers, Reply, client_thread}
use unp_and_apue3e.Printer.Turn.{PrinterAnswers, turn}
use unp_and_apue3e.Printer.Safe.{IsSpool}
use unp_and_apue3e.Printer.Spool.{turn-IsSpool, client_thread-IsSpool, left, behind}

-- A client thread from its start to its end, or one turn of the printer thread.
pub data Step (R : Type 0) : Type 0 where
  client : Answers R → Step R
  printer : PrinterAnswers → Step R

abbrev pub only_server : {R : Type 0} → Option (Reply × Server R) → Option (Server R)
only_server none = none
only_server (some (reply, s)) = some s

unfoldable pub serve : {R : Type 0} → Requests R → Step R → Server R → Option (Server R)
serve c (client e) s = only_server (client_thread c e s)
serve c (printer e) s = turn e s

unfoldable pub serve_all : {R : Type 0} → Requests R → List (Step R) → Server R → Option (Server R)
serve_all c [] s = some s
serve_all c (x ∷ xs) s = elim (serve c x s) [ none ↦ none | some t ↦ serve_all c xs t ]

-- malloc(3) returns an address where there is no job, and the next number has no files.
abbrev pub Unused : {R : Type 0} → Step R → Server R → Type 0
Unused (client e) s =
    (s.jobs.job e.jp ≡ none)
    × (s.data_files s.jobs.nextjob ≡ none)
    × (s.req_files s.jobs.nextjob ≡ none)
Unused (printer e) s = Unit

abbrev pub AllUnused : {R : Type 0} → Requests R → List (Step R) → Server R → Type 0
AllUnused c [] s = Unit
AllUnused c (x ∷ xs) s = Unused x s × ((t : Server _) → serve c x s ≡ some t → AllUnused c xs t)

-- The list of the addresses of the jobs that wait.
abbrev pub Holds : {R : Type 0} → Server R → Type 0
Holds s = (xs : List Ptr) × IsSpool s xs

turn-waits :
    {R : Type 0} (e : PrinterAnswers) (s : Server R) → s.jobs.jobhead ≡ none → turn e s ≡ some s
unfolding turn
turn-waits e s h = rw h refl

serve-Holds :
    {R : Type 0} (c : Requests R) (x : Step R) (s : Server R) (xs : List Ptr)
    → IsSpool s xs
    → Unused x s
    → (t : Server R) × (serve c x s ≡ some t) × Holds t
unfolding serve
serve-Holds c (client e) s xs v (a, d, r) =
    let (reply, t, done, w) = client_thread-IsSpool c e s xs v a d r in
    (t, rw done refl, (behind reply e.jp xs, w))
serve-Holds c (printer e) s [] v u = (s, turn-waits e s v.queue.seg.0, ([], v))
serve-Holds c (printer e) s (p ∷ xs) v u =
    let (t, done, w) = turn-IsSpool e s p xs v in (t, done, (left e p xs, w))

-- Let each job of the list of pending jobs have its data file and a control file with its request,
-- and no two jobs one number. After any sequence of client threads, each with an unused address and
-- an unused number, and of turns of the printer thread, whatever their calls answer, no call has
-- faulted and the same holds of the list of then: no job waits without its files.
pub serve_all-IsSpool :
    {R : Type 0} (c : Requests R) (steps : List (Step R)) (s : Server R) (xs : List Ptr)
    → IsSpool s xs
    → AllUnused c steps s
    → (t : Server R) × (serve_all c steps s ≡ some t) × ((ys : List Ptr) × IsSpool t ys)
unfolding serve_all
serve_all-IsSpool c [] s xs v u = (s, refl, (xs, v))
serve_all-IsSpool c (x ∷ rest) s xs v (u, us) =
    let (t, done, (ys, w)) = serve-Holds c x s xs v u in
    let (t2, done2, w2) = serve_all-IsSpool c rest t ys w (us t done) in
    (t2, rw (serve_all, done) done2, w2)
