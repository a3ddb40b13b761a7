-- ===== src/Printer/Spool.antt =====
-- That a turn of printer_thread and a client_thread of more01/apue.3e/printer/printd.c leave each job
-- that waits with its files.
use mathlib.Core.Path.{subst}
use unp_and_apue3e.Prelude.{
  ℕ, ◌≡◌, ◌≢◌, refl, sym, ◌∙◌, ap, ◌&&◌, none, some, List, [], ◌∷◌, ◌++◌, All, All-map, All-append,
  Distinct, if◌then◌else◌, map, Bool-cases, Option-cases, ◌⊎◌, inl, inr, arith,
}
use unp_and_apue3e.Links.{Ptr, Absent, Distinct-snoc, seen, seen_at}
use unp_and_apue3e.Text.{Bytes}
use unp_and_apue3e.Printer.Queue.{Job, Jobs, remove_job}
use unp_and_apue3e.Printer.Contents.{hooks, IsQueue}
use unp_and_apue3e.Printer.Order.{held, replace_job-IsQueue}
use unp_and_apue3e.Printer.Removal.{remove_job-IsQueue}
use unp_and_apue3e.Printer.Kept.{held_inv, free_ne, free-IsQueue, Seg-Absent}
use unp_and_apue3e.Printer.Client.{
  Server, Requests, Answers, Reply, refused, accepted, client_thread,
}
use unp_and_apue3e.Printer.Stored.{Outcome, Refused, Accepted, all_well, client_thread-Ends}
use unp_and_apue3e.Printer.Copied.{put_file_ne}
use unp_and_apue3e.Printer.Turn.{PrinterAnswers, turn, print_job, printed, freed, unlinked_files}
use unp_and_apue3e.Printer.Safe.{
  number, IsSafe, number_at, IsSpool, Unchanged, All-IsSafe, same_numbers, kept-IsSpool, All-of,
  All-both, All-unmap,
}

-- What is left of the list after a turn with the job at `p` in front.
abbrev pub left : PrinterAnswers → Ptr → List Ptr → List Ptr
left e p xs = if e.opened && e.stat_ok then (if printed e then xs else p ∷ xs) else xs

module _ {R : Type 0} (e : PrinterAnswers) (s : Server R) (p : Ptr) (xs : List Ptr) where
  print_job-IsSpool :
      (j : Job R)
      → s.jobs.job p ≡ some j
      → IsQueue s.jobs xs
      → All (IsSafe s) (p ∷ xs)
      → Absent p xs
      → Distinct (map (number_at s) (p ∷ xs))
      → (t : Server R) × (print_job e p j s ≡ some t) × IsSpool t (left e p xs)
  print_job-IsSpool j at v h out d =
      let q = freed p s in
      let here : number_at s p ≡ j.jobid = ap (λ o. number (held o)) at in
      let gone : (x : Ptr) → p ≢ x → held (q.jobs.job x) ≡ held (s.jobs.job x) =
        λ x ne. ap held (free_ne p s.jobs.job x ne) in
      elim (Bool-cases (e.opened && e.stat_ok)) [
        | inl found ↦ elim (Bool-cases (printed e)) [
          | inl done ↦
              let t = freed p (unlinked_files j.jobid s) in
              let apart = All-unmap (number_at s) (λ n. number_at s p ≢ n) xs d.0 in
              (
                t,
                rw (found, done) refl,
                rw (found, done)
                    (kept-IsSpool s t xs (free-IsQueue s.jobs p xs v out) h.1 d.1 (
                      All-map xs
                        (λ x h. (
                          gone x h.0,
                          put_file_ne s.data_files j.jobid none (number_at s x)
                              (λ f. h.1 (here ∙ f)),
                          put_file_ne s.req_files j.jobid none (number_at s x)
                              (λ f. h.1 (here ∙ f)),
                        ))
                        (All-both (λ x. p ≢ x) (λ x. number_at s p ≢ number_at s x) xs out apart))),
              )
          | inr back ↦
              let (t, made, same, w) = replace_job-IsQueue s.jobs p j xs at v out in
              let u : Server R = record s { jobs = t } in
              (
                u,
                rw (found, back, made) refl,
                rw (found, back)
                    (kept-IsSpool s u (p ∷ xs) w h d
                      (All-of (Unchanged s u) (p ∷ xs) (λ x. (same x, refl, refl)))),
              )
        ]
        | inr lost ↦ (
          q,
          rw lost refl,
          rw lost (
              kept-IsSpool s q xs (free-IsQueue s.jobs p xs v out) h.1 d.1
                (All-map xs (λ x ne. (gone x ne, refl, refl)) out)),
        )
      ]

module _ {R : Type 0} (e : PrinterAnswers) (s : Server R) (p : Ptr) (xs : List Ptr) where
  turn_lem :
      (q : Jobs R) (j : Job R)
      → s.jobs.jobhead ≡ some p
      → remove_job p s.jobs ≡ some q
      → q.job p ≡ some j
      → turn e s ≡ print_job e p j (record s { jobs = q })
  unfolding turn
  turn_lem q j hd made at = ground arith

  pub turn-IsSpool :
      IsSpool s (p ∷ xs) → (t : Server R) × (turn e s ≡ some t) × IsSpool t (left e p xs)
  turn-IsSpool v =
      let (q, made, same, w) = remove_job-IsQueue s.jobs p [] xs v.queue in
      let u : Server R = record s { jobs = q } in
      let un : All (Unchanged s u) (p ∷ xs) =
        All-of (Unchanged s u) (p ∷ xs) (λ x. (same x, refl, refl)) in
      let safe = All-IsSafe s u (p ∷ xs) v.safe un in
      let (id, r, bytes, h, f, g) = safe.0 in
      let (j, at) = held_inv (q.job p) h in
      let (t, done, x) =
        print_job-IsSpool e u p xs j at w safe v.queue.distinct.0
          (subst Distinct (same_numbers s u (p ∷ xs) un) v.numbers) in
      (t, turn_lem q j v.queue.seg.1 made at ∙ done, x)

pub map-snoc : (f : Ptr → ℕ) (xs : List Ptr) (p : Ptr) → map f (xs ++ p ∷ []) ≡ map f xs ++ f p ∷ []
map-snoc f [] p = refl
map-snoc f (x ∷ xs) p = ap (λ l. f x ∷ l) (map-snoc f xs p)

-- A number without a data file is not that of a job that has its files.
new_number :
    {R : Type 0} (s : Server R) (id : ℕ) (xs : List Ptr)
    → s.data_files id ≡ none
    → All (IsSafe s) xs
    → All (λ x. id ≢ number_at s x) xs
new_number s id xs none_there h =
    All-map xs
      (λ x (i, r, bytes, e, f, g). λ same.
        let at : number_at s x ≡ i = ap number e in
        let there : s.data_files id ≡ some bytes = ap s.data_files (same ∙ at) ∙ f in absurd (cc))
      h

pub All-remap :
    (f : Ptr → ℕ) (P : ℕ → Type 0) (xs : List Ptr) → All (λ x. P (f x)) xs → All P (map f xs)
All-remap f P [] h = tt
All-remap f P (x ∷ xs) (h, hs) = (h, All-remap f P xs hs)

-- The list behind the call of client_thread.
abbrev pub behind : Reply → Ptr → List Ptr → List Ptr
behind refused p xs = xs
behind (accepted n) p xs = xs ++ p ∷ []

module _ {R : Type 0} (c : Requests R) (e : Answers R) (s : Server R) (xs : List Ptr) where
  outcome_cases :
      {reply : Reply} {t : Server R}
      → Outcome c e xs s reply t
      → Refused s xs reply t
        ⊎ ((req : R) × (bytes : Bytes) × Accepted s.jobs.nextjob e.jp xs s req bytes reply t)
  outcome_cases o = elim (Option-cases e.request) [
    | inl silent ↦ inl (rw silent at o)
    | inr (req, came) ↦ elim (Bool-cases (all_well c e)) [
      | inl well ↦ inr (_, _, rw (came, well) at o)
      | inr ill ↦ inl (rw (came, ill) at o)
    ]
  ]

  pub client_thread-IsSpool :
      IsSpool s xs
      → s.jobs.job e.jp ≡ none
      → s.data_files s.jobs.nextjob ≡ none
      → s.req_files s.jobs.nextjob ≡ none
      → (reply : Reply) × (t : Server R) × (client_thread c e s ≡ some (reply, t))
        × IsSpool t (behind reply e.jp xs)
  client_thread-IsSpool v free_there no_data no_req =
      let out =
        Seg-Absent (seen hooks s.jobs.job) e.jp none s.jobs.jobhead xs s.jobs.jobtail none
          (ap (seen_at hooks) free_there) v.queue.seg in
      let (reply, t, done, ends) = client_thread-Ends c e s xs v.queue out no_data no_req in
      elim (outcome_cases ends) [
        | inl (turned, same_data, same_req, same, w) ↦ (
          reply,
          t,
          done,
          subst (λ y. IsSpool t (behind y e.jp xs)) (sym turned)
              (kept-IsSpool s t xs w v.safe v.numbers
                (All-of (Unchanged s t) xs (λ x. (same x, same_data _, same_req _)))),
        )
        | inr (req, bytes, (taken, d, r, (new, same), other_data, other_req, w)) ↦
            let far = new_number s s.jobs.nextjob xs no_data v.safe in
            let un : All (Unchanged s t) xs =
              All-map xs (λ x h. (same x h.0, other_data _ h.1, other_req _ h.1))
                (All-both (λ x. e.jp ≢ x) (λ x. s.jobs.nextjob ≢ number_at s x) xs out far) in
            let at : number_at t e.jp ≡ s.jobs.nextjob = ap number new in
            let apart : All (λ n. s.jobs.nextjob ≢ n) (map (number_at t) xs) =
              subst (All (λ n. s.jobs.nextjob ≢ n)) (same_numbers s t xs un)
                (All-remap (number_at s) (λ n. s.jobs.nextjob ≢ n) xs far) in
            (
              reply,
              t,
              done,
              subst (λ y. IsSpool t (behind y e.jp xs)) (sym taken)
                  (record {
                    queue = w;
                    safe =
                        All-append (IsSafe t) xs (e.jp ∷ []) (All-IsSafe s t xs v.safe un)
                          ((s.jobs.nextjob, req, bytes, new, d, r), tt);
                    numbers =
                        rw (map-snoc (number_at t) xs e.jp, at)
                          (Distinct-snoc (map (number_at t) xs) s.jobs.nextjob
                            (subst Distinct (same_numbers s t xs un) v.numbers) apart);
                  }),
            )
      ]
