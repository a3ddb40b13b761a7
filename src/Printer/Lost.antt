-- ===== src/Printer/Lost.antt =====
-- What becomes of a worker thread of more01/apue.3e/printer/printd.c that starts while another runs.
use native.Mathlib.Decide.{ℕ_discrete}
use unp_and_apue3e.Prelude.{
  ℕ, zero, suc, ◌≡◌, ◌≢◌, refl, ◌∙◌, ap, Option, none, some, List, arith, Option-cases, inl, inr,
}
use unp_and_apue3e.Links.{Ptr, put, put_self, put_ne}
use unp_and_apue3e.Printer.Workers.{
  Worker, Workers, add_worker, change, kill_workers, kill_loop, client_cleanup, worker_of, free,
}

-- What the loops read of a worker.
abbrev core : Option Worker → Option (Option Ptr × ℕ)
core none = none
core (some w) = some (w.next, w.tid)

-- The workers are the same for the loops, but at `p`.
abbrev SameCore : Ptr → Workers → Workers → Type 0
SameCore p q t = (x : Ptr) → p ≢ x → core (t.worker x) ≡ core (q.worker x)

core_inv :
    (o : Option Worker) (w : Worker)
    → core o ≡ core (some w)
    → (v : Worker) × (o ≡ some v) × (v.next ≡ w.next) × (v.tid ≡ w.tid)
core_inv none w e = absurd (cc)
core_inv (some v) w e = (v, refl, cc, cc)

kill_loop-SameCore :
    (p : Ptr) (q t : Workers) (k : ℕ) (o : Option Ptr) (ids : List ℕ)
    → q.worker p ≡ none
    → SameCore p q t
    → kill_loop k o q ≡ some ids
    → kill_loop k o t ≡ some ids
unfolding kill_loop
kill_loop-SameCore p q t k none ids out same e = e
kill_loop-SameCore p q t zero (some x) ids out same e = absurd (cc)
kill_loop-SameCore p q t (suc k) (some x) ids out same e = elim (Option-cases (q.worker x)) [
  | inl h ↦ absurd (ground arith)
  | inr (w, h) ↦
      let ne : p ≢ x = λ f. (let g : q.worker x ≡ none = rw (← f) out in absurd (cc)) in
      let (v, g, n, i) = core_inv (t.worker x) w (same x ne ∙ ap core h) in
      elim (Option-cases (kill_loop k w.next q)) [
        | inl none_left ↦ absurd (ground arith)
        | inr (rest, r) ↦
            let again = kill_loop-SameCore p q t k w.next rest out same r in ground arith
      ]
]

-- Where the list of worker threads has a head and kill_workers cancels some threads, add_worker of
-- one more thread at a free address succeeds, and kill_workers cancels just the same threads,
-- without the new one.
pub add_worker-kill_workers :
    (q : Workers) (h p : Ptr) (w : Worker) (id fd k : ℕ) (ids : List ℕ)
    → q.workers ≡ some h
    → q.worker h ≡ some w
    → q.worker p ≡ none
    → kill_workers k q ≡ some ids
    → (t : Workers) × (add_worker id fd p q ≡ some t) × (kill_workers k t ≡ some ids)
unfolding kill_workers add_worker change
add_worker-kill_workers q h p w id fd k ids hd at out e =
    let made : Worker = record { next = some h; prev = none; tid = id; sockfd = fd } in
    let ne : p ≢ h = λ f. (let g : q.worker h ≡ none = rw (← f) out in absurd (cc)) in
    let atu : put q.worker p made h ≡ some w = put_ne q.worker p made h ne ∙ at in
    let back = record w { prev = some p } in
    let t : Workers = record q { worker = put (put q.worker p made) h back } in
    let same : SameCore p q t = λ x out. elim (ℕ_discrete h x) [
      | yes f ↦ rw (← f, put_self (put q.worker p made) h back, at) refl
      | no f ↦ ap core (put_ne (put q.worker p made) h back x f ∙ put_ne q.worker p made x out)
    ] in
    (t, ground arith, kill_loop-SameCore p q t k q.workers ids out same e)

-- Let two different threads be added at two different addresses to a list of worker threads without
-- a head. client_cleanup of the second then closes no socket and changes nothing. client_cleanup of
-- the first closes its socket, but the head of the list stays at its freed memory, which the next
-- kill_workers reads.
pub client_cleanup-add_worker :
    (q : Workers) (p r : Ptr) (i j fi fj k : ℕ)
    → q.workers ≡ none
    → p ≢ r
    → i ≢ j
    → (t u v : Workers) × (add_worker i fi p q ≡ some t)
      × (add_worker j fj r t ≡ some u)
      × (client_cleanup (suc k) j u ≡ some (none, u))
      × (client_cleanup (suc k) i u ≡ some (some fi, v))
      × (v.workers ≡ some p)
      × (kill_workers (suc k) v ≡ none)
unfolding kill_workers add_worker change client_cleanup kill_loop worker_of free put
client_cleanup-add_worker q p r i j fi fj k e ne d =
    let first : Worker = record { next = none; prev = none; tid = i; sockfd = fi } in
    let second : Worker = record { next = some p; prev = none; tid = j; sockfd = fj } in
    let t : Workers = record { workers = some p; worker = put q.worker p first } in
    let hooked : Ptr → Option Worker =
      put (put t.worker r second) p (record first { prev = some r }) in
    let u : Workers = record { workers = some p; worker = hooked } in
    let v : Workers = record {
      workers = some p;
      worker = free p (put hooked r (record second { next = none }));
    } in
    (t, u, v, ground arith, ground arith, ground arith, ground arith, refl, ground arith)
