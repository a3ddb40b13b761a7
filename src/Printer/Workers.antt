-- ===== src/Printer/Workers.antt =====
-- The list of worker threads of more01/apue.3e/printer/printd.c, under workerlock. `none` is a read
-- or a write through a null pointer or to freed memory, or too little fuel.
use unp_and_apue3e.Prelude.{ℕ, zero, suc, Option, none, some, List, [], ◌∷◌, ◌==◌, if◌then◌else◌}
use unp_and_apue3e.Links.{Ptr, put}

-- `struct worker_thread`
pub record Worker : Type 0 where
  pub next : Option Ptr
  pub prev : Option Ptr
  pub tid : ℕ
  pub sockfd : ℕ

-- The head of the list, and what pointers point to.
pub record Workers : Type 0 where
  pub workers : Option Ptr
  pub worker : Ptr → Option Worker

-- p->... = ..., as a change of the worker at `p`
unfoldable pub change : Ptr → (Worker → Worker) → Workers → Option Workers
change p f q = elim (q.worker p) [
  | none ↦ none
  | some w ↦ some (record q { worker = put q.worker p (f w) })
]

abbrev pub hook_worker : Ptr → Option Ptr → Workers → Option Workers
hook_worker wtp none q = some (record q { workers = some wtp })
hook_worker wtp (some h) q = change h (λ w. record w { prev = some wtp }) q

-- add_worker, with the address that malloc(3) returns.
unfoldable pub add_worker : ℕ → ℕ → Ptr → Workers → Option Workers
add_worker id fd wtp q = hook_worker wtp q.workers (record q {
  worker = put q.worker wtp (record { next = q.workers; prev = none; tid = id; sockfd = fd });
})

abbrev cancel : ℕ → Option (List ℕ) → Option (List ℕ)
cancel id none = none
cancel id (some ids) = some (id ∷ ids)

-- The loop of kill_workers, on fuel: the threads that it cancels, in their order.
unfoldable pub kill_loop : ℕ → Option Ptr → Workers → Option (List ℕ)
kill_loop k none q = some []
kill_loop zero (some p) q = none
kill_loop (suc k) (some p) q = elim (q.worker p) [
  | none ↦ none
  | some w ↦ cancel w.tid (kill_loop k w.next q)
]

-- kill_workers; the lock is taken.
unfoldable pub kill_workers : ℕ → Workers → Option (List ℕ)
kill_workers k q = kill_loop k q.workers q

-- The search of client_cleanup, on fuel.
unfoldable pub worker_of : ℕ → ℕ → Option Ptr → Workers → Option (Option Ptr)
worker_of k id none q = some none
worker_of zero id (some p) q = none
worker_of (suc k) id (some p) q = elim (q.worker p) [
  | none ↦ none
  | some w ↦ let rest = worker_of k id w.next q in if w.tid == id then some (some p) else rest
]

-- The first test of client_cleanup on the worker that it found.
abbrev unhook_next : Worker → Workers → Option Workers
unhook_next w q = elim w.next [
  | none ↦ some q
  | some n ↦ change n (λ i. record i { prev = w.prev }) q
]

-- The second.
abbrev unhook_prev : Worker → Workers → Option Workers
unhook_prev w q = elim w.prev [
  | none ↦ some (record q { workers = w.next })
  | some p ↦ change p (λ i. record i { next = w.next }) q
]

-- free(p)
unfoldable pub free : Ptr → (Ptr → Option Worker) → Ptr → Option Worker
free p h x = if p == x then none else h x

-- close(2) of the worker's socket, and free(3).
abbrev release : Ptr → Option Workers → Option (Option ℕ × Workers)
release p none = none
release p (some q) = elim (q.worker p) [
  | none ↦ none
  | some w ↦ some (some w.sockfd, record q { worker = free p q.worker })
]

abbrev then_unhook : Ptr → Option Workers → Option Workers
then_unhook p none = none
then_unhook p (some q) = elim (q.worker p) [ none ↦ none | some w ↦ unhook_prev w q ]

abbrev cleanup_found : Option (Option Ptr) → Workers → Option (Option ℕ × Workers)
cleanup_found none q = none
cleanup_found (some none) q = some (none, q)
cleanup_found (some (some p)) q = elim (q.worker p) [
  | none ↦ none
  | some w ↦ release p (then_unhook p (unhook_next w q))
]

-- client_cleanup of the thread: the socket that it closes, if any.
unfoldable pub client_cleanup : ℕ → ℕ → Workers → Option (Option ℕ × Workers)
client_cleanup k id q = cleanup_found (worker_of k id q.workers q) q
