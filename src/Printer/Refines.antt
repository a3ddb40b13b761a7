-- ===== src/Printer/Refines.antt =====
-- That the list of pending jobs of more01/apue.3e/printer/printd.c does what the line of jobs plans.
use unp_and_apue3e.Prelude.{
  ℕ, ◌≡◌, refl, ◌∙◌, ap, Option, none, some, List, [], ◌∷◌, ◌++◌, arith, Option-cases, inl, inr,
}
use unp_and_apue3e.Links.{Ptr, seen, seen_at}
use unp_and_apue3e.Printer.Queue.{Jobs}
use unp_and_apue3e.Printer.Contents.{hooks, IsQueue}
use unp_and_apue3e.Printer.Order.{held, add_job-IsQueue, replace_job-IsQueue}
use unp_and_apue3e.Printer.Removal.{remove_job-IsQueue}
use unp_and_apue3e.Printer.Runs.{
  Event, arrive, pick, defer, finish, Daemon, free, arrives, picks, defers, finishes, act, Line,
  plan, Holds, InHand, Shows, acts, plans, Fresh,
}
use unp_and_apue3e.Printer.Kept.{
  held_inv, Seg-Absent, Holds-same, Holds-SameHeld, Holds-snoc, InHand-Added, free_ne, free-IsQueue,
}

-- What an event makes of a daemon that shows a line.
abbrev Done : {R : Type 0} → Option (Daemon R) → Line R → Type 0
Done o s = (d : Daemon _) × (o ≡ some d) × Shows d s

module _ {R : Type 0} where
  arrives-Shows :
      (p : Ptr) (id : ℕ) (r : R) (q : Jobs R) (jp : Option Ptr) (s : Line R)
      → q.job p ≡ none
      → Shows (record { jobs = q; jp = jp }) s
      → Done
          (arrives p id r (record { jobs = q; jp = jp }))
          (record s { waiting = s.waiting ++ (id, r) ∷ [] })
  arrives-Shows p id r q jp s e v =
      let out =
        Seg-Absent (seen hooks q.job) p none q.jobhead v.at q.jobtail none (ap (seen_at hooks) e)
          v.queue.seg in
      let (t, made, (new, same), w) = add_job-IsQueue q p r id v.at v.queue out in
      (
        record { jobs = t; jp = jp },
        rw (e, made) refl,
        record {
          at = v.at ++ p ∷ [];
          queue = w;
          holds =
              Holds-snoc t.job v.at s.waiting p (id, r)
                (Holds-same q.job t.job p v.at s.waiting out same v.holds) new;
          in_hand = InHand-Added q t p v.at jp s.printing e same v.in_hand;
        },
      )

  picks-Shows :
      (q : Jobs R) (x : Ptr) (xs : List Ptr) (w : ℕ × R) (ws : List (ℕ × R))
      → IsQueue q (x ∷ xs)
      → Holds q.job (x ∷ xs) (w ∷ ws)
      → Done (picks (record { jobs = q; jp = none })) (record { waiting = ws; printing = some w })
  picks-Shows q x xs w ws v (f, hs) =
      let (t, made, same, u) = remove_job-IsQueue q x [] xs v in
      (
        record { jobs = t; jp = some x },
        rw (v.seg.1, made) refl,
        record {
          at = xs;
          queue = u;
          holds = Holds-SameHeld q.job t.job xs ws same hs;
          in_hand = (same x ∙ f, v.distinct.0);
        },
      )

  defers-Shows :
      (q : Jobs R) (p : Ptr) (xs : List Ptr) (w : ℕ × R) (ws : List (ℕ × R))
      → IsQueue q xs
      → Holds q.job xs ws
      → InHand q.job xs (some p) (some w)
      → Done
          (defers (record { jobs = q; jp = some p }))
          (record { waiting = w ∷ ws; printing = none })
  defers-Shows q p xs w ws v hs (f, out) =
      let (j, e) = held_inv (q.job p) f in
      let (t, made, same, u) = replace_job-IsQueue q p j xs e v out in
      (
        record { jobs = t; jp = none },
        rw made refl,
        record {
          at = p ∷ xs;
          queue = u;
          holds = (same p ∙ f, Holds-SameHeld q.job t.job xs ws same hs);
          in_hand = tt;
        },
      )

  finishes-Shows :
      (q : Jobs R) (p : Ptr) (xs : List Ptr) (w : ℕ × R) (ws : List (ℕ × R))
      → IsQueue q xs
      → Holds q.job xs ws
      → InHand q.job xs (some p) (some w)
      → Done
          (finishes (record { jobs = q; jp = some p }))
          (record { waiting = ws; printing = none })
  finishes-Shows q p xs w ws v hs (f, out) = (
    _,
    refl,
    record {
      at = xs;
      queue = free-IsQueue q p xs v out;
      holds =
          Holds-same q.job (free p q.job) p xs ws out (λ x ne. ap held (free_ne p q.job x ne)) hs;
      in_hand = tt;
    },
  )

  when_same : (o : Option (Daemon R)) {s s' : Line R} → some s ≡ some s' → Done o s → Done o s'
  when_same o {s} {s'} e d = let at : s ≡ s' = cc in rw (← at) d

  pick_planned :
      (q : Jobs R) (jp : Option Ptr) (xs : List Ptr) (o : Option (ℕ × R)) (ws : List (ℕ × R))
      (s : Line R)
      → IsQueue q xs
      → Holds q.job xs ws
      → InHand q.job xs jp o
      → plan pick (record { waiting = ws; printing = o }) ≡ some s
      → Done (picks (record { jobs = q; jp = jp })) s
  unfolding plan
  pick_planned q jp xs (some w) ws s v hs i e = absurd (cc)
  pick_planned q jp xs none [] s v hs i e = absurd (cc)
  pick_planned q (some p) xs none (w ∷ ws) s v hs i e = elim i [ ]
  pick_planned q none [] none (w ∷ ws) s v hs i e = elim hs [ ]
  pick_planned q none (x ∷ xs) none (w ∷ ws) s v hs i e =
      when_same _ e (picks-Shows q x xs w ws v hs)

  defer_planned :
      (q : Jobs R) (jp : Option Ptr) (xs : List Ptr) (o : Option (ℕ × R)) (ws : List (ℕ × R))
      (s : Line R)
      → IsQueue q xs
      → Holds q.job xs ws
      → InHand q.job xs jp o
      → plan defer (record { waiting = ws; printing = o }) ≡ some s
      → Done (defers (record { jobs = q; jp = jp })) s
  unfolding plan
  defer_planned q jp xs none ws s v hs i e = absurd (cc)
  defer_planned q none xs (some w) ws s v hs i e = elim i [ ]
  defer_planned q (some p) xs (some w) ws s v hs i e =
      when_same _ e (defers-Shows q p xs w ws v hs i)

  finish_planned :
      (q : Jobs R) (jp : Option Ptr) (xs : List Ptr) (o : Option (ℕ × R)) (ws : List (ℕ × R))
      (s : Line R)
      → IsQueue q xs
      → Holds q.job xs ws
      → InHand q.job xs jp o
      → plan finish (record { waiting = ws; printing = o }) ≡ some s
      → Done (finishes (record { jobs = q; jp = jp })) s
  unfolding plan
  finish_planned q jp xs none ws s v hs i e = absurd (cc)
  finish_planned q none xs (some w) ws s v hs i e = elim i [ ]
  finish_planned q (some p) xs (some w) ws s v hs i e =
      when_same _ e (finishes-Shows q p xs w ws v hs i)

  act-Shows :
      (p : Ptr) (e : Event R) (d : Daemon R) (s s' : Line R)
      → d.jobs.job p ≡ none
      → Shows d s
      → plan e s ≡ some s'
      → Done (act p e d) s'
  unfolding act plan
  act-Shows p (arrive id r) d s s' f v e = when_same _ e (arrives-Shows p id r d.jobs d.jp s f v)
  act-Shows p pick d s s' f v e =
      pick_planned d.jobs d.jp v.at s.printing s.waiting s' v.queue v.holds v.in_hand e
  act-Shows p defer d s s' f v e =
      defer_planned d.jobs d.jp v.at s.printing s.waiting s' v.queue v.holds v.in_hand e
  act-Shows p finish d s s' f v e =
      finish_planned d.jobs d.jp v.at s.printing s.waiting s' v.queue v.holds v.in_hand e

  -- Let the list of pending jobs and the job in the hands of the printer thread be those of a line
  -- of jobs, and let clients' jobs come and the printer thread pick up, put back and finish jobs in
  -- any order that the line allows, each new job at an address where nothing stands at that time.
  -- Then no call of add_job, remove_job or replace_job faults, and the list and the job in hand are
  -- those of the line again: first come, first printed, with a job that was put back in front.
  pub acts-Shows :
      (es : List (Ptr × Event R)) (d : Daemon R) (s s' : Line R)
      → Fresh es d
      → Shows d s
      → plans es s ≡ some s'
      → (d' : Daemon R) × (acts es d ≡ some d') × Shows d' s'
  unfolding acts plans
  acts-Shows [] d s s' f v e = when_same _ e (d, refl, v)
  acts-Shows ((p, a) ∷ es) d s s' (f, fs) v e = elim (Option-cases (plan a s)) [
    | inl h ↦ absurd (ground arith)
    | inr (t, h) ↦
        let (d1, r, w) = act-Shows p a d s t f v h in
        let (d2, r2, w2) = acts-Shows es d1 t s' (fs d1 r) w (ground arith) in
        (d2, rw (acts, r) r2, w2)
  ]
