-- ===== src/Jobs/Runs.antt =====
-- A queue over any sequence of calls, against the list that it stands for.
use native.Mathlib.Decide.{ℕ_discrete}
use unp_and_apue3e.Prelude.{
  ℕ, ◌≡◌, refl, sym, ◌∙◌, ap, Option, none, some, List, [], ◌∷◌, ◌++◌, All, arith, Option-cases,
  inl, inr, Bool, true, false, if◌then◌else◌, All-map,
}
use unp_and_apue3e.Links.{Absent}
use unp_and_apue3e.Jobs.{
  put_job_self, Ptr, Job, Queue, put_job, change, job_insert, job_append, job_remove, remove_job,
  is_at, set_head, set_tail, then_change, hook_head, hook_tail,
}
use unp_and_apue3e.Jobs.Contents.{IsQueue, put_job_ne}
use unp_and_apue3e.Jobs.Order.{job_insert-IsQueue, job_append-IsQueue, job_remove-IsQueue}

abbrev pub id : Option Job → Option ℕ
id none = none
id (some j) = some j.j_id

-- Each job keeps its id, and none comes or goes.
abbrev pub SameIds : Queue → Queue → Type 0
SameIds q t = (r : Ptr) → id (t.job r) ≡ id (q.job r)

put_job-id :
    (h : Ptr → Option Job) (p : Ptr) (i j : Job)
    → h p ≡ some i
    → j.j_id ≡ i.j_id
    → (r : Ptr) → id (put_job h p j r) ≡ id (h r)
put_job-id h p i j e f r = elim (ℕ_discrete p r) [
  | yes same ↦ rw (← same, put_job_self h p j, e) (ap some f)
  | no ne ↦ ap id (put_job_ne h p j r ne)
]

change-SameIds :
    (o : Option Ptr) (f : Job → Job) (q t : Queue)
    → ((j : Job) → (f j).j_id ≡ j.j_id)
    → change o f q ≡ some t
    → SameIds q t
unfolding change
change-SameIds none f q t keep e r = absurd (cc)
change-SameIds (some p) f q t keep e r = elim (Option-cases (q.job p)) [
  | inl h ↦ absurd (ground arith)
  | inr (j, h) ↦
      let at : record q { job = put_job q.job p (f j) } ≡ t = ground arith in
      rw (← at) (put_job-id q.job p j (f j) h (keep j) r)
]

-- What an effect on a queue leaves, where it has one, has the same ids.
abbrev Keeps : Queue → Option Queue → Type 0
Keeps q o = (t : Queue) → o ≡ some t → SameIds q t

set_head-Keeps :
    (q : Queue) (p : Option Ptr) (o : Option Queue) → Keeps q o → Keeps q (set_head p o)
set_head-Keeps q p none k t e = absurd (cc)
set_head-Keeps q p (some u) k t e =
    let at : record u { q_head = p } ≡ t = cc in rw (← at) (k u refl)

set_tail-Keeps :
    (q : Queue) (p : Option Ptr) (o : Option Queue) → Keeps q o → Keeps q (set_tail p o)
set_tail-Keeps q p none k t e = absurd (cc)
set_tail-Keeps q p (some u) k t e =
    let at : record u { q_tail = p } ≡ t = cc in rw (← at) (k u refl)

then_change-Keeps :
    (q : Queue) (p : Option Ptr) (f : Job → Job) (o : Option Queue)
    → ((j : Job) → (f j).j_id ≡ j.j_id)
    → Keeps q o
    → Keeps q (then_change o p f)
then_change-Keeps q p f none keep k t e = absurd (cc)
then_change-Keeps q p f (some u) keep k t e = λ r. change-SameIds p f u t keep e r ∙ k u refl r

hook_head-Keeps :
    (q : Queue) (p : Ptr) (h : Option Ptr) (o : Option Queue)
    → Keeps q o
    → Keeps q (hook_head p h o)
hook_head-Keeps q p none o k = set_tail-Keeps q (some p) o k
hook_head-Keeps q p (some h) o k = then_change-Keeps q (some h) _ o (λ j. refl) k

hook_tail-Keeps :
    (q : Queue) (p : Ptr) (h : Option Ptr) (o : Option Queue)
    → Keeps q o
    → Keeps q (hook_tail p h o)
hook_tail-Keeps q p none o k = set_head-Keeps q (some p) o k
hook_tail-Keeps q p (some h) o k = then_change-Keeps q (some h) _ o (λ j. refl) k

job_insert-Keeps : (p : Ptr) (q : Queue) → Keeps q (job_insert p q)
unfolding job_insert
job_insert-Keeps p q =
    set_head-Keeps q (some p) _
      (hook_head-Keeps q p q.q_head _ (λ t e. change-SameIds (some p) _ q t (λ j. refl) e))

job_append-Keeps : (p : Ptr) (q : Queue) → Keeps q (job_append p q)
unfolding job_append
job_append-Keeps p q =
    set_tail-Keeps q (some p) _
      (hook_tail-Keeps q p q.q_tail _ (λ t e. change-SameIds (some p) _ q t (λ j. refl) e))

some-Keeps : (q u : Queue) → SameIds q u → Keeps q (some u)
some-Keeps q u same t e = let at : u ≡ t = cc in rw (← at) same

if-Keeps :
    (q : Queue) (b : Bool) (x y : Option Queue)
    → Keeps q x
    → Keeps q y
    → Keeps q (if b then x else y)
if-Keeps q true x y k l = k
if-Keeps q false x y k l = l

change-Keeps :
    (q u : Queue) (o : Option Ptr) (f : Job → Job)
    → ((j : Job) → (f j).j_id ≡ j.j_id)
    → SameIds q u
    → Keeps q (change o f u)
change-Keeps q u o f keep same t e r = change-SameIds o f u t keep e r ∙ same r

remove_job-Keeps : (p : Ptr) (j : Job) (q : Queue) → Keeps q (remove_job p j q)
unfolding remove_job
remove_job-Keeps p j q =
    if-Keeps q (is_at q.q_head p) _ _
      (if-Keeps q (is_at q.q_tail p) _ _ (some-Keeps q _ (λ r. refl))
        (change-Keeps q _ j.j_next _ (λ i. refl) (λ r. refl)))
      (if-Keeps q (is_at q.q_tail p) _ _ (change-Keeps q _ j.j_prev _ (λ i. refl) (λ r. refl)) (
        then_change-Keeps q j.j_next _ _ (λ i. refl)
          (change-Keeps q q j.j_prev _ (λ i. refl) (λ r. refl))))

job_remove-Keeps : (p : Ptr) (q : Queue) → Keeps q (job_remove p q)
unfolding job_remove
job_remove-Keeps p q t e = elim (Option-cases (q.job p)) [
  | inl h ↦ absurd (ground arith)
  | inr (j, h) ↦ remove_job-Keeps p j q t (ground arith)
]

-- A call of one of the three functions.
pub data Op : Type 0 where
  insert : (p : Ptr) → Op
  append : (p : Ptr) → Op
  remove : (p : Ptr) → Op

unfoldable pub call : Op → Queue → Option Queue
call (insert p) q = job_insert p q
call (append p) q = job_append p q
call (remove p) q = job_remove p q

unfoldable pub calls : List Op → Queue → Option Queue
calls [] q = some q
calls (o ∷ os) q = elim (call o q) [ none ↦ none | some t ↦ calls os t ]

-- The jobs that are put into the queue.
abbrev pub Given : (Ptr → Type 0) → Op → Type 0
Given P (insert p) = P p
Given P (append p) = P p
Given P (remove p) = Unit

-- What a call means for the list: a job comes in front or behind where it is not in the list, or
-- goes from where it stands.
abbrev pub Means : Op → List Ptr → List Ptr → Type 0
Means (insert p) xs ys = Absent p xs × (ys ≡ p ∷ xs)
Means (append p) xs ys = Absent p xs × (ys ≡ xs ++ p ∷ [])
Means (remove p) xs ys = (us vs : List Ptr) × (xs ≡ us ++ p ∷ vs) × (ys ≡ us ++ vs)

abbrev pub MeansAll : List Op → List Ptr → List Ptr → Type 0
MeansAll [] xs zs = zs ≡ xs
MeansAll (o ∷ os) xs zs = (ys : List Ptr) × Means o xs ys × MeansAll os ys zs

abbrev pub IsJob : Queue → Ptr → Type 0
IsJob q p = (j : Job) × (q.job p ≡ some j)

IsJob-SameIds : (q t : Queue) → SameIds q t → (p : Ptr) → IsJob q p → IsJob t p
IsJob-SameIds q t same p (j, e) = elim (Option-cases (t.job p)) [
  | inl h ↦ absurd (let f : none ≡ some j.j_id = ap id (sym h) ∙ same p ∙ ap id e in cc)
  | inr got ↦ got
]

call-IsQueue :
    (o : Op) (q : Queue) (xs ys : List Ptr)
    → IsQueue q xs
    → Given (IsJob q) o
    → Means o xs ys
    → (t : Queue) × (call o q ≡ some t) × SameIds q t × IsQueue t ys
unfolding call
call-IsQueue (insert p) q xs ys v (j, at) (out, e) =
    let (t, r, w) = job_insert-IsQueue q p j at xs v out in (t, r, job_insert-Keeps p q t r, rw e w)
call-IsQueue (append p) q xs ys v (j, at) (out, e) =
    let (t, r, w) = job_append-IsQueue q p j at xs v out in (t, r, job_append-Keeps p q t r, rw e w)
call-IsQueue (remove p) q xs ys v tt (us, vs, e, f) =
    let (t, r, w) = job_remove-IsQueue q p us vs (rw (← e) v) in
    (t, r, job_remove-Keeps p q t r, rw f w)

Given-map : (P Q : Ptr → Type 0) → ((p : Ptr) → P p → Q p) → (o : Op) → Given P o → Given Q o
Given-map P Q f (insert p) g = f p g
Given-map P Q f (append p) g = f p g
Given-map P Q f (remove p) g = tt

-- A queue that holds a list of jobs holds, after any sequence of job_insert and job_append of jobs
-- that are not in it and of job_remove of jobs that are in it, the list that these calls stand for;
-- none of the calls faults, and no job changes its id.
pub calls-IsQueue :
    (os : List Op) (q : Queue) (xs zs : List Ptr)
    → IsQueue q xs
    → All (Given (IsJob q)) os
    → MeansAll os xs zs
    → (t : Queue) × (calls os q ≡ some t) × SameIds q t × IsQueue t zs
unfolding calls
calls-IsQueue [] q xs zs v g e = (q, refl, (λ r. refl), rw e v)
calls-IsQueue (o ∷ os) q xs zs v (g, gs) (ys, m, ms) =
    let (t, r, same, w) = call-IsQueue o q xs ys v g m in
    let kept = All-map os (Given-map (IsJob q) (IsJob t) (IsJob-SameIds q t same)) gs in
    let (u, r', same', w') = calls-IsQueue os t ys zs w kept ms in
    (u, rw (calls, r) r', (λ p. same' p ∙ same p), w')
