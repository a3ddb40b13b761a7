-- ===== src/Printer/Order.antt =====
-- The functions of more01/apue.3e/printer/printd.c on the list of pending jobs.
use native.Mathlib.Decide.{ℕ_discrete}
use unp_and_apue3e.Prelude.{ℕ, ◌≡◌, ◌≢◌, refl, ◌∙◌, ap, Option, none, some, List, [], ◌∷◌, ◌++◌}
use unp_and_apue3e.Links.{
  Ptr, Absent, last, last-All, Seg-last, Distinct-snoc, put, put_self, put_ne, put-Becomes, seen,
  seen_inv,
}
use unp_and_apue3e.Links.Ends.{Seg-push_front, Seg-push_back}
use unp_and_apue3e.Printer.Queue.{Job, Jobs, add_job, replace_job}
use unp_and_apue3e.Printer.Contents.{
  hooks, IsQueue, new, add_first, add_behind, replace_first, replace_before,
}

-- The number and the request of a job.
abbrev pub held : {R : Type 0} → Option (Job R) → Option (ℕ × R)
held none = none
held (some j) = some (j.jobid, j.req)

abbrev pub SameHeld : {R : Type 0} → (h k : Ptr → Option (Job R)) → Type 0
SameHeld h k = (x : Ptr) → held (k x) ≡ held (h x)

pub put-SameHeld :
    {R : Type 0} (h : Ptr → Option (Job R)) (p : Ptr) (i j : Job R)
    → h p ≡ some i
    → held (some j) ≡ held (some i)
    → SameHeld h (put h p j)
put-SameHeld h p i j e f x = elim (ℕ_discrete p x) [
  | yes same ↦ rw (← same, put_self h p j, e) f
  | no ne ↦ ap held (put_ne h p j x ne)
]

pub trans-SameHeld :
    {R : Type 0} (h k l : Ptr → Option (Job R)) → SameHeld h k → SameHeld k l → SameHeld h l
trans-SameHeld h k l s t x = t x ∙ s x

pub sides : {x : Option Ptr × Option Ptr} {m qr : Option Ptr} → x ≡ (m, qr) → (x.0 ≡ m) × (x.1 ≡ qr)
sides e = (ap (λ x. x.0) e, ap (λ x. x.1) e)

one-IsQueue :
    {R : Type 0} (q : Jobs R) (p : Ptr) (j : Job R)
    → hooks j ≡ (none, none)
    → IsQueue (record q { jobhead = some p; jobtail = some p; job = put q.job p j }) (p ∷ [])
one-IsQueue q p j e = record {
  seg = (none, refl, (put-Becomes hooks q.job p j e).0, (refl, refl));
  distinct = (tt, tt);
}

-- The job with this number and request stands at `p`, and no other has changed either.
abbrev pub Added : {R : Type 0} → Ptr → ℕ → R → (q t : Jobs R) → Type 0
Added p id r q t =
    (held (t.job p) ≡ some (id, r)) × ((x : Ptr) → p ≢ x → held (t.job x) ≡ held (q.job x))

module _ {R : Type 0} (q : Jobs R) (p : Ptr) where
  pub add_job-IsQueue :
      (r : R) (id : ℕ) (xs : List Ptr)
      → IsQueue q xs
      → Absent p xs
      → (t : Jobs R) × (add_job r id p q ≡ some t) × Added p id r q t × IsQueue t (xs ++ p ∷ [])
  add_job-IsQueue r id [] v out =
      let made = new q p r id none in
      (
        _,
        add_first q p r id v.seg.1,
        (ap held (put_self q.job p made), λ x ne. ap held (put_ne q.job p made x ne)),
        one-IsQueue q p made refl,
      )
  add_job-IsQueue r id (x ∷ xs) v out =
      let y = last x xs in
      let (tl, (pr, ln)) = Seg-last (seen hooks q.job) none q.jobhead x xs q.jobtail none v.seg in
      let (jy, aty, hy) = seen_inv hooks (q.job y) ln in
      let made = new q p r id (some y) in
      let ne : p ≢ y = last-All (λ z. p ≢ z) x xs out in
      let atu : put q.job p made y ≡ some jy = put_ne q.job p made y ne ∙ aty in
      let kept = put-SameHeld (put q.job p made) y jy (record jy { next = some p }) atu refl in
      (
        _,
        add_behind q p r id y jy tl atu,
        (
          kept p ∙ ap held (put_self q.job p made),
          λ z out. kept z ∙ ap held (put_ne q.job p made z out),
        ),
        record {
          seg =
              Seg-push_back (seen hooks q.job) (seen hooks (put q.job p made)) _ q.jobhead q.jobtail
                pr p x xs v.seg v.distinct out ln (put-Becomes hooks q.job p made refl)
                (put-Becomes hooks (put q.job p made) y (record jy { next = some p })
                  (ap (λ z. (some p, z)) (sides hy).1));
          distinct = Distinct-snoc (x ∷ xs) p v.distinct out;
        },
      )

  pub replace_job-IsQueue :
      (j : Job R) (xs : List Ptr)
      → q.job p ≡ some j
      → IsQueue q xs
      → Absent p xs
      → (t : Jobs R) × (replace_job p q ≡ some t) × SameHeld q.job t.job × IsQueue t (p ∷ xs)
  replace_job-IsQueue j [] at v out = (
    _,
    replace_first q p j at v.seg.0,
    put-SameHeld q.job p j (record j { prev = none; next = none }) at refl,
    one-IsQueue q p _ refl,
  )
  replace_job-IsQueue j (x ∷ xs) at v out =
      let (n, hd, ln, rest) = v.seg in
      let (jx, atx, hx) = seen_inv hooks (q.job x) ln in
      let made = record j { prev = none; next = some x } in
      let atu : put q.job p made x ≡ some jx = put_ne q.job p made x out.0 ∙ atx in
      (
        _,
        replace_before q p j at x jx hd atu,
        trans-SameHeld q.job (put q.job p made) _ (put-SameHeld q.job p j made at refl)
            (put-SameHeld (put q.job p made) x jx (record jx { prev = some p }) atu refl),
        record {
          seg =
              Seg-push_front (seen hooks q.job) (seen hooks (put q.job p made)) _ q.jobhead
                q.jobtail n p x xs v.seg v.distinct out ln (put-Becomes hooks q.job p made refl)
                (put-Becomes hooks (put q.job p made) x (record jx { prev = some p })
                  (ap (λ z. (z, some p)) (sides hx).0));
          distinct = (out, v.distinct);
        },
      )
