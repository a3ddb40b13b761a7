-- ===== src/Printer/Removal.antt =====
-- remove_job of more01/apue.3e/printer/printd.c on the list of pending jobs.
use unp_and_apue3e.Prelude.{
  ◌≡◌, ◌≢◌, refl, sym, ◌∙◌, ap, none, some, List, [], ◌∷◌, ◌++◌, append-nil,
}
use unp_and_apue3e.Links.{
  Ptr, Absent, last, last-All, Seg-last, Seg-split, Distinct-split, put, put_ne, put-Becomes, seen,
  seen_inv,
}
use unp_and_apue3e.Links.Ends.{Distinct-apart, Seg-drop_first, Seg-drop_last, Seg-drop_middle_back}
use unp_and_apue3e.Printer.Queue.{Jobs, remove_job}
use unp_and_apue3e.Printer.Contents.{
  hooks, IsQueue, remove_alone, remove_head, remove_tail, remove_between,
}
use unp_and_apue3e.Printer.Order.{SameHeld, put-SameHeld, trans-SameHeld, sides}

-- What is left where remove_job succeeds.
abbrev Leaves : {R : Type 0} → Jobs R → Ptr → List Ptr → Type 0
Leaves q p xs = (t : Jobs _) × (remove_job p q ≡ some t) × SameHeld q.job t.job × IsQueue t xs

module _ {R : Type 0} (q : Jobs R) (p : Ptr) where
  first_removed : (zs : List Ptr) → IsQueue q (p ∷ zs) → Leaves q p zs
  first_removed [] v =
      let (n, hd, ln, (nq, tl)) = v.seg in
      let (j, at, hj) = seen_inv hooks (q.job p) ln in
      (
        _,
        remove_alone q p j at ((sides hj).0 ∙ nq) (sides hj).1,
        (λ x. refl),
        record { seg = (refl, refl); distinct = tt },
      )
  first_removed (z ∷ zs) v =
      let (n, hd, ln, (m, nz, lz, rest)) = v.seg in
      let (j, at, hj) = seen_inv hooks (q.job p) ln in
      let (jz, atz, hz) = seen_inv hooks (q.job z) lz in
      let made = record jz { prev = none } in
      let again = put_ne q.job z made p (λ e. v.distinct.0.0 (sym e)) ∙ at in
      (
        _,
        remove_head q p j at z jz ((sides hj).0 ∙ nz) (sides hj).1 atz again,
        put-SameHeld q.job z jz made atz refl,
        record {
          seg =
              Seg-drop_first (seen hooks q.job) _ q.jobhead q.jobtail m p z zs v.seg v.distinct.1 lz
                (put-Becomes hooks q.job z made (ap (λ x. (x, none)) (sides hz).0));
          distinct = v.distinct.1;
        },
      )

  last_removed : (y : Ptr) (ys : List Ptr) → IsQueue q ((y ∷ ys) ++ p ∷ []) → Leaves q p (y ∷ ys)
  last_removed y ys v =
      let (b, r, front, (n, rp, lp, (nn, tl))) =
        Seg-split (seen hooks q.job) none q.jobhead (y ∷ ys) (p ∷ []) q.jobtail none v.seg in
      let (bl, (pr, ll)) = Seg-last (seen hooks q.job) none q.jobhead y ys b r front in
      let w = last y ys in
      let (j, at, hj) = seen_inv hooks (q.job p) lp in
      let (jw, atw, hw) = seen_inv hooks (q.job w) ll in
      let (dy, oy, op, dz, dyz) = Distinct-split (y ∷ ys) p [] v.distinct in
      let made = record jw { next = none } in
      (
        _,
        remove_tail q p j at w jw ((sides hj).0 ∙ nn) ((sides hj).1 ∙ bl) atw,
        put-SameHeld q.job w jw made atw refl,
        record {
          seg =
              Seg-drop_last (seen hooks q.job) _ q.jobhead q.jobtail pr p y ys v.seg dy
                (ll ∙ ap (λ x. some (x, pr)) rp)
                (put-Becomes hooks q.job w made (ap (λ x. (none, x)) (sides hw).1));
          distinct = dy;
        },
      )

  middle_removed :
      (y : Ptr) (ys : List Ptr) (z : Ptr) (zs : List Ptr)
      → IsQueue q ((y ∷ ys) ++ p ∷ z ∷ zs)
      → Leaves q p ((y ∷ ys) ++ z ∷ zs)
  middle_removed y ys z zs v =
      let (b, r, front, (n, rp, lp, (m, nz, lz, rest))) =
        Seg-split (seen hooks q.job) none q.jobhead (y ∷ ys) (p ∷ z ∷ zs) q.jobtail none v.seg in
      let (bl, (pr, ll)) = Seg-last (seen hooks q.job) none q.jobhead y ys b r front in
      let w = last y ys in
      let (j, at, hj) = seen_inv hooks (q.job p) lp in
      let (jw, atw, hw) = seen_inv hooks (q.job w) ll in
      let (jz, atz, hz) = seen_inv hooks (q.job z) lz in
      let (dy, oy, op, dz, dyz) = Distinct-split (y ∷ ys) p (z ∷ zs) v.distinct in
      let apart : w ≢ z =
        (last-All (λ x. Absent x (z ∷ zs)) y ys (Distinct-apart (y ∷ ys) (z ∷ zs) dyz)).0 in
      let made = record jz { prev = some w } in
      let hung = record jw { next = some z } in
      let again = put_ne q.job z made p (λ e. op.0 (sym e)) ∙ at in
      let there : put q.job z made w ≡ some jw = put_ne q.job z made w (λ e. apart (sym e)) ∙ atw in
      (
        _,
        remove_between q p j at w z jw jz ((sides hj).0 ∙ nz) ((sides hj).1 ∙ bl) atz again there,
        trans-SameHeld q.job (put q.job z made) _ (put-SameHeld q.job z jz made atz refl)
            (put-SameHeld (put q.job z made) w jw hung there refl),
        record {
          seg =
              Seg-drop_middle_back (seen hooks q.job) (seen hooks (put q.job z made)) _ q.jobhead
                q.jobtail m pr p y ys z zs v.seg v.distinct (ll ∙ ap (λ x. some (x, pr)) rp) lz
                apart (put-Becomes hooks q.job z made (ap (λ x. (x, some w)) (sides hz).0))
                (put-Becomes hooks (put q.job z made) w hung (ap (λ x. (some z, x)) (sides hw).1));
          distinct = dyz;
        },
      )

  pub remove_job-IsQueue : (xs ys : List Ptr) → IsQueue q (xs ++ p ∷ ys) → Leaves q p (xs ++ ys)
  remove_job-IsQueue [] ys v = first_removed ys v
  remove_job-IsQueue (x ∷ xs) [] v = rw append-nil (last_removed x xs v)
  remove_job-IsQueue (x ∷ xs) (y ∷ ys) v = middle_removed x xs y ys v
