-- ===== src/Jobs/Order.antt =====
-- The functions of the job queue on the list of jobs that it stands for.
use unp_and_apue3e.Prelude.{
  ℕ, ◌≤◌, length, zero, suc, ◌≡◌, ◌≢◌, refl, sym, ◌∙◌, Option, none, some, List, [], ◌∷◌, ◌++◌,
  append-nil, arith, ◌==◌, if◌then◌else◌,
}
use unp_and_apue3e.Links.{
  Distinct-snoc, Seg, Absent, last, last-All, Seg-last, Seg-split, Distinct-split,
}
use unp_and_apue3e.Links.Ends.{
  Distinct-apart, Seg-push_front, Seg-push_back, Seg-drop_first, Seg-drop_last, Seg-drop_middle,
}
use unp_and_apue3e.Jobs.{
  Ptr, Job, Queue, put_job, job_insert, job_append, job_remove, job_find, find_job,
}
use unp_and_apue3e.Jobs.Contents.{
  links, link_inv, IsQueue, put_job_ne, put_job-Becomes, insert_first, insert_before, append_first,
  append_behind, remove_alone, remove_head, remove_tail, remove_between,
}

abbrev with_links : Job → Option Ptr → Option Ptr → Job
with_links j n pr = record j { j_next = n; j_prev = pr }

one-IsQueue :
    (h : Ptr → Option Job) (p : Ptr) (j : Job)
    → IsQueue
        (record { q_head = some p; q_tail = some p; job = put_job h p (with_links j none none) })
        (p ∷ [])
one-IsQueue h p j = record {
  seg = (
    none,
    refl,
    (put_job-Becomes h p (with_links j none none) none none refl refl).0,
    (refl, refl),
  );
  distinct = (tt, tt);
}

module _ (q : Queue) (p : Ptr) (j : Job) (at : q.job p ≡ some j) where
  -- A job that is not in the list comes in front.
  pub job_insert-IsQueue :
      (xs : List Ptr)
      → IsQueue q xs
      → Absent p xs
      → (t : Queue) × (job_insert p q ≡ some t) × IsQueue t (p ∷ xs)
  job_insert-IsQueue [] v out = (_, insert_first q p j at v.seg.0, one-IsQueue q.job p j)
  job_insert-IsQueue (x ∷ xs) v out =
      let (n, hd, ln, rest) = v.seg in
      let (jx, atx, nx, px) = link_inv (q.job x) ln in
      let made = with_links j (some x) none in
      let atu : put_job q.job p made x ≡ some jx = put_job_ne q.job p made x out.0 ∙ atx in
      (
        _,
        insert_before q p j at x jx hd atu,
        record {
          seg =
              Seg-push_front (links q.job) (links (put_job q.job p made)) _ q.q_head q.q_tail n p x
                xs v.seg v.distinct out ln (put_job-Becomes q.job p made (some x) none refl refl)
                (put_job-Becomes (put_job q.job p made) x (record jx { j_prev = some p }) n (some p)
                  nx refl);
          distinct = (out, v.distinct);
        },
      )

  -- A job that is not in the list comes behind.
  pub job_append-IsQueue :
      (xs : List Ptr)
      → IsQueue q xs
      → Absent p xs
      → (t : Queue) × (job_append p q ≡ some t) × IsQueue t (xs ++ p ∷ [])
  job_append-IsQueue [] v out = (_, append_first q p j at v.seg.1, one-IsQueue q.job p j)
  job_append-IsQueue (x ∷ xs) v out =
      let y = last x xs in
      let (tl, (pr, ln)) = Seg-last (links q.job) none q.q_head x xs q.q_tail none v.seg in
      let (jy, aty, ny, py) = link_inv (q.job y) ln in
      let made = with_links j none (some y) in
      let atu : put_job q.job p made y ≡ some jy =
        put_job_ne q.job p made y (last-All (λ z. p ≢ z) x xs out) ∙ aty in
      (
        _,
        append_behind q p j at y jy tl atu,
        record {
          seg =
              Seg-push_back (links q.job) (links (put_job q.job p made)) _ q.q_head q.q_tail pr p x
                xs v.seg v.distinct out ln (put_job-Becomes q.job p made none (some y) refl refl)
                (put_job-Becomes (put_job q.job p made) y (record jy { j_next = some p }) (some p)
                  pr refl py);
          distinct = Distinct-snoc (x ∷ xs) p v.distinct out;
        },
      )

ne_sym : {x y : Ptr} → x ≢ y → y ≢ x
ne_sym n e = n (sym e)

to_next :
    {o : Option (Option Ptr × Option Ptr)} {r pr : Option Ptr} {p : Ptr}
    → o ≡ some (r, pr)
    → r ≡ some p
    → o ≡ some (some p, pr)
to_next e f = cc

module _ (q : Queue) (p : Ptr) where
  first_removed :
      (zs : List Ptr) → IsQueue q (p ∷ zs) → (t : Queue) × (job_remove p q ≡ some t) × IsQueue t zs
  first_removed [] v =
      let (n, hd, ln, (nq, tl)) = v.seg in
      let (j, at, nj, pj) = link_inv (q.job p) ln in
      (_, remove_alone q p j at hd tl (nj ∙ nq), record { seg = (refl, refl); distinct = tt })
  first_removed (z ∷ zs) v =
      let (n, hd, ln, (m, nz, lz, rest)) = v.seg in
      let (j, at, nj, pj) = link_inv (q.job p) ln in
      let (jz, atz, mz, pz) = link_inv (q.job z) lz in
      let (tl, l) = Seg-last (links q.job) none q.q_head p (z ∷ zs) q.q_tail none v.seg in
      (
        _,
        remove_head q p j at (last z zs) z jz hd tl (last-All (λ x. p ≢ x) z zs v.distinct.0)
            (nj ∙ nz) pj atz,
        record {
          seg =
              Seg-drop_first (links q.job) _ q.q_head q.q_tail m p z zs v.seg v.distinct.1 lz
                (put_job-Becomes q.job z (record jz { j_prev = none }) m none mz refl);
          distinct = v.distinct.1;
        },
      )

  last_removed :
      (y : Ptr) (ys : List Ptr)
      → IsQueue q ((y ∷ ys) ++ p ∷ [])
      → (t : Queue) × (job_remove p q ≡ some t) × IsQueue t (y ∷ ys)
  last_removed y ys v =
      let (b, r, front, (n, rp, lp, (nn, tl))) =
        Seg-split (links q.job) none q.q_head (y ∷ ys) (p ∷ []) q.q_tail none v.seg in
      let (bl, (pr, ll)) = Seg-last (links q.job) none q.q_head y ys b r front in
      let (j, at, nj, pj) = link_inv (q.job p) lp in
      let (jy, aty, ny, py) = link_inv (q.job (last y ys)) ll in
      let (dy, oy, op, dz, dyz) = Distinct-split (y ∷ ys) p [] v.distinct in
      (
        _,
        remove_tail q p j at y (last y ys) jy v.seg.1 tl oy.0 (nj ∙ nn) (pj ∙ bl) aty,
        record {
          seg =
              Seg-drop_last (links q.job) _ q.q_head q.q_tail pr p y ys v.seg dy (to_next ll rp)
                (put_job-Becomes q.job (last y ys) (record jy { j_next = none }) none pr refl py);
          distinct = dy;
        },
      )

  middle_removed :
      (y : Ptr) (ys : List Ptr) (z : Ptr) (zs : List Ptr)
      → IsQueue q ((y ∷ ys) ++ p ∷ z ∷ zs)
      → (t : Queue) × (job_remove p q ≡ some t) × IsQueue t ((y ∷ ys) ++ z ∷ zs)
  middle_removed y ys z zs v =
      let (b, r, front, (n, rp, lp, (m, nz, lz, rest))) =
        Seg-split (links q.job) none q.q_head (y ∷ ys) (p ∷ z ∷ zs) q.q_tail none v.seg in
      let (bl, (pr, ll)) = Seg-last (links q.job) none q.q_head y ys b r front in
      let (tl, l) =
        Seg-last (links q.job) b r p (z ∷ zs) q.q_tail none (n, rp, lp, (m, nz, lz, rest)) in
      let (j, at, nj, pj) = link_inv (q.job p) lp in
      let (jy, aty, ny, py) = link_inv (q.job (last y ys)) ll in
      let (jz, atz, mz, pz) = link_inv (q.job z) lz in
      let (dy, oy, op, dz, dyz) = Distinct-split (y ∷ ys) p (z ∷ zs) v.distinct in
      let apart = last-All (λ x. Absent x (z ∷ zs)) y ys (Distinct-apart (y ∷ ys) (z ∷ zs) dyz) in
      let made = record jy { j_next = some z } in
      let atz' : put_job q.job (last y ys) made z ≡ some jz =
        put_job_ne q.job (last y ys) made z apart.0 ∙ atz in
      (
        _,
        remove_between q p j at y (last z zs) (last y ys) z jy jz v.seg.1 tl oy.0
            (last-All (λ x. p ≢ x) z zs op) (nj ∙ nz) (pj ∙ bl) aty atz',
        record {
          seg =
              Seg-drop_middle (links q.job) (links (put_job q.job (last y ys) made)) _ q.q_head
                q.q_tail m pr p y ys z zs v.seg v.distinct (to_next ll rp) lz
                (put_job-Becomes q.job (last y ys) made (some z) pr refl py)
                (put_job-Becomes (put_job q.job (last y ys) made) z
                  (record jz { j_prev = some (last y ys) }) m (some (last y ys)) mz refl);
          distinct = dyz;
        },
      )

  -- A job goes from where it stands.
  pub job_remove-IsQueue :
      (xs ys : List Ptr)
      → IsQueue q (xs ++ p ∷ ys)
      → (t : Queue) × (job_remove p q ≡ some t) × IsQueue t (xs ++ ys)
  job_remove-IsQueue [] ys v = first_removed ys v
  job_remove-IsQueue (x ∷ xs) [] v = rw append-nil (last_removed x xs v)
  job_remove-IsQueue (x ∷ xs) (y ∷ ys) v = middle_removed x xs y ys v

-- The first job of the list with the id.
unfoldable pub first_with : (Ptr → Option Job) → ℕ → List Ptr → Option Ptr
first_with h id [] = none
first_with h id (x ∷ xs) = elim (h x) [
  | none ↦ none
  | some j ↦ if j.j_id == id then some x else first_with h id xs
]

find_job-Seg :
    (q : Queue) (id k : ℕ) (a p : Option Ptr) (xs : List Ptr) (b : Option Ptr)
    → length xs ≤ k
    → Seg (links q.job) a p xs b none
    → find_job k p id q ≡ some (first_with q.job id xs)
unfolding find_job first_with
find_job-Seg q id k a p [] b h s = rw s.0
find_job-Seg q id zero a p (x ∷ xs) b h s = absurd (omega arith)
find_job-Seg q id (suc k) a p (x ∷ xs) b h (n, e, l, s) =
    let (j, at, nj, pj) = link_inv (q.job x) l in
    ground (arith, find_job-Seg q id k (some x) n xs b (omega arith) s)

-- On a queue that holds a list of jobs, with fuel for as many rounds as there are jobs, job_find
-- ends without a fault and returns the first job of the list with the id, or a null pointer where
-- no job has it.
job_find-IsQueue :
    (q : Queue) (xs : List Ptr) (id k : ℕ)
    → IsQueue q xs
    → length xs ≤ k
    → job_find k id q ≡ some (first_with q.job id xs)
unfolding job_find
job_find-IsQueue q xs id k v h = find_job-Seg q id k none q.q_head xs q.q_tail h v.seg
