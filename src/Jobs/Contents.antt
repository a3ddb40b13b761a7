-- ===== src/Jobs/Contents.antt =====
-- The list of jobs that a queue stands for, and what the functions of
-- more01/apue.3e/threads/rwlock.c make of it.
use unp_and_apue3e.Prelude.{
  ◌≡◌, ◌≢◌, refl, ◌∙◌, ap, Option, none, some, List, Distinct, arith, ne→==,
}
use unp_and_apue3e.Links.{Links, Seg, Becomes}
use unp_and_apue3e.Jobs.{
  put_job_self, Ptr, Job, Queue, put_job, change, job_insert, job_append, job_remove, remove_job,
}

abbrev pub link : Option Job → Option (Option Ptr × Option Ptr)
link none = none
link (some j) = some (j.j_next, j.j_prev)

abbrev pub links : (Ptr → Option Job) → Links
links h p = link (h p)

-- The queue holds these jobs, in this order.
pub record IsQueue (q : Queue) (xs : List Ptr) : Type 0 where
  pub seg : Seg (links q.job) none q.q_head xs q.q_tail none
  pub distinct : Distinct xs

pub put_job_ne :
    (h : Ptr → Option Job) (p : Ptr) (j : Job) (x : Ptr) → p ≢ x → put_job h p j x ≡ h x
unfolding put_job
put_job_ne h p j x ne = rw (ne→== p x ne)

pub put_job-Becomes :
    (h : Ptr → Option Job) (p : Ptr) (j : Job) (n pr : Option Ptr)
    → j.j_next ≡ n
    → j.j_prev ≡ pr
    → Becomes (links h) p n pr (links (put_job h p j))
put_job-Becomes h p j n pr e f =
    (ap link (put_job_self h p j) ∙ ap some (cc), λ x ne. ap link (put_job_ne h p j x ne))

pub link_inv :
    (o : Option Job) {n pr : Option Ptr}
    → link o ≡ some (n, pr)
    → (j : Job) × (o ≡ some j) × (j.j_next ≡ n) × (j.j_prev ≡ pr)
link_inv none e = absurd (cc)
link_inv (some j) e = (j, refl, cc, cc)

-- What the functions make of a job, by where it stands or goes.
module _ (q : Queue) (p : Ptr) (j : Job) (at : q.job p ≡ some j) where
  pub insert_first :
      q.q_head ≡ none
      → job_insert p q
        ≡ some (record {
          q_head = some p;
          q_tail = some p;
          job = put_job q.job p (record j { j_next = none; j_prev = none });
        })
  unfolding job_insert change
  insert_first hd = ground arith

  pub insert_before :
      (x : Ptr) (jx : Job)
      → q.q_head ≡ some x
      → put_job q.job p (record j { j_next = some x; j_prev = none }) x ≡ some jx
      → job_insert p q
        ≡ some (record q {
          q_head = some p;
          job =
              put_job
                (put_job q.job p (record j { j_next = some x; j_prev = none }))
                x
                (record jx { j_prev = some p });
        })
  unfolding job_insert change
  insert_before x jx hd atx = ground arith

  pub append_first :
      q.q_tail ≡ none
      → job_append p q
        ≡ some (record {
          q_head = some p;
          q_tail = some p;
          job = put_job q.job p (record j { j_next = none; j_prev = none });
        })
  unfolding job_append change
  append_first tl = ground arith

  pub append_behind :
      (y : Ptr) (jy : Job)
      → q.q_tail ≡ some y
      → put_job q.job p (record j { j_next = none; j_prev = some y }) y ≡ some jy
      → job_append p q
        ≡ some (record q {
          q_tail = some p;
          job =
              put_job
                (put_job q.job p (record j { j_next = none; j_prev = some y }))
                y
                (record jy { j_next = some p });
        })
  unfolding job_append change
  append_behind y jy tl aty = ground arith

  pub remove_alone :
      q.q_head ≡ some p
      → q.q_tail ≡ some p
      → j.j_next ≡ none
      → job_remove p q ≡ some (record q { q_head = none; q_tail = none })
  unfolding job_remove remove_job
  remove_alone hd tl n = ground arith

  pub remove_head :
      (w z : Ptr) (jz : Job)
      → q.q_head ≡ some p
      → q.q_tail ≡ some w
      → p ≢ w
      → j.j_next ≡ some z
      → j.j_prev ≡ none
      → q.job z ≡ some jz
      → job_remove p q
        ≡ some (record q { q_head = some z; job = put_job q.job z (record jz { j_prev = none }) })
  unfolding job_remove remove_job change
  remove_head w z jz hd tl ne n pr atz = ground arith

  pub remove_tail :
      (x y : Ptr) (jy : Job)
      → q.q_head ≡ some x
      → q.q_tail ≡ some p
      → p ≢ x
      → j.j_next ≡ none
      → j.j_prev ≡ some y
      → q.job y ≡ some jy
      → job_remove p q
        ≡ some (record q { q_tail = some y; job = put_job q.job y (record jy { j_next = none }) })
  unfolding job_remove remove_job change
  remove_tail x y jy hd tl ne n pr aty = ground arith

  pub remove_between :
      (x w y z : Ptr) (jy jz : Job)
      → q.q_head ≡ some x
      → q.q_tail ≡ some w
      → p ≢ x
      → p ≢ w
      → j.j_next ≡ some z
      → j.j_prev ≡ some y
      → q.job y ≡ some jy
      → put_job q.job y (record jy { j_next = some z }) z ≡ some jz
      → job_remove p q
        ≡ some (record q {
          job =
              put_job
                (put_job q.job y (record jy { j_next = some z }))
                z
                (record jz { j_prev = some y });
        })
  unfolding job_remove remove_job change
  remove_between x w y z jy jz hd tl ne nw n pr aty atz = ground arith
