-- ===== src/Printer/Contents.antt =====
-- The list of pending jobs that the variables of more01/apue.3e/printer/printd.c stand for, and what
-- the functions make of a job, by where it stands or goes.
use unp_and_apue3e.Prelude.{ℕ, ◌≡◌, Option, none, some, List, Distinct, arith}
use unp_and_apue3e.Links.{Ptr, Seg, put, seen}
use unp_and_apue3e.Printer.Queue.{Job, Jobs, change, add_job, replace_job, remove_job}

abbrev pub hooks : {R : Type 0} → Job R → Option Ptr × Option Ptr
hooks j = (j.next, j.prev)

-- The jobs that wait, in this order.
pub record IsQueue {R : Type 0} (q : Jobs R) (xs : List Ptr) : Type 0 where
  pub seg : Seg (seen hooks q.job) none q.jobhead xs q.jobtail none
  pub distinct : Distinct xs

module _ {R : Type 0} (q : Jobs R) (p : Ptr) where
  abbrev pub new : R → ℕ → Option Ptr → Job R
  new r id t = record { next = none; prev = t; jobid = id; req = r }

  pub add_first :
      (r : R) (id : ℕ)
      → q.jobtail ≡ none
      → add_job r id p q
        ≡ some (record q { jobhead = some p; jobtail = some p; job = put q.job p (new r id none) })
  unfolding add_job
  add_first r id tl = ground arith

  pub add_behind :
      (r : R) (id : ℕ) (y : Ptr) (jy : Job R)
      → q.jobtail ≡ some y
      → put q.job p (new r id (some y)) y ≡ some jy
      → add_job r id p q
        ≡ some (record q {
          jobtail = some p;
          job = put (put q.job p (new r id (some y))) y (record jy { next = some p });
        })
  unfolding add_job change
  add_behind r id y jy tl aty = ground arith

  module _ (j : Job R) (at : q.job p ≡ some j) where
    pub replace_first :
        q.jobhead ≡ none
        → replace_job p q
          ≡ some (record q {
            jobhead = some p;
            jobtail = some p;
            job = put q.job p (record j { prev = none; next = none });
          })
    unfolding replace_job change
    replace_first hd = ground arith

    pub replace_before :
        (x : Ptr) (jx : Job R)
        → q.jobhead ≡ some x
        → put q.job p (record j { prev = none; next = some x }) x ≡ some jx
        → replace_job p q
          ≡ some (record q {
            jobhead = some p;
            job =
                put
                  (put q.job p (record j { prev = none; next = some x }))
                  x
                  (record jx { prev = some p });
          })
    unfolding replace_job change
    replace_before x jx hd atx = ground arith

    pub remove_alone :
        j.next ≡ none
        → j.prev ≡ none
        → remove_job p q ≡ some (record q { jobhead = none; jobtail = none })
    unfolding remove_job
    remove_alone n pr = ground arith

    pub remove_head :
        (z : Ptr) (jz : Job R)
        → j.next ≡ some z
        → j.prev ≡ none
        → q.job z ≡ some jz
        → put q.job z (record jz { prev = none }) p ≡ some j
        → remove_job p q
          ≡ some (record q { jobhead = some z; job = put q.job z (record jz { prev = none }) })
    unfolding remove_job change
    remove_head z jz n pr atz again = ground arith

    pub remove_tail :
        (y : Ptr) (jy : Job R)
        → j.next ≡ none
        → j.prev ≡ some y
        → q.job y ≡ some jy
        → remove_job p q
          ≡ some (record q { jobtail = some y; job = put q.job y (record jy { next = none }) })
    unfolding remove_job change
    remove_tail y jy n pr aty = ground arith

    pub remove_between :
        (y z : Ptr) (jy jz : Job R)
        → j.next ≡ some z
        → j.prev ≡ some y
        → q.job z ≡ some jz
        → put q.job z (record jz { prev = some y }) p ≡ some j
        → put q.job z (record jz { prev = some y }) y ≡ some jy
        → remove_job p q
          ≡ some (record q {
            job = put (put q.job z (record jz { prev = some y })) y (record jy { next = some z });
          })
    unfolding remove_job change
    remove_between y z jy jz n pr atz again aty = ground arith
