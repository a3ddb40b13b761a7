-- ===== src/Printer/Stored.antt =====
-- What client_thread of more01/apue.3e/printer/printd.c leaves behind on each of its ways.
use unp_and_apue3e.Prelude.{
  ℕ, ◌≡◌, ◌≢◌, refl, ap, ◌∙◌, Bool, true, false, ◌&&◌, Option, none, some, List, [], ◌∷◌, ◌++◌,
  if◌then◌else◌, Bool-cases, Option-cases, inl, inr,
}
use unp_and_apue3e.Links.{Ptr, Absent}
use unp_and_apue3e.Text.{Bytes}
use unp_and_apue3e.Printer.Queue.{Jobs, get_newjobno}
use unp_and_apue3e.Printer.Contents.{IsQueue}
use unp_and_apue3e.Printer.Order.{SameHeld, Added, add_job-IsQueue}
use unp_and_apue3e.Printer.Client.{
  whole, Server, Requests, Wrote, all_taken, Answers, Reply, refused, accepted, put_file, keep_data,
  unlink_data, keep_req, unlink_req, written, client_thread,
}
use unp_and_apue3e.Printer.Copied.{
  SameFiles, put_file_self, put_file_ne, made_unlinked, all_written, received, marked, short,
  copied_first,
}

-- Whether each call that creates or writes a file does what it is asked for.
abbrev pub all_well : {R : Type 0} → Requests R → Answers R → Bool
all_well c e =
    e.data_created
    && (all_written e.chunks && (e.req_created && all_taken e.req_wrote c.sizeof_printreq))

-- The client was refused, and no file and no job is there that was not there before.
abbrev pub Refused : {R : Type 0} → Server R → List Ptr → Reply → Server R → Type 0
Refused s xs reply t =
    (reply ≡ refused)
    × SameFiles s.data_files t.data_files
    × SameFiles s.req_files t.req_files
    × SameHeld s.jobs.job t.jobs.job
    × IsQueue t.jobs xs

-- The same files under all numbers but this one.
abbrev pub SameOthers : {A : Type 0} → ℕ → (h k : ℕ → Option A) → Type 0
SameOthers n h k = (m : ℕ) → n ≢ m → k m ≡ h m

-- The job was accepted: the data file has what the client sent and the control file the whole
-- request, and the job with this request is the last that waits; no other file and no other job has
-- changed.
abbrev pub Accepted :
    {R : Type 0} → ℕ → Ptr → List Ptr → Server R → R → Bytes → Reply → Server R → Type 0
Accepted jobid p xs s req bytes reply t =
    (reply ≡ accepted jobid)
    × (t.data_files jobid ≡ some bytes)
    × (t.req_files jobid ≡ some (whole req))
    × Added p jobid req s.jobs t.jobs
    × SameOthers jobid s.data_files t.data_files
    × SameOthers jobid s.req_files t.req_files
    × IsQueue t.jobs (xs ++ p ∷ [])

-- What becomes of a request: it is accepted if it came and all went well, else refused.
abbrev pub Outcome :
    {R : Type 0} → Requests R → Answers R → List Ptr → Server R → Reply → Server R → Type 0
Outcome c e xs s reply t = elim e.request [
  | none ↦ Refused s xs reply t
  | some req ↦
      if all_well c e
      then Accepted s.jobs.nextjob e.jp xs s (marked c e.stale e.chunks (c.to_host req))
          (received e.chunks) reply t
      else Refused s xs reply t
]

abbrev pub Ends :
    {R : Type 0} → Requests R → Answers R → List Ptr → Server R → Option (Reply × Server R) → Type 0
Ends c e xs s o =
    (reply : Reply) × (t : Server _) × (o ≡ some (reply, t)) × Outcome c e xs s reply t

renumber-IsQueue :
    {R : Type 0} (q : Jobs R) (n : ℕ) (xs : List Ptr)
    → IsQueue q xs
    → IsQueue (record q { nextjob = n }) xs
renumber-IsQueue q n xs v = record { seg = v.seg; distinct = v.distinct }

module _ {R : Type 0} (c : Requests R) (e : Answers R) (s : Server R) (xs : List Ptr) where
  module _ (v : IsQueue s.jobs xs) (out : Absent e.jp xs)
      (no_data : s.data_files s.jobs.nextjob ≡ none) (no_req : s.req_files s.jobs.nextjob ≡ none)
      (req : R) (came : e.request ≡ some req) (made : e.data_created ≡ true) where
    abbrev numbered_jobs : Jobs R
    numbered_jobs = (get_newjobno s.jobs).1

    same_queue : IsQueue numbered_jobs xs
    unfolding get_newjobno
    same_queue = renumber-IsQueue s.jobs numbered_jobs.nextjob xs v

    -- A write of the data that does not take all.
    short_data : all_written e.chunks ≡ false → Ends c e xs s (client_thread c e s)
    unfolding client_thread get_newjobno
    short_data part =
        let (file, r) = short c e.stale true (c.to_host req) [] e.chunks part in
        (
          refused,
          unlink_data s.jobs.nextjob
              (keep_data s.jobs.nextjob file (record s { jobs = numbered_jobs })),
          rw (came, made, r) refl,
          rw (came, made, part)
              (
                refl,
                made_unlinked s.data_files s.jobs.nextjob file no_data,
                (λ n. refl),
                (λ x. refl),
                same_queue,
              ),
        )

    -- The data are stored, and the control file cannot be made.
    no_control :
        all_written e.chunks ≡ true → e.req_created ≡ false → Ends c e xs s (client_thread c e s)
    unfolding client_thread get_newjobno
    no_control all failed = (
      refused,
      unlink_data s.jobs.nextjob
          (keep_data s.jobs.nextjob (received e.chunks) (record s { jobs = numbered_jobs })),
      rw (came, made, copied_first c e.stale (c.to_host req) e.chunks all, failed) refl,
      rw (came, made, all, failed)
          (
            refl,
            made_unlinked s.data_files s.jobs.nextjob (received e.chunks) no_data,
            (λ n. refl),
            (λ x. refl),
            same_queue,
          ),
    )

    -- A write of the request that does not take all.
    short_control :
        all_written e.chunks ≡ true
        → e.req_created ≡ true
        → all_taken e.req_wrote c.sizeof_printreq ≡ false
        → Ends c e xs s (client_thread c e s)
    unfolding client_thread get_newjobno
    short_control all there part =
        let last = marked c e.stale e.chunks (c.to_host req) in
        (
          refused,
          unlink_data s.jobs.nextjob (
              unlink_req s.jobs.nextjob (
                keep_req s.jobs.nextjob (written c e.req_wrote last) (
                  keep_data s.jobs.nextjob (received e.chunks)
                    (record s { jobs = numbered_jobs })))),
          rw (came, made, copied_first c e.stale (c.to_host req) e.chunks all, there, part) refl,
          rw (came, made, all, there, part)
              (
                refl,
                made_unlinked s.data_files s.jobs.nextjob (received e.chunks) no_data,
                made_unlinked s.req_files s.jobs.nextjob (written c e.req_wrote last) no_req,
                (λ x. refl),
                same_queue,
              ),
        )

    all_stored :
        all_written e.chunks ≡ true
        → e.req_created ≡ true
        → all_taken e.req_wrote c.sizeof_printreq ≡ true
        → Ends c e xs s (client_thread c e s)
    unfolding client_thread get_newjobno same_queue
    all_stored all there full =
        let last = marked c e.stale e.chunks (c.to_host req) in
        let (t, r, (new, same), w) =
          add_job-IsQueue numbered_jobs e.jp last s.jobs.nextjob xs same_queue out in
        let kept : written c e.req_wrote last ≡ whole last = written-whole e.req_wrote last full in
        (
          accepted s.jobs.nextjob,
          record {
            jobs = t;
            data_files = put_file s.data_files s.jobs.nextjob (some (received e.chunks));
            req_files = put_file s.req_files s.jobs.nextjob (some (written c e.req_wrote last));
          },
          rw (came, made, copied_first c e.stale (c.to_host req) e.chunks all, there, full, r) refl,
          rw (came, made, all, there, full)
              (
                refl,
                put_file_self s.data_files s.jobs.nextjob (some (received e.chunks)),
                put_file_self s.req_files s.jobs.nextjob (some (written c e.req_wrote last))
                    ∙ ap some kept,
                (new, same),
                put_file_ne s.data_files s.jobs.nextjob (some (received e.chunks)),
                put_file_ne s.req_files s.jobs.nextjob (some (written c e.req_wrote last)),
                w,
              ),
        )
      where
        written-whole :
            (wrote : Wrote) (r : R)
            → all_taken wrote c.sizeof_printreq ≡ true
            → written c wrote r ≡ whole r
        written-whole none r h = absurd (cc)
        written-whole (some n) r h = rw h refl

  pub client_thread-Ends :
      IsQueue s.jobs xs
      → Absent e.jp xs
      → s.data_files s.jobs.nextjob ≡ none
      → s.req_files s.jobs.nextjob ≡ none
      → Ends c e xs s (client_thread c e s)
  unfolding client_thread get_newjobno
  client_thread-Ends v out no_data no_req = elim (Option-cases e.request) [
    | inl silent ↦
        (refused, s, rw silent refl, rw silent (refl, (λ n. refl), (λ n. refl), (λ x. refl), v))
    | inr (req, came) ↦ elim (Bool-cases e.data_created) [
      | inr failed ↦ (
        refused,
        record s { jobs = (get_newjobno s.jobs).1 },
        rw (came, failed) refl,
        rw (came, failed)
            (
              refl,
              (λ n. refl),
              (λ n. refl),
              (λ x. refl),
              renumber-IsQueue s.jobs (get_newjobno s.jobs).1.nextjob xs v,
            ),
      )
      | inl made ↦ elim (Bool-cases (all_written e.chunks)) [
        | inr part ↦ short_data v out no_data no_req req came made part
        | inl all ↦ elim (Bool-cases e.req_created) [
          | inr failed ↦ no_control v out no_data no_req req came made all failed
          | inl there ↦ elim (Bool-cases (all_taken e.req_wrote c.sizeof_printreq)) [
            | inr part ↦ short_control v out no_data no_req req came made all there part
            | inl full ↦ all_stored v out no_data no_req req came made all there full
          ]
        ]
      ]
    ]
  ]
