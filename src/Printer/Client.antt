-- ===== src/Printer/Client.antt =====
-- client_thread of more01/apue.3e/printer/printd.c: a client's job is stored in the spool directory
-- and put into the list of pending jobs.
use unp_and_apue3e.Prelude.{
  ℕ, Bool, true, false, not, ◌&&◌, Option, none, some, List, [], ◌∷◌, ◌++◌, length, take, drop,
  ◌==◌, if◌then◌else◌,
}
use unp_and_apue3e.Links.{Ptr}
use unp_and_apue3e.Text.{Bytes, str_eq}
use unp_and_apue3e.Text.Literal.{text}
use unp_and_apue3e.Printer.Queue.{Jobs, get_newjobno, add_job}

-- What is in a control file: a whole request, or only so many bytes of one.
pub data ReqFile (R : Type 0) : Type 0 where
  cut : ℕ → ReqFile R
  whole : R → ReqFile R

-- The list of pending jobs, and the files under DATADIR and under REQDIR by their job number.
pub record Server (R : Type 0) : Type 0 where
  pub jobs : Jobs R
  pub data_files : ℕ → Option Bytes
  pub req_files : ℕ → Option (ReqFile R)

-- What print.h, which is not in the repository, makes of a request: its bytes in memory, the fields
-- `size` and `flags` in the order of the host, and PR_TEXT set in `flags`.
pub record Requests (R : Type 0) : Type 0 where
  pub sizeof_printreq : ℕ
  pub to_host : R → R
  pub set_text : R → R

-- write(2): the number of bytes taken, `none` for -1.
abbrev pub Wrote : Type 0
Wrote = Option ℕ

-- nw == n
abbrev pub all_taken : Wrote → ℕ → Bool
all_taken none n = false
all_taken (some nw) n = nw == n

abbrev pub taken : Wrote → ℕ
taken none = 0
taken (some nw) = nw

-- What the calls of one client thread answer: the whole request, if it came; whether the data file
-- could be created; what each tread(2) brought until it brought nothing or failed, and what write(2)
-- took of it; whether the control file could be created, and what write(2) took of the request.
-- `stale` is what `buf` held before, `jp` the address of the job.
pub record Answers (R : Type 0) : Type 0 where
  pub request : Option R
  pub data_created : Bool
  pub chunks : List (Bytes × Wrote)
  pub req_created : Bool
  pub req_wrote : Wrote
  pub stale : Bytes
  pub jp : Ptr

-- The response to the client.
pub data Reply : Type 0 where
  refused : Reply
  accepted : (jobid : ℕ) → Reply

unfoldable pub put_file : {A : Type 0} → (ℕ → Option A) → ℕ → Option A → ℕ → Option A
put_file h n a m = if n == m then a else h m

-- strncmp(buf, "%!PS", 4) == 0
abbrev pub postscript : Bytes → Bytes → Bool
postscript stale chunk = str_eq (take 4 (chunk ++ drop (length chunk) stale)) (text "%!PS")

-- creat(2), with what is then written to the file, and unlink(2), of the data file of a number.
abbrev pub keep_data : {R : Type 0} → ℕ → Bytes → Server R → Server R
keep_data jobid bytes s = record s { data_files = put_file s.data_files jobid (some bytes) }

abbrev pub unlink_data : {R : Type 0} → ℕ → Server R → Server R
unlink_data jobid s = record s { data_files = put_file s.data_files jobid none }

-- The same of its control file.
abbrev pub keep_req : {R : Type 0} → ℕ → ReqFile R → Server R → Server R
keep_req jobid r s = record s { req_files = put_file s.req_files jobid (some r) }

abbrev pub unlink_req : {R : Type 0} → ℕ → Server R → Server R
unlink_req jobid s = record s { req_files = put_file s.req_files jobid none }

-- The loop that stores the data, from what the data file has so far: the request, or `none` where
-- a write did not take all, and what the data file has then.
unfoldable pub copy :
    {R : Type 0} → Requests R → Bytes → Bool → R → Bytes → List (Bytes × Wrote) → Option R × Bytes
copy c stale first req file [] = (some req, file)
copy c stale first req file (([], w) ∷ cs) = (some req, file)
copy c stale first req file ((b ∷ bs, w) ∷ cs) =
    let flagged = if first && not (postscript stale (b ∷ bs)) then c.set_text req else req in
    let grown = file ++ take (taken w) (b ∷ bs) in
    let rest = copy c stale false flagged grown cs in
    if all_taken w (length (b ∷ bs)) then rest else (none, grown)

-- The end of client_thread: the response is sent, and the job is added.
abbrev pub queued : {R : Type 0} → ℕ → Server R → Option (Jobs R) → Option (Reply × Server R)
queued jobid s none = none
queued jobid s (some q) = some (accepted jobid, record s { jobs = q })

-- What is in the control file behind the write.
abbrev pub written : {R : Type 0} → Requests R → Wrote → R → ReqFile R
written c w req = if taken w == c.sizeof_printreq then whole req else cut (taken w)

-- The control file: it is created and written, and where that fails, unlinked.
abbrev pub control :
    {R : Type 0} → Requests R → Answers R → ℕ → R → Server R → Option (Reply × Server R)
control c e jobid req s =
    let done = keep_req jobid (written c e.req_wrote req) s in
    if e.req_created
    then (if all_taken e.req_wrote c.sizeof_printreq
        then queued jobid done (add_job req jobid e.jp done.jobs)
        else some (refused, unlink_data jobid (unlink_req jobid done)))
    else some (refused, unlink_data jobid s)

-- The data file, which has what the loop has left in it.
abbrev pub stored :
    {R : Type 0}
    → Requests R
    → Answers R
    → ℕ
    → Option R × Bytes
    → Server R
    → Option (Reply × Server R)
stored c e jobid (none, file) s = some (refused, unlink_data jobid (keep_data jobid file s))
stored c e jobid (some req, file) s = control c e jobid req (keep_data jobid file s)

abbrev pub numbered :
    {R : Type 0} → Requests R → Answers R → R → ℕ × Jobs R → Server R → Option (Reply × Server R)
numbered c e req (jobid, q) s =
    if e.data_created
    then stored c e jobid (copy c e.stale true req [] e.chunks) (record s { jobs = q })
    else some (refused, record s { jobs = q })

-- client_thread, without its entry in the list of worker threads.
unfoldable pub client_thread :
    {R : Type 0} → Requests R → Answers R → Server R → Option (Reply × Server R)
client_thread c e s = elim e.request [
  | none ↦ some (refused, s)
  | some req ↦ numbered c e (c.to_host req) (get_newjobno s.jobs) s
]
