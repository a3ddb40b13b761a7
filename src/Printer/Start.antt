-- ===== src/Printer/Start.antt =====
-- build_qonstart of more01/apue.3e/printer/printd.c: the jobs that wait in the spool directory when
-- the daemon starts.
use unp_and_apue3e.Prelude.{
  ℕ, ◌+◌, ◌-◌, ◌%◌, ◌^◌, Bool, not, ◌||◌, Option, none, some, List, [], ◌∷◌, ℤ, pos, negsuc,
  if◌then◌else◌,
}
use unp_and_apue3e.Links.{Ptr}
use unp_and_apue3e.Text.{Bytes, str_eq, atol, decimal}
use unp_and_apue3e.Text.Literal.{text}
use unp_and_apue3e.Printer.Queue.{Jobs, add_job}
use unp_and_apue3e.Printer.Client.{Server}
use unp_and_apue3e.Printer.Turn.{unlinked_files}

-- An entry of the directory of control files: its name, whether it could be opened, what read(2)
-- gave if that was a whole request, and the address of the new job.
pub record DirEntry (R : Type 0) : Type 0 where
  pub d_name : Bytes
  pub opened : Bool
  pub got : Option R
  pub jp : Ptr

abbrev pub is_dot : Bytes → Bool
is_dot name = str_eq name (text ".") || str_eq name (text "..")

-- int32_t
abbrev pub to_int32 : ℤ → ℕ
to_int32 (pos n) = n % 2 ^ 32
to_int32 (negsuc n) = (2 ^ 32 - (n + 1) % 2 ^ 32) % 2 ^ 32

-- jobid = atol(entp->d_name)
abbrev pub jobid_of : Bytes → ℕ
jobid_of name = to_int32 (atol name)

-- The files of a name, if it is a job number; the state has no others.
unfoldable pub unlink_named : {R : Type 0} → Bytes → Server R → Server R
unlink_named name s =
    if str_eq name (decimal (jobid_of name)) then unlinked_files (jobid_of name) s else s

abbrev pub with_jobs : {R : Type 0} → Server R → Option (Jobs R) → Option (Server R)
with_jobs s none = none
with_jobs s (some q) = some (record s { jobs = q })

-- The body of the loop; `none` is a fault in add_job.
abbrev pub entered : {R : Type 0} → Bytes → Option R → Ptr → Server R → Option (Server R)
entered name none jp s = some (unlink_named name s)
entered name (some req) jp s = with_jobs s (add_job req (jobid_of name) jp s.jobs)

unfoldable pub build_qonstart : {R : Type 0} → List (DirEntry R) → Server R → Option (Server R)
build_qonstart [] s = some s
build_qonstart (e ∷ es) s =
    if is_dot e.d_name || not e.opened
    then build_qonstart es s
    else elim (entered e.d_name e.got e.jp s) [ none ↦ none | some t ↦ build_qonstart es t ]
