-- ===== src/Printer/StartTests.antt =====
-- The spool directory when the daemon of more01/apue.3e/printer/printd.c starts.
use unp_and_apue3e.Prelude.{
  ℕ, ◌≡◌, ◌==◌, refl, true, none, some, List, [], ◌∷◌, if◌then◌else◌, arith,
}
use unp_and_apue3e.Text.{str_eq, atol, scan_digits, skip_space, signed}
use unp_and_apue3e.Text.Literal.{text}
use unp_and_apue3e.Printer.Client.{Server, whole}
use unp_and_apue3e.Printer.Safe.{IsSpool}
use unp_and_apue3e.Printer.Start.{DirEntry, build_qonstart}
use unp_and_apue3e.Printer.Started.{Unread, read_entries, jobs_of, build_qonstart-IsSpool}

abbrev entries : List (DirEntry ℕ)
entries =
    record { d_name = text "."; opened = true; got = none; jp = 1 }
    ∷ record { d_name = text "5"; opened = true; got = some 4; jp = 10 }
    ∷ record { d_name = text "6"; opened = true; got = none; jp = 11 }
    ∷ []

abbrev spool : Server ℕ
spool = record {
  jobs = record { jobhead = none; jobtail = none; nextjob = 7; job = λ p. none };
  data_files = λ n. if n == 5 then some (b'x' ∷ []) else none;
  req_files = λ n. if n == 5 then some (whole 4) else none;
}

spool-IsSpool : IsSpool spool []
spool-IsSpool = record {
  queue = record { seg = (refl, refl); distinct = tt };
  safe = tt;
  numbers = tt;
}

unread : Unread spool [] (read_entries entries)
unfolding read_entries str_eq text atol scan_digits skip_space signed
unread = record {
  files = ((b'x' ∷ [], refl, refl), (tt, tt));
  ids = (((λ q. omega (arith, q)), tt), (tt, tt));
  new_ids = (tt, (tt, tt));
  ptrs = (((λ q. omega (arith, q)), tt), (tt, tt));
  new_ptrs = (tt, (tt, tt));
}

build_qonstart-IsSpool_example :
    (t : Server ℕ) × (build_qonstart entries spool ≡ some t) × IsSpool t (10 ∷ [])
unfolding read_entries jobs_of str_eq text
build_qonstart-IsSpool_example = build_qonstart-IsSpool entries spool spool-IsSpool unread
