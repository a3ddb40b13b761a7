-- ===== src/Printer/Started.antt =====
-- What build_qonstart of more01/apue.3e/printer/printd.c makes of a spool directory.
use mathlib.Core.Path.{subst}
use unp_and_apue3e.Prelude.{
  ℕ, ◌≡◌, ◌≢◌, refl, sym, ◌∙◌, ap, not, ◌||◌, Option, none, some, List, [], ◌∷◌, ◌++◌, append_assoc,
  append-nil, All, All-map, All-append, All-zip, All-of_map, Distinct, map, Bool-cases,
  Option-cases, inl, inr, if◌then◌else◌,
}
use unp_and_apue3e.Links.{Ptr, Absent, Distinct-snoc}
use unp_and_apue3e.Text.{Bytes, str_eq, decimal}
use unp_and_apue3e.Printer.Order.{add_job-IsQueue}
use unp_and_apue3e.Printer.Client.{Server, whole}
use unp_and_apue3e.Printer.Copied.{put_file_ne}
use unp_and_apue3e.Printer.Turn.{unlinked_files}
use unp_and_apue3e.Printer.Safe.{
  number, IsSafe, number_at, IsSpool, Unchanged, All-IsSafe, same_numbers, kept-IsSpool,
}
use unp_and_apue3e.Printer.Spool.{map-snoc, All-remap}
use unp_and_apue3e.Printer.Start.{DirEntry, is_dot, jobid_of, unlink_named, entered, build_qonstart}

abbrev pub id_of : {R : Type 0} → DirEntry R → ℕ
id_of e = jobid_of e.d_name

-- The entries that are looked at, and the addresses of the jobs that they make.
unfoldable pub read_entries : {R : Type 0} → List (DirEntry R) → List (DirEntry R)
read_entries [] = []
read_entries (e ∷ es) =
    let rest : List (DirEntry _) = read_entries es in
    if is_dot e.d_name || not e.opened then rest else e ∷ rest

abbrev pub job_of : {A : Type 0} → Ptr → Option A → List Ptr
job_of p none = []
job_of p (some r) = p ∷ []

unfoldable pub jobs_of : {R : Type 0} → List (DirEntry R) → List Ptr
jobs_of [] = []
jobs_of (e ∷ es) = job_of e.jp e.got ++ jobs_of es

-- The request that was read is that of the control file, and the data file is there.
abbrev pub HasFiles : {R : Type 0} → Server R → ℕ → Option R → Type 0
HasFiles s id none = Unit
HasFiles s id (some r) =
    (bytes : Bytes) × (s.data_files id ≡ some bytes) × (s.req_files id ≡ some (whole r))

-- What the entries are, before the jobs at `xs` get more: their numbers and addresses are new.
pub record Unread {R : Type 0} (s : Server R) (xs : List Ptr) (es : List (DirEntry R))
    : Type 0 where
  pub files : All (λ e. HasFiles s (id_of e) e.got) es
  pub ids : Distinct (map id_of es)
  pub new_ids : All (λ e. All (λ x. id_of e ≢ number_at s x) xs) es
  pub ptrs : Distinct (map (λ e. e.jp) es)
  pub new_ptrs : All (λ e. Absent e.jp xs) es

module _ {R : Type 0} (s : Server R) (xs : List Ptr) (e : DirEntry R) (es : List (DirEntry R))
    (v : IsSpool s xs) (u : Unread s xs (e ∷ es)) where
  -- A whole request.
  entered-some :
      (r : R)
      → e.got ≡ some r
      → (t : Server R) × (entered e.d_name e.got e.jp s ≡ some t)
        × IsSpool t (xs ++ e.jp ∷ [])
        × Unread t (xs ++ e.jp ∷ []) es
  entered-some r eq =
      let (q, made, (new, same), w) =
        add_job-IsQueue s.jobs e.jp r (id_of e) xs v.queue u.new_ptrs.0 in
      let t : Server R = record s { jobs = q } in
      let (bytes, d, f) = subst (HasFiles s (id_of e)) eq u.files.0 in
      let un : All (Unchanged s t) xs = All-map xs (λ x ne. (same x ne, refl, refl)) u.new_ptrs.0 in
      let at : number_at t e.jp ≡ id_of e = ap number new in
      (
        t,
        rw (eq, made) refl,
        record {
          queue = w;
          safe =
              All-append (IsSafe t) xs (e.jp ∷ []) (All-IsSafe s t xs v.safe un)
                ((id_of e, r, bytes, new, d, f), tt);
          numbers =
              rw (map-snoc (number_at t) xs e.jp, at)
                (Distinct-snoc (map (number_at t) xs) (id_of e)
                  (subst Distinct (same_numbers s t xs un) v.numbers)
                  (subst (All (λ n. id_of e ≢ n)) (same_numbers s t xs un)
                    (All-remap (number_at s) (λ n. id_of e ≢ n) xs u.new_ids.0)));
        },
        record {
          files = u.files.1;
          ids = u.ids.1;
          new_ids =
              All-map es
                (λ f (far, ne).
                  All-append (λ x. id_of f ≢ number_at t x) xs (e.jp ∷ [])
                    (All-map xs (λ x (off, out) q. off (q ∙ ap number (same x out)))
                      (All-zip _ _ xs far u.new_ptrs.0))
                    ((λ q. ne (sym (q ∙ at))), tt))
                (All-zip _ _ es u.new_ids.1 (All-of_map id_of (λ n. id_of e ≢ n) es u.ids.0));
          ptrs = u.ptrs.1;
          new_ptrs =
              All-map es
                (λ f (out, ne).
                  All-append (λ y. f.jp ≢ y) xs (e.jp ∷ []) out ((λ q. ne (sym q)), tt))
                (All-zip _ _ es u.new_ptrs.1 (All-of_map (λ f. f.jp) (λ y. e.jp ≢ y) es u.ptrs.0));
        },
      )

  -- A file that does not hold a whole request.
  entered-none :
      e.got ≡ none
      → (t : Server R) × (entered e.d_name e.got e.jp s ≡ some t) × IsSpool t xs × Unread t xs es
  unfolding unlink_named
  entered-none eq = (
    unlink_named e.d_name s,
    rw eq refl,
    elim (Bool-cases (str_eq e.d_name (decimal (id_of e)))) [
      | inl hit ↦ rw hit (
          kept-IsSpool s t xs v.queue v.safe v.numbers (
            All-map xs
              (λ x far. (
                refl,
                put_file_ne s.data_files (id_of e) none (number_at s x) far,
                put_file_ne s.req_files (id_of e) none (number_at s x) far,
              ))
              u.new_ids.0))
      | inr miss ↦ rw miss v
    ],
    elim (Bool-cases (str_eq e.d_name (decimal (id_of e)))) [
      | inl hit ↦ rw hit (record {
        files =
            All-map es (λ f (h, ne). still (id_of f) f.got ne h)
              (All-zip _ _ es u.files.1 (All-of_map id_of (λ n. id_of e ≢ n) es u.ids.0));
        ids = u.ids.1;
        new_ids = u.new_ids.1;
        ptrs = u.ptrs.1;
        new_ptrs = u.new_ptrs.1;
      })
      | inr miss ↦ rw miss (record {
        files = u.files.1;
        ids = u.ids.1;
        new_ids = u.new_ids.1;
        ptrs = u.ptrs.1;
        new_ptrs = u.new_ptrs.1;
      })
    ],
  )
    where
      t : Server R
      t = unlinked_files (id_of e) s

      still :
          (n : ℕ) (got : Option R)
          → id_of e ≢ n
          → HasFiles s n got
          → HasFiles (unlinked_files (id_of e) s) n got
      still n none ne h = tt
      still n (some r) ne (bytes, d, f) = (
        bytes,
        put_file_ne s.data_files (id_of e) none n ne ∙ d,
        put_file_ne s.req_files (id_of e) none n ne ∙ f,
      )

module _ {R : Type 0} where
  build_qonstart-entries :
      (es : List (DirEntry R)) (s : Server R) (xs : List Ptr)
      → IsSpool s xs
      → Unread s xs (read_entries es)
      → (t : Server R) × (build_qonstart es s ≡ some t)
        × IsSpool t (xs ++ jobs_of (read_entries es))
  unfolding build_qonstart read_entries jobs_of
  build_qonstart-entries [] s xs v u = (s, refl, subst (IsSpool s) (sym (append-nil xs)) v)
  build_qonstart-entries (e ∷ es) s xs v u = elim (Bool-cases (is_dot e.d_name || not e.opened)) [
    | inl skipped ↦
        let (t, run, w) = build_qonstart-entries es s xs v (rw skipped at u) in
        (t, rw skipped run, rw skipped w)
    | inr looked ↦
        let unread : Unread s xs (e ∷ read_entries es) = rw looked at u in
        elim (Option-cases e.got) [
          | inl short ↦
              let (m, made, v2, u2) = entered-none s xs e (read_entries es) v unread short in
              let (t, run, w) = build_qonstart-entries es m xs v2 u2 in
              (t, rw (looked, made) run, rw (looked, short) w)
          | inr (r, full) ↦
              let (m, made, v2, u2) = entered-some s xs e (read_entries es) v unread r full in
              let (t, run, w) = build_qonstart-entries es m (xs ++ e.jp ∷ []) v2 u2 in
              (
                t,
                rw (looked, made) run,
                rw (looked, full)
                    (subst (IsSpool t) (append_assoc xs (e.jp ∷ []) (jobs_of (read_entries es))) w),
              )
        ]
  ]

  -- Where no job waits, and the entries that build_qonstart opens have different numbers and
  -- different new addresses, each entry that holds a whole request being the control file of its
  -- number, whose data file is there (Unread), build_qonstart returns: the jobs that wait are those
  -- of the whole requests, in the order of the directory, and each has its files.
  pub build_qonstart-IsSpool :
      (es : List (DirEntry R)) (s : Server R)
      → IsSpool s []
      → Unread s [] (read_entries es)
      → (t : Server R) × (build_qonstart es s ≡ some t) × IsSpool t (jobs_of (read_entries es))
  build_qonstart-IsSpool es s v u = build_qonstart-entries es s [] v u
