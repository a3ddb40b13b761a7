-- ===== src/Printer/Safe.antt =====
-- The spool directory and the list of pending jobs of more01/apue.3e/printer/printd.c together: each
-- job that waits has its files.
use mathlib.Core.Path.{subst}
use unp_and_apue3e.Prelude.{
  ℕ, ◌≡◌, refl, sym, ◌∙◌, ap, Option, none, some, List, [], ◌∷◌, All, Distinct, map,
}
use unp_and_apue3e.Links.{Ptr}
use unp_and_apue3e.Text.{Bytes}
use unp_and_apue3e.Printer.Contents.{IsQueue}
use unp_and_apue3e.Printer.Order.{held}
use unp_and_apue3e.Printer.Client.{Server, whole}

-- The number of the job at an address.
abbrev pub number : {R : Type 0} → Option (ℕ × R) → ℕ
number none = 0
number (some x) = x.0

-- Both files of the job at `p` are there, and the control file has its request.
abbrev pub IsSafe : {R : Type 0} → Server R → Ptr → Type 0
IsSafe s p =
    (id : ℕ) × (r : _) × (bytes : Bytes) × (held (s.jobs.job p) ≡ some (id, r))
    × (s.data_files id ≡ some bytes)
    × (s.req_files id ≡ some (whole r))

abbrev pub number_at : {R : Type 0} → Server R → Ptr → ℕ
number_at s p = number (held (s.jobs.job p))

-- Each job that waits has its files, and no two have one number.
pub record IsSpool {R : Type 0} (s : Server R) (xs : List Ptr) : Type 0 where
  pub queue : IsQueue s.jobs xs
  pub safe : All (IsSafe s) xs
  pub numbers : Distinct (map (number_at s) xs)

-- A job is as safe as before where the files of its number are the same.
pub IsSafe-Unchanged :
    {R : Type 0} (s t : Server R) (p : Ptr)
    → held (t.jobs.job p) ≡ held (s.jobs.job p)
    → t.data_files (number_at s p) ≡ s.data_files (number_at s p)
    → t.req_files (number_at s p) ≡ s.req_files (number_at s p)
    → IsSafe s p
    → IsSafe t p
IsSafe-Unchanged s t p same d r (id, req, bytes, e, f, g) =
    let at : number_at s p ≡ id = ap number e in
    (id, req, bytes, same ∙ e, rw at at d ∙ f, rw at at r ∙ g)

-- The job at the address and the files of its number are the same.
abbrev pub Unchanged : {R : Type 0} → (s t : Server R) → Ptr → Type 0
Unchanged s t p =
    (held (t.jobs.job p) ≡ held (s.jobs.job p))
    × (t.data_files (number_at s p) ≡ s.data_files (number_at s p))
    × (t.req_files (number_at s p) ≡ s.req_files (number_at s p))

pub All-IsSafe :
    {R : Type 0} (s t : Server R) (xs : List Ptr)
    → All (IsSafe s) xs
    → All (Unchanged s t) xs
    → All (IsSafe t) xs
All-IsSafe s t [] h u = tt
All-IsSafe s t (x ∷ xs) (h, hs) ((same, d, r), us) =
    (IsSafe-Unchanged s t x same d r h, All-IsSafe s t xs hs us)

pub same_numbers :
    {R : Type 0} (s t : Server R) (xs : List Ptr)
    → All (Unchanged s t) xs
    → map (number_at s) xs ≡ map (number_at t) xs
same_numbers s t [] u = refl
same_numbers s t (x ∷ xs) ((same, d, r), us) =
    let e : number_at s x ≡ number_at t x = ap number (sym same) in
    rw (e, same_numbers s t xs us) refl

pub kept-IsSpool :
    {R : Type 0} (s t : Server R) (xs : List Ptr)
    → IsQueue t.jobs xs
    → All (IsSafe s) xs
    → Distinct (map (number_at s) xs)
    → All (Unchanged s t) xs
    → IsSpool t xs
kept-IsSpool s t xs v h d u = record {
  queue = v;
  safe = All-IsSafe s t xs h u;
  numbers = subst Distinct (same_numbers s t xs u) d;
}

pub All-of : (P : Ptr → Type 0) (xs : List Ptr) → ((x : Ptr) → P x) → All P xs
All-of P [] f = tt
All-of P (x ∷ xs) f = (f x, All-of P xs f)

pub All-both : (P Q : Ptr → Type 0) (xs : List Ptr) → All P xs → All Q xs → All (λ x. P x × Q x) xs
All-both P Q [] p q = tt
All-both P Q (x ∷ xs) (p, ps) (q, qs) = ((p, q), All-both P Q xs ps qs)

pub All-unmap :
    (f : Ptr → ℕ) (P : ℕ → Type 0) (xs : List Ptr) → All P (map f xs) → All (λ x. P (f x)) xs
All-unmap f P [] h = tt
All-unmap f P (x ∷ xs) (h, hs) = (h, All-unmap f P xs hs)
