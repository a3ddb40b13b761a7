-- ===== src/Printer/Numbers.antt =====
-- The job numbers that get_newjobno of more01/apue.3e/printer/printd.c gives.
use unp_and_apue3e.Prelude.{
  ℕ, zero, suc, ◌+◌, ◌-◌, ◌%◌, ◌^◌, ◌≤◌, ◌<◌, ◌≡◌, ◌≢◌, refl, ◌∙◌, ap, if◌then◌else◌, arith,
}
use unp_and_apue3e.Printer.Queue.{Jobs, not_positive, get_newjobno}

-- nextjob after a number of calls.
unfoldable pub called : {R : Type 0} → ℕ → Jobs R → Jobs R
called zero q = q
called (suc k) q = (get_newjobno (called k q)).1

wrap : ℕ → ℕ
wrap n = if not_positive ((n + 1) % 2 ^ 32) then 1 else (n + 1) % 2 ^ 32

wrap_lem : (n : ℕ) → 1 ≤ n → n < 2147483648 → wrap n ≡ n % 2147483647 + 1
unfolding wrap
wrap_lem n h g = ground arith

next_mod : (a k : ℕ) → ((a + k) % 2147483647 + 1) % 2147483647 ≡ (a + suc k) % 2147483647
next_mod a k = omega arith

abbrev pub given : {R : Type 0} → ℕ → Jobs R → ℕ
given k q = (get_newjobno (called k q)).0

given_lem :
    {R : Type 0} (q : Jobs R) (k : ℕ)
    → 1 ≤ q.nextjob
    → q.nextjob < 2147483648
    → given k q ≡ (q.nextjob - 1 + k) % 2147483647 + 1
unfolding called get_newjobno
given_lem q zero h g = omega arith
given_lem q (suc k) h g =
    let e = given_lem q k h g in
    let n = (q.nextjob - 1 + k) % 2147483647 in
    let low : n < 2147483647 = omega arith in
    let step : given (suc k) q ≡ wrap (given k q) = unfold wrap in refl in
    step
    ∙ ap wrap e
    ∙ wrap_lem (n + 1) (omega arith) (omega arith)
    ∙ ap (λ x. x + 1) (next_mod (q.nextjob - 1) k)

-- Where nextjob is between 1 and 2 ^ 31 - 1, every number that get_newjobno gives from then on is
-- in these bounds too, and two calls that are less than 2 ^ 31 - 1 calls apart give different
-- numbers.
pub get_newjobno-called :
    {R : Type 0} (q : Jobs R) (i j : ℕ)
    → 1 ≤ q.nextjob
    → q.nextjob < 2 ^ 31
    → i < j
    → j < i + (2 ^ 31 - 1)
    → (1 ≤ given i q) × (given i q < 2 ^ 31) × (given i q ≢ given j q)
get_newjobno-called q i j h g lt near =
    let e = given_lem q i h g in
    let f = given_lem q j h g in (omega arith, omega arith, λ same. omega arith)
