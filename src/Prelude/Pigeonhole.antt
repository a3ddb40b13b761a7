-- ===== src/Prelude/Pigeonhole.antt =====
-- Lists without repetition: distinct numbers below a bound are no more than the bound.
use Prim.Native.Nat.{ℕ, zero, suc, ◌≤◌, ◌<◌}
use mathlib.Core.Path.{◌≡◌, refl, sym}
use mathlib.Core.Logic.{◌≢◌, inl, inr}
use mathlib.Core.List.{map, List, [], ◌∷◌, ◌++◌}
use native.Mathlib.Omega.{arith}
use unp_and_apue3e.Prelude.Tests.{◌==◌, if◌then◌else◌, Bool-cases, ==→eq, ==→ne, ne→==}
use unp_and_apue3e.Prelude.Lists.{All, length}

pub All-map {ℓ ℓ' ℓ''} :
    {A : Type ℓ} {P : A → Type ℓ'} {Q : A → Type ℓ''} (xs : List A)
    → ((a : A) → P a → Q a)
    → All P xs
    → All Q xs
All-map [] f h = tt
All-map (x ∷ xs) f (p, ps) = (f x p, All-map xs f ps)

pub All-zip {ℓ ℓ' ℓ''} :
    {A : Type ℓ} (P : A → Type ℓ') (Q : A → Type ℓ'') (xs : List A)
    → All P xs
    → All Q xs
    → All (λ x. P x × Q x) xs
All-zip P Q [] p q = tt
All-zip P Q (x ∷ xs) (p, ps) (q, qs) = ((p, q), All-zip P Q xs ps qs)

pub All-of_map {ℓ ℓ' ℓ''} :
    {A : Type ℓ} {B : Type ℓ'} (f : A → B) (P : B → Type ℓ'') (xs : List A)
    → All P (map f xs)
    → All (λ x. P (f x)) xs
All-of_map f P [] a = tt
All-of_map f P (x ∷ xs) (p, a) = (p, All-of_map f P xs a)

pub All-append {ℓ ℓ'} :
    {A : Type ℓ} (P : A → Type ℓ') (xs ys : List A) → All P xs → All P ys → All P (xs ++ ys)
All-append P [] ys hx hy = hy
All-append P (x ∷ xs) ys hx hy = (hx.0, All-append P xs ys hx.1 hy)

pub All-split {ℓ ℓ'} :
    {A : Type ℓ} (P : A → Type ℓ') (xs ys : List A) → All P (xs ++ ys) → All P xs × All P ys
All-split P [] ys h = (tt, h)
All-split P (x ∷ xs) ys h = let (a, b) = All-split P xs ys h.1 in ((h.0, a), b)

abbrev pub Distinct : List ℕ → Type 0
Distinct [] = Unit {0}
Distinct (x ∷ xs) = All (λ y. x ≢ y) xs × Distinct xs

without : ℕ → List ℕ → List ℕ
without n [] = []
without n (x ∷ xs) = if x == n then without n xs else x ∷ without n xs

without-absent : (n : ℕ) (xs : List ℕ) → All (λ y. n ≢ y) xs → without n xs ≡ xs
unfolding without
without-absent n [] h = refl
without-absent n (x ∷ xs) h = rw (ne→== x n (λ e. h.0 (sym e)), without-absent n xs h.1)

length-without : (n : ℕ) (xs : List ℕ) → Distinct xs → length xs ≤ suc (length (without n xs))
unfolding without
length-without n [] d = omega arith
length-without n (x ∷ xs) (a, d) = elim (Bool-cases (x == n)) [
  | inl hit ↦ rw (hit, without-absent n xs (rw (==→eq x n hit) at a)) (omega arith)
  | inr miss ↦ rw miss (omega (arith, length-without n xs d))
]

without-All : (P : ℕ → Type 0) (n : ℕ) (xs : List ℕ) → All P xs → All P (without n xs)
unfolding without
without-All P n [] h = tt
without-All P n (x ∷ xs) h = elim (Bool-cases (x == n)) [
  | inl hit ↦ rw hit (without-All P n xs h.1)
  | inr miss ↦ rw miss (h.0, without-All P n xs h.1)
]

without-below : (n : ℕ) (xs : List ℕ) → All (λ x. x < suc n) xs → All (λ x. x < n) (without n xs)
unfolding without
without-below n [] h = tt
without-below n (x ∷ xs) h = elim (Bool-cases (x == n)) [
  | inl hit ↦ rw hit (without-below n xs h.1)
  | inr miss ↦
      let ne = ==→ne x n miss in let le = h.0 in rw miss (omega arith, without-below n xs h.1)
]

without-Distinct : (n : ℕ) (xs : List ℕ) → Distinct xs → Distinct (without n xs)
unfolding without
without-Distinct n [] d = tt
without-Distinct n (x ∷ xs) (a, d) = elim (Bool-cases (x == n)) [
  | inl hit ↦ rw hit (without-Distinct n xs d)
  | inr miss ↦ rw miss (without-All (λ y. x ≢ y) n xs a, without-Distinct n xs d)
]

pub length-Distinct : (n : ℕ) (xs : List ℕ) → All (λ x. x < n) xs → Distinct xs → length xs ≤ n
length-Distinct zero [] h d = omega arith
length-Distinct zero (x ∷ xs) h d = absurd (let lt = h.0 in omega arith)
length-Distinct (suc n) xs h d = omega (
  arith,
  length-without n xs d,
  length-Distinct n (without n xs) (without-below n xs h) (without-Distinct n xs d),
)
