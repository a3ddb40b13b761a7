-- ===== src/SigSet/Digits.antt =====
-- The binary digits of what `bit_and`, `bit_or` and a complement make of a word.
use Prim.Native.Nat.{min, max, digits, bit_and, bit_or, bit_and-bitwise, bit_or-bitwise}
use unp_and_apue3e.Prelude.{
  ℕ, zero, suc, ◌+◌, ◌-◌, ◌*◌, ◌/◌, ◌%◌, ◌^◌, ◌≤◌, ◌<◌, ◌≡◌, refl, ap, ◌∙◌, sym, arith, ◌==◌,
  if◌then◌else◌,
}

-- The digit at a place, the lowest at 0.
abbrev pub digit : ℕ → ℕ → ℕ
digit n zero = n % 2
digit n (suc k) = digit (n / 2) k

pub digit-lt : (n k : ℕ) → digit n k < 2
digit-lt n zero = omega arith
digit-lt n (suc k) = digit-lt (n / 2) k

digits_fuel :
    (z : ℕ → ℕ) (f : ℕ → ℕ → ℕ) (n m a b : ℕ) → a ≤ n → a ≤ m → digits z f n a b ≡ digits z f m a b
digits_fuel z f zero zero a b p q = refl
digits_fuel z f zero (suc m) zero b p q = refl
digits_fuel z f zero (suc m) (suc a) b p q = absurd (omega arith)
digits_fuel z f (suc n) zero zero b p q = refl
digits_fuel z f (suc n) zero (suc a) b p q = absurd (omega arith)
digits_fuel z f (suc n) (suc m) zero b p q = refl
digits_fuel z f (suc n) (suc m) (suc a) b p q =
    ap (λ r. r * 2 + f (suc a % 2) (b % 2))
      (digits_fuel z f n m (suc a / 2) (b / 2) (omega arith) (omega arith))

digits_step :
    (z : ℕ → ℕ) (f : ℕ → ℕ → ℕ) (a b : ℕ)
    → digits z f (suc a) (suc a) b
      ≡ digits z f (suc a / 2) (suc a / 2) (b / 2) * 2 + f (suc a % 2) (b % 2)
digits_step z f a b =
    ap (λ r. r * 2 + f (suc a % 2) (b % 2))
      (digits_fuel z f a (suc a / 2) (suc a / 2) (b / 2) (omega arith) (omega arith))

bit_or-zero : (b : ℕ) → bit_or 0 b ≡ b
bit_or-zero b = bit_or-bitwise 0 b

bit_or_step : (a b : ℕ) → bit_or a b ≡ bit_or (a / 2) (b / 2) * 2 + max (a % 2) (b % 2)
bit_or_step zero b = omega (arith, bit_or-zero b, bit_or-zero (b / 2))
bit_or_step (suc a) b = omega (
  arith,
  bit_or-bitwise (suc a) b,
  bit_or-bitwise (suc a / 2) (b / 2),
  digits_step (λ b. b) max a b,
)

bit_and-zero : (b : ℕ) → bit_and 0 b ≡ 0
bit_and-zero b = bit_and-bitwise 0 b

bit_and_step : (a b : ℕ) → bit_and a b ≡ bit_and (a / 2) (b / 2) * 2 + min (a % 2) (b % 2)
bit_and_step zero b = omega (arith, bit_and-zero b, bit_and-zero (b / 2))
bit_and_step (suc a) b = omega (
  arith,
  bit_and-bitwise (suc a) b,
  bit_and-bitwise (suc a / 2) (b / 2),
  digits_step (λ b. zero) min a b,
)

pub digit-bit_or : (a b k : ℕ) → digit (bit_or a b) k ≡ max (digit a k) (digit b k)
digit-bit_or a b zero = omega (arith, bit_or_step a b)
digit-bit_or a b (suc k) =
    ap (λ n. digit n k) (omega (arith, bit_or_step a b)) ∙ digit-bit_or (a / 2) (b / 2) k

pub digit-bit_and : (a b k : ℕ) → digit (bit_and a b) k ≡ min (digit a k) (digit b k)
digit-bit_and a b zero = omega (arith, bit_and_step a b)
digit-bit_and a b (suc k) =
    ap (λ n. digit n k) (omega (arith, bit_and_step a b)) ∙ digit-bit_and (a / 2) (b / 2) k

pub digit-zero : (k : ℕ) → digit 0 k ≡ 0
digit-zero zero = refl
digit-zero (suc k) = digit-zero k

pub digit-power : (k j : ℕ) → digit (2 ^ k) j ≡ (if k == j then 1 else 0)
digit-power zero zero = refl
digit-power zero (suc j) = ground (arith, digit-zero j)
digit-power (suc k) zero = grind arith
digit-power (suc k) (suc j) =
    let same : (suc k == suc j) ≡ (k == j) = ground arith in
    ap (λ n. digit n j) (omega arith) ∙ digit-power k j ∙ ap (λ b. if b then 1 else 0) (sym same)

-- The complement of a word of `w` bits.
pub digit-complement : (w x k : ℕ) → x < 2 ^ w → k < w → digit (2 ^ w - 1 - x) k ≡ 1 - digit x k
digit-complement zero x k b h = absurd (omega arith)
digit-complement (suc w) x zero b h = omega arith
digit-complement (suc w) x (suc k) b h =
    ap (λ n. digit n k) (omega arith) ∙ digit-complement w (x / 2) k (omega arith) (omega arith)

bit_and-none : (a : ℕ) → bit_and a 0 ≡ 0
bit_and-none a = none_to a a (omega arith)
  where
    none_to : (n a : ℕ) → a ≤ n → bit_and a 0 ≡ 0
    none_to n zero h = bit_and-zero 0
    none_to zero (suc a) h = absurd (omega arith)
    none_to (suc n) (suc a) h =
        omega (arith, bit_and_step (suc a) 0, none_to n (suc a / 2) (omega arith))

times-twice : (d p : ℕ) → d < 2 → d * p * 2 ≡ d * (p * 2)
times-twice zero p h = omega arith
times-twice (suc zero) p h = omega arith
times-twice (suc (suc d)) p h = absurd (omega arith)

-- One bit of a word, where it stands.
pub bit_and-power : (a k : ℕ) → bit_and a (2 ^ k) ≡ digit a k * 2 ^ k
bit_and-power a zero = omega (arith, bit_and_step a 1, bit_and-none (a / 2))
bit_and-power a (suc k) =
    let half : 2 ^ suc k / 2 ≡ 2 ^ k = omega arith in
    let twice : 2 ^ k * 2 ≡ 2 ^ suc k = omega arith in
    let step : bit_and a (2 ^ suc k) ≡ bit_and (a / 2) (2 ^ suc k / 2) * 2 =
      omega (arith, bit_and_step a (2 ^ suc k)) in
    step
    ∙ ap (λ p. bit_and (a / 2) p * 2) half
    ∙ ap (λ b. b * 2) (bit_and-power (a / 2) k)
    ∙ times-twice (digit (a / 2) k) (2 ^ k) (digit-lt (a / 2) k)
    ∙ ap (λ p. digit (a / 2) k * p) twice
