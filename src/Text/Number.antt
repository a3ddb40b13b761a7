-- ===== src/Text/Number.antt =====
-- Reading back what was printed: `atol` of the output of `sprintf`.
use native.Mathlib.Nat.{pow-suc}
use unp_and_apue3e.Prelude.{
  ℕ, zero, suc, ◌+◌, ◌-◌, ◌*◌, ◌/◌, ◌%◌, ◌^◌, ◌≤◌, ◌<◌, ◌≡◌, refl, sym, ap, ◌∙◌, true, false, [],
  ◌∷◌, ◌++◌, append_assoc, arith, ltb, Bool-cases, inl, inr, ltb→lt, ltb→le, length, replicate,
  length-append, length-replicate, pos,
}
use unp_and_apue3e.Text.{
  Bytes, is_digit, scan_digits, skip_space, signed, atol, digits, decimal, pad_left,
}

-- The rest that follows the digits begins with no digit.
abbrev pub NoDigit : Bytes → Type 0
NoDigit [] = Unit {0}
NoDigit (c ∷ s) = is_digit c ≡ false

digit-is_digit : (d : ℕ) → d < 10 → is_digit (48 + d) ≡ true
digit-is_digit d h = ground arith

scan_digit :
    (n d : ℕ) (s : Bytes) → d < 10 → scan_digits n ((48 + d) ∷ s) ≡ scan_digits (n * 10 + d) s
unfolding scan_digits
scan_digit n d s h = rw (digit-is_digit d h, scan_digits) (ap (λ m. scan_digits m s) (omega arith))

pub scan-digits : (k n : ℕ) (s : Bytes) → n < k → scan_digits 0 (digits k n ++ s) ≡ scan_digits n s
unfolding digits
scan-digits zero n s h = absurd (omega arith)
scan-digits (suc k) n s h = elim (Bool-cases (ltb n 10)) [
  | inl small ↦
      rw small (scan_digit 0 n s (ltb→lt n 10 small) ∙ ap (λ m. scan_digits m s) (omega arith))
  | inr large ↦
      let le : 10 ≤ n = ltb→le n 10 large in
      rw (large, append_assoc)
        (scan-digits k (n / 10) ((48 + n % 10) ∷ s) (omega arith)
          ∙ scan_digit (n / 10) (n % 10) s (omega arith)
          ∙ ap (λ m. scan_digits m s) (omega arith))
]

pub length-digits : (w k n : ℕ) → n < 10 ^ suc w → length (digits k n) ≤ suc w
unfolding digits
length-digits w zero n h = omega arith
length-digits zero (suc k) n h = ground arith
length-digits (suc w) (suc k) n h = elim (Bool-cases (ltb n 10)) [
  | inl small ↦ rw small (omega arith)
  | inr large ↦
      rw (large, length-append (digits k (n / 10)) ((48 + n % 10) ∷ []))
        (omega (arith, length-digits w k (n / 10) (tenth n (10 ^ suc w) (rw pow-suc at h))))
]
  where
    tenth : (a b : ℕ) → a < b * 10 → a / 10 < b
    tenth a b h = omega arith

-- The first byte of a printed number is a digit.
pub digits-cons :
    (k n : ℕ) → n < k → (c : ℕ) × (t : Bytes) × (digits k n ≡ c ∷ t) × (is_digit c ≡ true)
unfolding digits
digits-cons zero n h = absurd (omega arith)
digits-cons (suc k) n h = elim (Bool-cases (ltb n 10)) [
  | inl small ↦ (48 + n, [], rw small, digit-is_digit n (ltb→lt n 10 small))
  | inr large ↦
      let le : 10 ≤ n = ltb→le n 10 large in
      let (c, t, e, d) = digits-cons k (n / 10) (omega arith) in
      (c, t ++ (48 + n % 10) ∷ [], rw (large, e), d)
]

signed-digit :
    (c : ℕ) (s : Bytes) → is_digit c ≡ true → signed (c ∷ s) ≡ pos (scan_digits 0 (c ∷ s))
unfolding signed
signed-digit c s h = ground arith

skip_space-digit : (c : ℕ) (s : Bytes) → is_digit c ≡ true → skip_space (c ∷ s) ≡ c ∷ s
unfolding skip_space
skip_space-digit c s h = ground arith

skip_space-replicate : (k : ℕ) (s : Bytes) → skip_space (replicate k 32 ++ s) ≡ skip_space s
unfolding skip_space
skip_space-replicate zero s = refl
skip_space-replicate (suc k) s = skip_space-replicate k s

scan_digits-NoDigit : (n : ℕ) (s : Bytes) → NoDigit s → scan_digits n s ≡ n
unfolding scan_digits
scan_digits-NoDigit n [] h = refl
scan_digits-NoDigit n (c ∷ s) h = rw (h, scan_digits)

-- `atol` reads a printed number back, whatever follows it, if that begins with no digit.
pub atol-decimal : (n : ℕ) (s : Bytes) → NoDigit s → atol (decimal n ++ s) ≡ pos n
unfolding atol decimal
atol-decimal n s h =
    let (c, t, e, d) = digits-cons (suc n) n (omega arith) in
    let read : scan_digits 0 (digits (suc n) n ++ s) ≡ n =
      scan-digits (suc n) n s (omega arith) ∙ scan_digits-NoDigit n s h in
    rw (e, skip_space-digit c (t ++ s) d, signed-digit c (t ++ s) d)
      (ap pos (ap (λ u. scan_digits 0 (u ++ s)) (sym e) ∙ read))

pub atol-pad_left : (w n : ℕ) (s : Bytes) → NoDigit s → atol (pad_left w n ++ s) ≡ pos n
unfolding atol pad_left
atol-pad_left w n s h =
    rw (append_assoc, skip_space-replicate (w - length (decimal n)) (decimal n ++ s))
      (unfold atol in atol-decimal n s h)

pub length-decimal : (w n : ℕ) → n < 10 ^ suc w → length (decimal n) ≤ suc w
unfolding decimal
length-decimal w n h = length-digits w (suc n) n h

-- A number of at most `w` digits fills its field exactly.
pub length-pad_left : (w n : ℕ) → n < 10 ^ suc w → length (pad_left (suc w) n) ≡ suc w
unfolding pad_left
length-pad_left w n h =
    rw
      (
        length-append (replicate (suc w - length (decimal n)) 32) (decimal n),
        length-replicate {A = ℕ} (suc w - length (decimal n)) 32,
      )
      (omega (arith, length-decimal w n h))
