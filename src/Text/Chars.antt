-- ===== src/Text/Chars.antt =====
-- Characters that a string does not hold, and what strchr and the end of a string do there.
use unp_and_apue3e.Prelude.{
  ℕ, zero, suc, ◌+◌, ◌/◌, ◌%◌, ◌≡◌, refl, false, true, none, some, [], ◌∷◌, ◌++◌, arith, ltb,
  Bool-cases, inl, inr, ltb→lt, ◌==◌, ==_refl, All, length, get_or,
}
use unp_and_apue3e.Text.{Bytes, c_str, str_eq, split_at_char, is_digit, digits, decimal}

-- `c` does not stand in the string.
abbrev pub NoChar : ℕ → Bytes → Type 0
NoChar c = All λ d. (d == c) ≡ false

pub NoChar-append : (c : ℕ) (s t : Bytes) → NoChar c s → NoChar c t → NoChar c (s ++ t)
NoChar-append c [] t hs ht = ht
NoChar-append c (d ∷ s) t hs ht = (hs.0, NoChar-append c s t hs.1 ht)

-- A string without NULs is the string in its buffer.
pub c_str-NoChar : (s : Bytes) → NoChar 0 s → c_str s ≡ s
unfolding c_str
c_str-NoChar [] h = refl
c_str-NoChar (d ∷ s) h = rw (h.0, c_str-NoChar s h.1)

pub split_at_char-none : (c : ℕ) (s : Bytes) → NoChar c s → split_at_char c s ≡ none
unfolding split_at_char
split_at_char-none c [] h = refl
split_at_char-none c (d ∷ s) h = rw (h.0, split_at_char-none c s h.1)

pub split_at_char-some :
    (c : ℕ) (s t : Bytes) → NoChar c s → split_at_char c (s ++ (c ∷ t)) ≡ some (s, t)
unfolding split_at_char
split_at_char-some c [] t h = rw ==_refl
split_at_char-some c (d ∷ s) t h = rw (h.0, split_at_char-some c s t h.1)

-- The printed digits hold no character that is not one.
digits-NoChar : (c : ℕ) → is_digit c ≡ false → (k n : ℕ) → NoChar c (digits k n)
unfolding digits
digits-NoChar c h zero n = tt
digits-NoChar c h (suc k) n = elim (Bool-cases (ltb n 10)) [
  | inl small ↦ rw small (ground (arith, ltb→lt n 10 small), tt)
  | inr large ↦ rw large (
      NoChar-append c (digits k (n / 10)) ((48 + n % 10) ∷ []) (digits-NoChar c h k (n / 10))
        (ground arith, tt))
]

pub decimal-NoChar : (c n : ℕ) → is_digit c ≡ false → NoChar c (decimal n)
unfolding decimal
decimal-NoChar c n h = digits-NoChar c h (suc n) n

-- The byte behind a text.
pub get_or-append : (s t : Bytes) (c d n : ℕ) → n ≡ length s → get_or (s ++ c ∷ t) n d ≡ c
get_or-append [] t c d zero h = refl
get_or-append [] t c d (suc n) h = absurd (omega arith)
get_or-append (b ∷ s) t c d zero h = absurd (omega arith)
get_or-append (b ∷ s) t c d (suc n) h = get_or-append s t c d n (omega arith)

-- strcmp decides equality.
pub str_eq→eq : (s t : Bytes) → str_eq s t ≡ true → s ≡ t
unfolding str_eq
str_eq→eq [] [] h = refl
str_eq→eq [] (d ∷ t) h = ground arith
str_eq→eq (c ∷ s) [] h = ground arith
str_eq→eq (c ∷ s) (d ∷ t) h = ground (arith, str_eq→eq s t)

pub str_eq_refl : (s : Bytes) → str_eq s s ≡ true
unfolding str_eq
str_eq_refl [] = refl
str_eq_refl (c ∷ s) = rw (==_refl, str_eq_refl s)
