-- ===== src/Text.antt =====
-- C strings and the functions of the C library on them that the programs call: the text of a char
-- buffer is the list of its bytes before the first NUL.
pub mod Number
pub mod Chars
pub mod Literal
use unp_and_apue3e.Prelude.{
  ℕ, zero, suc, ◌+◌, ◌-◌, ◌*◌, ◌/◌, ◌%◌, Bool, true, false, ◌&&◌, ◌||◌, Option, none, some, List,
  [], ◌∷◌, ◌++◌, ltb, leb, ◌==◌, if◌then◌else◌, length, replicate, ℤ, pos, negate,
}

abbrev pub Bytes : Type 0
Bytes = List ℕ

-- The string that a buffer holds: what stands before its first NUL.
unfoldable pub c_str : Bytes → Bytes
c_str [] = []
c_str (c ∷ s) = if c == 0 then [] else c ∷ c_str s

-- strcmp(s, t) == 0
unfoldable pub str_eq : Bytes → Bytes → Bool
str_eq [] [] = true
str_eq [] (d ∷ t) = false
str_eq (c ∷ s) [] = false
str_eq (c ∷ s) (d ∷ t) = (c == d) && str_eq s t

-- strchr(s, c), as the text before the first `c` and the text behind it.
unfoldable pub split_at_char : ℕ → Bytes → Option (Bytes × Bytes)
split_at_char c [] = none
split_at_char c (d ∷ s) =
    if d == c
    then some ([], s)
    else elim (split_at_char c s) [ none ↦ none | some (a, b) ↦ some (d ∷ a, b) ]

-- isdigit
abbrev pub is_digit : ℕ → Bool
is_digit c = leb b'0' c && leb c b'9'

-- isspace, in the C locale
abbrev pub is_space : ℕ → Bool
is_space c = (c == 32) || (leb 9 c && leb c 13)

-- The value of the digits at the front, behind `n`.
unfoldable pub scan_digits : ℕ → Bytes → ℕ
scan_digits n [] = n
scan_digits n (c ∷ s) = elim (is_digit c) [ true ↦ scan_digits (n * 10 + (c - 48)) s | false ↦ n ]

unfoldable pub skip_space : Bytes → Bytes
skip_space [] = []
skip_space (c ∷ s) = if is_space c then skip_space s else c ∷ s

-- An optional sign and digits.
unfoldable pub signed : Bytes → ℤ
unfolding scan_digits
signed [] = pos 0
signed (c ∷ s) =
    if c == b'-'
    then negate (scan_digits 0 s)
    else if c == b'+'
    then pos (scan_digits 0 s)
    else pos (scan_digits 0 (c ∷ s))

-- atol, atoi. A number that does not fit is undefined behaviour in C; here it is itself.
unfoldable pub atol : Bytes → ℤ
unfolding signed skip_space
atol s = signed (skip_space s)

-- The decimal digits of `n`; the fuel is at least their number.
unfoldable pub digits : ℕ → ℕ → Bytes
digits zero n = []
digits (suc k) n =
    let rest = digits k (n / 10) ++ (48 + n % 10) ∷ [] in if ltb n 10 then (48 + n) ∷ [] else rest

-- sprintf("%ld", n)
unfoldable pub decimal : ℕ → Bytes
unfolding digits
decimal n = digits (suc n) n

-- sprintf("%*ld", w, n): right-justified, and wider than `w` where the digits are.
unfoldable pub pad_left : ℕ → ℕ → Bytes
unfolding decimal
pad_left w n = replicate (w - length (decimal n)) 32 ++ decimal n
