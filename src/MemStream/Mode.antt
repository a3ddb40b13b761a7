-- ===== src/MemStream/Mode.antt =====
-- The mode strings that fmemopen takes.
use unp_and_apue3e.Prelude.{◌≡◌, refl, Bool, true, false, ◌&&◌, ◌||◌, [], ◌∷◌, arith, ◌==◌}
use unp_and_apue3e.Text.{Bytes}
use unp_and_apue3e.MemStream.{Flags, no_flags, any_flag, type_step, type_loop, type_to_flags}

-- Any mix of `+` and `b`.
abbrev pub is_tail : Bytes → Bool
is_tail [] = true
is_tail (c ∷ cs) = ((c == b'+') || (c == b'b')) && is_tail cs

-- One of r, w and a, and then any mix of `+` and `b`.
abbrev pub is_mode : Bytes → Bool
is_mode [] = false
is_mode (c ∷ cs) = ((c == b'r') || (c == b'w') || (c == b'a')) && is_tail cs

type_loop-tail : (f : Flags) (s : Bytes) → any_flag f ≡ true → any_flag (type_loop f s) ≡ is_tail s
unfolding type_loop type_step
type_loop-tail f [] h = h
type_loop-tail f (c ∷ cs) h =
    ground
      (arith, type_loop-tail f cs, type_loop-tail (record f { ms_read = true; ms_write = true }) cs)

-- The flags of a mode string are not 0 exactly if it is one of r, w and a and then any mix of + and
-- b.
pub type_to_flags-is_mode : (s : Bytes) → any_flag (type_to_flags s) ≡ is_mode s
unfolding type_to_flags type_loop type_step
type_to_flags-is_mode [] = refl
type_to_flags-is_mode (c ∷ cs) = ground (
  arith,
  type_loop-tail (record no_flags { ms_read = true }) cs refl,
  type_loop-tail (record no_flags { ms_write = true; ms_truncate = true }) cs refl,
  type_loop-tail (record no_flags { ms_append = true }) cs refl,
)
