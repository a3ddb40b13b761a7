-- ===== src/SigSet.antt =====
-- The signal sets of more01/apue.3e/signals/setops.c: sigaddset, sigdelset and sigismember.
-- sigset_t, which the system defines, is a word of 32 bits, as wide as the int that is shifted.
mod Digits
mod Members
mod Tests
use Prim.Native.Nat.{bit_and, bit_or}
use unp_and_apue3e.Prelude.{
  ℕ, zero, suc, ◌-◌, ◌^◌, ◌≡◌, Bool, true, not, ◌==◌, leb, if◌then◌else◌, Option, none, some, ℤ,
  pos, negsuc,
}

-- 1 << (signo - 1); no caller passes a number below 1.
abbrev pub bit_of : ℤ → ℕ
bit_of (negsuc n) = 0
bit_of (pos n) = 2 ^ (n - 1)

-- ~
abbrev pub complement : ℕ → ℕ
complement x = 2 ^ 32 - 1 - x

module _ (nsig : ℕ) where
  -- signo <= 0 || signo >= NSIG
  abbrev pub sigbad : ℤ → Bool
  sigbad (negsuc n) = true
  sigbad (pos zero) = true
  sigbad (pos (suc n)) = leb nsig (suc n)

  -- `none` is -1 with EINVAL, else the result is 0 and the set is the one given.
  unfoldable pub sigaddset : ℕ → ℤ → Option ℕ
  sigaddset set signo = if sigbad signo then none else some (bit_or set (bit_of signo))

  unfoldable pub sigdelset : ℕ → ℤ → Option ℕ
  sigdelset set signo =
      if sigbad signo then none else some (bit_and set (complement (bit_of signo)))

  -- `none` is -1 with EINVAL, true is 1.
  unfoldable pub sigismember : ℕ → ℤ → Option Bool
  sigismember set signo =
      if sigbad signo then none else some (not (bit_and set (bit_of signo) == 0))
