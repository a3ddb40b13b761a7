-- ===== src/SigSet/Members.antt =====
-- The signal sets of more01/apue.3e/signals/setops.c as sets of signals.
use Prim.Native.Nat.{min, max, bit_and, bit_or}
use unp_and_apue3e.Prelude.{
  ℕ, zero, suc, ◌-◌, ◌*◌, ◌^◌, ◌≤◌, ◌<◌, ◌≡◌, refl, ap, ◌∙◌, sym, arith, Bool, true, false, not,
  ◌==◌, if◌then◌else◌, Option, none, some, List, [], ◌∷◌, ℤ, pos, negsuc, inl, inr, Bool-cases,
}
use unp_and_apue3e.SigSet.{sigbad, complement, sigaddset, sigdelset, sigismember}
use unp_and_apue3e.SigSet.Digits.{
  digit, digit-zero, digit-lt, digit-bit_or, digit-bit_and, digit-power, digit-complement,
  bit_and-power,
}

-- A call, whose error leaves the set as it was.
pub data Call : Type 0 where
  add : ℤ → Call
  del : ℤ → Call

abbrev or_same : ℕ → Option ℕ → ℕ
or_same set none = set
or_same set (some t) = t

abbrev pub called : ℕ → Call → ℕ → ℕ
called nsig (add signo) set = or_same set (sigaddset nsig set signo)
called nsig (del signo) set = or_same set (sigdelset nsig set signo)

abbrev pub calls : ℕ → List Call → ℕ → ℕ
calls nsig [] set = set
calls nsig (c ∷ cs) set = calls nsig cs (called nsig c set)

-- Whether a set has a signal, behind a call. A signal that is out of range is none of them.
abbrev pub has : Call → (ℕ → Bool) → ℕ → Bool
has (add (pos n)) f j = if n == j then true else f j
has (add (negsuc n)) f j = f j
has (del (pos n)) f j = if n == j then false else f j
has (del (negsuc n)) f j = f j

abbrev pub has_all : List Call → (ℕ → Bool) → ℕ → Bool
has_all [] f = f
has_all (c ∷ cs) f = has_all cs (has c f)

-- sigismember finds the signals of `f`, and no other.
abbrev pub Shows : ℕ → ℕ → (ℕ → Bool) → Type 0
Shows nsig set f = (j : ℕ) → 0 < j → j < nsig → sigismember nsig set (pos j) ≡ some (f j)

module _ (nsig : ℕ) (fits : nsig ≤ 32) where
  good : (j : ℕ) → 0 < j → j < nsig → sigbad nsig (pos j) ≡ false
  good zero h lt = absurd (omega arith)
  good (suc j) h lt = ground arith

  bad : (j : ℕ) → sigbad nsig (pos j) ≡ false → 0 < j
  bad zero h = cc
  bad (suc j) h = omega arith

  bad_lt : (j : ℕ) → sigbad nsig (pos j) ≡ false → j < nsig
  bad_lt zero h = cc
  bad_lt (suc j) h = ground arith

  power_pos : (k : ℕ) → 0 < 2 ^ k
  power_pos zero = omega arith
  power_pos (suc k) = omega (arith, power_pos k)

  nonzero : (d p : ℕ) → d < 2 → 0 < p → not (d * p == 0) ≡ (d == 1)
  nonzero zero p h q = ground arith
  nonzero (suc zero) p h q = ground arith
  nonzero (suc (suc d)) p h q = absurd (omega arith)

  sigismember-digit :
      (set j : ℕ) → 0 < j → j < nsig → sigismember nsig set (pos j) ≡ some (digit set (j - 1) == 1)
  unfolding sigismember
  sigismember-digit set j h lt =
      rw
        (
          good j h lt,
          bit_and-power set (j - 1),
          nonzero (digit set (j - 1)) (2 ^ (j - 1)) (digit-lt set (j - 1)) (power_pos (j - 1)),
        )
        refl

  power-lt : (k w : ℕ) → k < w → 2 ^ k < 2 ^ w
  power-lt zero (suc w) h = omega (arith, power_pos w)
  power-lt (suc k) (suc w) h = omega (arith, power-lt k w (omega arith))
  power-lt k zero h = absurd (omega arith)

  member_true :
      (d n j : ℕ) (b : Bool)
      → d < 2
      → 0 < n
      → 0 < j
      → (d == 1) ≡ b
      → (max d (if n - 1 == j - 1 then 1 else 0) == 1) ≡ (if n == j then true else b)
  member_true d n j b h p q e = grind arith

  member_false :
      (d n j : ℕ) (b : Bool)
      → d < 2
      → 0 < n
      → 0 < j
      → (d == 1) ≡ b
      → (min d (1 - (if n - 1 == j - 1 then 1 else 0)) == 1) ≡ (if n == j then false else b)
  member_false d n j b h p q e = grind arith

  other :
      (n j : ℕ) (a b : Bool)
      → sigbad nsig (pos n) ≡ true
      → 0 < j
      → j < nsig
      → b ≡ (if n == j then a else b)
  other zero j a b s h lt = grind arith
  other (suc n) j a b s h lt = grind arith

  shown :
      (set : ℕ) (f : ℕ → Bool)
      → Shows nsig set f
      → (j : ℕ) → 0 < j
      → j < nsig
      → (digit set (j - 1) == 1) ≡ f j
  shown set f s j h lt =
      let e : some (digit set (j - 1) == 1) ≡ some (f j) =
        sym (sigismember-digit set j h lt) ∙ s j h lt in
      cc

  add-Shows :
      (set : ℕ) (f : ℕ → Bool) (n : ℕ)
      → Shows nsig set f
      → Shows nsig (called nsig (add (pos n)) set) (has (add (pos n)) f)
  unfolding sigaddset
  add-Shows set f n s j h lt = elim (Bool-cases (sigbad nsig (pos n))) [
    | inl b ↦ rw b (s j h lt ∙ ap some (other n j true (f j) b h lt))
    | inr g ↦ rw g (
        sigismember-digit (bit_or set (2 ^ (n - 1))) j h lt
        ∙ ap some (
            ap (λ d. d == 1)
              (digit-bit_or set (2 ^ (n - 1)) (j - 1)
                ∙ ap (max (digit set (j - 1))) (digit-power (n - 1) (j - 1)))
            ∙ member_true (digit set (j - 1)) n j (f j) (digit-lt set (j - 1)) (bad n g) h
                (shown set f s j h lt)))
  ]

  del-Shows :
      (set : ℕ) (f : ℕ → Bool) (n : ℕ)
      → Shows nsig set f
      → Shows nsig (called nsig (del (pos n)) set) (has (del (pos n)) f)
  unfolding sigdelset
  del-Shows set f n s j h lt = elim (Bool-cases (sigbad nsig (pos n))) [
    | inl b ↦ rw b (s j h lt ∙ ap some (other n j false (f j) b h lt))
    | inr g ↦
        let below : 2 ^ (n - 1) < 2 ^ 32 =
          power-lt (n - 1) 32 (let m = bad_lt n g in omega arith) in
        rw g (
          sigismember-digit (bit_and set (complement (2 ^ (n - 1)))) j h lt
          ∙ ap some (
              ap (λ d. d == 1)
                (digit-bit_and set (complement (2 ^ (n - 1))) (j - 1)
                  ∙ ap (min (digit set (j - 1))) (
                      digit-complement 32 (2 ^ (n - 1)) (j - 1) below (omega arith)
                      ∙ ap (λ d. 1 - d) (digit-power (n - 1) (j - 1))))
              ∙ member_false (digit set (j - 1)) n j (f j) (digit-lt set (j - 1)) (bad n g) h
                  (shown set f s j h lt)))
  ]

  called-Shows :
      (c : Call) (set : ℕ) (f : ℕ → Bool)
      → Shows nsig set f
      → Shows nsig (called nsig c set) (has c f)
  unfolding sigaddset sigdelset
  called-Shows (add (pos n)) set f s = add-Shows set f n s
  called-Shows (add (negsuc n)) set f s = s
  called-Shows (del (pos n)) set f s = del-Shows set f n s
  called-Shows (del (negsuc n)) set f s = s

  -- sigismember finds no signal in the word 0.
  pub empty-Shows : Shows nsig 0 (λ j. false)
  empty-Shows j h lt = sigismember-digit 0 j h lt ∙ ap (λ d. some (d == 1)) (digit-zero (j - 1))

  -- Where NSIG is at most 32, and sigismember finds the signals of a set of numbers in a word and
  -- no others, then after any sequence of calls of sigaddset and sigdelset on the word sigismember
  -- finds the signals that are in the set once the same numbers are put in and taken out; a call
  -- with a number out of range counts for nothing.
  pub calls-Shows :
      (cs : List Call) (set : ℕ) (f : ℕ → Bool)
      → Shows nsig set f
      → Shows nsig (calls nsig cs set) (has_all cs f)
  calls-Shows [] set f s = s
  calls-Shows (c ∷ cs) set f s =
      calls-Shows cs (called nsig c set) (has c f) (called-Shows c set f s)
