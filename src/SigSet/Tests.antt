-- ===== src/SigSet/Tests.antt =====
-- The signal sets at a small sequence of calls.
use unp_and_apue3e.Prelude.{◌≡◌, refl, arith, false, List, [], ◌∷◌, pos, negsuc}
use unp_and_apue3e.SigSet.{bit_of, sigaddset, sigdelset}
use unp_and_apue3e.SigSet.Members.{Call, add, del, calls, has_all, Shows, empty-Shows, calls-Shows}

-- The last two signals are out of range.
abbrev some_calls : List Call
some_calls = add (pos 2) ∷ add (pos 31) ∷ del (pos 2) ∷ add (pos 40) ∷ add (negsuc 0) ∷ []

left_set : calls 32 some_calls 0 ≡ bit_of (pos 31)
unfolding sigaddset sigdelset
left_set = refl

calls-Shows_example : Shows 32 (calls 32 some_calls 0) (has_all some_calls (λ j. false))
calls-Shows_example =
    calls-Shows 32 (omega arith) some_calls 0 (λ j. false) (empty-Shows 32 (omega arith))
