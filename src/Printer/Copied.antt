-- ===== src/Printer/Copied.antt =====
-- The data that client_thread of more01/apue.3e/printer/printd.c copies to the data file of a job, and
-- files that are made and removed again.
use native.Mathlib.Decide.{ℕ_discrete}
use unp_and_apue3e.Prelude.{
  ℕ, ◌≡◌, ◌≢◌, refl, sym, ap, ◌∙◌, Bool, true, false, not, ◌&&◌, Option, none, some, List, [], ◌∷◌,
  ◌++◌, append_assoc, append-nil, length, take, take_all, ◌==◌, ==_refl, ne→==, if◌then◌else◌,
  Bool-cases, inl, inr, arith,
}
use unp_and_apue3e.Text.{Bytes}
use unp_and_apue3e.Printer.Client.{Requests, Wrote, all_taken, taken, put_file, postscript, copy}

abbrev pub SameFiles : {A : Type 0} → (h k : ℕ → Option A) → Type 0
SameFiles h k = (n : ℕ) → k n ≡ h n

pub put_file_self : {A : Type 0} (h : ℕ → Option A) (n : ℕ) (a : Option A) → put_file h n a n ≡ a
unfolding put_file
put_file_self h n a = rw (==_refl n) refl

pub put_file_ne :
    {A : Type 0} (h : ℕ → Option A) (n : ℕ) (a : Option A) (m : ℕ) → n ≢ m → put_file h n a m ≡ h m
unfolding put_file
put_file_ne h n a m ne = rw (ne→== n m ne) refl

-- A file that is made where there was none and removed again.
unlinked :
    {A : Type 0} (h k : ℕ → Option A) (n : ℕ)
    → h n ≡ none
    → ((m : ℕ) → n ≢ m → k m ≡ h m)
    → SameFiles h (put_file k n none)
unlinked h k n e same m = elim (ℕ_discrete n m) [
  | yes f ↦ rw (← f, put_file_self k n none, e) refl
  | no ne ↦ put_file_ne k n none m ne ∙ same m ne
]

-- A file that is made where there was none and removed again leaves the others as they were.
pub made_unlinked :
    {A : Type 0} (h : ℕ → Option A) (n : ℕ) (a : A)
    → h n ≡ none
    → SameFiles h (put_file (put_file h n (some a)) n none)
made_unlinked h n a e = unlinked h (put_file h n (some a)) n e (put_file_ne h n (some a))

-- Whether each write of the data takes all that was read.
unfoldable pub all_written : List (Bytes × Wrote) → Bool
all_written [] = true
all_written (([], w) ∷ cs) = true
all_written ((b ∷ bs, w) ∷ cs) = all_taken w (length (b ∷ bs)) && all_written cs

-- The data that the client has sent.
unfoldable pub received : List (Bytes × Wrote) → Bytes
received [] = []
received (([], w) ∷ cs) = []
received ((b ∷ bs, w) ∷ cs) = (b ∷ bs) ++ received cs

-- PR_TEXT is set where there are data which do not start as PostScript.
unfoldable pub marked : {R : Type 0} → Requests R → Bytes → List (Bytes × Wrote) → R → R
marked c stale [] req = req
marked c stale (([], w) ∷ cs) req = req
marked c stale ((b ∷ bs, w) ∷ cs) req = if postscript stale (b ∷ bs) then req else c.set_text req

both_true : (x y : Bool) → (x && y) ≡ true → (x ≡ true) × (y ≡ true)
both_true x y h = (ground arith, ground arith)

module _ {R : Type 0} (c : Requests R) (stale : Bytes) where
  -- What the loop gives, for a request that is marked already.
  copied :
      (req : R) (file : Bytes) (cs : List (Bytes × Wrote))
      → all_written cs ≡ true
      → copy c stale false req file cs ≡ (some req, file ++ received cs)
  unfolding copy all_written received
  copied req file [] h = ap (λ f. (some req, f)) (sym (append-nil file))
  copied req file (([], w) ∷ cs) h = ap (λ f. (some req, f)) (sym (append-nil file))
  copied req file ((b ∷ bs, none) ∷ cs) h = absurd (cc)
  copied req file ((b ∷ bs, some n) ∷ cs) h =
      let (all, rest) = both_true (n == length (b ∷ bs)) (all_written cs) h in
      let full : take n (b ∷ bs) ≡ b ∷ bs = take_all n (b ∷ bs) (ground (arith, all)) in
      rw (all, full)
        (copied req (file ++ b ∷ bs) cs rest
          ∙ ap (λ f. (some req, f)) (append_assoc file (b ∷ bs) (received cs)))

  pub short :
      (first : Bool) (req : R) (file : Bytes) (cs : List (Bytes × Wrote))
      → all_written cs ≡ false
      → (left : Bytes) × (copy c stale first req file cs ≡ (none, left))
  unfolding copy all_written
  short first req file [] h = absurd (cc)
  short first req file (([], w) ∷ cs) h = absurd (cc)
  short first req file ((b ∷ bs, w) ∷ cs) h = elim (Bool-cases (all_taken w (length (b ∷ bs)))) [
    | inr part ↦ (file ++ take (taken w) (b ∷ bs), rw part refl)
    | inl all ↦
        let rest : all_written cs ≡ false = rw all at h in
        let flagged = if first && not (postscript stale (b ∷ bs)) then c.set_text req else req in
        let (left, e) = short false flagged (file ++ take (taken w) (b ∷ bs)) cs rest in
        (left, rw all e)
  ]

  flagged :
      (req : R) (chunk : Bytes)
      → (if true && not (postscript stale chunk) then c.set_text req else req)
        ≡ (if postscript stale chunk then req else c.set_text req)
  flagged req chunk = elim (Bool-cases (postscript stale chunk)) [
    | inl ps ↦ rw ps refl
    | inr plain ↦ rw plain refl
  ]

  -- What the loop gives from its start, where each write takes all.
  pub copied_first :
      (req : R) (cs : List (Bytes × Wrote))
      → all_written cs ≡ true
      → copy c stale true req [] cs ≡ (some (marked c stale cs req), received cs)
  unfolding copy all_written received marked
  copied_first req [] h = refl
  copied_first req (([], w) ∷ cs) h = refl
  copied_first req ((b ∷ bs, none) ∷ cs) h = absurd (cc)
  copied_first req ((b ∷ bs, some n) ∷ cs) h =
      let (all, rest) = both_true (n == length (b ∷ bs)) (all_written cs) h in
      let full : take n (b ∷ bs) ≡ b ∷ bs = take_all n (b ∷ bs) (ground (arith, all)) in
      rw (all, full)
        (copied (if true && not (postscript stale (b ∷ bs)) then c.set_text req else req) (b ∷ bs)
            cs rest
          ∙ ap (λ r. (some r, b ∷ bs ++ received cs)) (flagged req (b ∷ bs)))
