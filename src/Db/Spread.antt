-- ===== src/Db/Spread.antt =====
-- Records that do not overlap in the index file of more01/apue.3e/db/db.c, and what that says of
-- the pointers that lead to them.
use unp_and_apue3e.Prelude.{
  ℕ, ◌+◌, ◌≤◌, ◌≡◌, ◌≢◌, sym, ◌∙◌, ◌⊎◌, inl, inr, Option, some, none, List, [], ◌∷◌, arith, length,
  All, All-map, Distinct, Bool-cases,
}
use unp_and_apue3e.Text.{Bytes, str_eq}
use unp_and_apue3e.Db.State.{Limits, Db, ptr_max}
use unp_and_apue3e.Db.Entry.{Entry, EntryAt, render, length-render}
use unp_and_apue3e.Db.Readidx.{Sane}
use unp_and_apue3e.Db.Chain.{IsChain, search_key}
use unp_and_apue3e.Db.Fetch.{offsets, table_end}
use unp_and_apue3e.Db.Frame.{EntryAt-inside}

-- One record ends before the other begins.
abbrev pub Beside : Entry → Entry → Type 0
Beside x d = (x.off + length (render x) ≤ d.off) ⊎ (d.off + length (render d) ≤ x.off)

abbrev pub Clear : Entry → Entry → Type 0
Clear x d = (x.off ≡ d.off) ⊎ Beside x d

-- The seven bytes of a pointer are not in the record, or they are its first ones.
abbrev pub ClearPtr : ℕ → Entry → Type 0
ClearPtr o d = (o ≡ d.off) ⊎ ((d.off + length (render d) ≤ o) ⊎ (o + 7 ≤ d.off))

-- The records of a chain and those of the free list do not overlap, and stand behind the table.
pub record Spread (s : Db) (es fs : List Entry) : Type 0 where
  pub among : All (λ d. All (λ x. Clear x d) es) es
  pub between : All (λ d. All (λ x. Beside x d) es) fs
  pub past_free : All (λ o. table_end s ≤ o) (offsets fs)
  pub free_room : 7 ≤ s.hashoff

pub All-offsets : (P : ℕ → Type 0) (es : List Entry) → All P (offsets es) → All (λ d. P d.off) es
All-offsets P [] a = tt
All-offsets P (d ∷ es) (p, a) = (p, All-offsets P es a)

pub offsets-All : (P : ℕ → Type 0) (es : List Entry) → All (λ d. P d.off) es → All P (offsets es)
offsets-All P [] a = tt
offsets-All P (d ∷ es) (p, a) = (p, offsets-All P es a)

pub IsChain-EntryAt :
    (lim : Limits) (bs : Bytes) (es : List Entry) (first : ℕ)
    → IsChain lim bs first es
    → All (λ d. EntryAt lim bs d) es
IsChain-EntryAt lim bs [] first c = tt
IsChain-EntryAt lim bs (d ∷ es) first (eq, p, at, c) = (at, IsChain-EntryAt lim bs es d.ptr c)

-- The pointers that lead along a chain hold its offsets.
pub IsChain-fits :
    (lim : Limits) (bs : Bytes) (es : List Entry) (first : ℕ)
    → first ≤ ptr_max
    → IsChain lim bs first es
    → All (λ d. d.off ≤ ptr_max) es
IsChain-fits lim bs [] first h c = tt
IsChain-fits lim bs (d ∷ es) first h (eq, p, at, c) =
    (omega arith, IsChain-fits lim bs es d.ptr at.fits.fits_ptr c)

none-ne-some : {A : Type 0} {a : A} → ◌≡◌ {A = Option A} none (some a) → ⊥
none-ne-some h = cc

-- The pointer to a record does not stand in front of that same record.
pub search_key-ne :
    (key : Bytes) (es : List Entry) (slot : ℕ) {prev : ℕ} {e : Entry}
    → search_key key slot es ≡ some (prev, e)
    → Distinct (offsets es)
    → All (λ o. o ≢ slot) (offsets es)
    → prev ≢ e.off
unfolding search_key
search_key-ne key [] slot h d n = absurd (none-ne-some h)
search_key-ne key (x ∷ es) slot {prev} {e} h (dx, d) (nx, n) =
    elim (Bool-cases (str_eq x.key key)) [
      | inl hit ↦
          let found : ◌≡◌ {A = Option (ℕ × Entry)} (some (slot, x)) (some (prev, e)) =
            rw hit at h in
          let same : x.off ≡ e.off = cc in
          let here : slot ≡ prev = cc in λ q. nx (same ∙ sym q ∙ sym here)
      | inr miss ↦
          search_key-ne key es x.off (rw miss at h) d
            (All-map (offsets es) (λ y ne q. ne (sym q)) dx)
    ]

module _ (lim : Limits) (sane : Sane lim) (bs : Bytes) where
  pub EntryAt-room : (d : Entry) → EntryAt lim bs d → 11 ≤ length (render d)
  EntryAt-room d at = omega (arith, length-render lim d at.fits sane.four_digits)

  -- The pointer in a record of a list is clear of another record that is clear of the list.
  pub Clear-pointers :
      (d : Entry) (es : List Entry)
      → All (λ x. EntryAt lim bs x) es
      → All (λ x. Clear x d) es
      → All (λ o. ClearPtr o d) (offsets es)
  Clear-pointers d [] a c = tt
  Clear-pointers d (x ∷ es) (at, a) (inl same, c) = (inl same, Clear-pointers d es a c)
  Clear-pointers d (x ∷ es) (at, a) (inr (inl before), c) =
      (inr (inr (omega (arith, EntryAt-room x at))), Clear-pointers d es a c)
  Clear-pointers d (x ∷ es) (at, a) (inr (inr after), c) =
      (inr (inl after), Clear-pointers d es a c)

  -- A pointer stands inside the file.
  pub inside_file :
      (es : List Entry) → All (λ x. EntryAt lim bs x) es → All (λ o. o + 7 ≤ length bs) (offsets es)
  inside_file [] a = tt
  inside_file (x ∷ es) (at, a) =
      (omega (arith, EntryAt-room x at, EntryAt-inside lim sane bs x at), inside_file es a)
