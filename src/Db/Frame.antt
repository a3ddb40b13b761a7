-- ===== src/Db/Frame.antt =====
-- Writes to the index file of more01/apue.3e/db/db.c that leave the records of a chain alone.
use unp_and_apue3e.Prelude.{
  ℕ, ◌+◌, ◌≤◌, ◌<◌, ◌≡◌, ◌∙◌, ap, List, [], ◌∷◌, arith, length, length-take, length-drop, All, drop,
  ◌⊎◌, inl, inr,
}
use unp_and_apue3e.Text.{Bytes}
use unp_and_apue3e.File.{slice, overwrite}
use unp_and_apue3e.File.Slice.{slice-overwrite_before, slice-overwrite_after}
use unp_and_apue3e.Db.State.{Limits, Db}
use unp_and_apue3e.Db.Pointer.{PtrAt, length-ptr}
use unp_and_apue3e.Db.Entry.{Entry, EntryAt, render, length-render}
use unp_and_apue3e.Db.Readidx.{Sane}
use unp_and_apue3e.Db.Chain.{IsChain}
use unp_and_apue3e.Db.Ops.{hash}
use unp_and_apue3e.Db.Fetch.{chain_of, table_end, offsets}

-- A slice that is as long as it was asked to be ends inside the file.
pub slice_inside : (bs : Bytes) (o n : ℕ) → 0 < n → length (slice o n bs) ≡ n → o + n ≤ length bs
slice_inside bs o n p h = omega (arith, length-take n (drop o bs), length-drop o bs)

pub PtrAt-inside : (bs : Bytes) (o v : ℕ) → PtrAt bs o v → o + 7 ≤ length bs
PtrAt-inside bs o v p = slice_inside bs o 7 (omega arith) (ap length p.text ∙ length-ptr v p.fits)

pub chain_of-le : (s : Db) (key : Bytes) → 0 < s.nhash → chain_of s key + 7 ≤ table_end s
unfolding hash
chain_of-le s key p = omega arith

-- The record stands before the bytes that are written, or behind them.
abbrev pub Apart : ℕ → Bytes → Entry → Type 0
Apart o d e = (e.off + length (render e) ≤ o) ⊎ (o + length d ≤ e.off)

module _ (lim : Limits) (sane : Sane lim) where
  pub EntryAt-inside :
      (bs : Bytes) (e : Entry) → EntryAt lim bs e → e.off + length (render e) ≤ length bs
  EntryAt-inside bs e at =
      slice_inside bs e.off (length (render e))
        (omega (arith, length-render lim e at.fits sane.four_digits)) (ap length at.text)

  pub EntryAt-overwrite-Apart :
      (bs : Bytes) (o : ℕ) (d : Bytes) (e : Entry)
      → o ≤ length bs
      → Apart o d e
      → EntryAt lim bs e
      → EntryAt lim (overwrite bs o d) e
  EntryAt-overwrite-Apart bs o d e le (inl before) at = record {
    fits = at.fits;
    text = slice-overwrite_before bs o d e.off (length (render e)) before le ∙ at.text;
  }
  EntryAt-overwrite-Apart bs o d e le (inr after) at = record {
    fits = at.fits;
    text = slice-overwrite_after bs o d e.off (length (render e)) after le ∙ at.text;
  }

  pub IsChain-overwrite :
      (bs : Bytes) (o : ℕ) (d : Bytes) (first : ℕ) (es : List Entry)
      → o ≤ length bs
      → All (Apart o d) es
      → IsChain lim bs first es
      → IsChain lim (overwrite bs o d) first es
  IsChain-overwrite bs o d first [] le a c = c
  IsChain-overwrite bs o d first (e ∷ es) le (a, rest) (eq, p, at, c) =
      (eq, p, EntryAt-overwrite-Apart bs o d e le a at, IsChain-overwrite bs o d e.ptr es le rest c)

  -- Records stand before the end of the file, and behind what is written before the records.
  pub Apart-end :
      (bs d : Bytes) (first : ℕ) (es : List Entry)
      → IsChain lim bs first es
      → All (Apart (length bs) d) es
  Apart-end bs d first [] c = tt
  Apart-end bs d first (e ∷ es) (eq, p, at, c) =
      (inl (EntryAt-inside bs e at), Apart-end bs d e.ptr es c)

pub Apart-before :
    (o end : ℕ) (d : Bytes) (es : List Entry)
    → o + length d ≤ end
    → All (λ p. end ≤ p) (offsets es)
    → All (Apart o d) es
Apart-before o end d [] h a = tt
Apart-before o end d (e ∷ es) h (a, rest) = (inr (omega arith), Apart-before o end d es h rest)
