-- ===== src/Db/Patch.antt =====
-- A pointer written into a record of the index file of more01/apue.3e/db/db.c, whose first bytes
-- are that pointer.
use unp_and_apue3e.Prelude.{
  ℕ, zero, suc, [], ◌∷◌, length-append, ◌+◌, ◌≤◌, ◌≡◌, refl, sym, ◌∙◌, ap, ◌++◌, arith, length,
  take, drop, drop-take, drop-drop, drop-append,
}
use unp_and_apue3e.Text.{Bytes, pad_left}
use unp_and_apue3e.File.{slice, overwrite}
use unp_and_apue3e.File.Slice.{slice-overwrite_self, slice-overwrite_after}
use unp_and_apue3e.Db.State.{Limits, ptr_sz, ptr_max, idxlen_sz}
use unp_and_apue3e.Db.Pointer.{length-ptr}
use unp_and_apue3e.Db.Entry.{Entry, Fits, EntryAt, render, text_of}
use unp_and_apue3e.Db.Readidx.{Sane}
use unp_and_apue3e.Db.Frame.{EntryAt-inside}

-- The record behind its pointer.
abbrev tail_of : Entry → Bytes
tail_of e = pad_left idxlen_sz (length (text_of e)) ++ text_of e

take-split : (m n k : ℕ) (xs : Bytes) → k ≡ m + n → take k xs ≡ take m xs ++ take n (drop m xs)
take-split zero n k xs h = ap (λ i. take i xs) (omega arith)
take-split (suc m) n zero xs h = absurd (omega arith)
take-split (suc m) zero (suc k) [] h = refl
take-split (suc m) (suc n) (suc k) [] h = refl
take-split (suc m) n (suc k) (x ∷ xs) h = ap (λ l. x ∷ l) (take-split m n k xs (omega arith))

slice-split : (bs : Bytes) (o m n : ℕ) → slice o (m + n) bs ≡ slice o m bs ++ slice (o + m) n bs
slice-split bs o m n =
    take-split m n (m + n) (drop o bs) refl
    ∙ ap (λ l. slice o m bs ++ take n l) (drop-drop m o (o + m) bs refl)

pub Fits-ptr :
    (lim : Limits) (e : Entry) (v : ℕ) → v ≤ ptr_max → Fits lim e → Fits lim (record e { ptr = v })
Fits-ptr lim e v h f = record {
  is_key = f.is_key;
  fits_ptr = h;
  long_enough = f.long_enough;
  short_enough = f.short_enough;
  has_data = f.has_data;
  data_fits = f.data_fits;
}

module _ (lim : Limits) (sane : Sane lim) (bs : Bytes) (e : Entry) (at : EntryAt lim bs e) where
  length-tail :
      (v : ℕ) → v ≤ ptr_max → length (render (record e { ptr = v })) ≡ 7 + length (tail_of e)
  length-tail v h =
      length-append (pad_left ptr_sz v) (tail_of e)
      ∙ ap (λ n. n + length (tail_of e)) (length-ptr v h)

  slice_tail : slice (e.off + 7) (length (tail_of e)) bs ≡ tail_of e
  slice_tail =
      ap (take (length (tail_of e))) (sym (drop-drop 7 e.off (e.off + 7) bs refl))
      ∙ sym (
          drop-take 7 (length (tail_of e)) (length (render e)) (drop e.off bs)
            (length-tail e.ptr at.fits.fits_ptr))
      ∙ ap (drop 7) at.text
      ∙ drop-append (pad_left ptr_sz e.ptr) (tail_of e) 7 (sym (length-ptr e.ptr at.fits.fits_ptr))

  pub EntryAt-ptr :
      (v : ℕ)
      → v ≤ ptr_max
      → EntryAt lim (overwrite bs e.off (pad_left ptr_sz v)) (record e { ptr = v })
  EntryAt-ptr v h = record { fits = Fits-ptr lim e v h at.fits; text = text_lem }
    where
      d : Bytes
      d = pad_left ptr_sz v

      inside : e.off ≤ length bs
      inside = omega (arith, EntryAt-inside lim sane bs e at)

      text_lem :
          slice e.off (length (render (record e { ptr = v }))) (overwrite bs e.off d)
          ≡ d ++ tail_of e
      text_lem =
          ap (λ n. slice e.off n (overwrite bs e.off d)) (length-tail v h)
          ∙ slice-split (overwrite bs e.off d) e.off 7 (length (tail_of e))
          ∙ ap (λ l. l ++ slice (e.off + 7) (length (tail_of e)) (overwrite bs e.off d))
              (slice-overwrite_self bs e.off d 7 (sym (length-ptr v h)))
          ∙ ap (λ l. d ++ l)
              (slice-overwrite_after bs e.off d (e.off + 7) (length (tail_of e))
                  (omega (arith, length-ptr v h)) inside
                ∙ slice_tail)
