-- ===== src/Db/Unlink.antt =====
-- The three writes of _db_dodelete of more01/apue.3e/db/db.c to the index file: the blanked record,
-- the pointer to the free list, and the pointer that led to the record.
use unp_and_apue3e.Prelude.{
  ℕ, zero, suc, ◌==◌, false, length-replicate, ◌+◌, ◌≤◌, ◌≡◌, ◌≢◌, refl, sym, ◌∙◌, ◌⊎◌, inl, inr,
  some, List, [], ◌∷◌, ◌++◌, arith, length, length-append, replicate, All, All-map, All-zip,
}
use unp_and_apue3e.Text.{Bytes, pad_left, decimal}
use unp_and_apue3e.Text.Chars.{NoChar}
use unp_and_apue3e.File.{overwrite}
use unp_and_apue3e.File.Slice.{length-overwrite_inside}
use unp_and_apue3e.Db.State.{Limits, Db, space, sep, ptr_sz, ptr_max, free_off, newline}
use unp_and_apue3e.Db.Record.{record_text}
use unp_and_apue3e.Db.Pointer.{length-ptr}
use unp_and_apue3e.Db.Entry.{Entry, Fits, EntryAt, render, text_of, length-render}
use unp_and_apue3e.Db.Readidx.{Sane}
use unp_and_apue3e.Db.Chain.{search_key}
use unp_and_apue3e.Db.Fetch.{HasChain, chain_of, table_end, offsets}
use unp_and_apue3e.Db.Frame.{
  Apart, EntryAt-overwrite-Apart, EntryAt-inside, PtrAt-inside, chain_of-le,
}
use unp_and_apue3e.Db.Free.{HasFree}
use unp_and_apue3e.Db.Without.{search_key-All, search_key-slot, Keeps}
use unp_and_apue3e.Db.Spread.{
  Beside, Clear, ClearPtr, Spread, All-offsets, IsChain-EntryAt, IsChain-fits, Clear-pointers,
  inside_file,
}

abbrev pub blanks : ℕ → Bytes
blanks n = replicate n space

-- The record as it goes to the free list.
abbrev pub blanked : Entry → ℕ → Entry
blanked e next = record e { key = blanks (length e.key); ptr = next }

blanks-NoChar : (c n : ℕ) → (space == c) ≡ false → NoChar c (blanks n)
blanks-NoChar c zero h = tt
blanks-NoChar c (suc n) h = (h, blanks-NoChar c n h)

length-blanked_text : (e : Entry) (v : ℕ) → length (text_of (blanked e v)) ≡ length (text_of e)
unfolding record_text
length-blanked_text e v = omega (
  arith,
  length-replicate (length e.key) space,
  length-append (blanks (length e.key))
      (sep ∷ (decimal e.datoff ++ (sep ∷ (decimal e.datlen ++ newline ∷ [])))),
  length-append e.key (sep ∷ (decimal e.datoff ++ (sep ∷ (decimal e.datlen ++ newline ∷ [])))),
)

pub blanked-Fits :
    (lim : Limits) (e : Entry) (v : ℕ) → v ≤ ptr_max → Fits lim e → Fits lim (blanked e v)
blanked-Fits lim e v h f = record {
  is_key = record {
    no_nul = blanks-NoChar 0 (length e.key) refl;
    no_sep = blanks-NoChar sep (length e.key) refl;
  };
  fits_ptr = h;
  long_enough = let l = f.long_enough in omega (arith, length-blanked_text e v);
  short_enough = let l = f.short_enough in omega (arith, length-blanked_text e v);
  has_data = f.has_data;
  data_fits = f.data_fits;
}

-- The index file behind the three writes.
abbrev pub idx_unlinked : Bytes → ℕ → ℕ → Entry → Bytes
idx_unlinked bs prev next e =
    overwrite
      (overwrite (overwrite bs e.off (render (blanked e next))) free_off (pad_left ptr_sz e.off))
      prev (pad_left ptr_sz e.ptr)

module _ (lim : Limits) (sane : Sane lim) (s : Db) (key : Bytes) (es fs : List Entry)
    (h : HasChain lim s key es) (free : HasFree lim s fs) (sp : Spread s es fs) {prev : ℕ}
    {e : Entry} (found : search_key key (chain_of s key) es ≡ some (prev, e)) where
  abbrev bs : Bytes
  bs = s.idx.bytes

  pub all_at : All (λ d. EntryAt lim bs d) es
  all_at = IsChain-EntryAt lim bs es h.first h.chain

  pub at_e : EntryAt lim bs e
  at_e = search_key-All key (λ d. EntryAt lim bs d) es (chain_of s key) found all_at

  pub off_fits : e.off ≤ ptr_max
  off_fits =
      search_key-All key (λ d. d.off ≤ ptr_max) es (chain_of s key) found
        (IsChain-fits lim bs es h.first h.head.fits h.chain)

  pub inside_e : e.off + length (render e) ≤ length bs
  inside_e = EntryAt-inside lim sane bs e at_e

  pub length-blanked : length (render (blanked e free.first)) ≡ length (render e)
  length-blanked = omega (
    arith,
    length-render lim e at_e.fits sane.four_digits,
    length-render lim (blanked e free.first)
        (blanked-Fits lim e free.first free.head.fits at_e.fits) sane.four_digits,
    length-blanked_text e free.first,
  )

  pub table_past : 7 ≤ table_end s
  table_past = let r = sp.free_room in omega arith

  -- Where the pointer to the record stands.
  pub prev_place : (7 ≤ prev) × (prev + 7 ≤ length bs)
  prev_place =
      search_key-slot key (λ o. (7 ≤ o) × (o + 7 ≤ length bs)) es (chain_of s key) found
        ((let r = sp.free_room in omega arith), PtrAt-inside bs (chain_of s key) h.first h.head)
        (All-zip _ _ (offsets es) (All-map (offsets es) (λ o p. omega (arith, table_past)) h.past)
          (inside_file lim sane bs es all_at))

  pub prev-ClearPtr : (d : Entry) → table_end s ≤ d.off → All (λ x. Clear x d) es → ClearPtr prev d
  prev-ClearPtr d past clear =
      search_key-slot key (λ o. ClearPtr o d) es (chain_of s key) found
        (inr (inr (omega (arith, chain_of-le s key h.some_table))))
        (Clear-pointers lim sane bs d es all_at clear)

  abbrev pub bs1 : Bytes
  bs1 = overwrite bs e.off (render (blanked e free.first))

  abbrev pub bs2 : Bytes
  bs2 = overwrite bs1 free_off (pad_left ptr_sz e.off)

  pub length-bs1 : length bs1 ≡ length bs
  length-bs1 =
      length-overwrite_inside bs e.off (render (blanked e free.first))
        (omega (arith, length-blanked, inside_e))

  pub length-bs2 : length bs2 ≡ length bs
  length-bs2 =
      length-overwrite_inside bs1 free_off (pad_left ptr_sz e.off)
        (omega (arith, length-bs1, length-ptr e.off off_fits, prev_place.1))
      ∙ length-bs1

  pub length-unlinked : length (idx_unlinked bs prev free.first e) ≡ length bs
  length-unlinked =
      length-overwrite_inside bs2 prev (pad_left ptr_sz e.ptr)
        (omega (arith, length-bs2, length-ptr e.ptr at_e.fits.fits_ptr, prev_place.1))
      ∙ length-bs2

  -- A record beside the one that is taken out, behind the free pointer.
  pub EntryAt-bs2 : (d : Entry) → EntryAt lim bs d → Beside e d → 7 ≤ d.off → EntryAt lim bs2 d
  EntryAt-bs2 d at beside past =
      EntryAt-overwrite-Apart lim sane bs1 free_off (pad_left ptr_sz e.off) d (omega arith)
        (inr (omega (arith, length-ptr e.off off_fits)))
        (EntryAt-overwrite-Apart lim sane bs e.off (render (blanked e free.first)) d
          (omega (arith, inside_e)) (turn beside) at)
    where
      turn : Beside e d → Apart e.off (render (blanked e free.first)) d
      turn (inl before) = inr (omega (arith, length-blanked))
      turn (inr after) = inl after

  pub EntryAt-bs3 :
      (d : Entry)
      → EntryAt lim bs2 d
      → prev ≢ d.off
      → ClearPtr prev d
      → EntryAt lim (idx_unlinked bs prev free.first e) d
  EntryAt-bs3 d at ne (inl same) = absurd (ne same)
  EntryAt-bs3 d at ne (inr apart) =
      EntryAt-overwrite-Apart lim sane bs2 prev (pad_left ptr_sz e.ptr) d
        (omega (arith, length-bs2, prev_place.1)) (turn apart) at
    where
      turn :
          (d.off + length (render d) ≤ prev) ⊎ (prev + 7 ≤ d.off)
          → Apart prev (pad_left ptr_sz e.ptr) d
      turn (inl before) = inl before
      turn (inr after) = inr (omega (arith, length-ptr e.ptr at_e.fits.fits_ptr))

  pub Keeps-unlinked : All (Keeps lim (idx_unlinked bs prev free.first e) e.off prev) es
  Keeps-unlinked =
      All-map es
        (λ d ((at, clear), past) out ne.
          EntryAt-bs3 d (EntryAt-bs2 d at (not_same d clear out) (omega (arith, table_past)))
            (λ q. ne (sym q)) (prev-ClearPtr d past clear))
        (All-zip _ _ es (All-zip _ _ es all_at sp.among)
          (All-offsets (λ o. table_end s ≤ o) es h.past))
    where
      not_same : (d : Entry) → All (λ x. Clear x d) es → d.off ≢ e.off → Beside e d
      not_same d clear out =
          elim (search_key-All key (λ x. Clear x d) es (chain_of s key) found clear) [
            | inl same ↦ absurd (out (sym same))
            | inr beside ↦ beside
          ]
