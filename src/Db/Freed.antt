-- ===== src/Db/Freed.antt =====
-- The free list of more01/apue.3e/db/db.c behind the writes of _db_dodelete: the blanked record
-- stands at its front.
use unp_and_apue3e.Prelude.{
  ℕ, ◌≤◌, ◌<◌, ◌≡◌, ◌≢◌, refl, ◌∙◌, ap, inl, inr, some, List, ◌∷◌, arith, length, All, All-map,
  All-zip,
}
use mathlib.Core.Path.{subst⁻¹}
use unp_and_apue3e.Text.{Bytes, pad_left}
use unp_and_apue3e.Db.State.{Limits, Db, ptr_sz, free_off}
use unp_and_apue3e.Db.Pointer.{PtrAt, PtrAt-overwrite_self, PtrAt-overwrite_apart, length-ptr}
use unp_and_apue3e.Db.Entry.{Entry, EntryAt}
use unp_and_apue3e.Db.Readidx.{Sane, EntryAt-overwrite_self}
use unp_and_apue3e.Db.Chain.{IsChain, search_key}
use unp_and_apue3e.Db.Fetch.{HasChain, chain_of, table_end, offsets}
use unp_and_apue3e.Db.Frame.{EntryAt-overwrite-Apart}
use unp_and_apue3e.Db.Free.{HasFree}
use unp_and_apue3e.Db.Without.{search_key-All, IsChain-All}
use unp_and_apue3e.Db.Spread.{
  Beside, Clear, ClearPtr, Spread, All-offsets, offsets-All, IsChain-EntryAt,
}
use unp_and_apue3e.Db.Unlinked.{Beside-chain, Beside-ne, prev_ne, e_past}
use unp_and_apue3e.Db.Unlink.{
  blanked, blanked-Fits, idx_unlinked, at_e, off_fits, length-blanked, table_past, prev_place,
  prev-ClearPtr, length-bs2, length-unlinked, EntryAt-bs3,
}

module _ (lim : Limits) (sane : Sane lim) (s : Db) (key : Bytes) (es fs : List Entry)
    (h : HasChain lim s key es) (free : HasFree lim s fs) (sp : Spread s es fs) {prev : ℕ}
    {e : Entry} (found : search_key key (chain_of s key) es ≡ some (prev, e)) where
  abbrev bs : Bytes
  bs = s.idx.bytes

  abbrev bs3 : Bytes
  bs3 = idx_unlinked bs prev free.first e

  room : 7 ≤ e.off
  room = omega (
    arith,
    e_past lim sane s key es fs h free sp found,
    table_past lim sane s key es fs h free sp found,
  )

  blanked-EntryAt : EntryAt lim bs3 (blanked e free.first)
  blanked-EntryAt =
      EntryAt-bs3 lim sane s key es fs h free sp found (blanked e free.first)
        (EntryAt-overwrite-Apart lim sane _ free_off (pad_left ptr_sz e.off) (blanked e free.first)
          (omega arith)
          (inr
            (omega (arith, room, length-ptr e.off (off_fits lim sane s key es fs h free sp found))))
          (EntryAt-overwrite_self lim bs (blanked e free.first) (
            blanked-Fits lim e free.first free.head.fits
              (at_e lim sane s key es fs h free sp found).fits)))
        (prev_ne lim sane s key es fs h free sp found)
        (rw_clear (
          prev-ClearPtr lim sane s key es fs h free sp found e
            (e_past lim sane s key es fs h free sp found)
            (search_key-All key (λ d. All (λ x. Clear x d) es) es (chain_of s key) found sp.among)))
    where
      rw_clear : ClearPtr prev e → ClearPtr prev (blanked e free.first)
      rw_clear (inl same) = inl same
      rw_clear (inr (inl before)) =
          inr (inl (omega (arith, length-blanked lim sane s key es fs h free sp found)))
      rw_clear (inr (inr after)) = inr (inr after)

  free_at : All (λ d. EntryAt lim bs d) fs
  free_at = IsChain-EntryAt lim bs fs free.first free.chain

  rest-IsChain : IsChain lim bs3 free.first fs
  rest-IsChain =
      IsChain-All lim bs bs3 fs free.first
        (All-map fs
          (λ d ((at, beside), past).
            Beside-chain lim sane s key es fs h free sp found d at beside past)
          (All-zip _ _ fs (All-zip _ _ fs free_at sp.between)
            (All-offsets (λ o. table_end s ≤ o) fs sp.past_free)))
        free.chain

  free_head : PtrAt bs3 free_off e.off
  free_head =
      let (lo, hi) = prev_place lim sane s key es fs h free sp found in
      PtrAt-overwrite_apart _ prev (pad_left ptr_sz e.ptr)
        (omega (arith, hi, length-bs2 lim sane s key es fs h free sp found)) (inl lo)
        (PtrAt-overwrite_self _ free_off e.off (off_fits lim sane s key es fs h free sp found))

  pub unlinked-HasFree : (t : Db) → t.idx.bytes ≡ bs3 → HasFree lim t (blanked e free.first ∷ fs)
  unlinked-HasFree t b = record {
    first = e.off;
    head = rw b free_head;
    chain =
        subst⁻¹ (λ x. IsChain lim x e.off (blanked e free.first ∷ fs)) b
          (refl, omega (arith, room), blanked-EntryAt, rest-IsChain);
    inside =
        subst⁻¹ (λ x. All (λ p. p < x) (e.off ∷ offsets fs))
          (ap length b ∙ length-unlinked lim sane s key es fs h free sp found)
          (
            search_key-All key (λ d. d.off < length bs) es (chain_of s key) found
                (All-offsets (λ o. o < length bs) es h.inside),
            free.inside,
          );
    distinct = (
      offsets-All (λ o. e.off ≢ o) fs
          (All-map fs
            (λ d (b, at).
              Beside-ne lim sane s key es fs h free sp found e d
                (at_e lim sane s key es fs h free sp found) at
                (search_key-All key (λ x. Beside x d) es (chain_of s key) found b))
            (All-zip _ _ fs sp.between free_at)),
      free.distinct,
    );
  }
