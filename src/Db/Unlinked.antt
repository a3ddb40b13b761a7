-- ===== src/Db/Unlinked.antt =====
-- The chains and the free list of more01/apue.3e/db/db.c behind the writes of _db_dodelete.
use unp_and_apue3e.Prelude.{
  ℕ, ◌+◌, ◌≤◌, ◌<◌, ◌≡◌, ◌≢◌, refl, sym, ◌∙◌, ap, ◌⊎◌, inl, inr, some, List, arith, length, All,
  All-map, All-zip,
}
use native.Mathlib.Decide.{dec_lt}
use mathlib.Core.Path.{subst, subst⁻¹}
use unp_and_apue3e.Text.{Bytes, pad_left}
use unp_and_apue3e.File.{overwrite}
use unp_and_apue3e.Db.State.{Limits, Db, ptr_sz, free_off}
use unp_and_apue3e.Db.Pointer.{PtrAt, PtrAt-overwrite_self, PtrAt-overwrite_apart, length-ptr}
use unp_and_apue3e.Db.Entry.{Entry, EntryAt, render}
use unp_and_apue3e.Db.Readidx.{Sane}
use unp_and_apue3e.Db.Chain.{IsChain, search_key}
use unp_and_apue3e.Db.Fetch.{HasChain, chain_of, table_end, offsets}
use unp_and_apue3e.Db.Frame.{chain_of-le}
use unp_and_apue3e.Db.Free.{HasFree}
use unp_and_apue3e.Db.Patch.{EntryAt-ptr}
use unp_and_apue3e.Db.Without.{
  without, ptr_without, ptr_without-eq, offsets-without, Distinct-without, search_key-All,
  search_key-slot, Patches, IsChain-without, IsChain-All,
}
use unp_and_apue3e.Db.Spread.{
  Beside, Clear, Spread, All-offsets, offsets-All, IsChain-EntryAt, search_key-ne, EntryAt-room,
}
use unp_and_apue3e.Db.Unlink.{
  blanked, idx_unlinked, all_at, at_e, off_fits, inside_e, table_past, prev_place, prev-ClearPtr,
  length-bs2, length-unlinked, EntryAt-bs2, EntryAt-bs3, Keeps-unlinked,
}

module _ (lim : Limits) (sane : Sane lim) (s : Db) (key : Bytes) (es fs : List Entry)
    (h : HasChain lim s key es) (free : HasFree lim s fs) (sp : Spread s es fs) {prev : ℕ}
    {e : Entry} (found : search_key key (chain_of s key) es ≡ some (prev, e)) where
  abbrev bs : Bytes
  bs = s.idx.bytes

  abbrev pub bs2 : Bytes
  bs2 =
      overwrite (overwrite bs e.off (render (blanked e free.first))) free_off
        (pad_left ptr_sz e.off)

  abbrev pub bs3 : Bytes
  bs3 = idx_unlinked bs prev free.first e

  off_chain : All (λ o. o ≢ chain_of s key) (offsets es)
  off_chain = All-map (offsets es) (λ o p q. omega (arith, chain_of-le s key h.some_table)) h.past

  pub prev_ne : prev ≢ e.off
  prev_ne = search_key-ne key es (chain_of s key) found h.distinct off_chain

  not_same : (d : Entry) → All (λ x. Clear x d) es → d.off ≢ e.off → Beside e d
  not_same d clear out =
      elim (search_key-All key (λ x. Clear x d) es (chain_of s key) found clear) [
        | inl same ↦ absurd (out (sym same))
        | inr beside ↦ beside
      ]

  Patches-unlinked : All (Patches lim bs3 e.ptr prev) es
  Patches-unlinked =
      All-map es
        (λ d ((at, clear), past) here.
          subst
            (λ o. EntryAt lim (overwrite bs2 o (pad_left ptr_sz e.ptr)) (record d { ptr = e.ptr }))
            here
            (EntryAt-ptr lim sane bs2 d
              (EntryAt-bs2 lim sane s key es fs h free sp found d at
                (not_same d clear (λ q. prev_ne (sym here ∙ q)))
                (omega (arith, table_past lim sane s key es fs h free sp found)))
              e.ptr (at_e lim sane s key es fs h free sp found).fits.fits_ptr))
        (All-zip _ _ es (All-zip _ _ es (all_at lim sane s key es fs h free sp found) sp.among)
          (All-offsets (λ o. table_end s ≤ o) es h.past))

  IsChain-unlinked : IsChain lim bs3 (ptr_without key h.first es) (without key es)
  IsChain-unlinked =
      IsChain-without lim key bs bs3 prev e es h.first (chain_of s key) found h.distinct off_chain
        (Keeps-unlinked lim sane s key es fs h free sp found) Patches-unlinked h.chain

  prev_side : (prev ≡ chain_of s key) ⊎ (table_end s ≤ prev)
  prev_side =
      search_key-slot key (λ o. (o ≡ chain_of s key) ⊎ (table_end s ≤ o)) es (chain_of s key) found
        (inl refl) (All-map (offsets es) (λ o p. inr p) h.past)

  pub e_past : table_end s ≤ e.off
  e_past =
      search_key-All key (λ d. table_end s ≤ d.off) es (chain_of s key) found
        (All-offsets (λ o. table_end s ≤ o) es h.past)

  -- A pointer of the table that did not lead to the record.
  PtrAt-unlinked :
      (p v : ℕ)
      → PtrAt bs p v
      → 7 ≤ p
      → p + 7 ≤ table_end s
      → (p + 7 ≤ prev) ⊎ (prev + 7 ≤ p)
      → PtrAt bs3 p v
  PtrAt-unlinked p v at lo hi apart =
      PtrAt-overwrite_apart bs2 prev (pad_left ptr_sz e.ptr)
        (omega (
          arith,
          length-bs2 lim sane s key es fs h free sp found,
          (prev_place lim sane s key es fs h free sp found).1,
        ))
        (turn apart)
        (PtrAt-overwrite_apart (overwrite bs e.off (render (blanked e free.first))) free_off
          (pad_left ptr_sz e.off) (omega arith)
          (inr (omega (arith, length-ptr e.off (off_fits lim sane s key es fs h free sp found))))
          (PtrAt-overwrite_apart bs e.off (render (blanked e free.first))
            (omega (arith, inside_e lim sane s key es fs h free sp found))
            (inl (omega (arith, e_past))) at))
    where
      turn :
          (p + 7 ≤ prev) ⊎ (prev + 7 ≤ p)
          → (p + 7 ≤ prev) ⊎ (prev + length (pad_left ptr_sz e.ptr) ≤ p)
      turn (inl before) = inl before
      turn (inr after) =
          let f = (at_e lim sane s key es fs h free sp found).fits.fits_ptr in
          inr (omega (arith, length-ptr e.ptr f))

  pub head-unlinked : PtrAt bs3 (chain_of s key) (ptr_without key h.first es)
  head-unlinked = elim (ptr_without-eq key es h.first (chain_of s key) off_chain found) [
    | inl (here, eq) ↦
        rw (eq, ← here)
          (PtrAt-overwrite_self bs2 prev e.ptr
            (at_e lim sane s key es fs h free sp found).fits.fits_ptr)
    | inr (there, eq) ↦ rw eq (
        PtrAt-unlinked (chain_of s key) h.first h.head (let r = sp.free_room in omega arith)
          (chain_of-le s key h.some_table)
          (elim prev_side [
            | inl here ↦ absurd (there here)
            | inr past ↦ inl (omega (arith, chain_of-le s key h.some_table))
          ]))
  ]

  pub unlinked-HasChain :
      (t : Db)
      → t.idx.bytes ≡ bs3
      → t.nhash ≡ s.nhash
      → t.hashoff ≡ s.hashoff
      → HasChain lim t key (without key es)
  unlinked-HasChain t b n o =
      let ends : table_end t ≡ table_end s = rw (n, o) refl in
      let at : chain_of t key ≡ chain_of s key = rw (n, o) refl in
      let same : length bs3 ≡ length bs = length-unlinked lim sane s key es fs h free sp found in
      record {
        first = ptr_without key h.first es;
        head = rw (b, at) head-unlinked;
        chain =
            subst⁻¹ (λ x. IsChain lim x (ptr_without key h.first es) (without key es)) b
              IsChain-unlinked;
        inside =
            subst⁻¹ (λ x. All (λ p. p < x) (offsets (without key es))) (ap length b ∙ same)
              (offsets-without key (λ p. p < length bs) es h.inside);
        distinct = Distinct-without key es h.distinct;
        some_table = rw n h.some_table;
        table_inside = rw (b, ends, same) h.table_inside;
        past =
            subst⁻¹ (λ x. All (λ p. x ≤ p) (offsets (without key es))) ends
              (offsets-without key (λ p. table_end s ≤ p) es h.past);
      }

  pub Beside-ne : (x d : Entry) → EntryAt lim bs x → EntryAt lim bs d → Beside x d → x.off ≢ d.off
  Beside-ne x d at_x at_d (inl before) q = omega (arith, EntryAt-room lim sane bs x at_x)
  Beside-ne x d at_x at_d (inr after) q = omega (arith, EntryAt-room lim sane bs d at_d)

  -- A record beside all those of the chain is as it was.
  pub Beside-chain :
      (d : Entry)
      → EntryAt lim bs d
      → All (λ x. Beside x d) es
      → table_end s ≤ d.off
      → EntryAt lim bs3 d
  Beside-chain d at beside past =
      EntryAt-bs3 lim sane s key es fs h free sp found d
        (EntryAt-bs2 lim sane s key es fs h free sp found d at
          (search_key-All key (λ x. Beside x d) es (chain_of s key) found beside)
          (omega (arith, table_past lim sane s key es fs h free sp found)))
        (search_key-slot key (λ o. o ≢ d.off) es (chain_of s key) found
          (λ q. omega (arith, chain_of-le s key h.some_table))
          (offsets-All (λ o. o ≢ d.off) es
            (All-map es (λ x (at_x, b). Beside-ne x d at_x at b)
              (All-zip _ _ es (all_at lim sane s key es fs h free sp found) beside))))
        (prev-ClearPtr lim sane s key es fs h free sp found d past
          (All-map es (λ x b. inr b) beside))

  two_places :
      (other : Bytes)
      → chain_of s other ≢ chain_of s key
      → (chain_of s other + 7 ≤ chain_of s key) ⊎ (chain_of s key + 7 ≤ chain_of s other)
  two_places other ne = elim (dec_lt (chain_of s other) (chain_of s key)) [
    | yes lt ↦ inl (omega arith)
    | no ge ↦ inr (omega arith)
  ]

  pub others-unlinked :
      (other : Bytes) (os : List Entry) (t : Db)
      → HasChain lim s other os
      → All (λ d. All (λ x. Beside x d) es) os
      → chain_of s other ≢ chain_of s key
      → t.idx.bytes ≡ bs3
      → t.nhash ≡ s.nhash
      → t.hashoff ≡ s.hashoff
      → HasChain lim t other os
  others-unlinked other os t ho beside ne b n o =
      let ends : table_end t ≡ table_end s = rw (n, o) refl in
      let at : chain_of t other ≡ chain_of s other = rw (n, o) refl in
      let same : length bs3 ≡ length bs = length-unlinked lim sane s key es fs h free sp found in
      record {
        first = ho.first;
        head =
            rw (b, at)
              (PtrAt-unlinked (chain_of s other) ho.first ho.head
                (let r = sp.free_room in omega arith) (chain_of-le s other h.some_table)
                (elim prev_side [
                  | inl here ↦ rw here (two_places other ne)
                  | inr past ↦ inl (omega (arith, chain_of-le s other h.some_table))
                ]));
        chain =
            subst⁻¹ (λ x. IsChain lim x ho.first os) b
              (IsChain-All lim bs bs3 os ho.first
                (All-map os (λ d ((at_d, c), past). Beside-chain d at_d c past)
                  (All-zip _ _ os
                    (All-zip _ _ os (IsChain-EntryAt lim bs os ho.first ho.chain) beside)
                    (All-offsets (λ p. table_end s ≤ p) os ho.past)))
                ho.chain);
        inside = subst⁻¹ (λ x. All (λ p. p < x) (offsets os)) (ap length b ∙ same) ho.inside;
        distinct = ho.distinct;
        some_table = rw n ho.some_table;
        table_inside = rw (b, ends, same) ho.table_inside;
        past = subst⁻¹ (λ x. All (λ p. x ≤ p) (offsets os)) ends ho.past;
      }
