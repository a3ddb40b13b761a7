-- ===== src/Db/Delete.antt =====
-- db_delete of more01/apue.3e/db/db.c on well-formed chains, and db_fetch behind it.
use unp_and_apue3e.Prelude.{
  ℕ, ◌+◌, ◌-◌, ◌≤◌, ◌≡◌, ◌≢◌, refl, sym, ◌∙◌, ap, ◌⊎◌, inl, inr, true, false, some, none, List, [],
  ◌∷◌, ◌++◌, arith, length, length-append, All, length-replicate,
}
use unp_and_apue3e.Text.{Bytes}
use unp_and_apue3e.File.{slice, overwrite}
use unp_and_apue3e.File.Slice.{slice-overwrite_self, slice-overwrite_before, slice-overwrite_after}
use unp_and_apue3e.Db.State.{
  Limits, Db, idx, ok, ◌>>◌, write_lock, unlock, set_region, newline, Counts, space, free_off,
}
use unp_and_apue3e.Db.Ops.{delete, fetch}
use unp_and_apue3e.Db.Entry.{Entry}
use unp_and_apue3e.Db.Readidx.{Sane}
use unp_and_apue3e.Db.Chain.{
  SameFiles, has_key, search_key, walked, walked-SameFiles, walked-Located, search_key-has_key,
}
use unp_and_apue3e.Db.Fetch.{
  HasChain, DataAt, AllFree, Untouched, chain_of, entered, find_and_lock-HasChain, fetch-none, left,
  left-Untouched,
}
use unp_and_apue3e.Db.Frame.{slice_inside}
use unp_and_apue3e.Db.Free.{HasFree, FreeBut-unlocked}
use unp_and_apue3e.Db.Insert.{FreeBut-lock, AllFree-unlock}
use unp_and_apue3e.Db.Pointer.{PtrAt}
use unp_and_apue3e.Db.Without.{without}
use unp_and_apue3e.Db.Spread.{Beside, Spread}
use unp_and_apue3e.Db.Unlink.{blanks, blanked, idx_unlinked, at_e, off_fits}
use unp_and_apue3e.Db.Unlinked.{unlinked-HasChain, others-unlinked}
use unp_and_apue3e.Db.Freed.{unlinked-HasFree}
use unp_and_apue3e.Db.Dodelete.{deleted, dodelete-ok}

pub DataAt-inside :
    (bs : Bytes) (e : Entry) (text : Bytes) → DataAt bs e text → e.datoff + e.datlen ≤ length bs
DataAt-inside bs e text a =
    slice_inside bs e.datoff e.datlen (let l = a.len in omega arith)
      (ap length a.text_at ∙ length-append text (newline ∷ []) ∙ sym a.len)

module _ (lim : Limits) (sane : Sane lim) (s : Db) (key : Bytes) (es : List Entry)
    (h : HasChain lim s key es) (locks : AllFree s.held) where
  -- A missing key: db_delete returns -1, the files are as they were and only delerr is counted.
  pub delete-none :
      has_key key es ≡ false
      → (t : Db) × (delete lim key s ≡ ok false t)
        × Untouched s t
        × (t.counts ≡ record s.counts { delerr = s.counts.delerr + 1 })
  unfolding delete unlock
  delete-none miss =
      let bump : Counts → Counts = λ c. record c { delerr = c.delerr + 1 } in
      (
        left lim sane s key es h locks write_lock bump,
        rw (find_and_lock-HasChain lim sane s key es h write_lock, miss),
        left-Untouched lim sane s key es h locks write_lock bump,
        ap bump (walked-SameFiles (entered s key write_lock) key es).same_counts,
      )

  module _ (fs : List Entry) (free : HasFree lim s fs) (sp : Spread s es fs) {prev : ℕ} {e : Entry}
      (found : search_key key (chain_of s key) es ≡ some (prev, e)) where
    abbrev u : Db
    u = walked (entered s key write_lock) key es

    abbrev d : Db
    d = deleted u prev e free.first

    abbrev bump : Counts → Counts
    bump c = record c { delok = c.delok + 1 }

    abbrev result : Db
    result = record d { held = set_region d.held idx d.chainoff 1 none; counts = bump d.counts }

    result_eq : delete lim key s ≡ ok true result
    unfolding delete unlock
    result_eq = rw (
      find_and_lock-HasChain lim sane s key es h write_lock,
      search_key-has_key es key (chain_of s key) prev e found,
      dodelete-ok lim u prev e (at_e lim sane s key es fs h free sp found).fits
          (off_fits lim sane s key es fs h free sp found) free.first head_u
          (walked-Located es (entered s key write_lock) key (chain_of s key) prev e refl found),
    )
      where
        head_u : PtrAt u.idx.bytes free_off free.first
        head_u = rw ((walked-SameFiles (entered s key write_lock) key es).idx_bytes) free.head

    same_idx : result.idx.bytes ≡ idx_unlinked s.idx.bytes prev free.first e
    same_idx =
        ap (λ b. idx_unlinked b prev free.first e)
          (walked-SameFiles (entered s key write_lock) key es).idx_bytes

    result-AllFree : AllFree result.held
    result-AllFree = AllFree-unlock d.held d.chainoff (
        FreeBut-unlocked u.held d.chainoff idx free_off 1 write_lock (
          rw (same.same_held, same.same_chain)
            (FreeBut-lock s.held (chain_of s key) write_lock locks)))
      where
        same : SameFiles (entered s key write_lock) u
        same = walked-SameFiles (entered s key write_lock) key es

    -- Where the chain of a key is well formed (HasChain), a record of it has the key, the free list
    -- is well formed (HasFree), the records of the chain and of the free list do not overlap
    -- (Spread), and no byte is locked, delete returns 0: the chain is well formed without the first
    -- record with the key, that record stands blanked at the front of the free list, which is well
    -- formed, no byte is locked, and of the counters only delok moves, by one.
    pub delete-some :
        (t : Db) × (delete lim key s ≡ ok true t)
        × HasChain lim t key (without key es)
        × HasFree lim t (blanked e free.first ∷ fs)
        × AllFree t.held
        × (t.counts ≡ record s.counts { delok = s.counts.delok + 1 })
    delete-some =
        let same = walked-SameFiles (entered s key write_lock) key es in
        (
          result,
          result_eq,
          unlinked-HasChain lim sane s key es fs h free sp found result same_idx same.same_nhash
              same.same_hashoff,
          unlinked-HasFree lim sane s key es fs h free sp found result same_idx,
          result-AllFree,
          ap bump same.same_counts,
        )

    -- Where the chain of a key is well formed (HasChain), a record of it has the key, the free list
    -- is well formed (HasFree), the records of the chain and of the free list do not overlap
    -- (Spread), and no byte is locked, and the chain has no second record with the key, delete
    -- returns 0, and fetch of the key behind it returns the null pointer, changes no file and
    -- leaves no byte locked.
    pub fetch-delete :
        has_key key (without key es) ≡ false
        → (t v : Db) × (delete lim key s ≡ ok true t)
          × ((delete lim key >> fetch lim key) s ≡ ok none v)
          × Untouched t v
    fetch-delete once =
        let (t, eq, chain, list, unlocked, c) = delete-some in
        let (v, gone, same, n) = fetch-none lim sane t key (without key es) chain unlocked once in
        (t, v, eq, rw eq gone, same)

    -- Where the chain of a key is well formed (HasChain), a record of it has the key, the free list
    -- is well formed (HasFree), the records of the chain and of the free list do not overlap
    -- (Spread), and no byte is locked, delete returns 0 and leaves each well-formed chain at
    -- another place of the hash table, whose records do not overlap those of the key's chain, well
    -- formed with the same records.
    pub delete-others :
        (other : Bytes) (os : List Entry)
        → HasChain lim s other os
        → All (λ x. All (λ y. Beside y x) es) os
        → chain_of s other ≢ chain_of s key
        → (t : Db) × (delete lim key s ≡ ok true t) × HasChain lim t other os
    delete-others other os ho beside ne =
        let same = walked-SameFiles (entered s key write_lock) key es in
        (
          result,
          result_eq,
          others-unlinked lim sane s key es fs h free sp found other os result ho beside ne same_idx
              same.same_nhash same.same_hashoff,
        )

    same_dat :
        result.dat.bytes ≡ overwrite s.dat.bytes e.datoff (blanks (e.datlen - 1) ++ newline ∷ [])
    same_dat =
        ap (λ f. overwrite f.bytes e.datoff (blanks (e.datlen - 1) ++ newline ∷ []))
          (walked-SameFiles (entered s key write_lock) key es).same_dat

    pub length-wiped : length (blanks (e.datlen - 1) ++ newline ∷ []) ≡ e.datlen
    length-wiped = omega (
      arith,
      length-append (blanks (e.datlen - 1)) (newline ∷ []),
      length-replicate (e.datlen - 1) space,
      (at_e lim sane s key es fs h free sp found).fits.has_data,
    )

    -- Where the chain of a key is well formed (HasChain), a record of it has the key, the free list
    -- is well formed (HasFree), the records of the chain and of the free list do not overlap
    -- (Spread), and no byte is locked, and the data of the first record with the key stands in the
    -- data file (DataAt), delete returns 0, leaves the data of each record whose data stands in the
    -- data file apart from that, and writes blanks and a newline over the data of the deleted
    -- record.
    pub delete-data :
        (text : Bytes)
        → DataAt s.dat.bytes e text
        → (x : Entry) (old : Bytes) → DataAt s.dat.bytes x old
        → (x.datoff + x.datlen ≤ e.datoff) ⊎ (e.datoff + e.datlen ≤ x.datoff)
        → (t : Db) × (delete lim key s ≡ ok true t)
          × DataAt t.dat.bytes x old
          × (slice e.datoff e.datlen t.dat.bytes ≡ blanks (e.datlen - 1) ++ newline ∷ [])
    delete-data text gone x old kept apart = (
      result,
      result_eq,
      record {
        no_nul = kept.no_nul;
        len = kept.len;
        text_at = ap (slice x.datoff x.datlen) same_dat ∙ spared apart ∙ kept.text_at;
      },
      ap (slice e.datoff e.datlen) same_dat
          ∙ slice-overwrite_self s.dat.bytes e.datoff (blanks (e.datlen - 1) ++ newline ∷ [])
              e.datlen (sym length-wiped),
    )
      where
        inside : e.datoff ≤ length s.dat.bytes
        inside = omega (arith, DataAt-inside s.dat.bytes e text gone)

        spared :
            (x.datoff + x.datlen ≤ e.datoff) ⊎ (e.datoff + e.datlen ≤ x.datoff)
            → slice x.datoff x.datlen
                (overwrite s.dat.bytes e.datoff (blanks (e.datlen - 1) ++ newline ∷ []))
              ≡ slice x.datoff x.datlen s.dat.bytes
        spared (inl before) =
            slice-overwrite_before s.dat.bytes e.datoff _ x.datoff x.datlen before inside
        spared (inr after) =
            slice-overwrite_after s.dat.bytes e.datoff _ x.datoff x.datlen
              (omega (arith, length-wiped)) inside
