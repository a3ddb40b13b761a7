-- ===== src/Db/Rewrite.antt =====
-- db_store of more01/apue.3e/db/db.c over a record whose data has another length: the record is
-- deleted and a new one is appended.
use unp_and_apue3e.Prelude.{
  ℕ, ◌+◌, ◌-◌, ◌≤◌, ◌≡◌, ◌≢◌, refl, sym, ◌∙◌, ap, true, some, none, List, [], ◌∷◌, ◌++◌, arith,
  length, ne→==,
}
use mathlib.Core.Path.{subst}
use unp_and_apue3e.Text.{Bytes, pad_left}
use unp_and_apue3e.Text.Chars.{NoChar, str_eq_refl}
use unp_and_apue3e.File.{overwrite}
use unp_and_apue3e.File.Slice.{length-overwrite_inside}
use unp_and_apue3e.Db.State.{
  Limits, Db, idx, ok, ◌>>◌, write_lock, set_region, newline, Counts, ptr_max, free_off, dat,
  ptr_sz,
}
use unp_and_apue3e.Db.Ops.{db_store, store_over, Flag, done, fetch}
use unp_and_apue3e.Db.Pointer.{PtrAt, PtrAt-unique, readptr-ok, at_idx}
use unp_and_apue3e.Db.Entry.{Entry, Fits, render}
use unp_and_apue3e.Db.Readidx.{Sane}
use unp_and_apue3e.Db.Chain.{
  SameFiles, Located, has_key, search_key, walked, walked-SameFiles, walked-Located,
  search_key-has_key,
}
use unp_and_apue3e.Db.Fetch.{HasChain, DataAt, AllFree, Untouched, chain_of, entered, fetch-some}
use unp_and_apue3e.Db.Free.{HasFree, FreeBut-unlocked}
use unp_and_apue3e.Db.Insert.{FreeBut-lock, AllFree-unlock}
use unp_and_apue3e.Db.Append.{new_entry, linked, append_record-ok, front-HasChain, DataAt-appended}
use unp_and_apue3e.Db.Without.{without, ptr_without}
use unp_and_apue3e.Db.Spread.{Spread}
use unp_and_apue3e.Db.Unlink.{blanks, idx_unlinked, at_e, off_fits, length-unlinked}
use unp_and_apue3e.Db.Unlinked.{unlinked-HasChain, head-unlinked}
use unp_and_apue3e.Db.Dodelete.{deleted, dodelete-ok}
use unp_and_apue3e.Db.Delete.{DataAt-inside, length-wiped}
use unp_and_apue3e.Db.Replace.{DataFits, db_store-over, replaces}

module _ (lim : Limits) (sane : Sane lim) (s : Db) (key text : Bytes) (es fs : List Entry)
    (h : HasChain lim s key es) (free : HasFree lim s fs) (sp : Spread s es fs)
    (locks : AllFree s.held) {prev : ℕ} {e : Entry}
    (found : search_key key (chain_of s key) es ≡ some (prev, e)) (old : Bytes)
    (had : DataAt s.dat.bytes e old) (other_len : length text ≢ length old)
    (limits : DataFits lim text) (no_nul : NoChar 0 text) (small : length s.idx.bytes ≤ ptr_max)
    (fits : Fits lim (new_entry s key text (ptr_without key h.first es))) where
  abbrev first : ℕ
  first = ptr_without key h.first es

  abbrev u : Db
  u = walked (entered s key write_lock) key es

  abbrev d : Db
  d = deleted u prev e free.first

  same : SameFiles (entered s key write_lock) u
  same = walked-SameFiles (entered s key write_lock) key es

  located : Located u prev e
  located = walked-Located es (entered s key write_lock) key (chain_of s key) prev e refl found

  d_idx : d.idx.bytes ≡ idx_unlinked s.idx.bytes prev free.first e
  d_idx = ap (λ b. idx_unlinked b prev free.first e) same.idx_bytes

  d_length : length d.idx.bytes ≡ length s.idx.bytes
  d_length = ap length d_idx ∙ length-unlinked lim sane s key es fs h free sp found

  wiped_inside : e.datoff + length (blanks (e.datlen - 1) ++ newline ∷ []) ≤ length u.dat.bytes
  wiped_inside = omega (
    arith,
    length-wiped lim sane s key es h locks fs free sp found,
    DataAt-inside s.dat.bytes e old had,
    ap (λ f. length f.bytes) same.same_dat,
  )

  d_dat_length : length d.dat.bytes ≡ length s.dat.bytes
  d_dat_length =
      length-overwrite_inside u.dat.bytes e.datoff (blanks (e.datlen - 1) ++ newline ∷ [])
        wiped_inside
      ∙ ap (λ f. length f.bytes) same.same_dat

  d-HasChain : HasChain lim d key (without key es)
  d-HasChain =
      unlinked-HasChain lim sane s key es fs h free sp found d d_idx same.same_nhash
        same.same_hashoff

  abbrev e_new : Entry
  e_new = new_entry s key text first

  -- Before the append, and behind it.
  abbrev v : Db
  v = at_idx d (d.chainoff + 7)

  v_new : new_entry v key text first ≡ e_new
  v_new = rw (d_length, d_dat_length) refl

  abbrev grown : Db
  grown =
      let t = linked v key text first in
      record t { counts = record t.counts { stor3 = t.counts.stor3 + 1 } }

  abbrev result : Db
  result = record grown { held = set_region grown.held idx grown.chainoff 1 none }

  not_len : length text + 1 ≢ u.datlen
  not_len q = other_len (omega (arith, located.at_datlen, had.len))

  over_lem : store_over lim key text u ≡ ok done grown
  unfolding store_over
  over_lem = rw (
    ne→== (length text + 1) u.datlen not_len,
    dodelete-ok lim u prev e (at_e lim sane s key es fs h free sp found).fits
        (off_fits lim sane s key es fs h free sp found) free.first (rw same.idx_bytes free.head)
        located,
    readptr-ok d d.chainoff first
        (rw (d_idx, same.same_chain) (head-unlinked lim sane s key es fs h free sp found)),
    append_record-ok lim v key text first (rw v_new fits) (rw d_length small),
  )

  at_lem : chain_of d key ≡ chain_of s key
  at_lem = rw (same.same_nhash, same.same_hashoff) refl

  next_lem : first ≡ d-HasChain.first
  next_lem =
      PtrAt-unique d.idx.bytes (chain_of s key) first d-HasChain.first
        (rw d_idx (head-unlinked lim sane s key es fs h free sp found))
        (subst (λ o. PtrAt d.idx.bytes o d-HasChain.first) at_lem d-HasChain.head)

  result_bytes :
      result.idx.bytes
      ≡ overwrite
          (overwrite d.idx.bytes (length d.idx.bytes) (render e_new))
          (chain_of d key)
          (pad_left ptr_sz (length d.idx.bytes))
  result_bytes =
      ap
        (λ x.
          overwrite (overwrite d.idx.bytes (length d.idx.bytes) (render x)) d.chainoff
            (pad_left ptr_sz (length d.idx.bytes)))
        v_new
      ∙ ap
          (λ c.
            overwrite (overwrite d.idx.bytes (length d.idx.bytes) (render e_new)) c
              (pad_left ptr_sz (length d.idx.bytes)))
          (same.same_chain ∙ sym at_lem)

  result-HasChain : HasChain lim result key (e_new ∷ without key es)
  result-HasChain =
      front-HasChain lim sane d key (without key es) d-HasChain e_new fits (sym d_length) next_lem
        (rw d_length small) result result_bytes refl refl

  result-DataAt : DataAt result.dat.bytes e_new text
  result-DataAt =
      subst (λ x. DataAt result.dat.bytes x text) v_new (DataAt-appended v key text first no_nul)

  result-AllFree : AllFree result.held
  result-AllFree = AllFree-unlock grown.held grown.chainoff (
      FreeBut-unlocked _ grown.chainoff idx _ 0 write_lock (
        FreeBut-unlocked _ grown.chainoff dat 0 0 write_lock (
          FreeBut-unlocked u.held grown.chainoff idx free_off 1 write_lock (
            rw (same.same_held, same.same_chain)
              (FreeBut-lock s.held (chain_of s key) write_lock locks)))))

  hit : has_key key es ≡ true
  hit = search_key-has_key es key (chain_of s key) prev e found

  -- Data of another length is stored in a new record, which is the first of the chain; the old
  -- record is not on the chain any more, and only stor3 is counted.
  pub db_store-other_length :
      (flag : Flag)
      → replaces flag ≡ true
      → (t : Db) × (db_store lim key text flag s ≡ ok done t)
        × HasChain lim t key (new_entry s key text (ptr_without key h.first es) ∷ without key es)
        × DataAt t.dat.bytes (new_entry s key text (ptr_without key h.first es)) text
        × AllFree t.held
        × (t.counts ≡ record s.counts { stor3 = s.counts.stor3 + 1 })
  db_store-other_length flag a =
      let bump : Counts → Counts = λ c. record c { stor3 = c.stor3 + 1 } in
      (
        result,
        db_store-over lim sane s key text es h locks limits flag a hit grown over_lem,
        result-HasChain,
        result-DataAt,
        result-AllFree,
        ap bump same.same_counts,
      )

  -- Where the chain of a key is well formed (HasChain) and a record of it has the key, the text has
  -- no NUL and keeps within the limits (DataFits), no byte is locked, the free list is well formed
  -- (HasFree), the records of the chain and of the free list do not overlap (Spread), the data of
  -- the first record with the key stands in the data file (DataAt) and the text is not as long, and
  -- the new record fits the format (Fits) and the index file ends within PTR_MAX, db_store with
  -- DB_REPLACE or DB_STORE returns 0, and fetch of the key behind it returns the text, changes no
  -- file and leaves no byte locked.
  pub fetch-other_length :
      (flag : Flag)
      → replaces flag ≡ true
      → (t w : Db) × (db_store lim key text flag s ≡ ok done t)
        × ((db_store lim key text flag >> fetch lim key) s ≡ ok (some text) w)
        × Untouched t w
  unfolding search_key
  fetch-other_length flag a =
      let stored = db_store-over lim sane s key text es h locks limits flag a hit grown over_lem in
      let (w, eq, kept, c) =
        fetch-some lim sane result key (e_new ∷ without key es) result-HasChain result-AllFree text
          first_hit result-DataAt in
      (result, w, stored, rw stored eq, kept)
    where
      first_hit :
          search_key key (chain_of result key) (e_new ∷ without key es)
          ≡ some (chain_of result key, e_new)
      first_hit = rw (str_eq_refl key)
