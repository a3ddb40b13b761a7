-- ===== src/Db/Append.antt =====
-- A new record at the ends of the two files: _db_writedat, _db_writeidx and _db_writeptr as
-- db_store of more01/apue.3e/db/db.c calls them.
use unp_and_apue3e.Prelude.{
  ap, ◌∙◌, ◌⊎◌, inl, inr, ℕ, ◌+◌, ◌≤◌, ◌<◌, ◌≡◌, ◌≢◌, refl, sym, some, none, List, [], ◌∷◌, ◌++◌,
  arith, length, length-append, All, pos, All-map,
}
use native.Mathlib.Nat.{add-zero}
use native.Mathlib.Decide.{dec_lt}
use mathlib.Core.Path.{subst⁻¹}
use unp_and_apue3e.Text.{Bytes, pad_left}
use unp_and_apue3e.Text.Chars.{NoChar}
use unp_and_apue3e.File.{seek_end, overwrite, lseek, write}
use unp_and_apue3e.File.Slice.{
  slice-overwrite_self, slice-overwrite_before, length-overwrite_end, length-overwrite_inside,
}
use unp_and_apue3e.Db.State.{
  Limits, Db, ok, lock, unlock, set_region, write_lock, dat, ptr_sz, ptr_max, newline,
}
use unp_and_apue3e.Db.Record.{seek, put_bytes, writedat}
use unp_and_apue3e.Db.Ops.{append_record, link_front}
use unp_and_apue3e.Db.Pointer.{
  PtrAt, PtrAt-overwrite_self, PtrAt-overwrite_apart, put_idx, writeptr-ok, length-ptr,
}
use unp_and_apue3e.Db.Entry.{Entry, Fits, render, length-render}
use unp_and_apue3e.Db.Readidx.{Sane, appended, writeidx-end, EntryAt-overwrite_self}
use unp_and_apue3e.Db.Chain.{IsChain}
use unp_and_apue3e.Db.Fetch.{HasChain, DataAt, chain_of, table_end, offsets}
use unp_and_apue3e.Db.Frame.{
  slice_inside, PtrAt-inside, chain_of-le, IsChain-overwrite, Apart-end, Apart-before,
}

-- Behind the append of a data record.
abbrev pub dat_appended : Db → Bytes → Db
dat_appended s text = record s {
  dat = record {
    bytes = overwrite s.dat.bytes (length s.dat.bytes) (text ++ newline ∷ []);
    offset = length s.dat.bytes + length (text ++ newline ∷ []);
  };
  datoff = length s.dat.bytes;
  datlen = length text + 1;
  held = set_region (set_region s.held dat 0 0 (some write_lock)) dat 0 0 none;
}

writedat-end :
    (s : Db) (text : Bytes) → writedat text (pos 0) seek_end s ≡ ok tt (dat_appended s text)
unfolding writedat seek lseek put_bytes write lock unlock
writedat-end s text = rw add-zero

-- The record that is appended for a key and a text.
abbrev pub new_entry : Db → Bytes → Bytes → ℕ → Entry
new_entry s key text first = record {
  off = length s.idx.bytes;
  ptr = first;
  key = key;
  datoff = length s.dat.bytes;
  datlen = length text + 1;
}

-- Behind the append of both records, with the new one at the front of its chain.
abbrev pub linked : Db → Bytes → Bytes → ℕ → Db
linked s key text first =
    put_idx (appended (dat_appended s text) (new_entry s key text first)) s.chainoff
      (pad_left ptr_sz (length s.idx.bytes))

pub append_record-ok :
    (lim : Limits) (s : Db) (key text : Bytes) (first : ℕ)
    → Fits lim (new_entry s key text first)
    → length s.idx.bytes ≤ ptr_max
    → append_record lim key text (pos first) s ≡ ok tt (linked s key text first)
unfolding append_record link_front
append_record-ok lim s key text first f small =
    rw (writedat-end s text, writeidx-end lim (dat_appended s text) key first f)
      (writeptr-ok (appended (dat_appended s text) (new_entry s key text first)) s.chainoff
        (length s.idx.bytes) small)

-- The index file behind the append.
abbrev idx_after : Bytes → ℕ → Entry → Bytes
idx_after bs c e = overwrite (overwrite bs (length bs) (render e)) c (pad_left ptr_sz (length bs))

module _ (lim : Limits) (sane : Sane lim) (s : Db) (key : Bytes) (es : List Entry)
    (h : HasChain lim s key es) (e : Entry) (f : Fits lim e) (end : e.off ≡ length s.idx.bytes)
    (next : e.ptr ≡ h.first) (small : length s.idx.bytes ≤ ptr_max) where
  old_len : length s.idx.bytes ≤ length (overwrite s.idx.bytes (length s.idx.bytes) (render e))
  old_len = omega (arith, length-overwrite_end s.idx.bytes (length s.idx.bytes) (render e) refl)

  new_len : length s.idx.bytes < length (idx_after s.idx.bytes (chain_of s key) e)
  new_len =
      let inside = PtrAt-inside s.idx.bytes (chain_of s key) h.first h.head in
      omega (
        arith,
        length-overwrite_end s.idx.bytes (length s.idx.bytes) (render e) refl,
        length-overwrite_inside (overwrite s.idx.bytes (length s.idx.bytes) (render e))
            (chain_of s key) (pad_left ptr_sz (length s.idx.bytes))
            (omega (arith, old_len, length-ptr (length s.idx.bytes) small)),
        length-render lim e f sane.four_digits,
      )

  -- What is written at the head of the chain is before each record.
  head_before : chain_of s key + length (pad_left ptr_sz (length s.idx.bytes)) ≤ table_end s
  head_before = omega (arith, chain_of-le s key h.some_table, length-ptr (length s.idx.bytes) small)

  head_inside : chain_of s key ≤ length (overwrite s.idx.bytes (length s.idx.bytes) (render e))
  head_inside = let t = h.table_inside in omega (arith, head_before, old_len)

  past_all : All (λ o. table_end s ≤ o) (offsets (e ∷ es))
  past_all = (let t = h.table_inside in omega arith, h.past)

  IsChain-after :
      IsChain lim (idx_after s.idx.bytes (chain_of s key) e) (length s.idx.bytes) (e ∷ es)
  IsChain-after =
      IsChain-overwrite lim sane (overwrite s.idx.bytes (length s.idx.bytes) (render e))
        (chain_of s key) (pad_left ptr_sz (length s.idx.bytes)) (length s.idx.bytes) (e ∷ es)
        head_inside
        (Apart-before (chain_of s key) (table_end s) (pad_left ptr_sz (length s.idx.bytes)) (e ∷ es)
          head_before past_all)
        (
          sym end,
          (let t = h.table_inside in
              omega (arith, head_before, length-ptr (length s.idx.bytes) small)),
          rw (← end) (EntryAt-overwrite_self lim s.idx.bytes e f),
          rw next (
              IsChain-overwrite lim sane s.idx.bytes (length s.idx.bytes) (render e) h.first es
                (omega arith) (Apart-end lim sane s.idx.bytes (render e) h.first es h.chain)
                h.chain),
        )

  fresh : All (λ o. e.off ≢ o) (offsets es)
  fresh = All-map (offsets es) (λ o lt eq. omega arith) h.inside

  inside_all : All (λ o. o < length (idx_after s.idx.bytes (chain_of s key) e)) (offsets (e ∷ es))
  inside_all =
      (omega (arith, new_len), All-map (offsets es) (λ x lt. omega (arith, new_len)) h.inside)

  -- The new record stands at the front of the chain.
  pub front-HasChain :
      (t : Db)
      → t.idx.bytes ≡ idx_after s.idx.bytes (chain_of s key) e
      → t.nhash ≡ s.nhash
      → t.hashoff ≡ s.hashoff
      → HasChain lim t key (e ∷ es)
  front-HasChain t b n o =
      let ends : table_end t ≡ table_end s = rw (n, o) refl in
      let at : chain_of t key ≡ chain_of s key = rw (n, o) refl in
      record {
        first = length s.idx.bytes;
        head = rw (b, at) (PtrAt-overwrite_self _ (chain_of s key) (length s.idx.bytes) small);
        chain = subst⁻¹ (λ x. IsChain lim x (length s.idx.bytes) (e ∷ es)) b IsChain-after;
        inside = subst⁻¹ (λ x. All (λ p. p < length x) (offsets (e ∷ es))) b inside_all;
        distinct = (fresh, h.distinct);
        some_table = rw n h.some_table;
        table_inside = rw (b, ends) (let i = h.table_inside in omega (arith, new_len));
        past = subst⁻¹ (λ x. All (λ p. x ≤ p) (offsets (e ∷ es))) ends past_all;
      }

  -- Another pointer of the table stands beside the one that is written.
  beside :
      (other : Bytes)
      → chain_of s other ≢ chain_of s key
      → (chain_of s other + 7 ≤ chain_of s key)
        ⊎ (chain_of s key + length (pad_left ptr_sz (length s.idx.bytes)) ≤ chain_of s other)
  beside other ne = elim (dec_lt (chain_of s other) (chain_of s key)) [
    | yes lt ↦ inl (omega arith)
    | no ge ↦ inr (omega (arith, length-ptr (length s.idx.bytes) small))
  ]

  other_head :
      (other : Bytes) (first : ℕ)
      → PtrAt s.idx.bytes (chain_of s other) first
      → chain_of s other ≢ chain_of s key
      → PtrAt (idx_after s.idx.bytes (chain_of s key) e) (chain_of s other) first
  other_head other first p ne =
      PtrAt-overwrite_apart (overwrite s.idx.bytes (length s.idx.bytes) (render e)) (chain_of s key)
        (pad_left ptr_sz (length s.idx.bytes)) head_inside (beside other ne)
        (PtrAt-overwrite_apart s.idx.bytes (length s.idx.bytes) (render e) (omega arith)
          (inl (PtrAt-inside s.idx.bytes (chain_of s other) first p)) p)

  other-IsChain :
      (first : ℕ) (os : List Entry)
      → IsChain lim s.idx.bytes first os
      → All (λ o. table_end s ≤ o) (offsets os)
      → IsChain lim (idx_after s.idx.bytes (chain_of s key) e) first os
  other-IsChain first os c p =
      IsChain-overwrite lim sane (overwrite s.idx.bytes (length s.idx.bytes) (render e))
        (chain_of s key) (pad_left ptr_sz (length s.idx.bytes)) first os head_inside
        (Apart-before (chain_of s key) (table_end s) (pad_left ptr_sz (length s.idx.bytes)) os
          head_before p)
        (IsChain-overwrite lim sane s.idx.bytes (length s.idx.bytes) (render e) first os
          (omega arith) (Apart-end lim sane s.idx.bytes (render e) first os c) c)

  -- The chain of another pointer of the table is as it was.
  pub others-HasChain :
      (other : Bytes) (os : List Entry) (t : Db)
      → HasChain lim s other os
      → chain_of s other ≢ chain_of s key
      → t.idx.bytes ≡ idx_after s.idx.bytes (chain_of s key) e
      → t.nhash ≡ s.nhash
      → t.hashoff ≡ s.hashoff
      → HasChain lim t other os
  others-HasChain other os t ho ne b n o =
      let ends : table_end t ≡ table_end s = rw (n, o) refl in
      let at : chain_of t other ≡ chain_of s other = rw (n, o) refl in
      record {
        first = ho.first;
        head = rw (b, at) (other_head other ho.first ho.head ne);
        chain =
            subst⁻¹ (λ x. IsChain lim x ho.first os) b (other-IsChain ho.first os ho.chain ho.past);
        inside =
            subst⁻¹ (λ x. All (λ p. p < length x) (offsets os)) b
              (All-map (offsets os) (λ x lt. omega (arith, new_len)) ho.inside);
        distinct = ho.distinct;
        some_table = rw n ho.some_table;
        table_inside = rw (b, ends) (let i = h.table_inside in omega (arith, new_len));
        past = subst⁻¹ (λ x. All (λ p. x ≤ p) (offsets os)) ends ho.past;
      }

-- The new data.
pub DataAt-appended :
    (s : Db) (key text : Bytes) (first : ℕ)
    → NoChar 0 text
    → DataAt (linked s key text first).dat.bytes (new_entry s key text first) text
DataAt-appended s key text first n = record {
  no_nul = n;
  len = refl;
  text_at =
      slice-overwrite_self s.dat.bytes (length s.dat.bytes) (text ++ newline ∷ []) (length text + 1)
        (sym (length-append text (newline ∷ [])));
}

-- The data that was there before.
pub DataAt-end :
    (bs d : Bytes) (e : Entry) (text : Bytes)
    → DataAt bs e text
    → DataAt (overwrite bs (length bs) d) e text
DataAt-end bs d e text a = record {
  no_nul = a.no_nul;
  len = a.len;
  text_at =
      slice-overwrite_before bs (length bs) d e.datoff e.datlen
        (slice_inside bs e.datoff e.datlen (let l = a.len in omega arith)
          (ap length a.text_at ∙ length-append text (newline ∷ []) ∙ sym a.len))
        (omega arith)
      ∙ a.text_at;
}
