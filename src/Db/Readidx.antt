-- ===== src/Db/Readidx.antt =====
-- _db_readidx and _db_writeidx of more01/apue.3e/db/db.c on whole records.
use unp_and_apue3e.Prelude.{
  ℕ, ◌+◌, ◌*◌, some, none, ◌≤◌, ◌<◌, ◌≡◌, refl, sym, ◌∙◌, ap, true, ◌&&◌, ◌++◌, append_assoc, arith,
  leb, length, take, drop, take-append, take-take, drop-take, drop-drop, drop-append, pos,
  length-append, ne→==,
}
use unp_and_apue3e.Text.{Bytes, atol, pad_left}
use native.Mathlib.Nat.{add-zero}
use unp_and_apue3e.File.Slice.{slice-overwrite_self}
use unp_and_apue3e.File.{seek_set, seek_end, slice, overwrite, read, write, lseek}
use unp_and_apue3e.Db.State.{
  Limits, Db, ok, ◌>>◌, lock, unlock, set_region, write_lock, idx, ptr_sz, ptr_max, idxlen_sz,
}
use unp_and_apue3e.Db.Record.{seek, get_bytes, put_bytes, readidx, writeidx}
use unp_and_apue3e.Db.Pointer.{atol-pad, length-ptr}
use unp_and_apue3e.Db.Entry.{
  Entry, Fits, EntryAt, text_of, render, loaded, read_body-ok, length-render, header_length,
}

abbrev head_of : Entry → Bytes
head_of e = pad_left ptr_sz e.ptr ++ pad_left idxlen_sz (length (text_of e))

-- What the proofs need of the constants that apue_db.h sets: a record is not empty, and its length
-- prints in four characters.
pub record Sane (lim : Limits) : Type 0 where
  pub nonempty : 0 < lim.idxlen_min
  pub four_digits : lim.idxlen_max ≤ 9999

module _ (lim : Limits) (sane : Sane lim) where
  head_length : (e : Entry) → Fits lim e → length (head_of e) ≡ 11
  head_length e f = omega (
    arith,
    length-append (pad_left ptr_sz e.ptr) (pad_left idxlen_sz (length (text_of e))),
    length-ptr e.ptr f.fits_ptr,
    header_length lim e f sane.four_digits,
  )

  render_split : (e : Entry) → render e ≡ head_of e ++ text_of e
  render_split e =
      sym
        (append_assoc (pad_left ptr_sz e.ptr) (pad_left idxlen_sz (length (text_of e))) (text_of e))

  module _ (bs : Bytes) (e : Entry) (at : EntryAt lim bs e) where
    slice_head : slice e.off 11 bs ≡ head_of e
    slice_head =
        sym (
          take-take 11 (length (render e)) (drop e.off bs)
            (omega (arith, length-render lim e at.fits sane.four_digits)))
        ∙ ap (take 11) (at.text ∙ render_split e)
        ∙ take-append (head_of e) (text_of e) 11 (sym (head_length e at.fits))

    slice_text : slice (e.off + 11) (length (text_of e)) bs ≡ text_of e
    slice_text =
        ap (take (length (text_of e))) (sym (drop-drop 11 e.off (e.off + 11) bs refl))
        ∙ sym (
            drop-take 11 (length (text_of e)) (length (render e)) (drop e.off bs)
              (length-render lim e at.fits sane.four_digits))
        ∙ ap (drop 11) (at.text ∙ render_split e)
        ∙ drop-append (head_of e) (text_of e) 11 (sym (head_length e at.fits))

  -- readidx at the offset of a record.
  pub readidx-ok :
      (s : Db) (e : Entry)
      → EntryAt lim s.idx.bytes e
      → 0 < e.off
      → readidx lim (pos e.off) s ≡ ok (pos e.ptr) (loaded s e)
  unfolding readidx seek lseek get_bytes read
  readidx-ok s e at p =
      rw (ne→== e.off 0 (omega arith), slice_head s.idx.bytes e at, head_length e at.fits)
        (read_body-ok lim _ e at.fits sane.nonempty (slice_text s.idx.bytes e at) (head_of e)
            head_ptr head_len
          ∙ ap
              (λ o.
                ok (pos e.ptr)
                  (record (loaded s e) { idx = record { bytes = s.idx.bytes; offset = o } }))
              (omega (arith, length-render lim e at.fits sane.four_digits)))
    where
      seven : 7 ≡ length (pad_left ptr_sz e.ptr)
      seven = sym (length-ptr e.ptr at.fits.fits_ptr)

      head_ptr : atol (take ptr_sz (head_of e)) ≡ pos e.ptr
      head_ptr = ap atol (take-append (pad_left ptr_sz e.ptr) _ 7 seven) ∙ atol-pad ptr_sz e.ptr

      head_len : atol (drop ptr_sz (head_of e)) ≡ pos (length (text_of e))
      head_len =
          ap atol (drop-append (pad_left ptr_sz e.ptr) _ 7 seven)
          ∙ atol-pad idxlen_sz (length (text_of e))

-- The record that writeidx writes, and the handle behind it.
abbrev pub entry_of : Db → Bytes → ℕ → ℕ → Entry
entry_of s key off ptr = record {
  off = off;
  ptr = ptr;
  key = key;
  datoff = s.datoff;
  datlen = s.datlen;
}

abbrev pub wrote : Db → Entry → Db
wrote s e = record s {
  idx = record {
    bytes = overwrite s.idx.bytes e.off (render e);
    offset = e.off + length (render e);
  };
  idxbuf = text_of e;
  idxoff = e.off;
  ptrval = pos e.ptr;
}

-- Behind an append: the region of the records was locked and is unlocked.
abbrev pub appended : Db → Entry → Db
appended s e =
    let start = (s.nhash + 1) * ptr_sz + 1 in
    record (wrote s e) {
      held = set_region (set_region s.held idx start 0 (some write_lock)) idx start 0 none;
    }

module _ (lim : Limits) (s : Db) (key : Bytes) where
  in_limits :
      (e : Entry)
      → Fits lim e
      → (leb lim.idxlen_min (length (text_of e)) && leb (length (text_of e)) lim.idxlen_max) ≡ true
  in_limits e f = let lo = f.long_enough in let hi = f.short_enough in ground arith

  ptr_in_limits : (v : ℕ) → v ≤ ptr_max → (leb 0 v && leb v ptr_max) ≡ true
  ptr_in_limits v h = ground arith

  pub writeidx-set :
      (o v : ℕ)
      → Fits lim (entry_of s key o v)
      → writeidx lim key (pos o) seek_set (pos v) s ≡ ok tt (wrote s (entry_of s key o v))
  unfolding writeidx seek lseek put_bytes write
  writeidx-set o v f = rw (ptr_in_limits v f.fits_ptr, in_limits (entry_of s key o v) f)

  pub writeidx-end :
      (v : ℕ)
      → Fits lim (entry_of s key (length s.idx.bytes) v)
      → writeidx lim key (pos 0) seek_end (pos v) s
        ≡ ok tt (appended s (entry_of s key (length s.idx.bytes) v))
  unfolding writeidx seek lseek put_bytes write lock unlock
  writeidx-end v f =
      rw (ptr_in_limits v f.fits_ptr, in_limits (entry_of s key (length s.idx.bytes) v) f, add-zero)

pub EntryAt-overwrite_self :
    (lim : Limits) (bs : Bytes) (e : Entry)
    → Fits lim e
    → EntryAt lim (overwrite bs e.off (render e)) e
EntryAt-overwrite_self lim bs e f = record {
  fits = f;
  text = slice-overwrite_self bs e.off (render e) (length (render e)) refl;
}

-- Where the record that writeidx is asked to append fits the format (Fits) and the index file is
-- not empty, readidx at the old end of the file returns the chain pointer that was written and
-- loads the key, the offset and length of the data and the length of the record; the index file is
-- then unlocked from the records on.
pub readidx-writeidx :
    (lim : Limits)
    → Sane lim
    → (s : Db) (key : Bytes) (v : ℕ) → Fits lim (entry_of s key (length s.idx.bytes) v)
    → 0 < length s.idx.bytes
    → (writeidx lim key (pos 0) seek_end (pos v) >> readidx lim (pos (length s.idx.bytes))) s
      ≡ ok (pos v) (
          loaded
            (appended s (entry_of s key (length s.idx.bytes) v))
            (entry_of s key (length s.idx.bytes) v))
readidx-writeidx lim sane s key v f p =
    let e = entry_of s key (length s.idx.bytes) v in
    rw (writeidx-end lim s key v f)
      (readidx-ok lim sane (appended s e) e (EntryAt-overwrite_self lim s.idx.bytes e f) p)
