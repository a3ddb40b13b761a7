-- ===== src/Db/Pointer.antt =====
-- The pointer fields of the index file: what readptr and writeptr do with them.
use unp_and_apue3e.Prelude.{
  ℕ, ◌+◌, ◌≤◌, ◌≡◌, sym, ◌∙◌, ap, [], append-nil, arith, length, pos, ◌⊎◌, inl, inr,
}
use unp_and_apue3e.Text.{Bytes, atol, pad_left}
use unp_and_apue3e.Text.Number.{atol-pad_left, length-pad_left}
use unp_and_apue3e.File.{slice, overwrite, write, read, lseek}
use unp_and_apue3e.File.Slice.{slice-overwrite_self, slice-overwrite_before, slice-overwrite_after}
use unp_and_apue3e.Db.State.{Db, ok, ◌>>◌, ptr_sz, ptr_max}
use unp_and_apue3e.Db.Record.{seek, get_bytes, put_bytes, readptr, writeptr}

-- The handle with the index file at an offset, and after a write at an offset.
abbrev pub at_idx : Db → ℕ → Db
at_idx s o = record s { idx = record { bytes = s.idx.bytes; offset = o } }

abbrev pub put_idx : Db → ℕ → Bytes → Db
put_idx s o d = record s {
  idx = record { bytes = overwrite s.idx.bytes o d; offset = o + length d };
}

-- A pointer field at `o` that holds `v`.
pub record PtrAt (bs : Bytes) (o v : ℕ) : Type 0 where
  pub fits : v ≤ ptr_max
  pub text : slice o ptr_sz bs ≡ pad_left ptr_sz v

pub length-ptr : (v : ℕ) → v ≤ ptr_max → length (pad_left ptr_sz v) ≡ 7
length-ptr v h = length-pad_left 6 v (omega arith)

pub atol-pad : (w v : ℕ) → atol (pad_left w v) ≡ pos v
atol-pad w v = ap atol (sym (append-nil (pad_left w v))) ∙ atol-pad_left w v [] tt

pub readptr-ok :
    (s : Db) (o v : ℕ) → PtrAt s.idx.bytes o v → readptr (pos o) s ≡ ok (pos v) (at_idx s (o + 7))
unfolding readptr seek get_bytes lseek read
readptr-ok s o v p = rw (p.text, length-ptr v p.fits, atol-pad ptr_sz v)

pub writeptr-ok :
    (s : Db) (o v : ℕ)
    → v ≤ ptr_max
    → writeptr (pos o) (pos v) s ≡ ok tt (put_idx s o (pad_left ptr_sz v))
unfolding writeptr seek put_bytes lseek write
writeptr-ok s o v h = ground arith

-- A field holds one value.
pub PtrAt-unique : (bs : Bytes) (o v w : ℕ) → PtrAt bs o v → PtrAt bs o w → v ≡ w
PtrAt-unique bs o v w p q =
    let same : pos v ≡ pos w =
      sym (atol-pad ptr_sz v) ∙ ap atol (sym p.text ∙ q.text) ∙ atol-pad ptr_sz w in
    cc

pub PtrAt-overwrite_self :
    (bs : Bytes) (o v : ℕ) → v ≤ ptr_max → PtrAt (overwrite bs o (pad_left ptr_sz v)) o v
PtrAt-overwrite_self bs o v h = record {
  fits = h;
  text = slice-overwrite_self bs o (pad_left ptr_sz v) ptr_sz (sym (length-ptr v h));
}

-- A write that spares a pointer field leaves it.
pub PtrAt-overwrite_apart :
    (bs : Bytes) (o : ℕ) (d : Bytes) {p v : ℕ}
    → o ≤ length bs
    → (p + 7 ≤ o) ⊎ (o + length d ≤ p)
    → PtrAt bs p v
    → PtrAt (overwrite bs o d) p v
PtrAt-overwrite_apart bs o d {p} le (inl before) h = record {
  fits = h.fits;
  text = slice-overwrite_before bs o d p ptr_sz before le ∙ h.text;
}
PtrAt-overwrite_apart bs o d {p} le (inr after) h = record {
  fits = h.fits;
  text = slice-overwrite_after bs o d p ptr_sz after le ∙ h.text;
}

-- For a value up to PTR_MAX, readptr at the offset that writeptr wrote the value to returns it, and
-- nothing but the seven bytes of the field and the file offset changes.
pub readptr-writeptr :
    (s : Db) (o v : ℕ)
    → v ≤ ptr_max
    → (writeptr (pos o) (pos v) >> readptr (pos o)) s ≡ ok (pos v) (put_idx s o (pad_left ptr_sz v))
readptr-writeptr s o v h = rw (
  writeptr-ok s o v h,
  readptr-ok (put_idx s o (pad_left ptr_sz v)) o v (PtrAt-overwrite_self s.idx.bytes o v h),
  length-ptr v h,
)
