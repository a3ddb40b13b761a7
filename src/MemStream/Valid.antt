-- ===== src/MemStream/Valid.antt =====
-- The bounds that every call on a memory stream keeps.
use unp_and_apue3e.Prelude.{
  ℕ, zero, suc, ◌+◌, ◌-◌, ◌≤◌, ◌<◌, ◌≡◌, refl, ap, Bool-cases, inl, inr, Option, true, false, ◌||◌,
  none, some, [], ◌∷◌, arith, length, take, length-take, ℤ, pos, sym, ◌∙◌,
}
use unp_and_apue3e.Text.{Bytes}
use unp_and_apue3e.File.{Whence, overwrite, slice, seek_set}
use unp_and_apue3e.File.Slice.{
  length-overwrite_inside, slice-overwrite_self, slice-overwrite_before,
}
use unp_and_apue3e.MemStream.{
  MemStream, ok, find_end, fmemopen, mstream_read, mstream_write, mstream_seek, grow, terminate,
  write_offset, room_for, copied,
}

-- The positions stand in order inside the buffer.
pub record IsValid (ms : MemStream) : Type 0 where
  pub size : length ms.buf ≡ ms.rsize
  pub pos_le : ms.curpos ≤ ms.vsize
  pub vsize_le : ms.vsize ≤ ms.rsize
  pub nonempty : 0 < ms.rsize

find_end-le : (s : Bytes) (off : ℕ) → find_end s off ≤ off + length s
unfolding find_end
find_end-le [] off = omega arith
find_end-le (c ∷ s) off = ground (arith, find_end-le s (off + 1))

pub mstream_read-IsValid : (ms : MemStream) (len : ℕ) → IsValid ms → IsValid (mstream_read ms len).1
unfolding mstream_read
mstream_read-IsValid ms len v = ground arith

pub mstream_seek-IsValid :
    (ms : MemStream) (p : ℤ) (from : Whence) → IsValid ms → IsValid (mstream_seek ms p from).1
unfolding mstream_seek
mstream_seek-IsValid ms p from v = ground arith

-- The buffer behind a one-byte write inside it.
put_size : (b : Bytes) (i c : ℕ) → i < length b → length (overwrite b i (c ∷ [])) ≡ length b
put_size b i c h = length-overwrite_inside b i (c ∷ []) (omega arith)

-- Between the copy and the final touches `curpos` may stand behind `vsize`.
record IsLoose (ms : MemStream) : Type 0 where
  size : length ms.buf ≡ ms.rsize
  pos_le : ms.curpos ≤ ms.rsize
  vsize_le : ms.vsize ≤ ms.rsize
  nonempty : 0 < ms.rsize

grow-IsValid : (ms : MemStream) → IsLoose ms → IsValid (grow ms)
unfolding grow
grow-IsValid ms v = ground (arith, put_size ms.buf ms.curpos 0)

terminate-IsValid : (ms : MemStream) → IsValid ms → IsValid (terminate ms)
unfolding terminate
terminate-IsValid ms v =
    ground (arith, put_size ms.buf ms.curpos 0, put_size ms.buf (ms.rsize - 1) 0)

taken_length :
    (ms : MemStream) (text : Bytes) → length (take (room_for ms text) text) ≡ room_for ms text
taken_length ms text = ground (arith, length-take (room_for ms text) text)

offset_le : (ms : MemStream) → IsValid ms → write_offset ms ≤ ms.rsize
offset_le ms v = ground arith

copy-le :
    (ms : MemStream) (text : Bytes) → IsValid ms → write_offset ms + room_for ms text ≤ ms.rsize
copy-le ms text v = let le = offset_le ms v in ground arith

copied-IsLoose : (ms : MemStream) (text : Bytes) → IsValid ms → IsLoose (copied ms text)
copied-IsLoose ms text v = record {
  size =
      length-overwrite_inside ms.buf (write_offset ms) (take (room_for ms text) text)
        (rw (taken_length ms text, v.size) (copy-le ms text v))
      ∙ v.size;
  pos_le = copy-le ms text v;
  vsize_le = v.vsize_le;
  nonempty = v.nonempty;
}

-- A write keeps a memory stream valid (IsValid): the buffer has its size, and the position stands
-- at most at the virtual size, which is at most the real one.
pub mstream_write-IsValid :
    (ms : MemStream) (text : Bytes) → IsValid ms → IsValid (mstream_write ms text).1
unfolding mstream_write
mstream_write-IsValid ms text v = elim (Bool-cases (ms.flags.ms_append || ms.flags.ms_write)) [
  | inl open_for ↦ rw open_for (terminate-IsValid _ (grow-IsValid _ (copied-IsLoose ms text v)))
  | inr shut ↦ rw shut v
]

-- A stream that fmemopen returns, over a buffer of the stated size or one that malloc returned, is
-- valid.
pub fmemopen-IsValid :
    (fresh : Bytes) (buf : Option Bytes) (size : ℕ) (type : Bytes) {ms : MemStream}
    → length fresh ≡ size
    → ((b : Bytes) → buf ≡ some b → length b ≡ size)
    → fmemopen fresh buf size type ≡ ok ms
    → IsValid ms
unfolding fmemopen
fmemopen-IsValid fresh none size type l m e = ground arith
fmemopen-IsValid fresh (some b) size type l m e =
    ground (arith, m b refl, find_end-le (take size b) 0, length-take size b)

-- Where the stream is open for reading and writing at its position.
pub record IsUpdate (ms : MemStream) : Type 0 where
  pub readable : ms.flags.ms_read ≡ true
  pub writable : ms.flags.ms_write ≡ true
  pub no_append : ms.flags.ms_append ≡ false

grow-slice :
    (ms : MemStream) (o n : ℕ)
    → IsLoose ms
    → o + n ≤ ms.curpos
    → slice o n (grow ms).buf ≡ slice o n ms.buf
unfolding grow
grow-slice ms o n v h = ground (arith, slice-overwrite_before ms.buf ms.curpos (0 ∷ []) o n)

grow-curpos :
    (ms : MemStream)
    → ((grow ms).curpos ≡ ms.curpos) × (ms.curpos ≤ (grow ms).vsize) × ((grow ms).flags ≡ ms.flags)
unfolding grow
grow-curpos ms = ground arith

terminate-readable : (ms : MemStream) → ms.flags.ms_read ≡ true → terminate ms ≡ ms
unfolding terminate
terminate-readable ms h = ground arith

-- A seek inside the stream and a read up to its end.
pub read-seek :
    (w : MemStream) (o n : ℕ)
    → w.flags.ms_read ≡ true
    → o + n ≤ w.vsize
    → (mstream_read (mstream_seek w (pos o) seek_set).1 n).0 ≡ ok (slice o n w.buf)
unfolding mstream_read mstream_seek
read-seek w o zero r h = ground arith
read-seek w o (suc n) r h = ground arith

open_for_writing : (ms : MemStream) → IsUpdate ms → (ms.flags.ms_append || ms.flags.ms_write) ≡ true
open_for_writing ms u = ground arith

update-write :
    (ms : MemStream) (text : Bytes)
    → IsUpdate ms
    → (mstream_write ms text).1 ≡ grow (copied ms text)
unfolding mstream_write
update-write ms text u =
    let (c, le, f) = grow-curpos (copied ms text) in
    rw (open_for_writing ms u)
      (terminate-readable (grow (copied ms text)) (ap (λ g. g.ms_read) f ∙ u.readable))

update_offset : (ms : MemStream) → IsUpdate ms → write_offset ms ≡ ms.curpos
update_offset ms u = rw u.no_append

-- On a valid stream that is open for reading and writing and not for appending, a seek back to
-- where a write began and a read of as many bytes as it took bring those bytes.
pub read-write :
    (ms : MemStream) (text : Bytes)
    → IsValid ms
    → IsUpdate ms
    → (mstream_read
        (mstream_seek (mstream_write ms text).1 (pos ms.curpos) seek_set).1
        (room_for ms text)).0
      ≡ ok (take (room_for ms text) text)
read-write ms text v u =
    let (c, le, f) = grow-curpos (copied ms text) in
    let off = update_offset ms u in
    let loose = copied-IsLoose ms text v in
    rw (update-write ms text u) (
      read-seek (grow (copied ms text)) ms.curpos (room_for ms text)
        (ap (λ g. g.ms_read) f ∙ u.readable) (omega arith)
      ∙ ap ok (
          grow-slice (copied ms text) ms.curpos (room_for ms text) loose (omega arith)
          ∙ ap
              (λ o.
                slice o (room_for ms text)
                  (overwrite ms.buf (write_offset ms) (take (room_for ms text) text)))
              (sym off)
          ∙ slice-overwrite_self ms.buf (write_offset ms) (take (room_for ms text) text)
              (room_for ms text) (sym (taken_length ms text))))
