-- ===== src/MemStream/Full.antt =====
-- A write that fills a stream which is open for writing only.
use unp_and_apue3e.Prelude.{
  ◌+◌, ◌-◌, ◌≤◌, ◌≡◌, refl, ◌∙◌, ap, true, false, [], ◌∷◌, arith, length, ◌||◌,
}
use unp_and_apue3e.Text.{Bytes}
use unp_and_apue3e.File.{overwrite, slice}
use unp_and_apue3e.File.Slice.{slice-overwrite_self}
use unp_and_apue3e.MemStream.{
  MemStream, ok, mstream_write, grow, terminate, room_for, copied, write_offset,
}
use unp_and_apue3e.MemStream.Valid.{IsValid}

pub record IsWriteOnly (ms : MemStream) : Type 0 where
  pub not_readable : ms.flags.ms_read ≡ false
  pub writable : ms.flags.ms_write ≡ true
  pub no_append : ms.flags.ms_append ≡ false

grow_full :
    (ms : MemStream)
    → ms.flags.ms_read ≡ false
    → ((grow ms).buf ≡ ms.buf)
      × ((grow ms).curpos ≡ ms.curpos)
      × ((grow ms).rsize ≡ ms.rsize)
      × ((grow ms).flags ≡ ms.flags)
unfolding grow
grow_full ms h = ground arith

terminate_full :
    (ms : MemStream)
    → ms.flags.ms_read ≡ false
    → ms.flags.ms_write ≡ true
    → ms.rsize ≤ ms.curpos
    → (terminate ms).buf ≡ overwrite ms.buf (ms.rsize - 1) (0 ∷ [])
unfolding terminate
terminate_full ms r w h = ground arith

-- A write that just fills a valid stream which is open for writing only, and not for appending,
-- reports each byte as taken, and the last byte of the buffer is then a NUL, whatever the text's
-- last byte is.
pub write_full :
    (ms : MemStream) (text : Bytes)
    → IsValid ms
    → IsWriteOnly ms
    → ms.curpos + length text ≡ ms.rsize
    → ((mstream_write ms text).0 ≡ ok (length text))
      × (slice (ms.rsize - 1) 1 (mstream_write ms text).1.buf ≡ 0 ∷ [])
unfolding mstream_write
write_full ms text v w full =
    let g = grow_full (copied ms text) w.not_readable in
    let open_for : (ms.flags.ms_append || ms.flags.ms_write) ≡ true =
      let a = w.writable in ground arith in
    let na = w.no_append in
    let off : write_offset ms ≡ ms.curpos = ground arith in
    let room : room_for ms text ≡ length text = ground arith in
    rw open_for (
      ap ok room,
      ap (slice (ms.rsize - 1) 1) (
            terminate_full (grow (copied ms text)) (ap (λ f. f.ms_read) g.3 ∙ w.not_readable)
              (ap (λ f. f.ms_write) g.3 ∙ w.writable) (omega (arith, full, off, room, g.1, g.2)))
          ∙ rw g.2
              (slice-overwrite_self (grow (copied ms text)).buf (ms.rsize - 1) (0 ∷ []) 1 refl),
    )
