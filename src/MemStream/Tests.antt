-- ===== src/MemStream/Tests.antt =====
-- The theorems about the memory stream at concrete streams.
use unp_and_apue3e.Prelude.{◌≡◌, refl, true, some, [], ◌∷◌, arith, take, pos}
use unp_and_apue3e.File.{slice, seek_set}
use unp_and_apue3e.MemStream.{
  no_flags, MemStream, ok, type_to_flags, type_loop, type_step, fmemopen, mstream_read,
  mstream_write, mstream_seek, room_for,
}
use unp_and_apue3e.MemStream.Valid.{IsValid, mstream_write-IsValid, read-write}
use unp_and_apue3e.MemStream.Full.{write_full}

-- Open with "r+" over four bytes.
abbrev update : MemStream
update = record {
  buf = 1 ∷ 2 ∷ 3 ∷ 4 ∷ [];
  rsize = 4;
  vsize = 4;
  curpos = 1;
  flags = record no_flags { ms_read = true; ms_write = true };
}

update-IsValid : IsValid update
update-IsValid = record {
  size = refl;
  pos_le = omega arith;
  vsize_le = omega arith;
  nonempty = omega arith;
}

read-write_example :
    (mstream_read
      (mstream_seek (mstream_write update (7 ∷ 8 ∷ [])).1 (pos 1) seek_set).1
      (room_for update (7 ∷ 8 ∷ []))).0
    ≡ ok (take (room_for update (7 ∷ 8 ∷ [])) (7 ∷ 8 ∷ []))
read-write_example =
    read-write update (7 ∷ 8 ∷ []) update-IsValid
      (record { readable = refl; writable = refl; no_append = refl })

mstream_write-IsValid_example : IsValid (mstream_write update (7 ∷ 8 ∷ 9 ∷ 10 ∷ [])).1
mstream_write-IsValid_example = mstream_write-IsValid update (7 ∷ 8 ∷ 9 ∷ 10 ∷ []) update-IsValid

-- Open with "w" over three bytes.
abbrev fresh : MemStream
fresh = record {
  buf = 1 ∷ 2 ∷ 3 ∷ [];
  rsize = 3;
  vsize = 0;
  curpos = 0;
  flags = record no_flags { ms_write = true; ms_truncate = true };
}

opened : fmemopen (0 ∷ 0 ∷ 0 ∷ []) (some (1 ∷ 2 ∷ 3 ∷ [])) 3 (b'w' ∷ []) ≡ ok fresh
unfolding fmemopen type_to_flags type_loop type_step
opened = refl

write_full_example :
    ((mstream_write fresh (7 ∷ 8 ∷ 9 ∷ [])).0 ≡ ok 3)
    × (slice 2 1 (mstream_write fresh (7 ∷ 8 ∷ 9 ∷ [])).1.buf ≡ 0 ∷ [])
write_full_example =
    write_full fresh (7 ∷ 8 ∷ 9 ∷ [])
      (record { size = refl; pos_le = omega arith; vsize_le = omega arith; nonempty = omega arith })
      (record { not_readable = refl; writable = refl; no_append = refl }) refl
