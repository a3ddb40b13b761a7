-- ===== src/File.antt =====
-- A regular file under an open descriptor: its bytes and the offset that lseek(2), read(2) and
-- write(2) move. The calls are those of POSIX on a regular file whose device does not fail, so a
-- short count is an end of file and `lseek` fails only at a negative offset.
pub mod Slice
use unp_and_apue3e.Prelude.{
  ℕ, zero, suc, ◌+◌, ◌-◌, Option, none, some, [], ◌∷◌, ◌++◌, leb, if◌then◌else◌, length, take, drop,
  ℤ, pos, negsuc,
}
use unp_and_apue3e.Text.{Bytes}

pub record File : Type 0 where
  pub bytes : Bytes
  pub offset : ℕ

pub data Whence : Type 0 where
  seek_set seek_cur seek_end : Whence

abbrev moved : ℕ → ℤ → Option ℕ
moved base (pos n) = some (base + n)
moved base (negsuc n) = if leb (suc n) base then some (base - suc n) else none

-- The new offset, or `none` where it would be negative.
unfoldable pub lseek : File → ℤ → Whence → Option ℕ
lseek f (pos n) seek_set = some n
lseek f (negsuc n) seek_set = none
lseek f off seek_cur = moved f.offset off
lseek f off seek_end = moved (length f.bytes) off

-- The `n` bytes from offset `o`, fewer at the end of the file.
abbrev pub slice : ℕ → ℕ → Bytes → Bytes
slice o n bs = take n (drop o bs)

-- A write at an offset; a gap behind the old end is filled with NULs.
unfoldable pub overwrite : Bytes → ℕ → Bytes → Bytes
overwrite bs zero d = d ++ drop (length d) bs
overwrite [] (suc o) d = 0 ∷ overwrite [] o d
overwrite (b ∷ bs) (suc o) d = b ∷ overwrite bs o d

unfoldable pub read : File → ℕ → Bytes × File
read f n =
    let got = slice f.offset n f.bytes in
    (got, record { bytes = f.bytes; offset = f.offset + length got })

unfoldable pub write : File → Bytes → File
unfolding overwrite
write f d = record { bytes = overwrite f.bytes f.offset d; offset = f.offset + length d }
