-- ===== src/MemStream.antt =====
-- The memory stream of more01/apue.3e/exercises/fmemopen.c: fmemopen and the functions that
-- funopen(3) calls back. Positions and sizes are below 2^31, so that `int` holds them.
pub mod Valid
pub mod Mode
pub mod Full
mod Tests
use unp_and_apue3e.Prelude.{
  ℕ, ◌+◌, ◌-◌, Bool, true, false, not, ◌&&◌, ◌||◌, Option, none, some, List, [], ◌∷◌, ltb, leb,
  ◌==◌, if◌then◌else◌, length, take, drop, ℤ, pos, negsuc,
}
use unp_and_apue3e.Text.{Bytes}
use unp_and_apue3e.File.{Whence, seek_set, seek_cur, seek_end, overwrite, slice}

-- The bits MS_READ to MS_MYBUF.
pub record Flags : Type 0 where
  pub ms_read : Bool
  pub ms_write : Bool
  pub ms_append : Bool
  pub ms_truncate : Bool
  pub ms_mybuf : Bool

abbrev pub no_flags : Flags
no_flags = record {
  ms_read = false;
  ms_write = false;
  ms_append = false;
  ms_truncate = false;
  ms_mybuf = false;
}

-- flags != 0
abbrev pub any_flag : Flags → Bool
any_flag f = f.ms_read || f.ms_write || f.ms_append || f.ms_truncate || f.ms_mybuf

pub record MemStream : Type 0 where
  pub buf : Bytes
  pub rsize : ℕ
  pub vsize : ℕ
  pub curpos : ℕ
  pub flags : Flags

-- One round of the loop over the mode string; `none` is the early `return(0)`.
unfoldable pub type_step : Flags → ℕ → Option Flags
type_step f c =
    if c == b'r'
    then (if any_flag f then none else some (record f { ms_read = true }))
    else if c == b'w'
    then (if any_flag f then none else some (record f { ms_write = true; ms_truncate = true }))
    else if c == b'a'
    then (if any_flag f then none else some (record f { ms_append = true }))
    else if c == b'+'
    then (if any_flag f then some (record f { ms_read = true; ms_write = true }) else none)
    else if c == b'b'
    then (if any_flag f then some f else none)
    else none

unfoldable pub type_loop : Flags → Bytes → Flags
type_loop f [] = f
type_loop f (c ∷ cs) = elim (type_step f c) [ none ↦ no_flags | some g ↦ type_loop g cs ]

unfoldable pub type_to_flags : Bytes → Flags
type_to_flags = type_loop no_flags

unfoldable pub find_end : Bytes → ℕ → ℕ
find_end [] off = off
find_end (c ∷ cs) off = if c == 0 then off else find_end cs (off + 1)

pub data Errno : Type 0 where
  einval ebadf : Errno

pub data Result {ℓ} (A : Type ℓ) : Type ℓ where
  ok : A → Result A
  err : Errno → Result A

abbrev vsize_of : Flags → ℕ → ℕ → ℕ
vsize_of f size curpos = if f.ms_append then curpos else if f.ms_truncate then 0 else size

abbrev stream : Bytes → ℕ → Flags → ℕ → MemStream
stream buf size f curpos = record {
  buf = buf;
  rsize = size;
  vsize = vsize_of f size curpos;
  curpos = curpos;
  flags = f;
}

-- The buffer of the caller, of `size` bytes, or what `malloc(size)` returned.
abbrev with_buf : Flags → Bytes → ℕ → Option Bytes → Result MemStream
with_buf f fresh size none =
    if f.ms_read && f.ms_write
    then ok (stream fresh size (record f { ms_mybuf = true }) 0)
    else err einval
with_buf f fresh size (some buf) =
    ok (stream buf size f (if f.ms_append then find_end (take size buf) 0 else 0))

-- fmemopen; `malloc` and `funopen` succeed.
unfoldable pub fmemopen : (fresh : Bytes) → Option Bytes → ℕ → Bytes → Result MemStream
fmemopen fresh buf size type =
    let f = type_to_flags type in
    if size == 0 then err einval else if any_flag f then with_buf f fresh size buf else err einval

abbrev pub min : ℕ → ℕ → ℕ
min a b = if ltb a b then a else b

-- The bytes that a read hands out, and the stream behind it.
unfoldable pub mstream_read : MemStream → ℕ → Result Bytes × MemStream
mstream_read ms len =
    if not ms.flags.ms_read
    then (err ebadf, ms)
    else if leb ms.vsize ms.curpos
    then (ok [], ms)
    else (let nr = min len (ms.vsize - ms.curpos) in
        (ok (slice ms.curpos nr ms.buf), record ms { curpos = ms.curpos + nr }))

-- buf[i] = c
abbrev put : MemStream → ℕ → ℕ → MemStream
put ms i c = record ms { buf = overwrite ms.buf i (c ∷ []) }

-- curpos > vsize
unfoldable pub grow : MemStream → MemStream
grow ms =
    if ltb ms.vsize ms.curpos
    then (let g = record ms { vsize = ms.curpos } in
        if (ms.flags.ms_read && ms.flags.ms_write) && ltb ms.curpos ms.rsize
        then put g ms.curpos 0
        else g)
    else ms

-- The NUL behind the text of a stream that is open for writing only.
unfoldable pub terminate : MemStream → MemStream
terminate ms =
    if (ms.flags.ms_write || ms.flags.ms_append) && not ms.flags.ms_read
    then (if ltb ms.curpos ms.rsize then put ms ms.curpos 0 else put ms (ms.rsize - 1) 0)
    else ms

abbrev pub write_offset : MemStream → ℕ
write_offset ms = if ms.flags.ms_append then ms.vsize else ms.curpos

-- nw
abbrev pub room_for : MemStream → Bytes → ℕ
room_for ms text = min (length text) (ms.rsize - write_offset ms)

-- Behind the `memcpy`.
abbrev pub copied : MemStream → Bytes → MemStream
copied ms text = record ms {
  buf = overwrite ms.buf (write_offset ms) (take (room_for ms text) text);
  curpos = write_offset ms + room_for ms text;
}

-- The count of bytes taken, and the stream.
unfoldable pub mstream_write : MemStream → Bytes → Result ℕ × MemStream
mstream_write ms text =
    if not (ms.flags.ms_append || ms.flags.ms_write)
    then (err ebadf, ms)
    else (ok (room_for ms text), terminate (grow (copied ms text)))

-- `base + pos`, or `none` below 0
abbrev pub sought : ℕ → ℤ → Option ℕ
sought base (pos n) = some (base + n)
sought base (negsuc n) = if leb (n + 1) base then some (base - (n + 1)) else none

abbrev pub seek_base : MemStream → Whence → ℕ
seek_base ms seek_set = 0
seek_base ms seek_end = ms.vsize
seek_base ms seek_cur = ms.curpos

abbrev land : MemStream → Option ℕ → Result ℕ × MemStream
land ms none = (err einval, ms)
land ms (some off) =
    if ltb ms.vsize off then (err einval, ms) else (ok off, record ms { curpos = off })

unfoldable pub mstream_seek : MemStream → ℤ → Whence → Result ℕ × MemStream
mstream_seek ms p from = land ms (sought (seek_base ms from) p)
