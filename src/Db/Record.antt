-- ===== src/Db/Record.antt =====
-- The functions of more01/apue.3e/db/db.c that read and write one field or one record of a file:
-- _db_readptr, _db_readidx, _db_readdat, _db_writeptr, _db_writeidx, _db_writedat.
use unp_and_apue3e.Prelude.{
  ℕ, ◌+◌, ◌-◌, ◌*◌, Bool, false, not, ◌&&◌, none, some, [], ◌∷◌, ◌++◌, ◌==◌, leb, if◌then◌else◌,
  length, take, drop, get_or, ℤ, pos, negsuc, is_zero, is_neg,
}
use unp_and_apue3e.Text.{Bytes, c_str, split_at_char, atol, decimal, pad_left}
use unp_and_apue3e.File.{File, Whence, seek_set, seek_cur, seek_end, lseek, read, write}
use unp_and_apue3e.Db.State.{
  Limits, Db, Which, idx, dat, write_lock, lseek_error, read_error, invalid_length, missing_newline,
  missing_separator, too_many_separators, negative_offset, invalid_ptr, M, ok, pure, stop, fatal,
  ◌>>=◌, ◌>>◌, get, modify, require, lock, unlock, ptr_sz, idxlen_sz, ptr_max, sep, newline,
}

abbrev pub file_of : Db → Which → File
file_of s idx = s.idx
file_of s dat = s.dat

abbrev pub with_file : Db → Which → File → Db
with_file s idx f = record s { idx = f }
with_file s dat f = record s { dat = f }

-- The value of a number that a guard has found to be at least 0.
abbrev pub nat : ℤ → ℕ
nat (pos n) = n
nat (negsuc n) = 0

-- 0 <= v && v <= b
abbrev pub within : ℕ → ℕ → ℤ → Bool
within a b (pos n) = leb a n && leb n b
within a b (negsuc n) = false

-- `if ((o = lseek(fd, off, whence)) == -1) err_dump(...)`
unfoldable pub seek : Which → ℤ → Whence → M ℕ
seek w off from s = elim (lseek (file_of s w) off from) [
  | none ↦ fatal lseek_error s
  | some o ↦ ok o (with_file s w (record { bytes = (file_of s w).bytes; offset = o }))
]

-- read(fd, buf, n): what came
unfoldable pub get_bytes : Which → ℕ → M Bytes
get_bytes w n s = let (got, f) = read (file_of s w) n in ok got (with_file s w f)

-- write(fd, buf, n), writev
unfoldable pub put_bytes : Which → Bytes → M (Unit {0})
put_bytes w d s = ok tt (with_file s w (write (file_of s w) d))

unfoldable pub readptr : ℤ → M ℤ
readptr off = do
  seek idx off seek_set
  asciiptr ← get_bytes idx ptr_sz
  require (length asciiptr == ptr_sz) read_error
  pure (atol asciiptr)

unfoldable pub writeptr : ℤ → ℤ → M (Unit {0})
writeptr off ptrval = do
  require (within 0 ptr_max ptrval) invalid_ptr
  seek idx off seek_set
  put_bytes idx (pad_left ptr_sz (nat ptrval))

unfoldable pub readdat : M Bytes
readdat = do
  s ← get
  seek dat (pos s.datoff) seek_set
  got ← get_bytes dat s.datlen
  require (length got == s.datlen) read_error
  require (get_or got (s.datlen - 1) 0 == newline) missing_newline
  modify λ t. record t { datbuf = c_str (take (s.datlen - 1) got) }
  pure (c_str (take (s.datlen - 1) got))

abbrev lock_end : Whence → Which → ℕ → M (Unit {0})
lock_end seek_end w start = lock w write_lock start 0
lock_end from w start = pure tt

abbrev unlock_end : Whence → Which → ℕ → M (Unit {0})
unlock_end seek_end w start = unlock w start 0
unlock_end from w start = pure tt

unfoldable pub writedat : Bytes → ℤ → Whence → M (Unit {0})
writedat text off from = do
  lock_end from dat 0
  o ← seek dat off from
  modify λ s. record s { datoff = o; datlen = length text + 1 }
  put_bytes dat (text ++ newline ∷ [])
  unlock_end from dat 0

-- The separators of the record's text, and the offset and length of its data.
unfoldable pub set_fields : Limits → Bytes → ℤ → ℤ → M (Unit {0})
set_fields lim key datoff datlen = do
  require (not (is_neg datoff)) negative_offset
  require (within 1 lim.datlen_max datlen) invalid_length
  modify λ s. record s { idxbuf = key; datoff = nat datoff; datlen = nat datlen }

unfoldable pub parse_fields : Limits → Bytes → M (Unit {0})
parse_fields lim text = elim (split_at_char sep text) [
  | none ↦ stop missing_separator
  | some (key, rest) ↦ elim (split_at_char sep rest) [
    | none ↦ stop missing_separator
    | some (ptr1, ptr2) ↦ elim (split_at_char sep ptr2) [
      | some _ ↦ stop too_many_separators
      | none ↦ set_fields lim key (atol ptr1) (atol ptr2)
    ]
  ]
]

-- What follows the eleven bytes of pointer and length.
unfoldable pub read_body : Limits → Bytes → M ℤ
read_body lim head = do
  let ptrval = atol (take ptr_sz head)
  let idxlen = atol (drop ptr_sz head)
  modify λ s. record s { ptrval = ptrval; idxlen = nat idxlen }
  require (within lim.idxlen_min lim.idxlen_max idxlen) invalid_length
  body ← get_bytes idx (nat idxlen)
  require (length body == nat idxlen) read_error
  require (get_or body (nat idxlen - 1) 0 == newline) missing_newline
  parse_fields lim (c_str (take (nat idxlen - 1) body))
  pure ptrval

-- The result -1 is the end of the file, for db_nextrec.
unfoldable pub readidx : Limits → ℤ → M ℤ
readidx lim off = do
  o ← seek idx off (if is_zero off then seek_cur else seek_set)
  modify λ s. record s { idxoff = o }
  head ← get_bytes idx (ptr_sz + idxlen_sz)
  if length head == ptr_sz + idxlen_sz
      then read_body lim head
      else if (length head == 0) && is_zero off
      then pure (negsuc 0)
      else stop read_error

-- sprintf(db->idxbuf, "%s%c%lld%c%ld\n", key, SEP, db->datoff, SEP, db->datlen)
unfoldable pub record_text : Bytes → ℕ → ℕ → Bytes
record_text key datoff datlen =
    key ++ (sep ∷ (decimal datoff ++ (sep ∷ (decimal datlen ++ newline ∷ []))))

unfoldable pub writeidx : Limits → Bytes → ℤ → Whence → ℤ → M (Unit {0})
writeidx lim key off from ptrval = do
  modify λ s. record s { ptrval = ptrval }
  require (within 0 ptr_max ptrval) invalid_ptr
  s ← get
  let text = record_text key s.datoff s.datlen
  modify λ t. record t { idxbuf = text }
  require (within lim.idxlen_min lim.idxlen_max (pos (length text))) invalid_length
  let start = (s.nhash + 1) * ptr_sz + 1
  lock_end from idx start
  o ← seek idx off from
  modify λ t. record t { idxoff = o }
  put_bytes idx (pad_left ptr_sz (nat ptrval) ++ (pad_left idxlen_sz (length text) ++ text))
  unlock_end from idx start
