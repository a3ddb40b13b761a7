-- ===== src/Db/Ops.antt =====
-- The operations of more01/apue.3e/db/db.c on an open handle: the search along a hash chain, and
-- fetch, delete, store and the sequential scan, with the calls that they make in their order.
use unp_and_apue3e.Prelude.{
  ℕ, zero, suc, ◌+◌, ◌-◌, ◌*◌, ◌%◌, ◌^◌, Bool, true, false, ◌&&◌, Option, none, some, [], ◌∷◌, ◌==◌,
  ltb, if◌then◌else◌, length, replicate, ℤ, pos, is_zero, is_neg,
}
use unp_and_apue3e.Text.{Bytes, str_eq}
use unp_and_apue3e.File.{seek_set, seek_end}
use unp_and_apue3e.Db.State.{
  Limits, Db, idx, read_lock, write_lock, LockKind, einval, enoent, invalid_data_length, M, pure,
  diverge, ◌>>=◌, ◌>>◌, get, modify, count, require, lock, unlock, ptr_sz, space, free_off,
}
use unp_and_apue3e.Db.Record.{readptr, writeptr, readdat, writedat, readidx, writeidx, seek, within}

-- `c * i` for the signed char `c`, as it enters the sum in `unsigned long`.
abbrev pub hash_term : ℕ → ℕ → ℕ
hash_term c i = if ltb c 128 then c * i else 2 ^ 64 * i - (256 - c) * i

unfoldable pub hash_from : ℕ → ℕ → Bytes → ℕ
hash_from hval i [] = hval
hash_from hval i (c ∷ key) = hash_from ((hval + hash_term c i) % 2 ^ 64) (i + 1) key

-- _db_hash
unfoldable pub hash : ℕ → Bytes → ℕ
hash nhash key = hash_from 0 1 key % nhash

-- The loop of _db_find_and_lock; the result tells whether the record was found.
unfoldable pub find_loop : Limits → ℕ → Bytes → ℤ → M Bool
find_loop lim zero key off = diverge
find_loop lim (suc k) key off = if is_zero off then pure false else do
  next ← readidx lim off
  s ← get
  if str_eq s.idxbuf key
      then pure true
      else do modify λ t. record t { ptroff = off }; find_loop lim k key next

-- A chain that does not cycle has fewer records than the index file has bytes.
abbrev pub fuel_of : Db → ℕ
fuel_of s = suc (length s.idx.bytes)

unfoldable pub find_and_lock : Limits → Bytes → LockKind → M Bool
find_and_lock lim key kind = do
  modify λ s.
      let chainoff = hash s.nhash key * ptr_sz + s.hashoff in
      record s { chainoff = chainoff; ptroff = pos chainoff }
  s ← get
  lock idx kind s.chainoff 1
  off ← readptr s.ptroff
  find_loop lim (fuel_of s) key off

abbrev unlock_chain : M (Unit {0})
unlock_chain s = unlock idx s.chainoff 1 s

-- db_fetch: `none` is the null pointer.
unfoldable pub fetch : Limits → Bytes → M (Option Bytes)
fetch lim key = do
  found ← find_and_lock lim key read_lock
  ptr ←
      (if found
        then (do text ← readdat; count λ c. record c { fetchok = c.fetchok + 1 }; pure (some text))
        else (do count λ c. record c { fetcherr = c.fetcherr + 1 }; pure none))
  unlock_chain
  pure ptr

-- _db_dodelete
unfoldable pub dodelete : Limits → M (Unit {0})
dodelete lim = do
  modify λ s. record s {
    datbuf = replicate (s.datlen - 1) space;
    idxbuf = replicate (length s.idxbuf) space;
  }
  lock idx write_lock free_off 1
  s ← get
  writedat s.datbuf (pos s.datoff) seek_set
  freeptr ← readptr (pos free_off)
  t ← get
  writeidx lim t.idxbuf (pos t.idxoff) seek_set freeptr
  u ← get
  writeptr (pos free_off) (pos u.idxoff)
  writeptr u.ptroff t.ptrval
  unlock idx free_off 1

-- db_delete: true is the result 0, false is -1.
unfoldable pub delete : Limits → Bytes → M Bool
delete lim key = do
  found ← find_and_lock lim key write_lock
  (if found
      then (do dodelete lim; count λ c. record c { delok = c.delok + 1 })
      else count λ c. record c { delerr = c.delerr + 1 })
  unlock_chain
  pure found

-- The loop of _db_findfree; `save` is where the pointer to the record at `off` stands.
unfoldable pub free_loop : Limits → ℕ → ℕ → ℕ → ℤ → ℤ → M (Option ℤ)
free_loop lim zero keylen datlen save off = diverge
free_loop lim (suc k) keylen datlen save off = if is_zero off then pure none else do
  next ← readidx lim off
  s ← get
  if (length s.idxbuf == keylen) && (s.datlen == datlen)
      then pure (some save)
      else free_loop lim k keylen datlen off next

-- Takes the record off the free list, if there is one.
unfoldable pub unlink_free : Option ℤ → M Bool
unlink_free none = pure false
unlink_free (some save) = do s ← get; writeptr save s.ptrval; pure true

-- _db_findfree: true is the result 0.
unfoldable pub findfree : Limits → ℕ → ℕ → M Bool
findfree lim keylen datlen = do
  lock idx write_lock free_off 1
  off ← readptr (pos free_off)
  s ← get
  hit ← free_loop lim (fuel_of s) keylen datlen (pos free_off) off
  found ← unlink_free hit
  unlock idx free_off 1
  pure found

-- DB_INSERT, DB_REPLACE, DB_STORE and any other value of the argument.
pub data Flag : Type 0 where
  insert replace store other_flag : Flag

abbrev pub is_replace : Flag → Bool
is_replace replace = true
is_replace _ = false

abbrev pub is_insert : Flag → Bool
is_insert insert = true
is_insert _ = false

-- The results 0, 1 and -1 of db_store.
pub data Stored : Type 0 where
  done exists failed : Stored

-- The record just written goes to the front of the chain.
unfoldable pub link_front : M (Unit {0})
link_front = do s ← get; writeptr (pos s.chainoff) (pos s.idxoff)

-- A new record at the ends of the two files.
unfoldable pub append_record : Limits → Bytes → Bytes → ℤ → M (Unit {0})
append_record lim key text ptrval = do
  writedat text (pos 0) seek_end
  writeidx lim key (pos 0) seek_end ptrval
  link_front

-- The record that `findfree` took off the free list, written anew.
unfoldable pub reuse_record : Limits → Bytes → Bytes → ℤ → M (Unit {0})
reuse_record lim key text ptrval = do
  s ← get
  writedat text (pos s.datoff) seek_set
  t ← get
  writeidx lim key (pos t.idxoff) seek_set ptrval
  link_front

unfoldable pub store_new : Limits → Bytes → Bytes → M Stored
store_new lim key text = do
  s ← get
  ptrval ← readptr (pos s.chainoff)
  reused ← findfree lim (length key) (length text + 1)
  (if reused
      then (do reuse_record lim key text ptrval; count λ c. record c { stor2 = c.stor2 + 1 })
      else (do append_record lim key text ptrval; count λ c. record c { stor1 = c.stor1 + 1 }))
  pure done

unfoldable pub store_over : Limits → Bytes → Bytes → M Stored
store_over lim key text = do
  s ← get
  (if length text + 1 == s.datlen
      then (do writedat text (pos s.datoff) seek_set; count λ c. record c { stor4 = c.stor4 + 1 })
      else (do
        dodelete lim
        t ← get
        ptrval ← readptr (pos t.chainoff)
        append_record lim key text ptrval
        count λ c. record c { stor3 = c.stor3 + 1 }))
  pure done

unfoldable pub store_found : Limits → Bytes → Bytes → Flag → Bool → M Stored
store_found lim key text flag false =
    if is_replace flag
    then (do
      count λ c. record c { storerr = c.storerr + 1 }
      modify λ s. record s { errno = enoent }
      pure failed)
    else store_new lim key text
store_found lim key text flag true =
    if is_insert flag
    then (do count λ c. record c { storerr = c.storerr + 1 }; pure exists)
    else store_over lim key text

-- db_store
unfoldable pub db_store : Limits → Bytes → Bytes → Flag → M Stored
db_store lim key text other_flag = do modify λ s. record s { errno = einval }; pure failed
db_store lim key text flag = do
  require (within lim.datlen_min lim.datlen_max (pos (length text + 1))) invalid_data_length
  found ← find_and_lock lim key write_lock
  rc ← store_found lim key text flag found
  unlock_chain
  pure rc

-- db_rewind
unfoldable pub rewind : M (Unit {0})
rewind = do
  s ← get
  o ← seek idx (pos ((s.nhash + 1) * ptr_sz + 1)) seek_set
  modify λ t. record t { idxoff = o }

abbrev pub all_space : Bytes → Bool
all_space [] = true
all_space (c ∷ key) = (c == space) && all_space key

-- The loop of db_nextrec, over deleted records; false is the end of the file.
unfoldable pub scan_loop : Limits → ℕ → M Bool
scan_loop lim zero = diverge
scan_loop lim (suc k) = do
  ptrval ← readidx lim (pos 0)
  s ← get
  if is_neg ptrval then pure false else (if all_space s.idxbuf then scan_loop lim k else pure true)

-- db_nextrec, with the key that it copies out.
unfoldable pub nextrec : Limits → M (Option (Bytes × Bytes))
nextrec lim = do
  lock idx read_lock free_off 1
  s ← get
  more ← scan_loop lim (fuel_of s)
  rec ←
      (if more
        then (do
          t ← get
          text ← readdat
          count λ c. record c { nextrec = c.nextrec + 1 }
          pure (some (t.idxbuf, text)))
        else pure none)
  unlock idx free_off 1
  pure rec
