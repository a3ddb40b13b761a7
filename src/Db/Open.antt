-- ===== src/Db/Open.antt =====
-- db_open of more01/apue.3e/db/db.c, over what open(2) returns.
use unp_and_apue3e.Prelude.{
  ℕ, zero, suc, ◌+◌, Bool, ◌&&◌, Option, none, some, [], ◌∷◌, ◌++◌, ◌==◌, if◌then◌else◌, length,
  pos,
}
use unp_and_apue3e.Text.{Bytes, pad_left}
use unp_and_apue3e.File.{File}
use unp_and_apue3e.Db.State.{
  Db, Counts, Held, idx, write_lock, no_error, Outcome, M, pure, ◌>>=◌, ◌>>◌, get, lock, unlock,
  ptr_sz, nhash_def, hash_off, newline,
}
use unp_and_apue3e.Db.Record.{put_bytes}
use unp_and_apue3e.Db.Ops.{rewind}

-- The bits of `oflag` that the function looks at.
pub record Oflag : Type 0 where
  pub creat : Bool
  pub trunc : Bool

abbrev no_counts : Counts
no_counts = record {
  delok = 0;
  delerr = 0;
  fetchok = 0;
  fetcherr = 0;
  nextrec = 0;
  stor1 = 0;
  stor2 = 0;
  stor3 = 0;
  stor4 = 0;
  storerr = 0;
}

abbrev no_locks : Held
no_locks w b = none

-- _db_alloc, and the two descriptors. The `malloc` calls succeed.
unfoldable pub alloc : File → File → Db
alloc i d = record {
  idx = i;
  dat = d;
  idxbuf = [];
  datbuf = [];
  idxoff = 0;
  idxlen = 0;
  datoff = 0;
  datlen = 0;
  ptrval = pos 0;
  ptroff = pos 0;
  chainoff = 0;
  hashoff = hash_off;
  nhash = nhash_def;
  counts = no_counts;
  held = no_locks;
  errno = no_error;
}

unfoldable pub repeat : ℕ → Bytes → Bytes
repeat zero s = []
repeat (suc n) s = s ++ repeat n s

-- The free list pointer and the hash table, all 0, and a newline.
unfoldable pub empty_index : Bytes
empty_index = repeat (nhash_def + 1) (pad_left ptr_sz 0) ++ newline ∷ []

unfoldable pub init_index : M (Unit {0})
init_index = do
  lock idx write_lock 0 0
  s ← get
  (if length s.idx.bytes == 0 then put_bytes idx empty_index else pure tt)
  unlock idx 0 0

unfoldable pub prepare : Oflag → M (Unit {0})
prepare flag = do (if flag.creat && flag.trunc then init_index else pure tt); rewind

unfoldable pub open_both : Oflag → Option File → Option File → Option (Outcome (Unit {0}))
open_both flag none d = none
open_both flag (some i) none = none
open_both flag (some i) (some d) = some (prepare flag (alloc i d))

-- `sys_open` is open(2) with the flags and the mode; `none` is a negative descriptor. The result
-- `none` is the null pointer.
unfoldable pub db_open : (Bytes → Option File) → Bytes → Oflag → Option (Outcome (Unit {0}))
db_open sys_open name flag =
    open_both flag (sys_open (name ++ (b'.' ∷ b'i' ∷ b'd' ∷ b'x' ∷ [])))
      (sys_open (name ++ (b'.' ∷ b'd' ∷ b'a' ∷ b't' ∷ [])))
