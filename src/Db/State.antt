-- ===== src/Db/State.antt =====
-- The state behind a handle of more01/apue.3e/db/db.c, the constants of that file, and the actions
-- that its functions are written in.
use unp_and_apue3e.Prelude.{
  ℕ, ◌+◌, Bool, true, false, ◌&&◌, Option, none, some, ◌==◌, leb, if◌then◌else◌, ℤ,
}
use unp_and_apue3e.Text.{Bytes}
use unp_and_apue3e.File.{File}

-- apue_db.h, which is not part of the repository, sets the four limits.
pub record Limits : Type 0 where
  pub idxlen_min : ℕ
  pub idxlen_max : ℕ
  pub datlen_min : ℕ
  pub datlen_max : ℕ

abbrev pub idxlen_sz : ℕ
idxlen_sz = 4

abbrev pub sep : ℕ
sep = b':'

abbrev pub space : ℕ
space = 32

abbrev pub newline : ℕ
newline = 10

abbrev pub ptr_sz : ℕ
ptr_sz = 7

abbrev pub ptr_max : ℕ
ptr_max = 9999999

abbrev pub nhash_def : ℕ
nhash_def = 137

abbrev pub free_off : ℕ
free_off = 0

abbrev pub hash_off : ℕ
hash_off = ptr_sz

-- The two files, for the locks.
pub data Which : Type 0 where
  idx dat : Which

pub data LockKind : Type 0 where
  read_lock write_lock : LockKind

-- The record locks of the process, byte by byte, as fcntl(2) keeps them.
abbrev pub Held : Type 0
Held = Which → ℕ → Option LockKind

pub data Errno : Type 0 where
  no_error einval enoent : Errno

pub record Counts : Type 0 where
  pub delok : ℕ
  pub delerr : ℕ
  pub fetchok : ℕ
  pub fetcherr : ℕ
  pub nextrec : ℕ
  pub stor1 : ℕ
  pub stor2 : ℕ
  pub stor3 : ℕ
  pub stor4 : ℕ
  pub storerr : ℕ

-- `DB`, with the files that `idxfd` and `datfd` are open on. A char buffer is the string in it, and
-- a counter is a number: `unsigned long` does not wrap within any run.
pub record Db : Type 0 where
  pub idx : File
  pub dat : File
  pub idxbuf : Bytes
  pub datbuf : Bytes
  pub idxoff : ℕ
  pub idxlen : ℕ
  pub datoff : ℕ
  pub datlen : ℕ
  pub ptrval : ℤ
  pub ptroff : ℤ
  pub chainoff : ℕ
  pub hashoff : ℕ
  pub nhash : ℕ
  pub counts : Counts
  pub held : Held
  pub errno : Errno

-- What ends the process: err_dump, err_quit and err_sys, each behind its message.
pub data Fatal : Type 0 where
  lseek_error : Fatal
  read_error : Fatal
  invalid_length : Fatal
  missing_newline : Fatal
  missing_separator : Fatal
  too_many_separators : Fatal
  negative_offset : Fatal
  invalid_ptr : Fatal
  invalid_data_length : Fatal

-- A call returns, or it ends the process and leaves the files as they are, or it does not return.
pub data Outcome (A : Type 0) : Type 0 where
  ok : A → Db → Outcome A
  fatal : Fatal → Db → Outcome A
  out_of_fuel : Outcome A

abbrev pub M : Type 0 → Type 0
M A = Db → Outcome A

abbrev pub pure : {A : Type 0} → A → M A
pure a s = ok a s

abbrev pub stop : {A : Type 0} → Fatal → M A
stop e s = fatal e s

abbrev pub diverge : {A : Type 0} → M A
diverge s = out_of_fuel

abbrev pub and_then : {A B : Type 0} → Outcome A → (A → M B) → Outcome B
and_then (ok a s) k = k a s
and_then (fatal e s) k = fatal e s
and_then out_of_fuel k = out_of_fuel

infixl 5 ◌>>=◌ ◌>>◌
abbrev pub ◌>>=◌ : {A B : Type 0} → M A → (A → M B) → M B
m >>= k = λ s. and_then (m s) k

abbrev pub ◌>>◌ : {A B : Type 0} → M A → M B → M B
m >> n = m >>= λ _. n

abbrev pub get : M Db
get s = ok s s

abbrev pub modify : (Db → Db) → M (Unit {0})
modify f s = ok tt (f s)

abbrev pub count : (Counts → Counts) → M (Unit {0})
count f s = ok tt (record s { counts = f s.counts })

-- `if (!b) err_dump(...)`
abbrev pub require : Bool → Fatal → M (Unit {0})
require true e s = ok tt s
require false e s = fatal e s

-- Whether byte `b` lies in the region of `len` bytes from `start`; `len` 0 is up to any end of file.
abbrev pub in_region : ℕ → ℕ → ℕ → Bool
in_region start len b = leb start b && (if len == 0 then true else leb (b + 1) (start + len))

abbrev pub same_file : Which → Which → Bool
same_file idx idx = true
same_file idx dat = false
same_file dat idx = false
same_file dat dat = true

abbrev pub set_region : Held → Which → ℕ → ℕ → Option LockKind → Held
set_region h w start len k = λ v b. if same_file w v && in_region start len b then k else h v b

-- readw_lock, writew_lock: F_SETLKW waits until it has the lock, so it does not fail.
unfoldable pub lock : Which → LockKind → ℕ → ℕ → M (Unit {0})
lock w kind start len = modify λ s. record s { held = set_region s.held w start len (some kind) }

-- un_lock
unfoldable pub unlock : Which → ℕ → ℕ → M (Unit {0})
unlock w start len = modify λ s. record s { held = set_region s.held w start len none }
