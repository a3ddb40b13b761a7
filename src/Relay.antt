-- ===== src/Relay.antt =====
-- The relay of more01/apue.3e/advio/fsm.c: two state machines that copy between two terminals in
-- both directions, without blocking. What read(2) and write(2) answer is the environment's choice.
pub mod Copy
pub mod Poll
pub mod Polled
pub mod Select
mod Alike
pub mod Selected
mod Tests
mod PollTests
use unp_and_apue3e.Prelude.{
  ℕ, suc, ◌+◌, ◌-◌, Bool, true, false, ◌&&◌, ◌||◌, not, Option, none, some, List, [], ◌∷◌, ◌++◌,
  leb, if◌then◌else◌, length, ℤ, pos, negsuc, is_zero,
}
use unp_and_apue3e.Text.{Bytes}
use unp_and_apue3e.File.{overwrite, slice}

pub data State : Type 0 where
  state_r state_w state_ex state_t : State

-- The two texts that `errstr` is set to.
pub data Failure : Type 0 where
  read_failed write_failed : Failure

-- `struct fsm_st`; `errstr` is `none` before anything set it.
pub record Fsm : Type 0 where
  pub state : State
  pub sfd : ℕ
  pub dfd : ℕ
  pub buf : Bytes
  pub len : ℤ
  pub offset : ℕ
  pub errstr : Option Failure

-- read(2): the bytes that came, none at the end of the file; or -1 with EAGAIN, or with another error.
pub data ReadAnswer : Type 0 where
  got : Bytes → ReadAnswer
  read_again read_error : ReadAnswer

-- write(2): the count of bytes taken; or -1, likewise.
pub data WriteAnswer : Type 0 where
  took : ℕ → WriteAnswer
  write_again write_error : WriteAnswer

abbrev minus_one : ℤ
minus_one = negsuc 0

-- len -= ret
unfoldable pub sub_len : ℤ → ℕ → ℤ
sub_len (pos a) n = if leb n a then pos (a - n) else negsuc (n - a - 1)
sub_len (negsuc a) n = negsuc (a + n)

-- case STATE_R
unfoldable pub on_read : Fsm → ReadAnswer → Fsm
on_read f (got []) = record f { len = pos 0; state = state_t }
on_read f (got (b ∷ bs)) = record f {
  buf = overwrite f.buf 0 (b ∷ bs);
  len = pos (length (b ∷ bs));
  offset = 0;
  state = state_w;
}
on_read f read_again = record f { len = minus_one; state = state_r }
on_read f read_error = record f { len = minus_one; errstr = some read_failed; state = state_ex }

-- case STATE_W
unfoldable pub on_write : Fsm → WriteAnswer → Fsm
on_write f (took ret) =
    let left = sub_len f.len ret in
    record f {
      offset = f.offset + ret;
      len = left;
      state = if is_zero left then state_r else state_w;
    }
on_write f write_again = record f { state = state_w }
on_write f write_error = record f { errstr = some write_failed; state = state_ex }

unfoldable pub dispatch : State → Fsm → ReadAnswer → WriteAnswer → Fsm
dispatch state_r f r w = on_read f r
dispatch state_w f r w = on_write f w
dispatch state_ex f r w = record f { state = state_t }
dispatch state_t f r w = f

-- fsm_driver, with what the call that it makes would be answered.
unfoldable pub fsm_driver : Fsm → ReadAnswer → WriteAnswer → Fsm
fsm_driver f r w = dispatch f.state f r w

-- What the driver reads from the source, and writes to the destination, in one call.
unfoldable pub taken_by : State → ReadAnswer → Bytes
taken_by state_r (got bs) = bs
taken_by _ _ = []

unfoldable pub given_by : State → Fsm → WriteAnswer → Bytes
given_by state_w f (took ret) = slice f.offset ret f.buf
given_by _ _ _ = []

-- A machine with all that it has read and written so far.
pub record Line : Type 0 where
  pub fsm : Fsm
  pub taken : Bytes
  pub given : Bytes

unfoldable pub drive : Line → ReadAnswer → WriteAnswer → Line
drive l r w = record {
  fsm = fsm_driver l.fsm r w;
  taken = l.taken ++ taken_by l.fsm.state r;
  given = l.given ++ given_by l.fsm.state l.fsm w;
}

-- The machine before the loop, over whatever stands in its buffer.
unfoldable pub start : (sfd dfd : ℕ) → Bytes → Line
start sfd dfd buf = record {
  fsm = record {
    state = state_r;
    sfd = sfd;
    dfd = dfd;
    buf = buf;
    len = pos 0;
    offset = 0;
    errstr = none;
  };
  taken = [];
  given = [];
}

abbrev pub is_t : State → Bool
is_t state_t = true
is_t _ = false

-- The answers to the two drivers in one round of the loop.
pub record Answers : Type 0 where
  pub r12 : ReadAnswer
  pub w12 : WriteAnswer
  pub r21 : ReadAnswer
  pub w21 : WriteAnswer

-- The loop of relay, over the answers of its rounds; `none` when they run out before it ends.
unfoldable pub relay_loop : Line → Line → List Answers → Option (Line × Line)
relay_loop a b [] = if is_t a.fsm.state && is_t b.fsm.state then some (a, b) else none
relay_loop a b (x ∷ xs) =
    let rest = relay_loop (drive a x.r12 x.w12) (drive b x.r21 x.w21) xs in
    if is_t a.fsm.state && is_t b.fsm.state then some (a, b) else rest

-- relay
unfoldable pub relay : (fd1 fd2 : ℕ) → (buf12 buf21 : Bytes) → List Answers → Option (Line × Line)
relay fd1 fd2 buf12 buf21 xs = relay_loop (start fd1 fd2 buf12) (start fd2 fd1 buf21) xs
