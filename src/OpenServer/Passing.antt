-- ===== src/OpenServer/Passing.antt =====
-- send_fd, send_err and recv_fd of more01/apue.3e/lib: a descriptor or an error passed over a stream
-- between two processes.
use unp_and_apue3e.Prelude.{
  ℕ, zero, suc, ◌%◌, Bool, Option, none, some, List, [], ◌∷◌, ◌++◌, ◌==◌, if◌then◌else◌, ℤ, pos,
  negsuc,
}
use unp_and_apue3e.Text.{Bytes, c_str}

-- A message of sendmsg(2): its bytes, and the descriptor in its control part.
pub record Packet : Type 0 where
  pub bytes : Bytes
  pub passed : Option ℕ

-- buf[1] of send_fd for an error -n: a char, so a byte.
unfoldable pub status_of : ℕ → ℕ
status_of n = let b = n % 256 in if b == 0 then 1 else b

-- The message of send_fd for the descriptor or the error.
unfoldable pub send_fd : ℤ → Packet
send_fd (pos n) = record { bytes = 0 ∷ 0 ∷ []; passed = some n }
send_fd (negsuc n) = record { bytes = 0 ∷ status_of (suc n) ∷ []; passed = none }

-- errcode, or -1 where it is not negative.
unfoldable pub negative : ℤ → ℤ
negative (pos n) = negsuc 0
negative (negsuc n) = negsuc n

-- What send_err writes, and the message behind it.
unfoldable pub send_err : ℤ → Bytes → Bytes × Packet
send_err errcode msg = (c_str msg, send_fd (negative errcode))

-- What recvmsg(2) answers: -1, the end of the stream, or at least one byte, with the descriptor that
-- the kernel made for one that was passed.
pub data Answer : Type 0 where
  recv_error : Answer
  closed : Answer
  got : (b : ℕ) → (bs : Bytes) → Option ℕ → Answer

-- What recv_fd comes to: a value that it returns and the text that it gave to userfunc, or err_dump.
pub data Outcome : Type 0 where
  returned : ℤ → Bytes → Outcome
  format_error : Outcome
  no_fd : Outcome

-- What a buffer holds: text alone, text and the status, or a null byte at another place.
pub data Scan : Type 0 where
  only_text : Bytes → Scan
  final : Bytes → (status : ℕ) → Scan
  misplaced : Scan

abbrev pub keep : ℕ → Scan → Scan
keep b (only_text t) = only_text (b ∷ t)
keep b (final t s) = final (b ∷ t) s
keep b misplaced = misplaced

-- The byte behind the null byte is the status, if it is the last.
abbrev pub status_at : Bytes → Scan
status_at (s ∷ []) = final [] s
status_at bs = misplaced

-- The loop over the buffer.
unfoldable pub scan : Bytes → Scan
scan [] = only_text []
scan (b ∷ bs) = let rest = keep b (scan bs) in if b == 0 then status_at bs else rest

-- userfunc gets the text, if there is any; -1 where it does not take all of it.
abbrev pub give : (Bytes → Bool) → Bytes → Bytes → Outcome → Outcome
give user [] said next = next
give user (b ∷ bs) said next = if user (b ∷ bs) then next else returned (negsuc 0) (said ++ b ∷ bs)

-- A buffer with the status.
abbrev pub ended : (Bytes → Bool) → Bytes → Bytes → ℕ → Option ℕ → Outcome
ended user said t zero none = no_fd
ended user said t zero (some fd) = give user t said (returned (pos fd) (said ++ t))
ended user said t (suc s) fd = give user t said (returned (negsuc s) (said ++ t))

abbrev pub said_on : (Bytes → Bool) → Bytes → Bytes → Option Outcome → Option Outcome
said_on user t said none = none
said_on user t said (some next) = some (give user t said next)

-- The loop of recv_fd, over the text so far; `none` is that the answers ran out.
unfoldable pub recv_loop : (Bytes → Bool) → Bytes → List Answer → Option Outcome
recv_loop user said [] = none
recv_loop user said (recv_error ∷ rest) = some (returned (negsuc 0) said)
recv_loop user said (closed ∷ rest) = some (returned (negsuc 0) said)
recv_loop user said (got b bs fd ∷ rest) = elim (scan (b ∷ bs)) [
  | misplaced ↦ some format_error
  | final t s ↦ some (ended user said t s fd)
  | only_text t ↦ said_on user t said (recv_loop user (said ++ t) rest)
]

unfoldable pub recv_fd : (Bytes → Bool) → List Answer → Option Outcome
recv_fd user answers = recv_loop user [] answers
