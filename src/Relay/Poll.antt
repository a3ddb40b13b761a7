-- ===== src/Relay/Poll.antt =====
-- The relay of more01/apue.3e/advio/fsm_poll.c: the driver of fsm.c, which is called only where
-- poll(2) has reported that its descriptor is ready.
use unp_and_apue3e.Prelude.{
  ℕ, Bool, true, false, ◌&&◌, ◌||◌, Option, none, some, List, [], ◌∷◌, if◌then◌else◌,
}
use unp_and_apue3e.Text.{Bytes}
use unp_and_apue3e.Relay.{
  State, state_r, state_w, state_ex, state_t, Line, drive, start, is_t, Answers,
}

-- POLLIN and POLLOUT of one `struct pollfd`.
pub record Events : Type 0 where
  pub pollin : Bool
  pub pollout : Bool

abbrev pub is_r : State → Bool
is_r state_r = true
is_r _ = false

abbrev pub is_w : State → Bool
is_w state_w = true
is_w _ = false

-- state < STATE_AUTO
abbrev pub before_auto : State → Bool
before_auto s = is_r s || is_w s

-- state > STATE_AUTO
abbrev pub after_auto : State → Bool
after_auto state_ex = true
after_auto state_t = true
after_auto _ = false

-- The events of the descriptor that the machine in `source` reads and the other one writes.
unfoldable pub events : (source destination : State) → Events
events source destination = record { pollin = is_r source; pollout = is_w destination }

-- One round: what poll(2) sets in `revents` of the two descriptors, or `none` for an error other
-- than EINTR, and the answers to the drivers.
pub record Round : Type 0 where
  pub polled : Option (Events × Events)
  pub answers : Answers

-- What relay comes to: it ends, with the machines of then, or the process exits.
pub data Outcome : Type 0 where
  ended : Line → Line → Outcome
  exited : Outcome

-- The `revents` after the call of poll, which is made only where a state is below STATE_AUTO.
abbrev pub revents_of :
    Line → Line → Events × Events → Option (Events × Events) → Option (Events × Events)
revents_of a b old polled =
    if before_auto a.fsm.state || before_auto b.fsm.state then polled else some old

-- Is the driver called, for the machine in this state that reads the first and writes the second?
unfoldable pub driven : State → (source destination : Events) → Bool
driven st source destination = source.pollin || destination.pollout || after_auto st

abbrev pub drive12 : Line → Events → Events → Answers → Line
drive12 a p q x = if driven a.fsm.state p q then drive a x.r12 x.w12 else a

abbrev pub drive21 : Line → Events → Events → Answers → Line
drive21 b p q x = if driven b.fsm.state q p then drive b x.r21 x.w21 else b

-- The loop of relay over its rounds; `none` when they run out before it ends.
unfoldable pub poll_loop : Line → Line → Events × Events → List Round → Option Outcome
poll_loop a b old [] = if is_t a.fsm.state && is_t b.fsm.state then some (ended a b) else none
poll_loop a b old (x ∷ xs) =
    let rest : Option Outcome = elim (revents_of a b old x.polled) [
      | none ↦ some exited
      | some (p, q) ↦ poll_loop (drive12 a p q x.answers) (drive21 b p q x.answers) (p, q) xs
    ] in
    if is_t a.fsm.state && is_t b.fsm.state then some (ended a b) else rest

-- relay, over whatever stands in the buffers and in `revents`.
unfoldable pub relay_poll :
    (fd1 fd2 : ℕ) → (buf12 buf21 : Bytes) → Events × Events → List Round → Option Outcome
relay_poll fd1 fd2 buf12 buf21 old xs = poll_loop (start fd1 fd2 buf12) (start fd2 fd1 buf21) old xs
