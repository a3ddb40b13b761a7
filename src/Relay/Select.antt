-- ===== src/Relay/Select.antt =====
-- The relay of more01/apue.3e/advio/fsm_select.c: the driver of fsm.c, which is called only where
-- select(2) has left a descriptor in its sets.
use unp_and_apue3e.Prelude.{ℕ, ◌&&◌, ◌||◌, Option, none, some, List, [], ◌∷◌, if◌then◌else◌}
use unp_and_apue3e.Text.{Bytes}
use unp_and_apue3e.Relay.{Line, start, is_t, Answers}
use unp_and_apue3e.Relay.Poll.{
  Events, events, before_auto, drive12, drive21, Outcome, ended, exited,
}

-- What select(2) comes to: EINTR, another error, or what it finds ready to read and to write of the
-- first and of the second descriptor.
pub data Selected : Type 0 where
  interrupted failed : Selected
  found : Events → Events → Selected

pub record Round : Type 0 where
  pub selected : Selected
  pub answers : Answers

-- rset and wset, for one descriptor: select leaves what it was asked for and found ready.
abbrev pub left : Events → Events → Events
left asked ready = record {
  pollin = asked.pollin && ready.pollin;
  pollout = asked.pollout && ready.pollout;
}

-- What follows the sets and the call: `continue`, exit(1), or the drivers, with the sets of then.
pub data Next : Type 0 where
  again stop : Next
  go : Events → Events → Next

abbrev pub asked1 : Line → Line → Events
asked1 a b = events a.fsm.state b.fsm.state

abbrev pub asked2 : Line → Line → Events
asked2 a b = events b.fsm.state a.fsm.state

abbrev pub after_select : Line → Line → Selected → Next
after_select a b interrupted = again
after_select a b failed = stop
after_select a b (found p q) = go (left (asked1 a b) p) (left (asked2 a b) q)

-- The call is made only where a state is below STATE_AUTO.
abbrev pub next_of : Line → Line → Selected → Next
next_of a b sel =
    if before_auto a.fsm.state || before_auto b.fsm.state
    then after_select a b sel
    else go (asked1 a b) (asked2 a b)

-- The loop of relay over its rounds; `none` when they run out before it ends.
unfoldable pub select_loop : Line → Line → List Round → Option Outcome
select_loop a b [] = if is_t a.fsm.state && is_t b.fsm.state then some (ended a b) else none
select_loop a b (x ∷ xs) =
    let rest : Option Outcome = elim (next_of a b x.selected) [
      | again ↦ select_loop a b xs
      | stop ↦ some exited
      | go p q ↦ select_loop (drive12 a p q x.answers) (drive21 b p q x.answers) xs
    ] in
    if is_t a.fsm.state && is_t b.fsm.state then some (ended a b) else rest

-- relay, over whatever stands in the buffers.
unfoldable pub relay_select : (fd1 fd2 : ℕ) → (buf12 buf21 : Bytes) → List Round → Option Outcome
relay_select fd1 fd2 buf12 buf21 xs = select_loop (start fd1 fd2 buf12) (start fd2 fd1 buf21) xs
