-- ===== src/Relay/PollTests.antt =====
-- A run of the relay with poll, and the theorems about it there.
use unp_and_apue3e.Prelude.{◌≡◌, refl, true, false, none, some, List, [], ◌∷◌, arith, pos}
use unp_and_apue3e.File.{overwrite}
use unp_and_apue3e.Relay.{
  Line, relay, state_t, got, read_again, took, write_again, start, drive, fsm_driver, dispatch,
  on_read, on_write, sub_len, taken_by, given_by,
}
use unp_and_apue3e.Relay.Poll.{Events, driven, Round, ended, relay_poll, poll_loop}
use unp_and_apue3e.Relay.Select as Select
use unp_and_apue3e.Relay.Select.{interrupted, found, relay_select}
use unp_and_apue3e.Relay.Selected.{as_answers, comes_to, relay_select-relay}
use unp_and_apue3e.Relay.Polled.{IsDone, relay_poll-IsDone}

abbrev quiet : Events
quiet = record { pollin = false; pollout = false }

abbrev readable : Events
readable = record { pollin = true; pollout = false }

abbrev writable : Events
writable = record { pollin = false; pollout = true }

-- One byte from the first terminal, and then its end; nothing from the second.
abbrev rounds : List Round
rounds =
    record {
      polled = some (readable, readable);
      answers = record { r12 = got (5 ∷ []); w12 = write_again; r21 = got []; w21 = write_again };
    }
    ∷ record {
      polled = some (quiet, writable);
      answers = record { r12 = read_again; w12 = took 1; r21 = got []; w21 = write_again };
    }
    ∷ record {
      polled = some (readable, quiet);
      answers = record { r12 = got []; w12 = write_again; r21 = got []; w21 = write_again };
    }
    ∷ []

abbrev forth : Line
forth = record {
  fsm = record {
    state = state_t;
    sfd = 3;
    dfd = 4;
    buf = 5 ∷ [];
    len = pos 0;
    offset = 1;
    errstr = none;
  };
  taken = 5 ∷ [];
  given = 5 ∷ [];
}

abbrev back : Line
back = record {
  fsm = record {
    state = state_t;
    sfd = 4;
    dfd = 3;
    buf = [];
    len = pos 0;
    offset = 0;
    errstr = none;
  };
  taken = [];
  given = [];
}

relay_poll-IsDone_example : IsDone (ended forth back)
unfolding relay_poll poll_loop start drive fsm_driver dispatch on_read on_write sub_len taken_by
    given_by overwrite driven
relay_poll-IsDone_example =
    relay_poll-IsDone 3 4 [] [] (quiet, quiet) rounds (ended forth back)
      ((λ e. tt), (λ e. tt), ((λ e k h. ground arith), (λ e. tt), ((λ e. tt), (λ e. tt), tt))) refl

-- An interrupted call, and then the same rounds with select.
abbrev selected_rounds : List Select.Round
selected_rounds =
    record {
      selected = interrupted;
      answers = record { r12 = read_again; w12 = write_again; r21 = read_again; w21 = write_again };
    }
    ∷ record {
      selected = found readable readable;
      answers = record { r12 = got (5 ∷ []); w12 = write_again; r21 = got []; w21 = write_again };
    }
    ∷ record {
      selected = found quiet writable;
      answers = record { r12 = read_again; w12 = took 1; r21 = got []; w21 = write_again };
    }
    ∷ record {
      selected = found readable quiet;
      answers = record { r12 = got []; w12 = write_again; r21 = got []; w21 = write_again };
    }
    ∷ []

relay_select-relay_example : relay_select 3 4 [] [] selected_rounds ≡ (
    let (answers, fails) = as_answers (start 3 4 []) (start 4 3 []) selected_rounds in
    comes_to (relay 3 4 [] [] answers) fails)
relay_select-relay_example = relay_select-relay 3 4 [] [] selected_rounds
