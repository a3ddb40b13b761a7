-- ===== src/Relay/Tests.antt =====
-- A run of the relay, and the theorems about it there.
use unp_and_apue3e.Prelude.{refl, none, List, [], ◌∷◌, arith, pos}
use unp_and_apue3e.File.{overwrite}
use unp_and_apue3e.Relay.{
  Line, state_w, state_t, Answers, got, read_again, took, write_again, relay, relay_loop, start,
  drive, fsm_driver, dispatch, on_read, on_write, sub_len, taken_by, given_by,
}
use unp_and_apue3e.Relay.Copy.{IsFinished, relay-IsFinished}

-- Three bytes from the first terminal, in a short write and its rest; nothing from the second.
abbrev rounds : List Answers
rounds =
    record { r12 = got (5 ∷ 6 ∷ 7 ∷ []); w12 = write_again; r21 = read_again; w21 = write_again }
    ∷ record { r12 = read_again; w12 = took 1; r21 = got []; w21 = write_again }
    ∷ record { r12 = read_again; w12 = took 2; r21 = got []; w21 = write_again }
    ∷ record { r12 = got []; w12 = write_again; r21 = got []; w21 = write_again }
    ∷ []

abbrev forth : Line
forth = record {
  fsm = record {
    state = state_t;
    sfd = 3;
    dfd = 4;
    buf = 5 ∷ 6 ∷ 7 ∷ [];
    len = pos 0;
    offset = 3;
    errstr = none;
  };
  taken = 5 ∷ 6 ∷ 7 ∷ [];
  given = 5 ∷ 6 ∷ 7 ∷ [];
}

abbrev back : Line
back = record {
  fsm = record {
    state = state_t;
    sfd = 4;
    dfd = 3;
    buf = [];
    len = pos 0;
    offset = 0;
    errstr = none;
  };
  taken = [];
  given = [];
}

relay-IsFinished_example : IsFinished forth × IsFinished back
unfolding relay relay_loop start drive fsm_driver dispatch on_read on_write sub_len taken_by
    given_by overwrite
relay-IsFinished_example =
    relay-IsFinished 3 4 [] [] rounds
      (
        (λ e. tt),
        (λ e. tt),
        (
          (λ e k h. ground arith),
          (λ e. tt),
          ((λ e k h. ground arith), (λ e. tt), ((λ e. tt), (λ e. tt), tt)),
        ),
      )
      refl

-- The machine with the three bytes in its buffer, one of them written.
abbrev halfway : Line
halfway = record {
  fsm = record {
    state = state_w;
    sfd = 3;
    dfd = 4;
    buf = 5 ∷ 6 ∷ 7 ∷ [];
    len = pos 2;
    offset = 1;
    errstr = none;
  };
  taken = 5 ∷ 6 ∷ 7 ∷ [];
  given = 5 ∷ [];
}
