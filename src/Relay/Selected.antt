-- ===== src/Relay/Selected.antt =====
-- That the relay of more01/apue.3e/advio/fsm_select.c does what that of fsm.c does, which asks at each
-- turn of its loop and is told EAGAIN where a descriptor is not ready.
use unp_and_apue3e.Prelude.{
  ℕ, ◌≡◌, refl, sym, ◌∙◌, Bool, true, false, ◌&&◌, ◌||◌, Option, none, some, List, [], ◌∷◌,
  if◌then◌else◌, Bool-cases, inl, inr,
}
use mathlib.Core.Path.{subst}
use unp_and_apue3e.Text.{Bytes}
use unp_and_apue3e.Relay.{
  read_again, write_again, Line, drive, start, is_t, Answers, relay_loop, relay,
}
use unp_and_apue3e.Relay.Alike.{
  at_work, Alike, Alike-state, driven-Alike, ended-Alike, before_auto-at_work, and_true, both_true,
}
use unp_and_apue3e.Relay.Copy.{AllAllowed, relay-IsFinished}
use unp_and_apue3e.Relay.Poll.{
  Events, is_r, is_w, before_auto, events, drive12, drive21, Outcome, ended, exited,
}
use unp_and_apue3e.Relay.Polled.{IsDone}
use unp_and_apue3e.Relay.Select.{
  Selected, interrupted, failed, found, Round, left, asked1, asked2, select_loop, relay_select,
}

-- A descriptor that may be read and written.
abbrev pub open_wide : Events
open_wide = record { pollin = true; pollout = true }

-- What read(2) and write(2) answer of descriptors of which these are ready: else it is EAGAIN.
abbrev pub nonblocking : Events → Events → Answers → Answers
nonblocking fd1 fd2 x = record {
  r12 = if fd1.pollin then x.r12 else read_again;
  w12 = if fd2.pollout then x.w12 else write_again;
  r21 = if fd2.pollin then x.r21 else read_again;
  w21 = if fd1.pollout then x.w21 else write_again;
}

-- What select says in a round; where no machine reads or writes it is not asked.
abbrev pub asked : Line → Line → Round → Selected
asked a b x =
    if at_work a.fsm.state || at_work b.fsm.state then x.selected else found open_wide open_wide

-- The answers that the relay of fsm.c is given in the same rounds, and whether a failed select ends
-- them. An interrupted select is no round.
unfoldable pub as_answers : Line → Line → List Round → List Answers × Bool
as_answers a b [] = ([], false)
as_answers a b (x ∷ xs) = elim (asked a b x) [
  | interrupted ↦ as_answers a b xs
  | failed ↦ ([], true)
  | found p q ↦
      let y = nonblocking p q x.answers in
      let rest = as_answers (drive a y.r12 y.w12) (drive b y.r21 y.w21) xs in (y ∷ rest.0, rest.1)
]

-- What the relay with select comes to where that of fsm.c comes to this.
abbrev pub comes_to : Option (Line × Line) → Bool → Option Outcome
comes_to (some (a, b)) fails = some (ended a b)
comes_to none true = some exited
comes_to none false = none

relay_loop-ended :
    (a b : Line) (xs : List Answers)
    → (is_t a.fsm.state && is_t b.fsm.state) ≡ true
    → relay_loop a b xs ≡ some (a, b)
unfolding relay_loop
relay_loop-ended a b [] t = rw t
relay_loop-ended a b (x ∷ xs) t = rw t

-- The relay of fsm.c in the rounds of select, from these machines on.
abbrev Matches : List Round → Line → Line → Line → Line → Type 0
Matches xs a b c d =
    select_loop a b xs ≡ comes_to (relay_loop c d (as_answers c d xs).0) (as_answers c d xs).1

module _ (a b c d : Line) (al : Alike a c) (bl : Alike b d) where
  both_ended :
      (xs : List Round)
      → (is_t a.fsm.state && is_t b.fsm.state) ≡ true
      → some (ended a b) ≡ comes_to (relay_loop c d (as_answers c d xs).0) (as_answers c d xs).1
  both_ended xs t =
      let (ta, tb) = both_true (is_t a.fsm.state) (is_t b.fsm.state) t in
      let ca : c ≡ a = ended-Alike a c a.fsm.state al refl ta in
      let db : d ≡ b = ended-Alike b d b.fsm.state bl refl tb in
      let t2 : (is_t c.fsm.state && is_t d.fsm.state) ≡ true = rw (ca, db) t in
      rw (relay_loop-ended c d (as_answers c d xs).0 t2) (rw (ca, db) refl)

  module _ (xs : List Round) (rest : (a b c d : Line) → Alike a c → Alike b d → Matches xs a b c d)
      (x : Answers) (t : (is_t a.fsm.state && is_t b.fsm.state) ≡ false) where
    same_t : (is_t c.fsm.state && is_t d.fsm.state) ≡ false
    same_t = rw (Alike-state a c al, Alike-state b d bl) t

    busy_of :
        (busy : Bool)
        → (before_auto a.fsm.state || before_auto b.fsm.state) ≡ busy
        → (at_work c.fsm.state || at_work d.fsm.state) ≡ busy
    busy_of busy e =
        rw
          (
            Alike-state a c al,
            Alike-state b d bl,
            ← before_auto-at_work a.fsm.state,
            ← before_auto-at_work b.fsm.state,
          )
          e

    -- The machines behind a round.
    next12 :
        (p q p0 q0 : Events)
        → p.pollin ≡ (is_r a.fsm.state && p0.pollin)
        → q.pollout ≡ (is_w a.fsm.state && q0.pollout)
        → Alike (drive12 a p q x) (let y = nonblocking p0 q0 x in drive c y.r12 y.w12)
    next12 p q p0 q0 hs hd = driven-Alike a c p0.pollin q0.pollout x.r12 x.w12 al p q hs hd

    next21 :
        (p q p0 q0 : Events)
        → q.pollin ≡ (is_r b.fsm.state && q0.pollin)
        → p.pollout ≡ (is_w b.fsm.state && p0.pollout)
        → Alike (drive21 b p q x) (let y = nonblocking p0 q0 x in drive d y.r21 y.w21)
    next21 p q p0 q0 hs hd = driven-Alike b d q0.pollin p0.pollout x.r21 x.w21 bl q p hs hd

    called_lem :
        (sel : Selected)
        → (before_auto a.fsm.state || before_auto b.fsm.state) ≡ true
        → Matches (record { selected = sel; answers = x } ∷ xs) a b c d
    unfolding select_loop as_answers relay_loop events
    called_lem interrupted busy =
        rw (select_loop, as_answers, t, busy, busy_of true busy) (rest a b c d al bl)
    called_lem failed busy = rw (select_loop, as_answers, t, busy, busy_of true busy, same_t) refl
    called_lem (found p q) busy =
        let p2 = left (asked1 a b) p in
        let q2 = left (asked2 a b) q in
        let y = nonblocking p q x in
        rw (select_loop, as_answers, t, busy, busy_of true busy, same_t)
          (rest (drive12 a p2 q2 x) (drive21 b p2 q2 x) (drive c y.r12 y.w12) (drive d y.r21 y.w21)
            (next12 p2 q2 p q refl refl) (next21 p2 q2 p q refl refl))

    past_lem :
        (sel : Selected)
        → (before_auto a.fsm.state || before_auto b.fsm.state) ≡ false
        → Matches (record { selected = sel; answers = x } ∷ xs) a b c d
    unfolding select_loop as_answers relay_loop events
    past_lem sel past =
        let p = asked1 a b in
        let q = asked2 a b in
        let y = nonblocking open_wide open_wide x in
        rw (select_loop, as_answers, t, past, busy_of false past, same_t)
          (rest (drive12 a p q x) (drive21 b p q x) (drive c y.r12 y.w12) (drive d y.r21 y.w21)
            (next12 p q open_wide open_wide (and_true (is_r a.fsm.state))
              (and_true (is_w a.fsm.state)))
            (next21 p q open_wide open_wide (and_true (is_r b.fsm.state))
              (and_true (is_w b.fsm.state))))

select_loop-Matches :
    (xs : List Round) (a b c d : Line) → Alike a c → Alike b d → Matches xs a b c d
unfolding select_loop relay_loop as_answers
select_loop-Matches [] a b c d al bl = elim (Bool-cases (is_t a.fsm.state && is_t b.fsm.state)) [
  | inl t ↦ rw t (both_ended a b c d al bl [] t)
  | inr t ↦
      let none_left : (is_t c.fsm.state && is_t d.fsm.state) ≡ false =
        rw (Alike-state a c al, Alike-state b d bl) t in
      rw (t, none_left) refl
]
select_loop-Matches (x ∷ xs) a b c d al bl =
    elim (Bool-cases (is_t a.fsm.state && is_t b.fsm.state)) [
      | inl t ↦ rw t (both_ended a b c d al bl (x ∷ xs) t)
      | inr t ↦ elim (Bool-cases (before_auto a.fsm.state || before_auto b.fsm.state)) [
        | inl busy ↦
            called_lem a b c d al bl xs (select_loop-Matches xs) x.answers t x.selected busy
        | inr past ↦ past_lem a b c d al bl xs (select_loop-Matches xs) x.answers t x.selected past
      ]
    ]

-- The relay with select, over any rounds, ends just as, and with the machines with which, the relay
-- of fsm.c does that asks at each turn and is told EAGAIN where select has not found the descriptor
-- ready, an interrupted select being no turn and each call being answered once neither machine
-- reads or writes; and it exits where a select fails before that relay has ended.
pub relay_select-relay :
    (fd1 fd2 : ℕ) (buf12 buf21 : Bytes) (xs : List Round)
    → relay_select fd1 fd2 buf12 buf21 xs ≡ (
        let (answers, fails) = as_answers (start fd1 fd2 buf12) (start fd2 fd1 buf21) xs in
        comes_to (relay fd1 fd2 buf12 buf21 answers) fails)
unfolding relay_select relay
relay_select-relay fd1 fd2 buf12 buf21 xs =
    let a = start fd1 fd2 buf12 in
    let b = start fd2 fd1 buf21 in select_loop-Matches xs a b a b (inl refl) (inl refl)

come_to-IsDone :
    (r : Option (Line × Line)) (fails : Bool) (o : Outcome)
    → ((a b : Line) → r ≡ some (a, b) → IsDone (ended a b))
    → comes_to r fails ≡ some o
    → IsDone o
come_to-IsDone (some (a, b)) fails o h e =
    let at : ended a b ≡ o = cc in subst IsDone at (h a b refl)
come_to-IsDone none true o h e = let at : exited ≡ o = cc in subst IsDone at tt
come_to-IsDone none false o h e = absurd (let lost = e in cc)

-- Where the relay with select ends, over rounds in which no write takes more bytes than it was
-- offered, both machines have copied what they read.
relay_select-IsDone :
    (fd1 fd2 : ℕ) (buf12 buf21 : Bytes) (xs : List Round) (o : Outcome)
    → AllAllowed
        (start fd1 fd2 buf12)
        (start fd2 fd1 buf21)
        (as_answers (start fd1 fd2 buf12) (start fd2 fd1 buf21) xs).0
    → relay_select fd1 fd2 buf12 buf21 xs ≡ some o
    → IsDone o
relay_select-IsDone fd1 fd2 buf12 buf21 xs o al e =
    let run = as_answers (start fd1 fd2 buf12) (start fd2 fd1 buf21) xs in
    come_to-IsDone (relay fd1 fd2 buf12 buf21 run.0) run.1 o
      (λ a b r. relay-IsFinished fd1 fd2 buf12 buf21 run.0 al r)
      (sym (relay_select-relay fd1 fd2 buf12 buf21 xs) ∙ e)
