-- ===== src/Relay/Polled.antt =====
-- That the relay of more01/apue.3e/advio/fsm_poll.c copies, and calls read and write only where the
-- descriptor is ready.
use mathlib.Core.Path.{subst}
use unp_and_apue3e.Prelude.{
  ℕ, ◌≡◌, refl, Bool, true, false, ◌&&◌, ◌||◌, Option, none, some, List, [], ◌∷◌, if◌then◌else◌,
  Bool-cases, Option-cases, inl, inr, arith,
}
use unp_and_apue3e.Text.{Bytes}
use unp_and_apue3e.Relay.{State, state_r, state_w, state_ex, state_t, Line, start, is_t}
use unp_and_apue3e.Relay.Copy.{
  Allowed, IsCopy, IsFinished, drive-IsCopy, end-IsFinished, start-IsCopy,
}
use unp_and_apue3e.Relay.Poll.{
  Events, events, Round, Outcome, ended, exited, revents_of, driven, drive12, drive21, poll_loop,
  relay_poll,
}

-- poll reports an event only where it was asked for.
abbrev pub Within : Events → Events → Type 0
Within e r = (r.pollin ≡ true → e.pollin ≡ true) × (r.pollout ≡ true → e.pollout ≡ true)

-- A machine that is driven while it reads finds its source ready, one that writes its destination.
abbrev pub Ready : State → (source destination : Events) → Type 0
Ready state_r source destination = source.pollin ≡ true
Ready state_w source destination = destination.pollout ≡ true
Ready _ source destination = Unit

only_first : (i o : Bool) → (o ≡ true → false ≡ true) → (i || o || false) ≡ true → i ≡ true
only_first true o n d = refl
only_first false true n d = n refl
only_first false false n d = d

only_second : (i o : Bool) → (i ≡ true → false ≡ true) → (i || o || false) ≡ true → o ≡ true
only_second true o n d = absurd (let f = n refl in cc)
only_second false true n d = refl
only_second false false n d = d

-- Where poll reports POLLIN and POLLOUT only as they are asked for, a machine that is driven in
-- STATE_R finds its source readable, and one that is driven in STATE_W its destination writable, in
-- both directions.
pub driven-Ready :
    (s12 s21 : State) (p q : Events)
    → Within (events s12 s21) p
    → Within (events s21 s12) q
    → (driven s12 p q ≡ true → Ready s12 p q) × (driven s21 q p ≡ true → Ready s21 q p)
unfolding driven events
driven-Ready s12 s21 p q h g = (ready s12 s21 p q h g, ready s21 s12 q p g h)
  where
    ready :
        (s t : State) (p q : Events)
        → Within (events s t) p
        → Within (events t s) q
        → driven s p q ≡ true
        → Ready s p q
    ready state_r t p q h g d = only_first p.pollin q.pollout g.1 d
    ready state_w t p q h g d = only_second p.pollin q.pollout h.0 d
    ready state_ex t p q h g d = tt
    ready state_t t p q h g d = tt

abbrev pub WherePolled : (Events → Events → Type 0) → Option (Events × Events) → Type 0
WherePolled P none = Unit
WherePolled P (some (p, q)) = P p q

-- No write takes more bytes than it was offered.
abbrev pub AllTaken : Line → Line → Events × Events → List Round → Type 0
AllTaken a b old [] = Unit
AllTaken a b old (x ∷ xs) =
    WherePolled
      (λ p q.
        (a.fsm.state ≡ state_w → Allowed a.fsm x.answers.w12)
        × (b.fsm.state ≡ state_w → Allowed b.fsm x.answers.w21)
        × AllTaken (drive12 a p q x.answers) (drive21 b p q x.answers) (p, q) xs)
      (revents_of a b old x.polled)

-- Both machines have copied, where relay has ended.
abbrev pub IsDone : Outcome → Type 0
IsDone (ended a b) = IsFinished a × IsFinished b
IsDone exited = Unit

none-ne-some : {o : Outcome} → none ≡ some o → ⊥
none-ne-some h = cc

if-IsCopy : (c : Bool) (l m : Line) → IsCopy l → IsCopy m → IsCopy (if c then m else l)
if-IsCopy true l m h g = g
if-IsCopy false l m h g = h

both-IsDone :
    (a b : Line) (o : Outcome)
    → (is_t a.fsm.state && is_t b.fsm.state) ≡ true
    → IsCopy a
    → IsCopy b
    → some (ended a b) ≡ some o
    → IsDone o
both-IsDone a b o t ca cb e =
    let at : ended a b ≡ o = cc in
    let ta : is_t a.fsm.state ≡ true = ground arith in
    let tb : is_t b.fsm.state ≡ true = ground arith in
    subst IsDone at (end-IsFinished a ta ca, end-IsFinished b tb cb)

poll_loop-IsDone :
    (a b : Line) (old : Events × Events) (xs : List Round) (o : Outcome)
    → AllTaken a b old xs
    → IsCopy a
    → IsCopy b
    → poll_loop a b old xs ≡ some o
    → IsDone o
unfolding poll_loop
poll_loop-IsDone a b old [] o al ca cb e =
    elim (Bool-cases (is_t a.fsm.state && is_t b.fsm.state)) [
      | inl t ↦ both-IsDone a b o t ca cb (rw t at e)
      | inr t ↦ absurd (none-ne-some (rw t at e))
    ]
poll_loop-IsDone a b old (x ∷ xs) o al ca cb e =
    elim (Bool-cases (is_t a.fsm.state && is_t b.fsm.state)) [
      | inl t ↦ both-IsDone a b o t ca cb (rw t at e)
      | inr t ↦ elim (Option-cases (revents_of a b old x.polled)) [
        | inl r ↦ let at : exited ≡ o = ground arith in subst IsDone at tt
        | inr ((p, q), r) ↦
            let (a12, a21, rest) = subst (WherePolled _) r al in
            poll_loop-IsDone (drive12 a p q x.answers) (drive21 b p q x.answers) (p, q) xs o rest
              (if-IsCopy _ a _ ca (drive-IsCopy a x.answers.r12 x.answers.w12 a12 ca))
              (if-IsCopy _ b _ cb (drive-IsCopy b x.answers.r21 x.answers.w21 a21 cb))
              (ground arith)
      ]
    ]

-- Where the relay with poll ends, over rounds in which no write takes more bytes than it was
-- offered, both machines are in STATE_T, and each whose errstr is not that of a failed write has
-- written what it has read, byte for byte.
pub relay_poll-IsDone :
    (fd1 fd2 : ℕ) (buf12 buf21 : Bytes) (old : Events × Events) (xs : List Round) (o : Outcome)
    → AllTaken (start fd1 fd2 buf12) (start fd2 fd1 buf21) old xs
    → relay_poll fd1 fd2 buf12 buf21 old xs ≡ some o
    → IsDone o
unfolding relay_poll
relay_poll-IsDone fd1 fd2 buf12 buf21 old xs o al e =
    poll_loop-IsDone (start fd1 fd2 buf12) (start fd2 fd1 buf21) old xs o al
      (start-IsCopy fd1 fd2 buf12) (start-IsCopy fd2 fd1 buf21) e
