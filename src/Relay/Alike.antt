-- ===== src/Relay/Alike.antt =====
-- Two machines of more01/apue.3e/advio/fsm.c, one whose driver is called where a descriptor is ready, and
-- one whose driver is always called.
use unp_and_apue3e.Prelude.{
  ◌≡◌, refl, sym, ap, ◌∙◌, arith, Bool, true, false, [], ◌∷◌, ◌&&◌, append-nil, if◌then◌else◌, ℤ,
  negsuc, ◌⊎◌, Bool-cases, inl, inr,
}
use mathlib.Core.Path.{subst}
use unp_and_apue3e.Relay.{
  State, state_r, state_w, state_ex, state_t, ReadAnswer, got, read_again, read_error, WriteAnswer,
  write_again, Line, drive, fsm_driver, dispatch, on_read, on_write, taken_by, given_by, is_t,
}
use unp_and_apue3e.Relay.Poll.{Events, is_r, is_w, before_auto, driven}

-- Does a machine read or write?
abbrev pub at_work : State → Bool
at_work state_r = true
at_work state_w = true
at_work state_ex = false
at_work state_t = false

-- Two machines that are the same, but perhaps for `len` before a read, which sets it.
abbrev pub with_len : ℤ → Line → Line
with_len n l = record l { fsm = record l.fsm { len = n } }

abbrev pub Alike : Line → Line → Type 0
Alike l m = (m ≡ l) ⊎ ((l.fsm.state ≡ state_r) × (n : ℤ) × (m ≡ with_len n l))

drive-with_len :
    (l : Line) (n : ℤ) (r : ReadAnswer) (w : WriteAnswer)
    → l.fsm.state ≡ state_r
    → drive (with_len n l) r w ≡ drive l r w
unfolding drive fsm_driver dispatch on_read taken_by given_by
drive-with_len l n (got []) w e = rw e refl
drive-with_len l n (got (b ∷ bs)) w e = rw e refl
drive-with_len l n read_again w e = rw e refl
drive-with_len l n read_error w e = rw e refl

drive-read_again :
    (l : Line) (w : WriteAnswer)
    → l.fsm.state ≡ state_r
    → drive l read_again w ≡ with_len (negsuc 0) l
unfolding drive fsm_driver dispatch on_read taken_by given_by
drive-read_again l w e = rw (e, append-nil, append-nil) refl

drive-write_again : (l : Line) (r : ReadAnswer) → l.fsm.state ≡ state_w → drive l r write_again ≡ l
unfolding drive fsm_driver dispatch on_write taken_by given_by
drive-write_again l r e = rw (e, append-nil, append-nil) refl

-- A machine looks only at what it asks for.
drive-no_write :
    (l : Line) (r : ReadAnswer) (w v : WriteAnswer)
    → l.fsm.state ≡ state_r
    → drive l r w ≡ drive l r v
unfolding drive fsm_driver dispatch taken_by given_by
drive-no_write l r w v e = rw e refl

drive-no_read :
    (l : Line) (r s : ReadAnswer) (w : WriteAnswer)
    → l.fsm.state ≡ state_w
    → drive l r w ≡ drive l s w
unfolding drive fsm_driver dispatch taken_by given_by
drive-no_read l r s w e = rw e refl

drive-past :
    (l : Line) (st : State) (r s : ReadAnswer) (w v : WriteAnswer)
    → l.fsm.state ≡ st
    → at_work st ≡ false
    → drive l r w ≡ drive l s v
unfolding drive fsm_driver dispatch taken_by given_by
drive-past l state_r r s w v e h = absurd (cc)
drive-past l state_w r s w v e h = absurd (cc)
drive-past l state_ex r s w v e h = rw e refl
drive-past l state_t r s w v e h = rw e refl

Alike-read :
    (l m : Line) (r : ReadAnswer) (w : WriteAnswer)
    → Alike l m
    → l.fsm.state ≡ state_r
    → drive m r w ≡ drive l r w
Alike-read l m r w (inl same) e = ap (λ x. drive x r w) same
Alike-read l m r w (inr (h, n, same)) e = ap (λ x. drive x r w) same ∙ drive-with_len l n r w e

pub Alike-state : (l m : Line) → Alike l m → m.fsm.state ≡ l.fsm.state
Alike-state l m (inl same) = ap (λ x. x.fsm.state) same
Alike-state l m (inr (h, n, same)) = ap (λ x. x.fsm.state) same

Alike-same : (l m : Line) (st : State) → Alike l m → l.fsm.state ≡ st → is_r st ≡ false → m ≡ l
Alike-same l m st (inl same) e h = same
Alike-same l m st (inr (at, n, same)) e h =
    let both : st ≡ state_r = sym e ∙ at in
    let yes : is_r st ≡ true = ap (λ x. is_r x) both in absurd (cc)

-- Is the driver called for a machine whose descriptors are ready, or are not?
goes : State → Bool → Bool → Bool
goes state_r pin pout = pin
goes state_w pin pout = pout
goes state_ex pin pout = true
goes state_t pin pout = true

driven-goes :
    (st : State) (src dst : Events) (pin pout : Bool)
    → src.pollin ≡ (is_r st && pin)
    → dst.pollout ≡ (is_w st && pout)
    → driven st src dst ≡ goes st pin pout
unfolding driven goes
driven-goes state_r src dst pin pout hs hd = ground arith
driven-goes state_w src dst pin pout hs hd = ground arith
driven-goes state_ex src dst pin pout hs hd = ground arith
driven-goes state_t src dst pin pout hs hd = ground arith

module _ (l m : Line) (pin pout : Bool) (r : ReadAnswer) (w : WriteAnswer) (al : Alike l m) where
  goes-Alike :
      (st : State)
      → l.fsm.state ≡ st
      → Alike
          (if goes st pin pout then drive l r w else l)
          (drive m (if pin then r else read_again) (if pout then w else write_again))
  unfolding goes
  goes-Alike state_r e = elim (Bool-cases pin) [
    | inl ready ↦
        let v = if pout then w else write_again in
        let same : drive m r v ≡ drive l r w = Alike-read l m r v al e ∙ drive-no_write l r v w e in
        rw ready (inl same)
    | inr waits ↦
        let v = if pout then w else write_again in
        let same : drive m read_again v ≡ with_len (negsuc 0) l =
          Alike-read l m read_again v al e ∙ drive-read_again l v e in
        rw waits (inr (e, negsuc 0, same))
  ]
  goes-Alike state_w e =
      let same = Alike-same l m state_w al e refl in
      let v = if pin then r else read_again in
      elim (Bool-cases pout) [
        | inl ready ↦
            let eq : drive m v w ≡ drive l r w =
              ap (λ x. drive x v w) same ∙ drive-no_read l v r w e in
            rw ready (inl eq)
        | inr waits ↦
            let eq : drive m v write_again ≡ l =
              ap (λ x. drive x v write_again) same ∙ drive-write_again l v e in
            rw waits (inl eq)
      ]
  goes-Alike state_ex e =
      let same = Alike-same l m state_ex al e refl in
      let v = if pin then r else read_again in
      let u = if pout then w else write_again in
      inl (ap (λ x. drive x v u) same ∙ drive-past l state_ex v r u w e refl)
  goes-Alike state_t e =
      let same = Alike-same l m state_t al e refl in
      let v = if pin then r else read_again in
      let u = if pout then w else write_again in
      inl (ap (λ x. drive x v u) same ∙ drive-past l state_t v r u w e refl)

  -- The driver of a machine whose descriptors select has looked at, and the driver that is always
  -- called.
  pub driven-Alike :
      (src dst : Events)
      → src.pollin ≡ (is_r l.fsm.state && pin)
      → dst.pollout ≡ (is_w l.fsm.state && pout)
      → Alike
          (if driven l.fsm.state src dst then drive l r w else l)
          (drive m (if pin then r else read_again) (if pout then w else write_again))
  driven-Alike src dst hs hd =
      subst
        (λ g.
          Alike (if g then drive l r w else l)
            (drive m (if pin then r else read_again) (if pout then w else write_again)))
        (sym (driven-goes l.fsm.state src dst pin pout hs hd)) (goes-Alike l.fsm.state refl)

pub ended-Alike : (l m : Line) (st : State) → Alike l m → l.fsm.state ≡ st → is_t st ≡ true → m ≡ l
ended-Alike l m state_t al e h = Alike-same l m state_t al e refl
ended-Alike l m state_r al e h = absurd (cc)
ended-Alike l m state_w al e h = absurd (cc)
ended-Alike l m state_ex al e h = absurd (cc)

pub before_auto-at_work : (st : State) → before_auto st ≡ at_work st
before_auto-at_work state_r = refl
before_auto-at_work state_w = refl
before_auto-at_work state_ex = refl
before_auto-at_work state_t = refl

pub and_true : (x : Bool) → x ≡ (x && true)
and_true true = refl
and_true false = refl

pub both_true : (x y : Bool) → (x && y) ≡ true → (x ≡ true) × (y ≡ true)
both_true x y h = (ground arith, ground arith)
