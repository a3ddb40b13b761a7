-- ===== src/Relay/Copy.antt =====
-- The relay copies: what it has written is what it has read, but for what waits in the buffer.
use native.Mathlib.Decide.{dec_lt}
use unp_and_apue3e.Prelude.{
  ℕ, suc, zero, ◌+◌, ◌-◌, ◌≤◌, ◌≡◌, ◌≢◌, refl, sym, ◌∙◌, ap, true, ◌&&◌, Option, none, some, List,
  [], ◌∷◌, ◌++◌, append_assoc, append-nil, arith, length, take, drop, ℤ, pos, Bool-cases, inl, inr,
  drop-drop, ne→==,
}
use unp_and_apue3e.Text.{Bytes}
use unp_and_apue3e.File.{slice}
use unp_and_apue3e.File.Slice.{slice-overwrite_self}
use unp_and_apue3e.Relay.{
  State, state_r, state_w, state_ex, state_t, write_failed, Fsm, ReadAnswer, got, read_again,
  read_error, WriteAnswer, took, write_again, write_error, sub_len, on_read, on_write, dispatch,
  fsm_driver, taken_by, given_by, Line, drive, start, is_t, Answers, relay_loop, relay,
}

-- What the kernel may answer: it takes no more bytes than it is offered.
abbrev pub Allowed : Fsm → WriteAnswer → Type 0
Allowed f (took n) = (k : ℕ) → f.len ≡ pos k → n ≤ k
Allowed f w = Unit {0}

-- By state, what was read against what was written: all of it, or all but what waits in the
-- buffer; in the last two states all, unless a write failed.
abbrev Copied : State → Fsm → Bytes → Bytes → Type 0
Copied state_r f taken given = (f.errstr ≡ none) × (taken ≡ given)
Copied state_w f taken given =
    (k : ℕ) × (f.errstr ≡ none)
    × (f.len ≡ pos (suc k))
    × (taken ≡ given ++ slice f.offset (suc k) f.buf)
Copied _ f taken given =
    (rest : Bytes) × (taken ≡ given ++ rest) × (f.errstr ≢ some write_failed → rest ≡ [])

abbrev pub IsCopy : Line → Type 0
IsCopy l = Copied l.fsm.state l.fsm l.taken l.given

take-split : (m n k : ℕ) (xs : Bytes) → k ≡ m + n → take k xs ≡ take m xs ++ take n (drop m xs)
take-split zero n k xs h = ap (λ i. take i xs) (omega arith)
take-split (suc m) n zero xs h = absurd (omega arith)
take-split (suc m) zero (suc k) [] h = refl
take-split (suc m) (suc n) (suc k) [] h = refl
take-split (suc m) n (suc k) (x ∷ xs) h = ap (λ l. x ∷ l) (take-split m n k xs (omega arith))

on_read-Copied :
    (f : Fsm) (taken given : Bytes) (r : ReadAnswer)
    → (f.errstr ≡ none) × (taken ≡ given)
    → Copied (on_read f r).state (on_read f r) (taken ++ taken_by state_r r) (given ++ [])
unfolding on_read taken_by
on_read-Copied f taken given (got []) (e, c) = ([], rw c (sym (append-nil _)), λ n. refl)
on_read-Copied f taken given (got (b ∷ bs)) (e, c) = (
  length bs,
  e,
  refl,
  rw (c, append-nil, slice-overwrite_self f.buf 0 (b ∷ bs) (suc (length bs)) refl),
)
on_read-Copied f taken given read_again (e, c) = (e, rw c)
on_read-Copied f taken given read_error (e, c) = ([], rw c (sym (append-nil _)), λ n. refl)

sub_len_lem : (len : ℤ) (k n : ℕ) → len ≡ pos k → n ≤ k → sub_len len n ≡ pos (k - n)
unfolding sub_len
sub_len_lem len k n e h = rw e (ground arith)

on_write-Copied :
    (f : Fsm) (taken given : Bytes) (w : WriteAnswer)
    → Allowed f w
    → Copied state_w f taken given
    → Copied (on_write f w).state (on_write f w) (taken ++ []) (given ++ given_by state_w f w)
unfolding on_write given_by sub_len
on_write-Copied f taken given (took n) a (k, e, l, c) = elim (dec_lt n (suc k)) [
  | yes some_left ↦
      let left : sub_len f.len n ≡ pos (suc (k - n)) =
        sub_len_lem f.len (suc k) n l (omega arith) ∙ ap pos (omega arith) in
      rw (left, ne→== (suc (k - n)) 0 (omega arith))
        (
          k - n,
          e,
          refl,
          rw (append-nil, append_assoc) (c ∙ ap (λ t. given ++ t) (split_at n (omega arith))),
        )
  | no none_left ↦
      let all : suc k ≡ n = let h = a (suc k) l in omega arith in
      let left : sub_len f.len n ≡ pos 0 =
        sub_len_lem f.len (suc k) n l (omega arith) ∙ ap pos (omega arith) in
      rw left (e, append-nil taken ∙ c ∙ ap (λ i. given ++ slice f.offset i f.buf) all)
]
  where
    split_at :
        (m : ℕ)
        → m ≤ k
        → slice f.offset (suc k) f.buf
          ≡ slice f.offset m f.buf ++ slice (f.offset + m) (suc (k - m)) f.buf
    split_at m h =
        take-split m (suc (k - m)) (suc k) (drop f.offset f.buf) (omega arith)
        ∙ ap (λ l. slice f.offset m f.buf ++ take (suc (k - m)) l)
            (drop-drop m f.offset (f.offset + m) f.buf refl)
on_write-Copied f taken given write_again a (k, e, l, c) = (k, e, l, rw (append-nil, append-nil) c)
on_write-Copied f taken given write_error a (k, e, l, c) =
    (slice f.offset (suc k) f.buf, rw (append-nil, append-nil) c, λ n. absurd (n refl))

dispatch-Copied :
    (st : State) (f : Fsm) (taken given : Bytes) (r : ReadAnswer) (w : WriteAnswer)
    → f.state ≡ st
    → (st ≡ state_w → Allowed f w)
    → Copied st f taken given
    → Copied
        (dispatch st f r w).state
        (dispatch st f r w)
        (taken ++ taken_by st r)
        (given ++ given_by st f w)
unfolding dispatch taken_by given_by
dispatch-Copied state_r f taken given r w e a c = on_read-Copied f taken given r c
dispatch-Copied state_w f taken given r w e a c = on_write-Copied f taken given w (a refl) c
dispatch-Copied state_ex f taken given r w e a (rest, c, n) =
    (rest, rw (append-nil, append-nil) c, n)
dispatch-Copied state_t f taken given r w e a c = rw (e, append-nil, append-nil) c

-- The answers of the rounds, each at the machines that they are given to.
abbrev pub AllAllowed : Line → Line → List Answers → Type 0
AllAllowed a b [] = Unit {0}
AllAllowed a b (x ∷ xs) =
    (a.fsm.state ≡ state_w → Allowed a.fsm x.w12)
    × (b.fsm.state ≡ state_w → Allowed b.fsm x.w21)
    × AllAllowed (drive a x.r12 x.w12) (drive b x.r21 x.w21) xs

-- One call of fsm_driver, in any state and for any answer but a write that takes more than it was
-- offered, keeps IsCopy: what was read is what was written and what waits in the buffer, or is lost
-- to a failed write.
pub drive-IsCopy :
    (l : Line) (r : ReadAnswer) (w : WriteAnswer)
    → (l.fsm.state ≡ state_w → Allowed l.fsm w)
    → IsCopy l
    → IsCopy (drive l r w)
unfolding drive fsm_driver
drive-IsCopy l r w a c = dispatch-Copied l.fsm.state l.fsm l.taken l.given r w refl a c

-- A machine at its end has copied all, unless a write failed.
abbrev pub IsFinished : Line → Type 0
IsFinished l = (l.fsm.state ≡ state_t) × (l.fsm.errstr ≢ some write_failed → l.given ≡ l.taken)

is_t→eq : (st : State) → is_t st ≡ true → st ≡ state_t
is_t→eq st h = ground arith

pub end-IsFinished : (l : Line) → is_t l.fsm.state ≡ true → IsCopy l → IsFinished l
end-IsFinished l h c =
    let e = is_t→eq l.fsm.state h in
    let done : Copied state_t l.fsm l.taken l.given = rw e at c in
    (e, λ n. sym (done.1 ∙ ap (λ r. l.given ++ r) (done.2 n) ∙ append-nil l.given))

none-ne-some : {x : Line × Line} → none ≡ some x → ⊥
none-ne-some h = cc

both_end :
    (a b : Line) {a' b' : Line}
    → (is_t a.fsm.state && is_t b.fsm.state) ≡ true
    → IsCopy a
    → IsCopy b
    → ◌≡◌ {A = Option (Line × Line)} (some (a, b)) (some (a', b'))
    → IsFinished a' × IsFinished b'
both_end a b {a'} {b'} t ca cb e =
    let ea : a ≡ a' = cc in
    let eb : b ≡ b' = cc in
    let ta : is_t a.fsm.state ≡ true = ground arith in
    let tb : is_t b.fsm.state ≡ true = ground arith in
    (rw (← ea) (end-IsFinished a ta ca), rw (← eb) (end-IsFinished b tb cb))

relay_loop-IsFinished :
    (a b : Line) (xs : List Answers) {a' b' : Line}
    → AllAllowed a b xs
    → IsCopy a
    → IsCopy b
    → relay_loop a b xs ≡ some (a', b')
    → IsFinished a' × IsFinished b'
unfolding relay_loop
relay_loop-IsFinished a b [] al ca cb e = elim (Bool-cases (is_t a.fsm.state && is_t b.fsm.state)) [
  | inl t ↦ both_end a b t ca cb (rw t at e)
  | inr t ↦ absurd (none-ne-some (rw t at e))
]
relay_loop-IsFinished a b (x ∷ xs) (a12, a21, al) ca cb e =
    elim (Bool-cases (is_t a.fsm.state && is_t b.fsm.state)) [
      | inl t ↦ both_end a b t ca cb (rw t at e)
      | inr t ↦
          relay_loop-IsFinished (drive a x.r12 x.w12) (drive b x.r21 x.w21) xs al
            (drive-IsCopy a x.r12 x.w12 a12 ca) (drive-IsCopy b x.r21 x.w21 a21 cb) (rw t at e)
    ]

pub start-IsCopy : (s d : ℕ) (buf : Bytes) → IsCopy (start s d buf)
unfolding start
start-IsCopy s d buf = (refl, refl)

-- When relay ends, over answers in which no write takes more bytes than it was offered, both
-- machines are in STATE_T, and each whose errstr is not that of a failed write has written what it
-- has read, byte for byte.
pub relay-IsFinished :
    (fd1 fd2 : ℕ) (buf12 buf21 : Bytes) (xs : List Answers) {a b : Line}
    → AllAllowed (start fd1 fd2 buf12) (start fd2 fd1 buf21) xs
    → relay fd1 fd2 buf12 buf21 xs ≡ some (a, b)
    → IsFinished a × IsFinished b
unfolding relay
relay-IsFinished fd1 fd2 buf12 buf21 xs al e =
    relay_loop-IsFinished (start fd1 fd2 buf12) (start fd2 fd1 buf21) xs al
      (start-IsCopy fd1 fd2 buf12) (start-IsCopy fd2 fd1 buf21) e

-- The end state absorbs: further calls of the driver, which the loop makes while the other machine
-- runs, change nothing.
pub drive-state_t :
    (l : Line) (r : ReadAnswer) (w : WriteAnswer) → l.fsm.state ≡ state_t → drive l r w ≡ l
unfolding drive fsm_driver dispatch taken_by given_by
drive-state_t l r w h = rw (h, append-nil, append-nil)
