-- ===== src/OpenServer/Passed.antt =====
-- That what send_fd and send_err of more01/apue.3e/lib send comes out of recv_fd, however the stream
-- cuts the text.
use mathlib.Core.Path.{subst}
use unp_and_apue3e.Prelude.{
  ℕ, suc, ◌<◌, ◌≡◌, refl, sym, ◌∙◌, ap, Bool, true, Option, none, some, List, [], ◌∷◌, ◌++◌, ◌==◌,
  ℤ, pos, negsuc, length, map, All, append_assoc, append-nil, arith, Bool-cases, inl, inr,
}
use unp_and_apue3e.Text.{Bytes, c_str}
use unp_and_apue3e.Text.Chars.{NoChar}
use unp_and_apue3e.Transfer.{total}
use unp_and_apue3e.OpenServer.Passing.{
  status_of, send_fd, negative, send_err, Answer, closed, got, Outcome, returned, only_text, final,
  scan, give, ended, recv_loop, recv_fd,
}

-- What recvmsg(2) answers where these bytes have come, or none before the end.
abbrev pub arrive : Option ℕ → Bytes → Answer
arrive fd [] = closed
arrive fd (b ∷ bs) = got b bs fd

-- userfunc takes all it is given.
abbrev pub TakesAll : (Bytes → Bool) → Type 0
TakesAll user = (t : Bytes) → user t ≡ true

c_str-NoChar_self : (s : Bytes) → NoChar 0 (c_str s)
unfolding c_str
c_str-NoChar_self [] = tt
c_str-NoChar_self (c ∷ s) = elim (Bool-cases (c == 0)) [
  | inl e ↦ rw e tt
  | inr e ↦ rw e (e, c_str-NoChar_self s)
]

NoChar-split : (s t : Bytes) → NoChar 0 (s ++ t) → NoChar 0 s × NoChar 0 t
NoChar-split [] t h = (tt, h)
NoChar-split (c ∷ s) t (e, h) = let (hs, ht) = NoChar-split s t h in ((e, hs), ht)

scan-NoChar : (t : Bytes) → NoChar 0 t → scan t ≡ only_text t
unfolding scan
scan-NoChar [] h = refl
scan-NoChar (c ∷ t) (e, h) = rw (e, scan-NoChar t h) refl

scan-final : (t : Bytes) (s : ℕ) → NoChar 0 t → scan (t ++ 0 ∷ s ∷ []) ≡ final t s
unfolding scan
scan-final [] s h = refl
scan-final (c ∷ t) s (e, h) = rw (e, scan-final t s h) refl

give-TakesAll :
    (user : Bytes → Bool) (t said : Bytes) (next : Outcome)
    → TakesAll user
    → give user t said next ≡ next
give-TakesAll user [] said next u = refl
give-TakesAll user (b ∷ bs) said next u = rw (u (b ∷ bs)) refl

-- One piece of text and what follows it.
recv_loop-text :
    (user : Bytes → Bool) (said c : Bytes) (rest : List Answer) (o : Outcome)
    → TakesAll user
    → 0 < length c
    → NoChar 0 c
    → recv_loop user (said ++ c) rest ≡ some o
    → recv_loop user said (arrive none c ∷ rest) ≡ some o
unfolding recv_loop
recv_loop-text user said [] rest o u h n e = absurd (omega arith)
recv_loop-text user said (b ∷ bs) rest o u h n e =
    rw (recv_loop, scan-NoChar (b ∷ bs) n, e, give-TakesAll user (b ∷ bs) said o u) refl

recv_loop-chunks :
    (user : Bytes → Bool) (said : Bytes) (cs : List Bytes) (rest : List Answer) (o : Outcome)
    → TakesAll user
    → All (λ c. 0 < length c) cs
    → NoChar 0 (total cs)
    → recv_loop user (said ++ total cs) rest ≡ some o
    → recv_loop user said (map (arrive none) cs ++ rest) ≡ some o
recv_loop-chunks user said [] rest o u h n e =
    subst (λ x. recv_loop user x rest ≡ some o) (append-nil said) e
recv_loop-chunks user said (c ∷ cs) rest o u h n e =
    let (hc, hn) = NoChar-split c (total cs) n in
    recv_loop-text user said c (map (arrive none) cs ++ rest) o u h.0 hc (
      recv_loop-chunks user (said ++ c) cs rest o u h.1 hn
        (subst (λ x. recv_loop user x rest ≡ some o) (sym (append_assoc said c (total cs))) e))

-- The last piece, with the null byte and the status.
recv_loop-final :
    (user : Bytes → Bool) (said l : Bytes) (s : ℕ) (fd : Option ℕ)
    → NoChar 0 l
    → recv_loop user said (arrive fd (l ++ 0 ∷ s ∷ []) ∷ []) ≡ some (ended user said l s fd)
unfolding recv_loop
recv_loop-final user said [] s fd n =
    let at : scan (0 ∷ s ∷ []) ≡ final [] s = scan-final [] s n in rw (recv_loop, at) refl
recv_loop-final user said (b ∷ bs) s fd n =
    let at : scan (b ∷ (bs ++ 0 ∷ s ∷ [])) ≡ final (b ∷ bs) s = scan-final (b ∷ bs) s n in
    rw (recv_loop, at) refl

-- Let send_err send an error between -1 and -255, or one that is not negative and goes as -1, with
-- a message, and let the stream bring the message in any pieces, none of them empty, the last one
-- together with the status and perhaps with some text before it. With a userfunc that takes all it
-- is given, recv_fd then ends, returns the error and has given the whole message to userfunc.
pub recv_fd-send_err :
    (user : Bytes → Bool) (errcode : ℤ) (msg : Bytes) (cs : List Bytes) (l : Bytes) (n : ℕ)
    → TakesAll user
    → negative errcode ≡ negsuc n
    → n < 255
    → All (λ c. 0 < length c) cs
    → total cs ++ l ≡ (send_err errcode msg).0
    → recv_fd user (
        map (arrive none) cs
        ++ arrive (send_err errcode msg).1.passed (l ++ (send_err errcode msg).1.bytes) ∷ [])
      ≡ some (returned (negsuc n) (c_str msg))
unfolding recv_fd send_err send_fd
recv_fd-send_err user errcode msg cs l n u e small h whole =
    let text : NoChar 0 (total cs ++ l) = rw whole (c_str-NoChar_self msg) in
    let (hc, hl) = NoChar-split (total cs) l text in
    let s : status_of (suc n) ≡ suc n = unfold status_of in ground arith in
    rw (e, s)
      (recv_loop-chunks user [] cs _ _ u h hc (
        recv_loop-final user (total cs) l (suc n) none hl
        ∙ ap some (give-TakesAll user l (total cs) _ u ∙ ap (returned (negsuc n)) whole)))

-- Where text without a NUL comes in pieces, none of them empty, and the last piece ends with what
-- send_fd sends for a descriptor, recv_fd, with a userfunc that takes all it is given, ends and
-- returns the descriptor that the kernel has made for it, and all the text was given to userfunc.
pub recv_fd-send_fd :
    (user : Bytes → Bool) (fd newfd : ℕ) (cs : List Bytes) (l : Bytes)
    → TakesAll user
    → All (λ c. 0 < length c) cs
    → NoChar 0 (total cs ++ l)
    → recv_fd user
        (map (arrive none) cs ++ arrive (some newfd) (l ++ (send_fd (pos fd)).bytes) ∷ [])
      ≡ some (returned (pos newfd) (total cs ++ l))
unfolding recv_fd send_fd
recv_fd-send_fd user fd newfd cs l u h text =
    let (hc, hl) = NoChar-split (total cs) l text in
    recv_loop-chunks user [] cs _ _ u h hc (
      recv_loop-final user (total cs) l 0 (some newfd) hl
      ∙ ap some (give-TakesAll user l (total cs) _ u))
