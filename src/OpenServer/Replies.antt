-- ===== src/OpenServer/Replies.antt =====
-- What a client of the open server is answered.
use unp_and_apue3e.Prelude.{
  ℕ, ◌-◌, ◌<◌, ◌≡◌, refl, false, Option, none, some, List, [], ◌∷◌, ◌++◌, arith, leb, length,
  length-append, All, ℤ, get_or, Option-cases, inl, inr,
}
use unp_and_apue3e.Text.{Bytes, c_str, atol}
use unp_and_apue3e.Text.Chars.{NoChar, NoChar-append, get_or-append, str_eq_refl}
use unp_and_apue3e.OpenServer.Words.{IsWord, join, buf_args-join}
use unp_and_apue3e.OpenServer.Request.{
  cannot_open, Server, Reply, send_err, send_fd, cli_args, handle_request,
}

c_str-nul : (s t : Bytes) → NoChar 0 s → c_str (s ++ 0 ∷ t) ≡ s
unfolding c_str
c_str-nul [] t h = refl
c_str-nul (c ∷ s) t h = rw (h.0, c_str-nul s t h.1)

join-NoChar : (ws : List Bytes) → All (NoChar 0) ws → NoChar 0 (join ws)
unfolding join
join-NoChar [] h = tt
join-NoChar (w ∷ []) h = h.0
join-NoChar (w ∷ v ∷ ws) h =
    NoChar-append 0 w (32 ∷ join (v ∷ ws)) h.0 (refl, join-NoChar (v ∷ ws) h.1)

-- A request as a client writes it: the words, and a NUL.
abbrev pub request : List Bytes → Bytes
request ws = join ws ++ 0 ∷ []

last_nul : (s : Bytes) → get_or (s ++ 0 ∷ []) (length (s ++ 0 ∷ []) - 1) 0 ≡ 0
last_nul s =
    get_or-append s [] 0 0 (length (s ++ 0 ∷ []) - 1) (omega (arith, length-append s (0 ∷ [])))

-- What open(2) answers to the client.
abbrev pub answer : Option ℕ → Reply
answer none = send_err cannot_open
answer (some fd) = send_fd fd

-- A request of three words and a NUL, without another NUL and with CL_OPEN as the first word, is
-- answered by what open(2) makes of the second word as the path and the number of the third as the
-- flags: the descriptor, or the message that it could not be opened.
pub handle_request-open :
    (cl_open path flags : Bytes) (sys_open : Bytes → ℤ → Option ℕ) (s : Server)
    → All IsWord (cl_open ∷ path ∷ flags ∷ [])
    → All (NoChar 0) (cl_open ∷ path ∷ flags ∷ [])
    → (handle_request cl_open sys_open (request (cl_open ∷ path ∷ flags ∷ [])) s).0
      ≡ answer (sys_open path (atol flags))
unfolding handle_request cli_args
handle_request-open cl_open path flags sys_open s w n =
    rw
      (
        last_nul (join (cl_open ∷ path ∷ flags ∷ [])),
        c_str-nul (join (cl_open ∷ path ∷ flags ∷ [])) []
            (join-NoChar (cl_open ∷ path ∷ flags ∷ []) n),
        buf_args-join cl_open (path ∷ flags ∷ []) w,
        str_eq_refl cl_open,
      )
      (elim (Option-cases (sys_open path (atol flags))) [ inl e ↦ rw e | inr (fd, e) ↦ rw e ])

-- A request of more than forty-nine words and a NUL, without another NUL, is answered by whatever
-- message an earlier request has left, and changes nothing.
pub handle_request-stale :
    (cl_open w : Bytes) (ws : List Bytes) (sys_open : Bytes → ℤ → Option ℕ) (s : Server)
    → All IsWord (w ∷ ws)
    → All (NoChar 0) (w ∷ ws)
    → 49 < length (w ∷ ws)
    → handle_request cl_open sys_open (request (w ∷ ws)) s ≡ (send_err s.errmsg, s)
unfolding handle_request
handle_request-stale cl_open w ws sys_open s h n many =
    let over : leb (length (w ∷ ws)) 49 ≡ false = ground arith in
    rw (
      last_nul (join (w ∷ ws)),
      c_str-nul (join (w ∷ ws)) [] (join-NoChar (w ∷ ws) n),
      buf_args-join w ws h,
      over,
    )
