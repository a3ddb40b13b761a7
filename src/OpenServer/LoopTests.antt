-- ===== src/OpenServer/LoopTests.antt =====
-- Turns of the loops of more01/apue.3e/ipc2/opend.
use unp_and_apue3e.Prelude.{
  ℕ, zero, suc, ◌≡◌, ◌≢◌, ◌≤◌, refl, sym, ◌∙◌, ap, true, Option, none, some, [], ◌∷◌, arith, ◌==◌,
  if◌then◌else◌, ℤ, pos,
}
use unp_and_apue3e.Text.{Bytes}
use unp_and_apue3e.OpenServer.Clients.{eq_ℤ}
use unp_and_apue3e.OpenServer.Request.{Server, blank, handle_request}
use unp_and_apue3e.OpenServer.Select.{Loop, Answers, turn, closed, answered}
use unp_and_apue3e.OpenServer.Accepted.{At, IsLoop}
use unp_and_apue3e.OpenServer.Slots.{some_eq}
use unp_and_apue3e.OpenServer.Scanned.{turn-accepted}
use unp_and_apue3e.OpenServer.Poll as Poll
use unp_and_apue3e.OpenServer.Rounds.{scan-enough, turn-takes_over, two_clients, second_left}

abbrev server : Server
server = record { errmsg = blank; pathname = []; oflag = pos 0 }

abbrev cl_open : Bytes
cl_open = b'o' ∷ []

abbrev sys_open : Bytes → ℤ → Option ℕ
sys_open path flag = some 9

-- The listening descriptor is 3, and one client has descriptor 4 and uid 7.
abbrev one_client : Loop
one_client = record {
  client = record { fd = pos 4; uid = 7 } ∷ [];
  allset = λ d. if d == 4 then true else (d == 3);
  maxfd = 4;
  below = 1;
  server = server;
  log = [];
}

only_entry : (i fd uid : ℕ) → At one_client.client i fd uid → (i ≡ 0) × (fd ≡ 4) × (uid ≡ 7)
only_entry zero fd uid at =
    let same = some_eq at in
    let fds : pos 4 ≡ pos fd = ap (λ c. c.fd) same in (refl, cc, ap (λ c. c.uid) (sym same))
only_entry (suc i) fd uid at = ground arith

one_client-IsLoop : IsLoop 3 one_client
one_client-IsLoop = record {
  listens = refl;
  under = λ fd s. ground (arith, s);
  held = λ i fd uid at.
      let (i0, fd4, u7) = only_entry i fd uid at in (omega arith, rw fd4 refl, λ q. omega arith);
  has = λ fd s ne. (0, 7, rw (is_four fd s ne) refl);
  once = λ i j fd u v at bt. (only_entry i fd u at).0 ∙ sym (only_entry j fd v bt).0;
  room = omega arith;
}
  where
    is_four : (fd : ℕ) → one_client.allset fd ≡ true → fd ≢ 3 → fd ≡ 4
    is_four fd s ne = ground (arith, s, ne)

-- The client hangs up.
abbrev quiet_answers : Answers
quiet_answers = record { ready = λ d. d == 4; accepted = none; got = λ d. some [] }

abbrev call_answers : Answers
call_answers = record { ready = λ d. d == 3; accepted = some (5, 8); got = λ d. none }

turn-accepted_example :
    (i : ℕ) × (m : Loop) × (turn cl_open sys_open 3 call_answers one_client ≡ some m)
    × At m.client i 5 8
    × IsLoop 3 m
turn-accepted_example =
    turn-accepted cl_open sys_open 3 one_client one_client-IsLoop call_answers refl 5 8 refl refl

abbrev asks : ℕ → Option Bytes
asks d = some (b'x' ∷ [])

turn-takes_over_example :
    Poll.turn cl_open sys_open asks
      (λ fd. eq_ℤ fd (pos 5))
      (λ fd. eq_ℤ fd (pos 4))
      none
      (two_clients 3 4 5 100 200 server)
    ≡ Poll.left (
        let (reply, t) = handle_request cl_open sys_open (b'x' ∷ []) server in
        second_left 3 5 100 200 t (answered 100 5 reply ∷ closed 100 4 ∷ []))
turn-takes_over_example =
    turn-takes_over cl_open sys_open asks 3 4 5 100 200 server b'x' [] (λ q. omega (arith, q))
      (λ q. omega (arith, q)) (λ q. omega (arith, q)) refl

scan-enough_example :
    (r : Poll.Scan) × (r ≢ Poll.unfinished)
    × ((n : ℕ) → 2 ≤ n → Poll.scan cl_open sys_open asks n 1 (two_clients 3 4 5 100 200 server) ≡ r)
scan-enough_example =
    scan-enough cl_open sys_open asks 2 1 (two_clients 3 4 5 100 200 server) (omega arith)
