-- ===== src/OpenServer/Rounds.antt =====
-- The rounds of the scan in more01/apue.3e/ipc2/opend/loop.poll.c, and what they make of a client
-- that hangs up before another.
use unp_and_apue3e.Prelude.{
  ℕ, zero, suc, ◌+◌, ◌≤◌, ◌<◌, ◌≡◌, ◌≢◌, refl, sym, Bool, true, false, Option, none, some, List, [],
  ◌∷◌, arith, ltb, replicate, if◌then◌else◌, get_elem?, ℤ, pos, negsuc, inl, inr, Bool-cases,
  Option-cases, ==_refl, ne→==,
}
use mathlib.Core.Path.{subst}
use unp_and_apue3e.Text.{Bytes}
use unp_and_apue3e.OpenServer.Clients.{Client, client_del, eq_ℤ}
use unp_and_apue3e.OpenServer.Request.{Server, handle_request}
use unp_and_apue3e.OpenServer.Select.{Event, closed, answered}
use unp_and_apue3e.OpenServer.Poll.{
  PollFd, unused, Loop, Body, Scan, unfinished, stopped, left, accept_client, pack, polled, hungup,
  request, readable, entry, body, scan, turn,
}

false-ne-true : false ≡ true → ⊥
false-ne-true h = cc

-- What a body leaves of the number of entries.
abbrev Moves : ℕ → Loop → Body → Type 0
Moves i l none = Unit
Moves i l (some (again, m)) = (m.numfd ≤ l.numfd) × (again ≡ true → (m.numfd + 1 ≡ l.numfd))

hungup-Moves : (fd : ℤ) (i : ℕ) (l : Loop) → i < l.numfd → Moves i l (hungup fd i l)
unfolding hungup pack
hungup-Moves (negsuc n) i l h = tt
hungup-Moves (pos fd) i l h = elim (Option-cases (get_elem? l.client i)) [
  | inl out ↦ rw (hungup, out) tt
  | inr (c, at) ↦ elim (Option-cases (client_del l.client (pos fd))) [
    | inl lost ↦ rw (hungup, at, lost) tt
    | inr (cs, del) ↦ rw (hungup, at, del) (omega arith, λ again. omega arith)
  ]
]

module _ (cl_open : Bytes) (sys_open : Bytes → ℤ → Option ℕ) (got : ℕ → Option Bytes) where
  request-Moves :
      (buf : Bytes) (fd i : ℕ) (l : Loop) → Moves i l (request cl_open sys_open got buf fd i l)
  unfolding request
  request-Moves buf fd i l = elim (Option-cases (get_elem? l.client i)) [
    | inl out ↦ rw (request, out) tt
    | inr (c, at) ↦ rw (request, at) (omega arith, λ again. absurd (false-ne-true again))
  ]

  readable-Moves :
      (fd : ℤ) (i : ℕ) (l : Loop) → i < l.numfd → Moves i l (readable cl_open sys_open got fd i l)
  unfolding readable
  readable-Moves (negsuc n) i l h = tt
  readable-Moves (pos fd) i l h = elim (Option-cases (got fd)) [
    | inl bad ↦ rw (readable, bad) tt
    | inr ([], eof) ↦ rw (readable, eof) (hungup-Moves (pos fd) i l h)
    | inr (b ∷ buf, eq) ↦ rw (readable, eq) (request-Moves (b ∷ buf) fd i l)
  ]

  body-Moves : (i : ℕ) (l : Loop) → i < l.numfd → Moves i l (body cl_open sys_open got i l)
  unfolding body entry
  body-Moves i l h = elim (Option-cases (get_elem? l.pollfd i)) [
    | inl out ↦ rw (body, out) tt
    | inr (p, at) ↦ elim (Bool-cases p.pollhup) [
      | inl hup ↦ rw (body, at, hup) (hungup-Moves p.fd i l h)
      | inr quiet ↦ elim (Bool-cases p.pollin) [
        | inl ready ↦ rw (body, at, quiet, ready) (readable-Moves p.fd i l h)
        | inr idle ↦ rw (body, at, quiet, idle) (omega arith, λ again. absurd (false-ne-true again))
      ]
    ]
  ]

  scan-past : (k i : ℕ) (l : Loop) → l.numfd ≤ i → scan cl_open sys_open got k i l ≡ left l
  unfolding scan
  scan-past zero i l h = let past : ltb i l.numfd ≡ false = ground arith in rw past
  scan-past (suc k) i l h = let past : ltb i l.numfd ≡ false = ground arith in rw past

  -- The scan ends, with one result for each number of rounds from `k` on.
  abbrev Settles : ℕ → ℕ → Loop → Type 0
  Settles k i l =
      (r : Scan) × (r ≢ unfinished) × ((n : ℕ) → k ≤ n → scan cl_open sys_open got n i l ≡ r)

  Settles-past : (k i : ℕ) (l : Loop) → l.numfd ≤ i → Settles k i l
  Settles-past k i l h = (left l, (λ q. cc), λ n le. scan-past n i l h)

  next_round :
      (k i : ℕ) (l : Loop)
      → l.numfd ≤ i + suc k
      → (again : Bool) (m : Loop) → Moves i l (some (again, m))
      → ((j : ℕ) → m.numfd ≤ j + k → Settles k j m)
      → Settles k (if again then i else i + 1) m
  next_round k i l h true m moves rest = let less = moves.1 refl in rest i (omega arith)
  next_round k i l h false m moves rest = let le = moves.0 in rest (i + 1) (omega arith)

  round_lem :
      (k i : ℕ) (l : Loop) (b : Body) (r : Scan)
      → ltb i l.numfd ≡ true
      → body cl_open sys_open got i l ≡ b
      → ((n : ℕ)
          → k ≤ n
          → (elim b [
            | none ↦ stopped
            | some (again, m) ↦ scan cl_open sys_open got n (if again then i else i + 1) m
          ])
            ≡ r)
      → (n : ℕ) → suc k ≤ n
      → scan cl_open sys_open got n i l ≡ r
  unfolding scan
  round_lem k i l b r more eq rest zero le = absurd (omega arith)
  round_lem k i l b r more eq rest (suc n) le = rw (more, eq) (rest n (omega arith))

  -- The scan of the loop with poll ends, in the loop behind it or with the process, within as many
  -- rounds as there are entries from its index on: there is one result, which is not that the
  -- rounds have run out, and the scan comes to it with that many rounds and with any more.
  pub scan-enough :
      (k i : ℕ) (l : Loop)
      → l.numfd ≤ i + k
      → (r : Scan) × (r ≢ unfinished) × ((n : ℕ) → k ≤ n → scan cl_open sys_open got n i l ≡ r)
  scan-enough zero i l h = Settles-past zero i l (omega arith)
  scan-enough (suc k) i l h = elim (Bool-cases (ltb i l.numfd)) [
    | inr past ↦ Settles-past (suc k) i l (ground (arith, past))
    | inl more ↦ elim (Option-cases (body cl_open sys_open got i l)) [
      | inl ended ↦ (stopped, (λ q. cc), round_lem k i l none stopped more ended (λ n le. refl))
      | inr ((again, m), eq) ↦
          let moves : Moves i l (some (again, m)) =
            subst (Moves i l) eq (body-Moves i l (ground (arith, more))) in
          let (r, ends, rest) = next_round k i l h again m moves (λ j. scan-enough k j m) in
          (r, ends, round_lem k i l (some (again, m)) r more eq rest)
    ]
  ]

  -- A turn does not run out of rounds.
  turn-ends :
      (pollin pollhup : ℤ → Bool) (accepted : Option (ℕ × ℕ)) (l : Loop)
      → turn cl_open sys_open got pollin pollhup accepted l ≢ unfinished
  unfolding turn
  turn-ends pollin pollhup accepted l =
      let ready = record l { pollfd = polled pollin pollhup l.numfd l.pollfd } in
      elim (Option-cases (get_elem? ready.pollfd 0)) [
        | inl out ↦ rw (turn, out) (λ q. cc)
        | inr (p, at) ↦
            elim (Option-cases (if p.pollin then accept_client accepted ready else some ready)) [
              | inl gone ↦ rw (turn, at, gone) (λ q. cc)
              | inr (m, on_with) ↦
                  let (r, ends, settled) = scan-enough m.numfd 1 m (omega arith) in
                  rw (turn, at, on_with, settled m.numfd (omega arith)) ends
            ]
      ]

-- An entry for a descriptor, on which there may be something to read.
abbrev on : ℕ → Bool → PollFd
on fd ready = record { fd = pos fd; pollin = ready; pollhup = false }

abbrev nobody : Client
nobody = record { fd = negsuc 0; uid = 0 }

-- A server with two clients, in the order in which they came.
abbrev pub two_clients : (listenfd a b u v : ℕ) → Server → Loop
two_clients listenfd a b u v s = record {
  pollfd = on listenfd false ∷ on a false ∷ on b false ∷ replicate 7 unused;
  numfd = 3;
  client =
      record { fd = pos listenfd; uid = 0 }
      ∷ record { fd = pos a; uid = u }
      ∷ record { fd = pos b; uid = v }
      ∷ replicate 7 nobody;
  server = s;
  log = [];
}

-- The same once the first client is gone and the second one has had a reply.
abbrev pub second_left : (listenfd b u v : ℕ) → Server → List Event → Loop
second_left listenfd b u v s log = record {
  pollfd = on listenfd false ∷ on b true ∷ on b true ∷ replicate 7 unused;
  numfd = 2;
  client =
      record { fd = pos listenfd; uid = 0 }
      ∷ record { fd = negsuc 0; uid = u }
      ∷ record { fd = pos b; uid = v }
      ∷ replicate 7 nobody;
  server = s;
  log = log;
}

polled_lem :
    (listenfd a b : ℕ)
    → listenfd ≢ a
    → listenfd ≢ b
    → b ≢ a
    → polled
        (λ fd. eq_ℤ fd (pos b))
        (λ fd. eq_ℤ fd (pos a))
        3
        (on listenfd false ∷ on a false ∷ on b false ∷ replicate 7 unused)
      ≡ on listenfd false
        ∷ record { fd = pos a; pollin = false; pollhup = true }
        ∷ on b true
        ∷ replicate 7 unused
unfolding polled
polled_lem listenfd a b la lb ba = rw (
  ne→== listenfd a la,
  ne→== listenfd b lb,
  ne→== b a ba,
  ne→== a b (λ q. ba (sym q)),
  ==_refl a,
  ==_refl b,
)

-- In the loop with poll, let a first client hang up while a second one has sent a request, the
-- descriptors of the two and of the listening socket being different. Then the turn closes the
-- first one, moves the second one's descriptor to its entry, and answers the second one's request
-- under the first one's uid.
pub turn-takes_over :
    (cl_open : Bytes) (sys_open : Bytes → ℤ → Option ℕ) (got : ℕ → Option Bytes)
    (listenfd a b u v : ℕ) (s : Server) (c : ℕ) (buf : Bytes)
    → listenfd ≢ a
    → listenfd ≢ b
    → b ≢ a
    → got b ≡ some (c ∷ buf)
    → turn cl_open sys_open got
        (λ fd. eq_ℤ fd (pos b))
        (λ fd. eq_ℤ fd (pos a))
        none
        (two_clients listenfd a b u v s)
      ≡ left (
          let (reply, t) = handle_request cl_open sys_open (c ∷ buf) s in
          second_left listenfd b u v t (answered u b reply ∷ closed u a ∷ []))
unfolding turn polled scan body entry hungup pack client_del readable request
turn-takes_over cl_open sys_open got listenfd a b u v s c buf la lb ba eq = rw (
  turn,
  polled_lem listenfd a b la lb ba,
  ne→== listenfd b lb,
  ne→== listenfd a la,
  ==_refl a,
  eq,
)
