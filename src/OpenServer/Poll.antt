-- ===== src/OpenServer/Poll.antt =====
-- The event loop of more01/apue.3e/ipc2/opend/loop.poll.c.
use unp_and_apue3e.Prelude.{
  ℕ, zero, suc, ◌+◌, ◌-◌, Bool, false, Option, none, some, List, [], ◌∷◌, ◌++◌, ◌==◌, ltb,
  if◌then◌else◌, length, get_elem?, set, replicate, ℤ, pos, negsuc,
}
use unp_and_apue3e.Text.{Bytes}
use unp_and_apue3e.OpenServer.Clients.{Client, client_add, client_del}
use unp_and_apue3e.OpenServer.Request.{Server, handle_request}
use unp_and_apue3e.OpenServer.Select.{Event, closed, answered}

-- struct pollfd with the bits POLLIN and POLLHUP of revents; events is POLLIN throughout.
pub record PollFd : Type 0 where
  pub fd : ℤ
  pub pollin : Bool
  pub pollhup : Bool

abbrev pub nalloc : ℕ
nalloc = 10

abbrev pub unused : PollFd
unused = record { fd = negsuc 0; pollin = false; pollhup = false }

-- grow_pollfd; maxfd is the length of the array, and realloc succeeds.
unfoldable pub grow_pollfd : List PollFd → List PollFd
grow_pollfd pfd = pfd ++ replicate nalloc unused

-- The variables of the loop and the globals that it changes.
pub record Loop : Type 0 where
  pub pollfd : List PollFd
  pub numfd : ℕ
  pub client : List Client
  pub server : Server
  pub log : List Event

-- The uid that stands at an index of `client`; the code looks no further than the array.
abbrev pub uid_at : List Client → ℕ → Option ℕ
uid_at cs i = elim (get_elem? cs i) [ none ↦ none | some c ↦ some c.uid ]

-- A new connection: its descriptor goes behind the last one that is polled. `none` is the end of
-- the process.
unfoldable pub accept_client : Option (ℕ × ℕ) → Loop → Option Loop
accept_client none l = none
accept_client (some (clifd, uid)) l = elim (client_add l.client (pos clifd) uid) [
  | none ↦ none
  | some (_, cs) ↦
      let pfd : List PollFd =
        if l.numfd == length l.pollfd then grow_pollfd l.pollfd else l.pollfd in
      some (record l {
        client = cs;
        pollfd = set pfd l.numfd (record { fd = pos clifd; pollin = false; pollhup = false });
        numfd = l.numfd + 1;
      })
]

-- The last entry that is polled takes the place of the i-th.
unfoldable pub pack : ℕ → Loop → Loop
pack i l = record l {
  pollfd =
      if ltb i (l.numfd - 1)
      then (elim (get_elem? l.pollfd (l.numfd - 1)) [
        | none ↦ l.pollfd
        | some last ↦ set l.pollfd i last
      ])
      else l.pollfd;
  numfd = l.numfd - 1;
}

-- poll: revents of the first `n` entries, by descriptor.
unfoldable pub polled : (pollin pollhup : ℤ → Bool) → ℕ → List PollFd → List PollFd
polled pollin pollhup zero pfd = pfd
polled pollin pollhup (suc n) [] = []
polled pollin pollhup (suc n) (p ∷ pfd) =
    record p { pollin = pollin p.fd; pollhup = pollhup p.fd } ∷ polled pollin pollhup n pfd

-- What a body of the scan leaves: the loop, and whether the same index is looked at again; `none`
-- is the end of the process, or an access outside an array.
abbrev pub Body : Type 0
Body = Option (Bool × Loop)

-- What a scan comes to: it has not ended when its rounds run out, the process is ended (or an array
-- is left), or the loop behind it.
pub data Scan : Type 0 where
  unfinished stopped : Scan
  left : Loop → Scan

-- hungup:
unfoldable pub hungup : ℤ → ℕ → Loop → Body
hungup (negsuc n) i l = none
hungup (pos fd) i l = elim (uid_at l.client i) [
  | none ↦ none
  | some uid ↦ elim (client_del l.client (pos fd)) [
    | none ↦ none
    | some cs ↦
        some (ltb i (l.numfd - 1), pack i (record l { client = cs; log = closed uid fd ∷ l.log }))
  ]
]

module _ (cl_open : Bytes) (sys_open : Bytes → ℤ → Option ℕ) (got : ℕ → Option Bytes) where
  -- process client's request
  unfoldable pub request : Bytes → ℕ → ℕ → Loop → Body
  request buf fd i l = elim (uid_at l.client i) [
    | none ↦ none
    | some uid ↦
        let (reply, server) = handle_request cl_open sys_open buf l.server in
        some (false, record l { server = server; log = answered uid fd reply ∷ l.log })
  ]

  -- The i-th entry can be read.
  unfoldable pub readable : ℤ → ℕ → Loop → Body
  readable (negsuc n) i l = none
  readable (pos fd) i l = elim (got fd) [
    | none ↦ none
    | some [] ↦ hungup (pos fd) i l
    | some (b ∷ buf) ↦ request (b ∷ buf) fd i l
  ]

  unfoldable pub entry : PollFd → ℕ → Loop → Body
  entry p i l =
      if p.pollhup
      then hungup p.fd i l
      else (if p.pollin then readable p.fd i l else some (false, l))

  unfoldable pub body : ℕ → Loop → Body
  body i l = elim (get_elem? l.pollfd i) [ none ↦ none | some p ↦ entry p i l ]

  -- The scan from index i; each round moves i up or numfd down.
  unfoldable pub scan : ℕ → ℕ → Loop → Scan
  scan zero i l = if ltb i l.numfd then unfinished else left l
  scan (suc k) i l =
      if ltb i l.numfd
      then (elim (body i l) [
        | none ↦ stopped
        | some (again, m) ↦ scan k (if again then i else i + 1) m
      ])
      else left l

  -- A turn: what poll reports, what serv_accept gives, and the scan.
  unfoldable pub turn : (pollin pollhup : ℤ → Bool) → Option (ℕ × ℕ) → Loop → Scan
  turn pollin pollhup accepted l =
      let ready = record l { pollfd = polled pollin pollhup l.numfd l.pollfd } in
      elim (get_elem? ready.pollfd 0) [
        | none ↦ stopped
        | some p ↦ elim (if p.pollin then accept_client accepted ready else some ready) [
          | none ↦ stopped
          | some m ↦ scan m.numfd 1 m
        ]
      ]
