-- ===== src/OpenServer/Select.antt =====
-- The event loop of more01/apue.3e/ipc2/opend/loop.select.c.
use unp_and_apue3e.Prelude.{
  ℕ, zero, suc, ◌+◌, Bool, true, false, ◌&&◌, Option, none, some, List, [], ◌∷◌, ◌==◌, ltb, leb,
  if◌then◌else◌, get_elem?, ℤ, pos, negsuc,
}
use unp_and_apue3e.Text.{Bytes}
use unp_and_apue3e.OpenServer.Clients.{Client, client_add, client_del}
use unp_and_apue3e.OpenServer.Request.{Server, Reply, handle_request}

-- What the loop tells of a client: its descriptor, and the uid that stands with it in `client`.
pub data Event : Type 0 where
  closed : (uid fd : ℕ) → Event
  answered : (uid fd : ℕ) → Reply → Event

abbrev pub FdSet : Type 0
FdSet = ℕ → Bool

-- The variables of the loop and the globals that it changes. `below` is maxi + 1.
pub record Loop : Type 0 where
  pub client : List Client
  pub allset : FdSet
  pub maxfd : ℕ
  pub below : ℕ
  pub server : Server
  pub log : List Event

-- FD_SET and FD_CLR
abbrev pub fd_set : ℕ → FdSet → FdSet
fd_set fd set = λ d. if d == fd then true else set d

abbrev pub fd_clr : ℕ → FdSet → FdSet
fd_clr fd set = λ d. if d == fd then false else set d

-- What a turn is told: the descriptors that select finds ready, the new client's descriptor and
-- uid, and what read gives on a descriptor; `none` is an error.
pub record Answers : Type 0 where
  pub ready : FdSet
  pub accepted : Option (ℕ × ℕ)
  pub got : ℕ → Option Bytes

-- `none` is the end of the process: log_sys, or log_quit in client_del.
unfoldable pub accept_client : Option (ℕ × ℕ) → Loop → Option Loop
accept_client none l = none
accept_client (some (clifd, uid)) l = elim (client_add l.client (pos clifd) uid) [
  | none ↦ none
  | some (i, cs) ↦ some (record l {
    client = cs;
    allset = fd_set clifd l.allset;
    maxfd = if ltb l.maxfd clifd then clifd else l.maxfd;
    below = if leb l.below i then i + 1 else l.below;
  })
]

module _ (cl_open : Bytes) (sys_open : Bytes → ℤ → Option ℕ) where
  -- The client at `clifd` can be read.
  unfoldable pub serve : Option Bytes → (uid clifd : ℕ) → Loop → Option Loop
  serve none uid clifd l = none
  serve (some []) uid clifd l = elim (client_del l.client (pos clifd)) [
    | none ↦ none
    | some cs ↦
        some
          (record l { client = cs; allset = fd_clr clifd l.allset; log = closed uid clifd ∷ l.log })
  ]
  serve (some (b ∷ buf)) uid clifd l =
      let (reply, server) = handle_request cl_open sys_open (b ∷ buf) l.server in
      some (record l { server = server; log = answered uid clifd reply ∷ l.log })

  unfoldable pub visit_fd : FdSet → (ℕ → Option Bytes) → Client → Loop → Option Loop
  visit_fd rset got c l = elim c.fd [
    | negsuc n ↦ some l
    | pos clifd ↦ if rset clifd then serve (got clifd) c.uid clifd l else some l
  ]

  -- The body of the loop over client[], which nothing leads out of.
  unfoldable pub visit : FdSet → (ℕ → Option Bytes) → ℕ → Loop → Option Loop
  visit rset got i l = elim (get_elem? l.client i) [ none ↦ none | some c ↦ visit_fd rset got c l ]

  -- The `k` entries from the i-th.
  unfoldable pub scan : FdSet → (ℕ → Option Bytes) → ℕ → ℕ → Loop → Option Loop
  scan rset got zero i l = some l
  scan rset got (suc k) i l = elim (visit rset got i l) [
    | none ↦ none
    | some m ↦ scan rset got k (i + 1) m
  ]

  -- A turn: select leaves in rset what is ready of allset, up to maxfd.
  unfoldable pub turn : (listenfd : ℕ) → Answers → Loop → Option Loop
  turn listenfd a l =
      let rset : FdSet = λ d. l.allset d && (leb d l.maxfd && a.ready d) in
      if rset listenfd then accept_client a.accepted l else scan rset a.got l.below 0 l

-- Before the first turn.
abbrev pub started : (listenfd : ℕ) → Server → Loop
started listenfd s = record {
  client = [];
  allset = fd_set listenfd λ d. false;
  maxfd = listenfd;
  below = 0;
  server = s;
  log = [];
}
