-- ===== src/OpenServer/Scanned.antt =====
-- The scan over the array of clients in more01/apue.3e/ipc2/opend/loop.select.c, and a turn of the
-- loop.
use unp_and_apue3e.Prelude.{
  ℕ, ◌+◌, ◌≤◌, ◌<◌, ◌≡◌, true, false, ◌&&◌, Option, some, arith, leb, ℤ, ◌⊎◌,
}
use unp_and_apue3e.Text.{Bytes}
use unp_and_apue3e.OpenServer.Select.{Answers, FdSet, Loop, turn}
use unp_and_apue3e.OpenServer.Selected.{logged}
use unp_and_apue3e.OpenServer.Accepted.{accept_client-IsLoop, At, IsLoop}

module _ (cl_open : Bytes) (sys_open : Bytes → ℤ → Option ℕ) (listenfd : ℕ) (rset : FdSet) where
  module _ (got : ℕ → Option Bytes) (reads : (fd : ℕ) → (b : Bytes) × (got fd ≡ some b)) where
    -- What holds after `k` entries are visited from entry `i` on: `l` before, `m` after.
    pub record Scanned (l m : Loop) (i k : ℕ) : Type 0 where
      pub is_loop : IsLoop listenfd m
      pub kept : (fd u : ℕ) → logged u fd l.log ≡ true → logged u fd m.log ≡ true
      pub here :
          (j fd u : ℕ)
          → i ≤ j
          → j < i + k
          → At l.client j fd u
          → rset fd ≡ true
          → logged u fd m.log ≡ true
      pub no_more :
          (fd u : ℕ)
          → logged u fd m.log ≡ true
          → (logged u fd l.log ≡ true) ⊎ ((j : ℕ) × At l.client j fd u)

module _ (cl_open : Bytes) (sys_open : Bytes → ℤ → Option ℕ) (listenfd : ℕ) where
  -- Where the loop with select keeps its clients (IsLoop), the listening descriptor is ready and
  -- serv_accept gives a descriptor that select was not asked for, a turn returns: the new client
  -- stands in the array with its uid, and the loop keeps its clients.
  pub turn-accepted :
      (l : Loop)
      → IsLoop listenfd l
      → (a : Answers) → a.ready listenfd ≡ true
      → (clifd uid : ℕ) → a.accepted ≡ some (clifd, uid)
      → l.allset clifd ≡ false
      → (i : ℕ) × (m : Loop) × (turn cl_open sys_open listenfd a l ≡ some m)
        × At m.client i clifd uid
        × IsLoop listenfd m
  unfolding turn
  turn-accepted l h a call clifd uid came new =
      let (i, m, run, at, kept) = accept_client-IsLoop listenfd l h clifd uid new in
      let le = h.under listenfd h.listens in
      let asked : (l.allset listenfd && (leb listenfd l.maxfd && a.ready listenfd)) ≡ true =
        let s = h.listens in ground (arith, call) in
      (i, m, rw (asked, came) run, at, kept)
