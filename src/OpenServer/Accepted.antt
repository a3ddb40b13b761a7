-- ===== src/OpenServer/Accepted.antt =====
-- What the loop of more01/apue.3e/ipc2/opend/loop.select.c keeps of its clients, and a turn that
-- accepts one.
use unp_and_apue3e.Prelude.{
  ℕ, ◌+◌, ◌≤◌, ◌<◌, ◌≡◌, ◌≢◌, sym, ◌∙◌, ap, true, false, some, List, arith, ltb, leb, if◌then◌else◌,
  length, get_elem?, pos, negsuc, ◌⊎◌, inl, inr, ==_refl, ne→==,
}
use native.Mathlib.Decide.{ℕ_discrete, dec_lt}
use mathlib.Core.Path.{subst}
use unp_and_apue3e.OpenServer.Clients.{Client}
use unp_and_apue3e.OpenServer.Slots.{Added, client_add-Added, get_elem?-lt, some_eq}
use unp_and_apue3e.OpenServer.Select.{Loop, accept_client, fd_set}

-- The i-th entry of the array is a client with this descriptor and uid.
abbrev pub At : List Client → ℕ → ℕ → ℕ → Type 0
At cs i fd uid = get_elem? cs i ≡ some (record { fd = pos fd; uid = uid })

-- The descriptors that select is asked for are the listening one and those of the clients, each of
-- which stands once in the array, at an index that the scan reaches.
pub record IsLoop (listenfd : ℕ) (l : Loop) : Type 0 where
  pub listens : l.allset listenfd ≡ true
  pub under : (fd : ℕ) → l.allset fd ≡ true → fd ≤ l.maxfd
  pub held :
      (i fd uid : ℕ) → At l.client i fd uid → (i < l.below) × (l.allset fd ≡ true) × (fd ≢ listenfd)
  pub has : (fd : ℕ) → l.allset fd ≡ true → fd ≢ listenfd → (i uid : ℕ) × At l.client i fd uid
  pub once : (i j fd u v : ℕ) → At l.client i fd u → At l.client j fd v → i ≡ j
  pub room : l.below ≤ length l.client

pub true-ne-false : true ≡ false → ⊥
true-ne-false h = cc

pub pos-ne-negsuc : (n m : ℕ) → pos n ≡ negsuc m → ⊥
pos-ne-negsuc n m h = cc

module _ (listenfd : ℕ) (l : Loop) (h : IsLoop listenfd l) (clifd uid i : ℕ) (ds : List Client)
    (a : Added l.client (pos clifd) uid i ds) (new : l.allset clifd ≡ false) where
  abbrev grown : Loop
  grown = record l {
    client = ds;
    allset = fd_set clifd l.allset;
    maxfd = if ltb l.maxfd clifd then clifd else l.maxfd;
    below = if leb l.below i then i + 1 else l.below;
  }

  -- Each client of the new array is the new one, or was in the old array.
  new_or_old :
      (j fd u : ℕ) → At ds j fd u → ((j ≡ i) × (fd ≡ clifd)) ⊎ ((j ≢ i) × At l.client j fd u)
  new_or_old j fd u at = elim (ℕ_discrete j i) [
    | yes same ↦
        let both = some_eq (sym at ∙ ap (get_elem? ds) same ∙ a.here) in
        let fds : pos fd ≡ pos clifd = ap (λ c. c.fd) both in inl (same, cc)
    | no ne ↦ elim (dec_lt j (length l.client)) [
      | yes lt ↦ inr (ne, sym (a.others j ne lt) ∙ at)
      | no ge ↦ absurd (pos-ne-negsuc fd 0 (a.fresh j _ ne (omega arith) at))
    ]
  ]

  -- A client keeps its entry.
  old_new : (j fd u : ℕ) → At l.client j fd u → (j ≢ i) × At ds j fd u
  old_new j fd u at =
      let ne : j ≢ i =
        λ same. pos-ne-negsuc fd 0 (a.was_free _ (subst (λ k. At l.client k fd u) same at)) in
      (ne, a.others j ne (get_elem?-lt l.client j _ at) ∙ at)

  not_listen : clifd ≢ listenfd
  not_listen same = true-ne-false (sym h.listens ∙ ap l.allset (sym same) ∙ new)

  grown-below : (j : ℕ) → (j < l.below) ⊎ (j ≡ i) → j < grown.below
  grown-below j c = ground (arith, c)

  grown-set : (fd : ℕ) → l.allset fd ≡ true → grown.allset fd ≡ true
  grown-set fd s = ground (arith, s)

  has_lem : (fd : ℕ) → grown.allset fd ≡ true → fd ≢ listenfd → (j u : ℕ) × At ds j fd u
  has_lem fd s ne = elim (ℕ_discrete fd clifd) [
    | yes same ↦ (i, uid, subst (λ x. At ds i x uid) (sym same) a.here)
    | no other ↦
        let (j, u, at) = h.has fd (rw (ne→== fd clifd other) at s) ne in
        (j, u, (old_new j fd u at).1)
  ]

  room_lem : grown.below ≤ length ds
  room_lem =
      let lt = get_elem?-lt ds i _ a.here in let g = a.grown in let r = h.room in ground arith

  pub grown-IsLoop : IsLoop listenfd grown
  grown-IsLoop = record {
    listens = grown-set listenfd h.listens;
    under = λ fd s. ground (arith, s, h.under fd);
    held = λ j fd u at. elim (new_or_old j fd u at) [
      | inl (same, fds) ↦
          (grown-below j (inr same), rw fds (rw ==_refl), λ q. not_listen (sym fds ∙ q))
      | inr (ne, old) ↦
          let (lt, s, no_listen) = h.held j fd u old in
          (grown-below j (inl lt), grown-set fd s, no_listen)
    ];
    has = λ fd s ne. has_lem fd s ne;
    once = λ j k fd u v at bt. elim (new_or_old j fd u at) [
      | inl (same, fds) ↦ elim (new_or_old k fd v bt) [
        | inl (same2, _) ↦ same ∙ sym same2
        | inr (_, old) ↦ absurd (not_new k fd v old fds)
      ]
      | inr (_, old) ↦ elim (new_or_old k fd v bt) [
        | inl (_, fds) ↦ absurd (not_new j fd u old fds)
        | inr (_, old2) ↦ h.once j k fd u v old old2
      ]
    ];
    room = room_lem;
  }
    where
      not_new : (j fd u : ℕ) → At l.client j fd u → fd ≢ clifd
      not_new j fd u at same =
          let (lt, s, no_listen) = h.held j fd u at in
          true-ne-false (sym s ∙ ap l.allset same ∙ new)

-- A client that is accepted on a new descriptor gets an entry, and the invariant is kept.
pub accept_client-IsLoop :
    (listenfd : ℕ) (l : Loop)
    → IsLoop listenfd l
    → (clifd uid : ℕ) → l.allset clifd ≡ false
    → (i : ℕ) × (m : Loop) × (accept_client (some (clifd, uid)) l ≡ some m)
      × At m.client i clifd uid
      × IsLoop listenfd m
unfolding accept_client
accept_client-IsLoop listenfd l h clifd uid new =
    let (i, ds, eq, a) = client_add-Added l.client (pos clifd) uid in
    (
      i,
      grown listenfd l h clifd uid i ds a new,
      rw (accept_client, eq),
      a.here,
      grown-IsLoop listenfd l h clifd uid i ds a new,
    )
