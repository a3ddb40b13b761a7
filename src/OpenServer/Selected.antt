-- ===== src/OpenServer/Selected.antt =====
-- A turn of the loop of more01/apue.3e/ipc2/opend/loop.select.c that reads from its clients.
use unp_and_apue3e.Prelude.{
  ℕ, ◌≡◌, ◌≢◌, refl, sym, ◌∙◌, ap, Bool, true, false, ◌||◌, ◌&&◌, Option, some, List, [], ◌∷◌,
  arith, ◌==◌, set, length-set, get_elem?, get_elem?-set_self, get_elem?-set_ne, ℤ, pos, negsuc,
  ◌⊎◌, inl, inr, Bool-cases, ==_refl, ne→==,
}
use native.Mathlib.Decide.{ℕ_discrete}
use mathlib.Core.Path.{subst}
use unp_and_apue3e.Text.{Bytes}
use unp_and_apue3e.OpenServer.Clients.{Client, client_del}
use unp_and_apue3e.OpenServer.Slots.{client_del_lem, get_elem?-lt, some_eq}
use unp_and_apue3e.OpenServer.Request.{handle_request}
use unp_and_apue3e.OpenServer.Select.{Event, closed, answered, FdSet, fd_clr, Loop, serve}
use unp_and_apue3e.OpenServer.Accepted.{At, IsLoop, true-ne-false, pos-ne-negsuc}

-- Whether the log has a line on the descriptor with the uid.
abbrev pub is_of : ℕ → ℕ → Event → Bool
is_of u fd (closed v d) = (v == u) && (d == fd)
is_of u fd (answered v d r) = (v == u) && (d == fd)

unfoldable pub logged : ℕ → ℕ → List Event → Bool
logged u fd [] = false
logged u fd (e ∷ log) = is_of u fd e || logged u fd log

-- What a step over one entry does: the clients of the others stay, and the log tells of no other.
pub record Step (listenfd : ℕ) (l m : Loop) (i : ℕ) (rset : FdSet) : Type 0 where
  pub is_loop : IsLoop listenfd m
  pub same_below : m.below ≡ l.below
  pub others : (j fd u : ℕ) → j ≢ i → At l.client j fd u → At m.client j fd u
  pub older : (j fd u : ℕ) → At m.client j fd u → At l.client j fd u
  pub kept : (fd u : ℕ) → logged u fd l.log ≡ true → logged u fd m.log ≡ true
  pub here : (fd u : ℕ) → At l.client i fd u → rset fd ≡ true → logged u fd m.log ≡ true
  pub no_more :
      (fd u : ℕ) → logged u fd m.log ≡ true → (logged u fd l.log ≡ true) ⊎ At l.client i fd u

module _ (listenfd : ℕ) (l : Loop) (h : IsLoop listenfd l) (clifd uid i : ℕ)
    (at : At l.client i clifd uid) where
  abbrev ds : List Client
  ds = set l.client i (record { fd = negsuc 0; uid = uid })

  -- client_del finds the entry that the scan is at.
  del_lem : client_del l.client (pos clifd) ≡ some ds
  del_lem = elim (client_del_lem l.client (pos clifd)) [
    | inl (j, c, g, e, before, del) ↦
        let there : At l.client j clifd c.uid =
          g ∙ ap (λ x. some (record { fd = x; uid = c.uid })) e in
        let same : j ≡ i = h.once j i clifd c.uid uid there at in
        let uids : c.uid ≡ uid =
          ap (λ x. x.uid) (some_eq (sym g ∙ ap (get_elem? l.client) same ∙ at)) in
        del
        ∙ ap (λ k. some (set l.client k (record { fd = negsuc 0; uid = c.uid }))) same
        ∙ ap (λ x. some (set l.client i (record { fd = negsuc 0; uid = x }))) uids
    | inr (del, absent) ↦ absurd (absent i _ at refl)
  ]

  abbrev gone : Loop
  gone = record l { client = ds; allset = fd_clr clifd l.allset; log = closed uid clifd ∷ l.log }

  still : (j fd u : ℕ) → At ds j fd u → (j ≢ i) × At l.client j fd u
  still j fd u bt = elim (ℕ_discrete j i) [
    | yes same ↦
        let free : Client = record { fd = negsuc 0; uid = uid } in
        let both = some_eq (
          sym (subst (λ k. At ds k fd u) same bt)
          ∙ get_elem?-set_self l.client i free (get_elem?-lt l.client i _ at)) in
        absurd (pos-ne-negsuc fd 0 (ap (λ c. c.fd) both))
    | no ne ↦ (ne, sym (get_elem?-set_ne l.client i j _ (λ q. ne (sym q))) ∙ bt)
  ]

  others_lem : (j fd u : ℕ) → j ≢ i → At l.client j fd u → At ds j fd u
  others_lem j fd u ne bt = get_elem?-set_ne l.client i j _ (λ q. ne (sym q)) ∙ bt

  not_cleared : (fd : ℕ) → fd ≢ clifd → l.allset fd ≡ true → gone.allset fd ≡ true
  not_cleared fd ne s = rw (ne→== fd clifd ne) s

  was_set : (fd : ℕ) → gone.allset fd ≡ true → l.allset fd ≡ true
  was_set fd s = ground (arith, s)

  not_it : (fd : ℕ) → gone.allset fd ≡ true → fd ≢ clifd
  not_it fd s q = true-ne-false (sym s ∙ rw q (rw ==_refl))

  same_fd : (j fd u : ℕ) → j ≡ i → At l.client j fd u → fd ≡ clifd
  same_fd j fd u q old =
      let both = some_eq (sym old ∙ ap (get_elem? l.client) q ∙ at) in
      let fds : pos fd ≡ pos clifd = ap (λ c. c.fd) both in cc

  gone-IsLoop : IsLoop listenfd gone
  gone-IsLoop = record {
    listens = not_cleared listenfd (λ q. (h.held i clifd uid at).2 (sym q)) h.listens;
    under = λ fd s. h.under fd (was_set fd s);
    held = λ j fd u bt.
        let (ne, old) = still j fd u bt in
        let (lt, s, no_listen) = h.held j fd u old in
        (
          lt,
          not_cleared fd
              (λ q. ne (h.once j i clifd u uid (subst (λ x. At l.client j x u) q old) at)) s,
          no_listen,
        );
    has = λ fd s ne.
        let (j, u, old) = h.has fd (was_set fd s) ne in
        (j, u, others_lem j fd u (λ q. not_it fd s (same_fd j fd u q old)) old);
    once = λ j k fd u v bt ct. h.once j k fd u v (still j fd u bt).1 (still k fd v ct).1;
    room = rw (length-set l.client i (record { fd = negsuc 0; uid = uid })) h.room;
  }

-- A line on the client of an entry, at the front of the log.
module _ (cs : List Client) (i clifd uid : ℕ) (at : At cs i clifd uid) (e : Event)
    (about : (u fd : ℕ) → is_of u fd e ≡ (uid == u) && (clifd == fd)) (log : List Event) where
  line-kept : (fd u : ℕ) → logged u fd log ≡ true → logged u fd (e ∷ log) ≡ true
  unfolding logged
  line-kept fd u s = elim (Bool-cases (is_of u fd e)) [
    | inl yes_lem ↦ rw yes_lem
    | inr no_lem ↦ rw no_lem s
  ]

  line-here : (fd u : ℕ) → At cs i fd u → logged u fd (e ∷ log) ≡ true
  unfolding logged
  line-here fd u bt =
      let both = some_eq (sym at ∙ bt) in
      let fds : pos clifd ≡ pos fd = ap (λ c. c.fd) both in
      let same_fd : clifd ≡ fd = cc in
      let same_uid : uid ≡ u = ap (λ c. c.uid) both in
      let hit : is_of u fd e ≡ true = about u fd ∙ rw (same_fd, same_uid, ==_refl u, ==_refl fd) in
      rw hit

  line-no_more : (fd u : ℕ) → logged u fd (e ∷ log) ≡ true → (logged u fd log ≡ true) ⊎ At cs i fd u
  unfolding logged
  line-no_more fd u s = elim (Bool-cases (is_of u fd e)) [
    | inl hit ↦
        let both : (uid == u) && (clifd == fd) ≡ true = sym (about u fd) ∙ hit in
        let same_uid : uid ≡ u = ground (arith, both) in
        let same_fd : clifd ≡ fd = ground (arith, both) in
        inr (
          at
          ∙ ap (λ x. some (record { fd = pos x; uid = uid })) same_fd
          ∙ ap (λ x. some (record { fd = pos fd; uid = x })) same_uid)
    | inr miss ↦ inl (rw miss at s)
  ]

module _ (cl_open : Bytes) (sys_open : Bytes → ℤ → Option ℕ) (listenfd : ℕ) (rset : FdSet) where
  pub serve-Step :
      (l : Loop)
      → IsLoop listenfd l
      → (i clifd uid : ℕ) → At l.client i clifd uid
      → (b : Bytes)
      → (m : Loop) × (serve cl_open sys_open (some b) uid clifd l ≡ some m)
        × Step listenfd l m i rset
  unfolding serve
  serve-Step l h i clifd uid at [] = (
    gone listenfd l h clifd uid i at,
    rw (serve, del_lem listenfd l h clifd uid i at),
    record {
      is_loop = gone-IsLoop listenfd l h clifd uid i at;
      same_below = refl;
      others = others_lem listenfd l h clifd uid i at;
      older = λ j fd u bt. (still listenfd l h clifd uid i at j fd u bt).1;
      kept = line-kept l.client i clifd uid at (closed uid clifd) (λ u fd. refl) l.log;
      here = λ fd u bt s.
          line-here l.client i clifd uid at (closed uid clifd) (λ u fd. refl) l.log fd u bt;
      no_more = line-no_more l.client i clifd uid at (closed uid clifd) (λ u fd. refl) l.log;
    },
  )
  serve-Step l h i clifd uid at (b ∷ buf) =
      let (reply, server) = handle_request cl_open sys_open (b ∷ buf) l.server in
      let line : Event = answered uid clifd reply in
      (
        record l { server = server; log = line ∷ l.log },
        refl,
        record {
          is_loop = record {
            listens = h.listens;
            under = h.under;
            held = h.held;
            has = h.has;
            once = h.once;
            room = h.room;
          };
          same_below = refl;
          others = λ j fd u ne bt. bt;
          older = λ j fd u bt. bt;
          kept = line-kept l.client i clifd uid at line (λ u fd. refl) l.log;
          here = λ fd u bt s. line-here l.client i clifd uid at line (λ u fd. refl) l.log fd u bt;
          no_more = line-no_more l.client i clifd uid at line (λ u fd. refl) l.log;
        },
      )

  -- An entry that is available, or whose client has nothing to say.
  pub idle-Step :
      (l : Loop)
      → IsLoop listenfd l
      → (i : ℕ) → ((fd u : ℕ) → At l.client i fd u → rset fd ≡ true → ⊥)
      → Step listenfd l l i rset
  idle-Step l h i quiet = record {
    is_loop = h;
    same_below = refl;
    others = λ j fd u ne at. at;
    older = λ j fd u at. at;
    kept = λ fd u s. s;
    here = λ fd u at s. absurd (quiet fd u at s);
    no_more = λ fd u s. inl s;
  }
