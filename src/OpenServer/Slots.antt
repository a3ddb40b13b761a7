-- ===== src/OpenServer/Slots.antt =====
-- What client_add and client_del make of the array of clients.
use unp_and_apue3e.Prelude.{
  ℕ, zero, suc, ◌+◌, ◌≤◌, ◌<◌, ◌≡◌, ◌≢◌, refl, sym, ◌∙◌, ap, true, false, Option, none, some, List,
  [], ◌∷◌, ◌++◌, arith, length, length-append, get_elem?, set, length-set, get_elem?-set_self,
  get_elem?-set_ne, ℤ, negsuc, replicate, Bool-cases, inl, inr, Option-cases, ◌⊎◌,
}
use native.Mathlib.Decide.{dec_lt}
use unp_and_apue3e.OpenServer.Clients.{
  Client, client_alloc, nalloc, eq_ℤ, find_fd, add_again, client_add, client_del,
}

eq_ℤ→eq : (a b : ℤ) → eq_ℤ a b ≡ true → a ≡ b
eq_ℤ→eq a b h = ground arith

find_fd-some :
    (fd : ℤ) (cs : List Client) (i k : ℕ)
    → find_fd fd cs i ≡ some k
    → (j : ℕ) × (c : Client) × (k ≡ i + j)
      × (j < length cs)
      × (get_elem? cs j ≡ some c)
      × (c.fd ≡ fd)
unfolding find_fd
find_fd-some fd [] i k h = ground arith
find_fd-some fd (c ∷ cs) i k h = elim (Bool-cases (eq_ℤ c.fd fd)) [
  | inl hit ↦
      let at : ◌≡◌ {A = Option ℕ} (some i) (some k) = rw hit at h in
      let same : i ≡ k = ground arith in (0, c, omega arith, omega arith, refl, eq_ℤ→eq c.fd fd hit)
  | inr miss ↦
      let (j, d, e, l, g, f) = find_fd-some fd cs (i + 1) k (rw miss at h) in
      (suc j, d, omega arith, omega arith, g, f)
]

-- Fresh entries are available, so the search after the growth succeeds.
find_fd-alloc :
    (cs : List Client) (i : ℕ) → (k : ℕ) × (find_fd (negsuc 0) (client_alloc cs) i ≡ some k)
unfolding find_fd client_alloc
find_fd-alloc [] i = (i, refl)
find_fd-alloc (c ∷ cs) i = elim (Bool-cases (eq_ℤ c.fd (negsuc 0))) [
  | inl hit ↦ (i, rw hit)
  | inr miss ↦ let (k, e) = find_fd-alloc cs (i + 1) in (k, rw miss e)
]

-- The entry that a client was put in, and what became of the others.
pub record Added (cs : List Client) (fd : ℤ) (uid : ℕ) (i : ℕ) (ds : List Client) : Type 0 where
  pub here : get_elem? ds i ≡ some (record { fd = fd; uid = uid })
  pub grown : length cs ≤ length ds
  pub was_free : (c : Client) → get_elem? cs i ≡ some c → c.fd ≡ negsuc 0
  pub others : (j : ℕ) → j ≢ i → j < length cs → get_elem? ds j ≡ get_elem? cs j
  pub fresh :
      (j : ℕ) (c : Client) → j ≢ i → length cs ≤ j → get_elem? ds j ≡ some c → c.fd ≡ negsuc 0

get_elem?-append :
    (cs ds : List Client) (j : ℕ) → j < length cs → get_elem? (cs ++ ds) j ≡ get_elem? cs j
get_elem?-append [] ds j h = absurd (omega arith)
get_elem?-append (c ∷ cs) ds zero h = refl
get_elem?-append (c ∷ cs) ds (suc j) h = get_elem?-append cs ds j (omega arith)

pub some_eq {ℓ} : {A : Type ℓ} {a b : A} → ◌≡◌ {A = Option A} (some a) (some b) → a ≡ b
some_eq h = cc

pub none-ne-some : {c : Client} → ◌≡◌ {A = Option Client} none (some c) → ⊥
none-ne-some h = cc

pub get_elem?-lt : (cs : List Client) (i : ℕ) (c : Client) → get_elem? cs i ≡ some c → i < length cs
get_elem?-lt [] i c h = ground arith
get_elem?-lt (d ∷ cs) zero c h = omega arith
get_elem?-lt (d ∷ cs) (suc i) c h = omega (arith, get_elem?-lt cs i c h)

get_elem?-replicate : (n j : ℕ) (c d : Client) → get_elem? (replicate n c) j ≡ some d → d.fd ≡ c.fd
get_elem?-replicate zero j c d h = absurd (none-ne-some h)
get_elem?-replicate (suc n) zero c d h = ap (λ x. x.fd) (sym (some_eq h))
get_elem?-replicate (suc n) (suc j) c d h = get_elem?-replicate n j c d h

-- What the growth adds is available.
get_elem?-alloc :
    (cs : List Client) (j : ℕ) (c : Client)
    → length cs ≤ j
    → get_elem? (client_alloc cs) j ≡ some c
    → c.fd ≡ negsuc 0
unfolding client_alloc
get_elem?-alloc [] j c h at = get_elem?-replicate nalloc j _ c at
get_elem?-alloc (d ∷ cs) zero c h at = absurd (omega arith)
get_elem?-alloc (d ∷ cs) (suc j) c h at = get_elem?-alloc cs j c (omega arith) at

module _ (cs : List Client) (fd : ℤ) (uid : ℕ) where
  put-Added :
      (i : ℕ)
      → find_fd (negsuc 0) cs 0 ≡ some i
      → Added cs fd uid i (set cs i (record { fd = fd; uid = uid }))
  put-Added i h =
      let (j, c, e, l, g, f) = find_fd-some (negsuc 0) cs 0 i h in
      let ij : i ≡ j = omega arith in
      let new : Client = record { fd = fd; uid = uid } in
      record {
        here = get_elem?-set_self cs i new (omega arith);
        grown = omega (arith, length-set cs i new);
        was_free = λ d at. ap (λ x. x.fd) (some_eq (sym at ∙ ap (get_elem? cs) ij ∙ g)) ∙ f;
        others = λ k ne lt. get_elem?-set_ne cs i k new (λ e'. ne (sym e'));
        fresh = λ k d ne out at. absurd (
            let in_range = get_elem?-lt (set cs i new) k d at in
            omega (arith, in_range, length-set cs i new));
      }

  grown-Added :
      (i : ℕ) (ds : List Client) → Added (client_alloc cs) fd uid i ds → Added cs fd uid i ds
  unfolding client_alloc
  grown-Added i ds a = record {
    here = a.here;
    grown = let g = a.grown in omega (arith, length-append {0} cs);
    was_free = λ c at. a.was_free c (get_elem?-append cs _ i (get_elem?-lt cs i c at) ∙ at);
    others =
        λ j ne lt. a.others j ne (omega (arith, length-append {0} cs)) ∙ get_elem?-append cs _ j lt;
    fresh = λ j c ne out at. elim (dec_lt j (length (client_alloc cs))) [
      | yes lt ↦ get_elem?-alloc cs j c out (sym (a.others j ne lt) ∙ at)
      | no ge ↦ a.fresh j c ne (omega arith) at
    ];
  }

add_found :
    (k i : ℕ) (cs : List Client) (fd : ℤ) (uid : ℕ)
    → find_fd (negsuc 0) cs 0 ≡ some i
    → add_again (suc k) cs fd uid ≡ some (i, set cs i (record { fd = fd; uid = uid }))
unfolding add_again
add_found k i cs fd uid h = rw (h, add_again)

add_grown :
    (k : ℕ) (cs : List Client) (fd : ℤ) (uid : ℕ)
    → (i : ℕ) × (ds : List Client) × (add_again (suc k) (client_alloc cs) fd uid ≡ some (i, ds))
      × Added cs fd uid i ds
add_grown k cs fd uid =
    let (i, h) = find_fd-alloc cs 0 in
    let ds : List Client = set (client_alloc cs) i (record { fd = fd; uid = uid }) in
    (
      i,
      ds,
      add_found k i (client_alloc cs) fd uid h,
      grown-Added cs fd uid i ds (put-Added (client_alloc cs) fd uid i h),
    )

add_again-Added :
    (cs : List Client) (fd : ℤ) (uid : ℕ)
    → (i : ℕ) × (ds : List Client) × (add_again 2 cs fd uid ≡ some (i, ds)) × Added cs fd uid i ds
unfolding add_again
add_again-Added cs fd uid = elim (Option-cases (find_fd (negsuc 0) cs 0)) [
  | inr (i, h) ↦ (
    i,
    set cs i (record { fd = fd; uid = uid }),
    add_found 1 i cs fd uid h,
    put-Added cs fd uid i h,
  )
  | inl h ↦ let (i, ds, e, a) = add_grown 0 cs fd uid in (i, ds, rw (h, add_again) e, a)
]

-- client_add always finds an entry, after one growth of the array at most: the client stands at the
-- index that it returns, that entry was available if it was there before, the entries that were
-- there before are otherwise as they were, and the other entries that the growth adds are
-- available.
pub client_add-Added :
    (cs : List Client) (fd : ℤ) (uid : ℕ)
    → (i : ℕ) × (ds : List Client) × (client_add cs fd uid ≡ some (i, ds)) × Added cs fd uid i ds
unfolding client_add
client_add-Added [] fd uid = add_grown 1 [] fd uid
client_add-Added (c ∷ cs) fd uid = add_again-Added (c ∷ cs) fd uid

eq_ℤ→ne : (a b : ℤ) → eq_ℤ a b ≡ false → a ≢ b
eq_ℤ→ne a b h e = ground arith

before-cons :
    (c : Client) (cs : List Client) (fd : ℤ) (i : ℕ)
    → c.fd ≢ fd
    → ((j : ℕ) (d : Client) → j < i → get_elem? cs j ≡ some d → d.fd ≢ fd)
    → (j : ℕ) (d : Client) → j < suc i
    → get_elem? (c ∷ cs) j ≡ some d
    → d.fd ≢ fd
before-cons c cs fd i ne rest zero d lt at e = ne (ap (λ x. x.fd) (some_eq at) ∙ e)
before-cons c cs fd i ne rest (suc j) d lt at e = rest j d (omega arith) at e

absent-cons :
    (c : Client) (cs : List Client) (fd : ℤ)
    → c.fd ≢ fd
    → ((j : ℕ) (d : Client) → get_elem? cs j ≡ some d → d.fd ≢ fd)
    → (j : ℕ) (d : Client) → get_elem? (c ∷ cs) j ≡ some d
    → d.fd ≢ fd
absent-cons c cs fd ne rest zero d at e = ne (ap (λ x. x.fd) (some_eq at) ∙ e)
absent-cons c cs fd ne rest (suc j) d at e = rest j d at e

-- client_del makes the first entry with the descriptor available and leaves the others; where no
-- entry has it, it stops the server.
pub client_del_lem :
    (cs : List Client) (fd : ℤ)
    → ((i : ℕ) × (c : Client) × (get_elem? cs i ≡ some c)
        × (c.fd ≡ fd)
        × ((j : ℕ) (d : Client) → j < i → get_elem? cs j ≡ some d → d.fd ≢ fd)
        × (client_del cs fd ≡ some (set cs i (record c { fd = negsuc 0 }))))
      ⊎ ((client_del cs fd ≡ none) × ((j : ℕ) (d : Client) → get_elem? cs j ≡ some d → d.fd ≢ fd))
unfolding client_del
client_del_lem [] fd = inr (refl, λ j d h e. none-ne-some h)
client_del_lem (c ∷ cs) fd = elim (Bool-cases (eq_ℤ c.fd fd)) [
  | inl hit ↦ inl (0, c, refl, eq_ℤ→eq c.fd fd hit, λ j d lt. absurd (omega arith), rw hit)
  | inr miss ↦ elim (client_del_lem cs fd) [
    | inl (i, d, g, e, before, del) ↦
        inl (suc i, d, g, e, before-cons c cs fd i (eq_ℤ→ne c.fd fd miss) before, rw (miss, del))
    | inr (del, absent) ↦ inr (rw (miss, del), absent-cons c cs fd (eq_ℤ→ne c.fd fd miss) absent)
  ]
]
