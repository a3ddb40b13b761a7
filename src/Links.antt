-- ===== src/Links.antt =====
-- Doubly linked lists in a store, as the programs keep them: what the pointers of the nodes say, the
-- list that they stand for, and what a change of one pointer makes of it.
pub mod Ends
use native.Mathlib.Decide.{ℕ_discrete}
use unp_and_apue3e.Prelude.{
  ap, ◌==◌, if◌then◌else◌, ==_refl, ne→==, All-map, All-split, All-append, ℕ, ◌≡◌, ◌≢◌, refl, sym,
  ◌∙◌, Option, none, some, List, [], ◌∷◌, ◌++◌, All, Distinct,
}

abbrev pub Ptr : Type 0
Ptr = ℕ

-- The next and the previous pointer of each node, and `none` where there is no node.
abbrev pub Links : Type 0
Links = Ptr → Option (Option Ptr × Option Ptr)

-- From `p`, whose previous pointer is `a`, the next pointers lead through the nodes to `q`, and `b`
-- is the last node, or `a` if there is none.
abbrev pub Seg : Links → (a p : Option Ptr) → List Ptr → (b q : Option Ptr) → Type 0
Seg l a p [] b q = (p ≡ q) × (b ≡ a)
Seg l a p (x ∷ xs) b q =
    (n : Option Ptr) × (p ≡ some x) × (l x ≡ some (n, a)) × Seg l (some x) n xs b q

abbrev pub Absent : Ptr → List Ptr → Type 0
Absent x xs = All (λ y. x ≢ y) xs

-- `l'` has the same pointers as `l` but at `t`.
abbrev pub SameBut : Ptr → Links → Links → Type 0
SameBut t l l' = (x : Ptr) → t ≢ x → l' x ≡ l x

abbrev pub last : Ptr → List Ptr → Ptr
last x [] = x
last x (y ∷ ys) = last y ys

pub last-All : (P : Ptr → Type 0) (x : Ptr) (xs : List Ptr) → All P (x ∷ xs) → P (last x xs)
last-All P x [] h = h.0
last-All P x (y ∷ ys) h = last-All P y ys h.1

pub Seg-last :
    (l : Links) (a p : Option Ptr) (x : Ptr) (xs : List Ptr) (b q : Option Ptr)
    → Seg l a p (x ∷ xs) b q
    → (b ≡ some (last x xs)) × ((pr : Option Ptr) × (l (last x xs) ≡ some (q, pr)))
Seg-last l a p x [] b q (n, e, at, (nq, be)) = (be, (a, rw nq at at))
Seg-last l a p x (y ∷ ys) b q (n, e, at, s) = Seg-last l (some x) n y ys b q s

pub Seg-frame :
    (l l' : Links) (t : Ptr) (a p : Option Ptr) (xs : List Ptr) (b q : Option Ptr)
    → SameBut t l l'
    → Absent t xs
    → Seg l a p xs b q
    → Seg l' a p xs b q
Seg-frame l l' t a p [] b q same out s = s
Seg-frame l l' t a p (x ∷ xs) b q same (ne, out) (n, e, at, s) =
    (n, e, same x ne ∙ at, Seg-frame l l' t (some x) n xs b q same out s)

pub Seg-append :
    (l : Links) (a p : Option Ptr) (xs ys : List Ptr) (b q c r : Option Ptr)
    → Seg l a p xs b q
    → Seg l b q ys c r
    → Seg l a p (xs ++ ys) c r
Seg-append l a p [] ys b q c r (e, f) t = rw (e, ← f) t
Seg-append l a p (x ∷ xs) ys b q c r (n, e, at, s) t =
    (n, e, at, Seg-append l (some x) n xs ys b q c r s t)

pub Seg-split :
    (l : Links) (a p : Option Ptr) (xs ys : List Ptr) (c r : Option Ptr)
    → Seg l a p (xs ++ ys) c r
    → (b q : Option Ptr) × Seg l a p xs b q × Seg l b q ys c r
Seg-split l a p [] ys c r s = (a, p, (refl, refl), s)
Seg-split l a p (x ∷ xs) ys c r (n, e, at, s) =
    let (b, q, s1, s2) = Seg-split l (some x) n xs ys c r s in (b, q, (n, e, at, s1), s2)

-- Another next pointer in the last node.
pub Seg-next :
    (l l' : Links) (a p : Option Ptr) (x : Ptr) (xs : List Ptr) (b q q' pr : Option Ptr)
    → SameBut (last x xs) l l'
    → l (last x xs) ≡ some (q, pr)
    → l' (last x xs) ≡ some (q', pr)
    → Distinct (x ∷ xs)
    → Seg l a p (x ∷ xs) b q
    → Seg l' a p (x ∷ xs) b q'
Seg-next l l' a p x [] b q q' pr same old new d (n, e, at, (nq, be)) =
    let same_prev : a ≡ pr = cc in (q', e, rw same_prev new, (refl, be))
Seg-next l l' a p x (y ∷ ys) b q q' pr same old new (out, d) (n, e, at, s) = (
  n,
  e,
  same x (λ h. last-All (λ z. x ≢ z) y ys out (sym h)) ∙ at,
  Seg-next l l' (some x) n y ys b q q' pr same old new d s,
)

-- Another previous pointer in the first node.
pub Seg-prev :
    (l l' : Links) (a a' p : Option Ptr) (x : Ptr) (xs : List Ptr) (b q n : Option Ptr)
    → SameBut x l l'
    → l x ≡ some (n, a)
    → l' x ≡ some (n, a')
    → Distinct (x ∷ xs)
    → Seg l a p (x ∷ xs) b q
    → Seg l' a' p (x ∷ xs) b q
Seg-prev l l' a a' p x xs b q n same old new (out, d) (n', e, at, s) = (
  n',
  e,
  (let same_next : n ≡ n' = cc in rw (← same_next) new),
  Seg-frame l l' x (some x) n' xs b q same out s,
)

pub Distinct-split :
    (xs : List Ptr) (p : Ptr) (ys : List Ptr)
    → Distinct (xs ++ p ∷ ys)
    → Distinct xs × Absent p xs × Absent p ys × Distinct ys × Distinct (xs ++ ys)
Distinct-split [] p ys (out, d) = (tt, tt, out, d, d)
Distinct-split (x ∷ xs) p ys (out, d) =
    let (dx, px, py, dy, dxy) = Distinct-split xs p ys d in
    let (ox, op) = All-split (λ y. x ≢ y) xs (p ∷ ys) out in
    ((ox, dx), ((λ h. op.0 (sym h)), px), py, dy, (All-append (λ y. x ≢ y) xs ys ox op.1, dxy))

-- `l'` is `l` with other pointers in the node at `t`.
abbrev pub Becomes : Links → Ptr → (n pr : Option Ptr) → Links → Type 0
Becomes l t n pr l' = (l' t ≡ some (n, pr)) × SameBut t l l'

-- What a store has where a pointer points.
unfoldable pub put {ℓ} : {A : Type ℓ} → (Ptr → Option A) → Ptr → A → Ptr → Option A
put h p a q = if p == q then some a else h q

pub put_self {ℓ} : {A : Type ℓ} (h : Ptr → Option A) (p : Ptr) (a : A) → put h p a p ≡ some a
unfolding put
put_self h p a = rw (==_refl p)

pub put_ne {ℓ} :
    {A : Type ℓ} (h : Ptr → Option A) (p : Ptr) (a : A) (x : Ptr) → p ≢ x → put h p a x ≡ h x
unfolding put
put_ne h p a x ne = rw (ne→== p x ne)

abbrev pub seen_at {ℓ} :
    {A : Type ℓ} → (A → Option Ptr × Option Ptr) → Option A → Option (Option Ptr × Option Ptr)
seen_at f none = none
seen_at f (some a) = some (f a)

abbrev pub seen {ℓ} : {A : Type ℓ} → (A → Option Ptr × Option Ptr) → (Ptr → Option A) → Links
seen f h p = seen_at f (h p)

pub put-Becomes {ℓ} :
    {A : Type ℓ} (f : A → Option Ptr × Option Ptr) (h : Ptr → Option A) (p : Ptr) (a : A)
    {n pr : Option Ptr}
    → f a ≡ (n, pr)
    → Becomes (seen f h) p n pr (seen f (put h p a))
put-Becomes f h p a e =
    (ap (seen_at f) (put_self h p a) ∙ ap some e, λ x ne. ap (seen_at f) (put_ne h p a x ne))

pub seen_inv {ℓ} :
    {A : Type ℓ} (f : A → Option Ptr × Option Ptr) (o : Option A) {n pr : Option Ptr}
    → seen_at f o ≡ some (n, pr)
    → (a : A) × (o ≡ some a) × (f a ≡ (n, pr))
seen_inv f none e = absurd (cc)
seen_inv f (some a) e = (a, refl, cc)

pub Distinct-snoc : (xs : List Ptr) (p : Ptr) → Distinct xs → Absent p xs → Distinct (xs ++ p ∷ [])
Distinct-snoc [] p d out = (tt, tt)
Distinct-snoc (x ∷ xs) p (o, d) (ne, out) =
    (All-append (λ y. x ≢ y) xs (p ∷ []) o ((λ e. ne (sym e)), tt), Distinct-snoc xs p d out)
