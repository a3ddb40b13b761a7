-- ===== src/Links/Ends.antt =====
-- A node more or less in a doubly linked list: at its front, at its end and between two others.
use native.Mathlib.Decide.{ℕ_discrete}
use unp_and_apue3e.Prelude.{
  ◌==◌, if◌then◌else◌, ==_refl, ne→==, All-map, All-split, ◌≡◌, ◌≢◌, refl, sym, ◌∙◌, Option, none,
  some, List, [], ◌∷◌, ◌++◌, All, Distinct,
}
use unp_and_apue3e.Links.{
  Ptr, Links, Seg, Absent, last, last-All, Seg-last, Seg-frame, Seg-append, Seg-split, Seg-next,
  Seg-prev, Distinct-split, Becomes,
}

-- A new first node, before the old one.
pub Seg-push_front :
    (l l1 l2 : Links) (h t n : Option Ptr) (p x : Ptr) (xs : List Ptr)
    → Seg l none h (x ∷ xs) t none
    → Distinct (x ∷ xs)
    → Absent p (x ∷ xs)
    → l x ≡ some (n, none)
    → Becomes l p (some x) none l1
    → Becomes l1 x n (some p) l2
    → Seg l2 none (some p) (p ∷ x ∷ xs) t none
Seg-push_front l l1 l2 h t n p x xs (m, e, at, s) d out old (at1, same1) (at2, same2) = (
  some x,
  refl,
  same2 p (λ e. out.0 (sym e)) ∙ at1,
  Seg-prev l1 l2 none (some p) (some x) x xs t none n same2 (same1 x out.0 ∙ old) at2 d
      (Seg-frame l l1 p none (some x) (x ∷ xs) t none same1 out (m, refl, at, s)),
)

-- A new last node, behind the old one.
pub Seg-push_back :
    (l l1 l2 : Links) (h t pr : Option Ptr) (p x : Ptr) (xs : List Ptr)
    → Seg l none h (x ∷ xs) t none
    → Distinct (x ∷ xs)
    → Absent p (x ∷ xs)
    → l (last x xs) ≡ some (none, pr)
    → Becomes l p none (some (last x xs)) l1
    → Becomes l1 (last x xs) (some p) pr l2
    → Seg l2 none h ((x ∷ xs) ++ p ∷ []) (some p) none
Seg-push_back l l1 l2 h t pr p x xs s d out old (at1, same1) (at2, same2) =
    let ne : p ≢ last x xs = last-All (λ y. p ≢ y) x xs out in
    Seg-append l2 none h (x ∷ xs) (p ∷ []) t (some p) (some p) none
      (Seg-next l1 l2 none h x xs t none (some p) pr same2 (same1 (last x xs) ne ∙ old) at2 d
        (Seg-frame l l1 p none h (x ∷ xs) t none same1 out s))
      (
        none,
        refl,
        same2 p (λ e. ne (sym e)) ∙ at1 ∙ rw (Seg-last l none h x xs t none s).0,
        (refl, refl),
      )

-- The first node is taken out.
pub Seg-drop_first :
    (l l' : Links) (h t n : Option Ptr) (p z : Ptr) (zs : List Ptr)
    → Seg l none h (p ∷ z ∷ zs) t none
    → Distinct (z ∷ zs)
    → l z ≡ some (n, some p)
    → Becomes l z n none l'
    → Seg l' none (some z) (z ∷ zs) t none
Seg-drop_first l l' h t n p z zs (m, e, at, (k, f, atz, s)) d old (new, same) =
    Seg-prev l l' (some p) none (some z) z zs t none n same old new d (k, refl, atz, s)

-- The last node is taken out.
pub Seg-drop_last :
    (l l' : Links) (h t pr : Option Ptr) (p y : Ptr) (ys : List Ptr)
    → Seg l none h ((y ∷ ys) ++ p ∷ []) t none
    → Distinct (y ∷ ys)
    → l (last y ys) ≡ some (some p, pr)
    → Becomes l (last y ys) none pr l'
    → Seg l' none h (y ∷ ys) (some (last y ys)) none
Seg-drop_last l l' h t pr p y ys s d old (new, same) =
    let (b, q, first, (n, e, at, end)) = Seg-split l none h (y ∷ ys) (p ∷ []) t none s in
    let lasts = Seg-last l none h y ys b q first in
    rw (← lasts.0) (Seg-next l l' none h y ys b q none pr same (rw e old) new d first)

-- No node of the first part is one of the second.
pub Distinct-apart : (xs ys : List Ptr) → Distinct (xs ++ ys) → All (λ x. Absent x ys) xs
Distinct-apart [] ys d = tt
Distinct-apart (x ∷ xs) ys (out, d) = ((All-split (λ y. x ≢ y) xs ys out).1, Distinct-apart xs ys d)

-- A node between two others is taken out.
pub Seg-drop_middle :
    (l l1 l2 : Links) (h t n pr : Option Ptr) (p y : Ptr) (ys : List Ptr) (z : Ptr) (zs : List Ptr)
    → Seg l none h ((y ∷ ys) ++ p ∷ z ∷ zs) t none
    → Distinct ((y ∷ ys) ++ p ∷ z ∷ zs)
    → l (last y ys) ≡ some (some p, pr)
    → l z ≡ some (n, some p)
    → Becomes l (last y ys) (some z) pr l1
    → Becomes l1 z n (some (last y ys)) l2
    → Seg l2 none h ((y ∷ ys) ++ z ∷ zs) t none
Seg-drop_middle l l1 l2 h t n pr p y ys z zs s d oldy oldz (at1, same1) (at2, same2) =
    let (b, q, first, (np, ep, atp, (nz, ez, atz, rest))) =
      Seg-split l none h (y ∷ ys) (p ∷ z ∷ zs) t none s in
    let b_last = (Seg-last l none h y ys b q first).0 in
    let (dy, oy, op, dz, dyz) = Distinct-split (y ∷ ys) p (z ∷ zs) d in
    let apart = Distinct-apart (y ∷ ys) (z ∷ zs) dyz in
    let out = last-All (λ x. Absent x (z ∷ zs)) y ys apart in
    let before : Seg l2 none h (y ∷ ys) b (some z) =
      Seg-frame l1 l2 z none h (y ∷ ys) b (some z) same2
        (All-map (y ∷ ys) (λ x o e. o.0 (sym e)) apart)
        (Seg-next l l1 none h y ys b q (some z) pr same1 (rw ep oldy) at1 dy first) in
    let behind : Seg l2 (some (last y ys)) (some z) (z ∷ zs) t none =
      Seg-prev l1 l2 (some p) (some (last y ys)) (some z) z zs t none n same2 (same1 z out.0 ∙ oldz)
        at2 dz
        (Seg-frame l l1 (last y ys) (some p) (some z) (z ∷ zs) t none same1 out
          (nz, refl, atz, rest)) in
    Seg-append l2 none h (y ∷ ys) (z ∷ zs) b (some z) t none before (rw b_last behind)

-- The same, where the pointer back is changed first.
pub Seg-drop_middle_back :
    (l l1 l2 : Links) (h t n pr : Option Ptr) (p y : Ptr) (ys : List Ptr) (z : Ptr) (zs : List Ptr)
    → Seg l none h ((y ∷ ys) ++ p ∷ z ∷ zs) t none
    → Distinct ((y ∷ ys) ++ p ∷ z ∷ zs)
    → l (last y ys) ≡ some (some p, pr)
    → l z ≡ some (n, some p)
    → last y ys ≢ z
    → Becomes l z n (some (last y ys)) l1
    → Becomes l1 (last y ys) (some z) pr l2
    → Seg l2 none h ((y ∷ ys) ++ z ∷ zs) t none
Seg-drop_middle_back l l1 l2 h t n pr p y ys z zs s d old_y old_z ne (at1, same1) (at2, same2) =
    let w = last y ys in
    let mid : Links = λ x. if w == x then some (some z, pr) else l x in
    Seg-drop_middle l mid l2 h t n pr p y ys z zs s d old_y old_z
      (rw (==_refl w) refl, (λ x out. rw (ne→== w x out) refl))
      (
        same2 z ne ∙ at1,
        (λ x out. elim (ℕ_discrete w x) [
          | yes e ↦ rw (← e, ==_refl w) at2
          | no f ↦ rw (ne→== w x f) (same2 x f ∙ same1 x out)
        ]),
      )
