-- ===== src/Printer/Kept.antt =====
-- What stays of the list of pending jobs of more01/apue.3e/printer/printd.c where one job changes.
use unp_and_apue3e.Prelude.{
  ℕ, ◌≡◌, ◌≢◌, refl, sym, ◌∙◌, ap, Option, none, some, List, [], ◌∷◌, ◌++◌, ne→==, All-append,
}
use unp_and_apue3e.Links.{Ptr, Links, Seg, Seg-frame, Absent, seen, seen_at}
use unp_and_apue3e.Printer.Queue.{Job, Jobs}
use unp_and_apue3e.Printer.Contents.{hooks, IsQueue}
use unp_and_apue3e.Printer.Order.{held, SameHeld}
use unp_and_apue3e.Printer.Runs.{free, Holds, InHand}

pub held_inv :
    {R : Type 0} (o : Option (Job R)) {w : ℕ × R} → held o ≡ some w → (j : Job R) × (o ≡ some j)
held_inv none e = absurd (cc)
held_inv (some j) e = (j, refl)

-- Where nothing stands, no job of the list does.
pub Seg-Absent :
    (l : Links) (p : Ptr) (a h : Option Ptr) (xs : List Ptr) (b q : Option Ptr)
    → l p ≡ none
    → Seg l a h xs b q
    → Absent p xs
Seg-Absent l p a h [] b q e s = tt
Seg-Absent l p a h (x ∷ xs) b q e (n, f, at, s) = (
  (λ same. let g : l p ≡ some (n, a) = rw same at in absurd (cc)),
  Seg-Absent l p (some x) n xs b q e s,
)

pub Holds-same :
    {R : Type 0} (h k : Ptr → Option (Job R)) (p : Ptr) (xs : List Ptr) (ws : List (ℕ × R))
    → Absent p xs
    → ((x : Ptr) → p ≢ x → held (k x) ≡ held (h x))
    → Holds h xs ws
    → Holds k xs ws
Holds-same h k p [] [] out same s = tt
Holds-same h k p [] (w ∷ ws) out same s = elim s [ ]
Holds-same h k p (x ∷ xs) [] out same s = elim s [ ]
Holds-same h k p (x ∷ xs) (w ∷ ws) (ne, out) same (e, s) =
    (same x ne ∙ e, Holds-same h k p xs ws out same s)

pub Holds-SameHeld :
    {R : Type 0} (h k : Ptr → Option (Job R)) (xs : List Ptr) (ws : List (ℕ × R))
    → SameHeld h k
    → Holds h xs ws
    → Holds k xs ws
Holds-SameHeld h k [] [] same s = tt
Holds-SameHeld h k [] (w ∷ ws) same s = elim s [ ]
Holds-SameHeld h k (x ∷ xs) [] same s = elim s [ ]
Holds-SameHeld h k (x ∷ xs) (w ∷ ws) same (e, s) = (same x ∙ e, Holds-SameHeld h k xs ws same s)

pub Holds-snoc :
    {R : Type 0} (h : Ptr → Option (Job R)) (xs : List Ptr) (ws : List (ℕ × R)) (p : Ptr)
    (w : ℕ × R)
    → Holds h xs ws
    → held (h p) ≡ some w
    → Holds h (xs ++ p ∷ []) (ws ++ w ∷ [])
Holds-snoc h [] [] p w s e = (e, tt)
Holds-snoc h [] (v ∷ ws) p w s e = elim s [ ]
Holds-snoc h (x ∷ xs) [] p w s e = elim s [ ]
Holds-snoc h (x ∷ xs) (v ∷ ws) p w (f, s) e = (f, Holds-snoc h xs ws p w s e)

pub InHand-Added :
    {R : Type 0} (q t : Jobs R) (p : Ptr) (xs : List Ptr) (jp : Option Ptr) (w : Option (ℕ × R))
    → q.job p ≡ none
    → ((x : Ptr) → p ≢ x → held (t.job x) ≡ held (q.job x))
    → InHand q.job xs jp w
    → InHand t.job (xs ++ p ∷ []) jp w
InHand-Added q t p xs none none e same s = tt
InHand-Added q t p xs none (some w) e same s = elim s [ ]
InHand-Added q t p xs (some x) none e same s = elim s [ ]
InHand-Added q t p xs (some x) (some w) e same (f, out) =
    let ne : p ≢ x = λ g.
      (let h : q.job x ≡ none = rw (← g) e in
        let k : none ≡ some w = ap held (sym h) ∙ f in absurd (cc)) in
    (same x ne ∙ f, All-append (λ y. x ≢ y) xs (p ∷ []) out ((λ g. ne (sym g)), tt))

pub InHand-SameHeld :
    {R : Type 0} (h k : Ptr → Option (Job R)) (xs : List Ptr) (p : Ptr) (w : ℕ × R)
    → SameHeld h k
    → InHand h xs (some p) (some w)
    → InHand k xs (some p) (some w)
InHand-SameHeld h k xs p w same (f, out) = (same p ∙ f, out)

pub free_ne : {A : Type 0} (p : Ptr) (h : Ptr → Option A) (x : Ptr) → p ≢ x → free p h x ≡ h x
unfolding free
free_ne p h x ne = rw (ne→== p x ne) refl

pub free-IsQueue :
    {R : Type 0} (q : Jobs R) (p : Ptr) (xs : List Ptr)
    → IsQueue q xs
    → Absent p xs
    → IsQueue (record q { job = free p q.job }) xs
free-IsQueue q p xs v out = record {
  seg =
      Seg-frame (seen hooks q.job) (seen hooks (free p q.job)) p none q.jobhead xs q.jobtail none
        (λ x ne. ap (seen_at hooks) (free_ne p q.job x ne)) out v.seg;
  distinct = v.distinct;
}
