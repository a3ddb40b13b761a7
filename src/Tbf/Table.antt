-- ===== src/Tbf/Table.antt =====
-- The array of buckets: which bucket stands in which slot.
use native.Mathlib.Decide.{ℕ_discrete}
use unp_and_apue3e.Prelude.{
  ℕ, zero, suc, ◌+◌, ◌<◌, ◌≡◌, ◌≢◌, refl, Option, none, some, List, [], ◌∷◌, arith, length,
  get_elem?, set, sym, ◌∙◌, ap, inl, inr, Option-cases, ℤ, get_elem?-set_self, get_elem?-set_ne,
}
use unp_and_apue3e.Tbf.{
  Bucket, Ptr, Buckets, get_free_pos, update, add_token, refill_all, alarm, mytbf_init,
  mytbf_destroy, refill,
}

-- Each pointer of the array points to a bucket that knows its slot, and each bucket stands in it.
pub record IsTable (s : Buckets) : Type 0 where
  pub back :
      (i : ℕ) (p : Ptr)
      → get_elem? s.job i ≡ some (some p)
      → (b : Bucket) × (s.bucket p ≡ some b) × (b.slot ≡ i)
  pub forth : (p : Ptr) (b : Bucket) → s.bucket p ≡ some b → get_elem? s.job b.slot ≡ some (some p)

free_slot :
    (job : List (Option Ptr)) (i k : ℕ)
    → get_free_pos job i ≡ some k
    → (j : ℕ) × (k ≡ i + j) × (get_elem? job j ≡ some none) × (j < length job)
unfolding get_free_pos
free_slot [] i k h = ground arith
free_slot (none ∷ job) i k h = (0, ground arith, refl, omega arith)
free_slot (some p ∷ job) i k h =
    let (j, e, g, l) = free_slot job (i + 1) k h in (suc j, omega arith, g, omega arith)

no_free_slot :
    (job : List (Option Ptr)) (i j : ℕ) → get_free_pos job i ≡ none → get_elem? job j ≢ some none
unfolding get_free_pos
no_free_slot [] i j h g = ground arith
no_free_slot (none ∷ job) i j h g = ground arith
no_free_slot (some p ∷ job) i zero h g = ground arith
no_free_slot (some p ∷ job) i (suc j) h g = no_free_slot job (i + 1) j h g

update_self : (h : Ptr → Option Bucket) (p : Ptr) (b : Option Bucket) → update h p b p ≡ b
unfolding update
update_self h p b = ground arith

update_ne : (h : Ptr → Option Bucket) (p q : Ptr) (b : Option Bucket) → p ≢ q → update h p b q ≡ h q
unfolding update
update_ne h p q b n = ground arith

none-ne-some {ℓ} : {A : Type ℓ} {a : A} → ◌≡◌ {A = Option A} none (some a) → ⊥
none-ne-some h = cc

get_elem?-lt {ℓ} :
    {A : Type ℓ} (xs : List A) (i : ℕ) {a : A} → get_elem? xs i ≡ some a → i < length xs
get_elem?-lt [] i h = absurd (none-ne-some h)
get_elem?-lt (x ∷ xs) zero h = omega arith
get_elem?-lt (x ∷ xs) (suc i) h = omega (arith, get_elem?-lt xs i h)

some_eq {ℓ} : {A : Type ℓ} {a b : A} → ◌≡◌ {A = Option A} (some a) (some b) → a ≡ b
some_eq h = cc

module _ (s : Buckets) (p : Ptr) (b : Bucket) (i : ℕ) (t : IsTable s)
    (free : get_elem? s.job i ≡ some none) (room : i < length s.job) (fresh : s.bucket p ≡ none)
    (at : b.slot ≡ i) where
  place-back :
      (j : ℕ) (q : Ptr)
      → get_elem? (set s.job i (some p)) j ≡ some (some q)
      → (c : Bucket) × (update s.bucket p (some b) q ≡ some c) × (c.slot ≡ j)
  place-back j q h = elim (ℕ_discrete i j) [
    | yes e ↦
        let here : ◌≡◌ {A = Option (Option Ptr)} (some (some p)) (some (some q)) =
          sym (get_elem?-set_self s.job i (some p) room)
          ∙ ap (get_elem? (set s.job i (some p))) e
          ∙ h in
        let pq : p ≡ q = some_eq (some_eq here) in
        (b, rw (← pq) (update_self s.bucket p (some b)), at ∙ e)
    | no n ↦
        let (c, e, k) = t.back j q (sym (get_elem?-set_ne s.job i j (some p) n) ∙ h) in
        let ne : p ≢ q = λ e'. none-ne-some (sym fresh ∙ ap s.bucket e' ∙ e) in
        (c, update_ne s.bucket p q (some b) ne ∙ e, k)
  ]

  place-forth :
      (q : Ptr) (c : Bucket)
      → update s.bucket p (some b) q ≡ some c
      → get_elem? (set s.job i (some p)) c.slot ≡ some (some q)
  place-forth q c h = elim (ℕ_discrete p q) [
    | yes e ↦
        let same : b ≡ c =
          some_eq (sym (update_self s.bucket p (some b)) ∙ ap (update s.bucket p (some b)) e ∙ h) in
        rw (← same, at, ← e) (get_elem?-set_self s.job i (some p) room)
    | no n ↦
        let old = t.forth q c (sym (update_ne s.bucket p q (some b) n) ∙ h) in
        let ne : i ≢ c.slot =
          λ e. none-ne-some (some_eq (sym free ∙ ap (get_elem? s.job) e ∙ old)) in
        get_elem?-set_ne s.job i c.slot (some p) ne ∙ old
  ]

  place-IsTable :
      IsTable (record { bucket = update s.bucket p (some b); job = set s.job i (some p) })
  place-IsTable = record { back = place-back; forth = place-forth }

-- mytbf_init, with an address at which no bucket stands, keeps the table well formed (IsTable): the
-- pointers of the array and the buckets with their slots answer each other.
pub mytbf_init-IsTable :
    (p : Ptr) (cps burst : ℤ) (s : Buckets)
    → s.bucket p ≡ none
    → IsTable s
    → IsTable (mytbf_init (some p) cps burst s).1
unfolding mytbf_init
mytbf_init-IsTable p cps burst s fresh t = elim (Option-cases (get_free_pos s.job 0)) [
  | inl none_free ↦ rw none_free t
  | inr (k, found) ↦
      let (j, e, g, l) = free_slot s.job 0 k found in
      let e' : k ≡ j = omega arith in
      rw found (place-IsTable s p _ k t (ap (get_elem? s.job) e' ∙ g) (omega arith) fresh refl)
]

module _ (s : Buckets) (p : Ptr) (b : Bucket) (t : IsTable s) (at : s.bucket p ≡ some b) where
  slot_room : b.slot < length s.job
  slot_room = get_elem?-lt s.job b.slot (t.forth p b at)

  clear-back :
      (j : ℕ) (q : Ptr)
      → get_elem? (set s.job b.slot none) j ≡ some (some q)
      → (c : Bucket) × (update s.bucket p none q ≡ some c) × (c.slot ≡ j)
  clear-back j q h = elim (ℕ_discrete b.slot j) [
    | yes e ↦ absurd (
        none-ne-some (
          some_eq (
            sym (get_elem?-set_self s.job b.slot none slot_room)
            ∙ ap (get_elem? (set s.job b.slot none)) e
            ∙ h)))
    | no n ↦
        let (c, e, k) = t.back j q (sym (get_elem?-set_ne s.job b.slot j none n) ∙ h) in
        let ne : p ≢ q = λ e'. n (ap (λ x. x.slot) (some_eq (sym at ∙ ap s.bucket e' ∙ e)) ∙ k) in
        (c, update_ne s.bucket p q none ne ∙ e, k)
  ]

  clear-forth :
      (q : Ptr) (c : Bucket)
      → update s.bucket p none q ≡ some c
      → get_elem? (set s.job b.slot none) c.slot ≡ some (some q)
  clear-forth q c h = elim (ℕ_discrete p q) [
    | yes e ↦
        absurd
          (none-ne-some (sym (update_self s.bucket p none) ∙ ap (update s.bucket p none) e ∙ h))
    | no n ↦
        let old = t.forth q c (sym (update_ne s.bucket p q none n) ∙ h) in
        let ne : b.slot ≢ c.slot =
          λ e. n (some_eq (some_eq (sym (t.forth p b at) ∙ ap (get_elem? s.job) e ∙ old))) in
        get_elem?-set_ne s.job b.slot c.slot none ne ∙ old
  ]

-- mytbf_destroy of a bucket of a well-formed table succeeds and keeps the table well formed; the
-- bucket is gone, and its slot is free.
pub mytbf_destroy-IsTable :
    (s : Buckets) (p : Ptr) (b : Bucket)
    → s.bucket p ≡ some b
    → IsTable s
    → (s' : Buckets) × (mytbf_destroy p s ≡ some s')
      × IsTable s'
      × (s'.bucket p ≡ none)
      × (get_elem? s'.job b.slot ≡ some none)
unfolding mytbf_destroy
mytbf_destroy-IsTable s p b at t = (
  record { bucket = update s.bucket p none; job = set s.job b.slot none },
  rw (at, mytbf_destroy),
  record { back = clear-back s p b t at; forth = clear-forth s p b t at },
  update_self s.bucket p none,
  get_elem?-set_self s.job b.slot none (slot_room s p b t at),
)

-- Where mytbf_init returns NULL, though malloc did not, it has changed nothing, and no slot of the
-- array is free.
pub mytbf_init-full :
    (p : Ptr) (cps burst : ℤ) (s : Buckets)
    → (mytbf_init (some p) cps burst s).0 ≡ none
    → ((mytbf_init (some p) cps burst s).1 ≡ s) × ((j : ℕ) → get_elem? s.job j ≢ some none)
unfolding mytbf_init
mytbf_init-full p cps burst s h = elim (Option-cases (get_free_pos s.job 0)) [
  | inl none_free ↦ (rw none_free refl, λ j. no_free_slot s.job 0 j none_free)
  | inr (k, found) ↦ absurd (none-ne-some (sym (rw found at h)))
]

refill_ne : (h : Ptr → Option Bucket) (q p : Ptr) → q ≢ p → refill h q p ≡ h p
refill_ne h q p n = elim (Option-cases (h q)) [
  | inl e ↦ rw (e, refill)
  | inr (b, e) ↦ rw (e, refill) (update_ne h q p (some (add_token b)) n)
]

refill_self :
    (h : Ptr → Option Bucket) (p : Ptr) (b : Bucket)
    → h p ≡ some b
    → refill h p p ≡ some (add_token b)
refill_self h p b e = rw (e, refill) (update_self h p (some (add_token b)))

refill_all-absent :
    (job : List (Option Ptr)) (h : Ptr → Option Bucket) (p : Ptr)
    → ((i : ℕ) → get_elem? job i ≢ some (some p))
    → refill_all job h p ≡ h p
unfolding refill_all
refill_all-absent [] h p n = refl
refill_all-absent (none ∷ job) h p n = refill_all-absent job h p (λ i. n (suc i))
refill_all-absent (some q ∷ job) h p n =
    refill_all-absent job (refill h q) p (λ i. n (suc i))
    ∙ refill_ne h q p (λ e. n 0 (ap (λ x. some (some x)) e))

refill_all-once :
    (job : List (Option Ptr)) (h : Ptr → Option Bucket) (p : Ptr) (b : Bucket) (i : ℕ)
    → get_elem? job i ≡ some (some p)
    → ((j : ℕ) → get_elem? job j ≡ some (some p) → j ≡ i)
    → h p ≡ some b
    → refill_all job h p ≡ some (add_token b)
unfolding refill_all
refill_all-once [] h p b i g u e = absurd (none-ne-some g)
refill_all-once (none ∷ job) h p b zero g u e = absurd (none-ne-some (some_eq g))
refill_all-once (none ∷ job) h p b (suc i) g u e =
    refill_all-once job h p b i g (λ j k. omega (arith, u (suc j) k)) e
refill_all-once (some q ∷ job) h p b zero g u e =
    let qp : q ≡ p = some_eq (some_eq g) in
    refill_all-absent job (refill h q) p (λ j k. absurd (omega (arith, u (suc j) k)))
    ∙ ap (λ x. refill h x p) qp
    ∙ refill_self h p b e
refill_all-once (some q ∷ job) h p b (suc i) g u e =
    refill_all-once job (refill h q) p b i g (λ j k. omega (arith, u (suc j) k))
      (refill_ne h q p (λ k. absurd (omega (arith, u 0 (ap (λ x. some (some x)) k)))) ∙ e)

-- One turn of thr_alrm over a well-formed table adds to each of its buckets once.
pub alarm-add_token :
    (s : Buckets) (p : Ptr) (b : Bucket)
    → IsTable s
    → s.bucket p ≡ some b
    → (alarm s).bucket p ≡ some (add_token b)
unfolding alarm
alarm-add_token s p b t e = refill_all-once s.job s.bucket p b b.slot (t.forth p b e) once e
  where
    once : (j : ℕ) → get_elem? s.job j ≡ some (some p) → j ≡ b.slot
    once j g = let (c, e', k) = t.back j p g in sym k ∙ ap (λ x. x.slot) (some_eq (sym e' ∙ e))
