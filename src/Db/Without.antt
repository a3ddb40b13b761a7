-- ===== src/Db/Without.antt =====
-- A hash chain of more01/apue.3e/db/db.c without the record that db_delete takes out of it.
use unp_and_apue3e.Prelude.{
  ℕ, ◌≡◌, ◌≢◌, refl, sym, ap, ◌⊎◌, inl, inr, Option, none, some, List, [], ◌∷◌, if◌then◌else◌,
  Bool-cases, All, All-map, Distinct,
}
use mathlib.Core.Path.{subst}
use unp_and_apue3e.Text.{Bytes, str_eq}
use unp_and_apue3e.Db.State.{Limits}
use unp_and_apue3e.Db.Entry.{Entry, EntryAt}
use unp_and_apue3e.Db.Chain.{IsChain, search_key}
use unp_and_apue3e.Db.Fetch.{offsets}

-- The pointer to a chain, once the first record with the key is out of it.
unfoldable pub ptr_without : Bytes → ℕ → List Entry → ℕ
ptr_without key first [] = first
ptr_without key first (e ∷ es) = if str_eq e.key key then e.ptr else first

-- The chain itself: the record before the one that is taken out points behind it.
unfoldable pub without : Bytes → List Entry → List Entry
without key [] = []
without key (e ∷ es) =
    let rest : List Entry = without key es in
    if str_eq e.key key then es else record e { ptr = ptr_without key e.ptr es } ∷ rest

none-ne-some : {A : Type 0} {a : A} → ◌≡◌ {A = Option A} none (some a) → ⊥
none-ne-some h = cc

module _ (key : Bytes) where
  pub search_key-All :
      (P : Entry → Type 0) (es : List Entry) (slot : ℕ) {prev : ℕ} {e : Entry}
      → search_key key slot es ≡ some (prev, e)
      → All P es
      → P e
  unfolding search_key
  search_key-All P [] slot h a = absurd (none-ne-some h)
  search_key-All P (d ∷ es) slot {prev} {e} h (p, a) = elim (Bool-cases (str_eq d.key key)) [
    | inl hit ↦
        let found : ◌≡◌ {A = Option (ℕ × Entry)} (some (slot, d)) (some (prev, e)) = rw hit at h in
        let same : d ≡ e = cc in subst P same p
    | inr miss ↦ search_key-All P es d.off (rw miss at h) a
  ]

  -- What holds of the place of the first pointer and of each record holds of the place of the
  -- pointer that leads to the record.
  pub search_key-slot :
      (Q : ℕ → Type 0) (es : List Entry) (slot : ℕ) {prev : ℕ} {e : Entry}
      → search_key key slot es ≡ some (prev, e)
      → Q slot
      → All Q (offsets es)
      → Q prev
  unfolding search_key
  search_key-slot Q [] slot h q a = absurd (none-ne-some h)
  search_key-slot Q (d ∷ es) slot {prev} {e} h q (p, a) = elim (Bool-cases (str_eq d.key key)) [
    | inl hit ↦
        let found : ◌≡◌ {A = Option (ℕ × Entry)} (some (slot, d)) (some (prev, e)) = rw hit at h in
        let same : slot ≡ prev = cc in subst Q same q
    | inr miss ↦ search_key-slot Q es d.off (rw miss at h) p a
  ]

  -- The pointer at `slot` changes where it leads to the record, and only there.
  pub ptr_without-eq :
      (es : List Entry) (first slot : ℕ) {prev : ℕ} {e : Entry}
      → All (λ o. o ≢ slot) (offsets es)
      → search_key key slot es ≡ some (prev, e)
      → ((prev ≡ slot) × (ptr_without key first es ≡ e.ptr))
        ⊎ ((prev ≢ slot) × (ptr_without key first es ≡ first))
  unfolding search_key ptr_without
  ptr_without-eq [] first slot a h = absurd (none-ne-some h)
  ptr_without-eq (d ∷ es) first slot {prev} {e} (n, a) h = elim (Bool-cases (str_eq d.key key)) [
    | inl hit ↦
        let found : ◌≡◌ {A = Option (ℕ × Entry)} (some (slot, d)) (some (prev, e)) = rw hit at h in
        let same : d ≡ e = cc in inl (cc, rw hit (ap (λ x. x.ptr) same))
    | inr miss ↦ inr (search_key-slot (λ o. o ≢ slot) es d.off (rw miss at h) n a, rw miss refl)
  ]

  search_key-off :
      (P : ℕ → Type 0) (es : List Entry) (slot : ℕ) {prev : ℕ} {e : Entry}
      → search_key key slot es ≡ some (prev, e)
      → All P (offsets es)
      → P e.off
  unfolding search_key
  search_key-off P [] slot h a = absurd (none-ne-some h)
  search_key-off P (d ∷ es) slot {prev} {e} h (p, a) = elim (Bool-cases (str_eq d.key key)) [
    | inl hit ↦
        let found : ◌≡◌ {A = Option (ℕ × Entry)} (some (slot, d)) (some (prev, e)) = rw hit at h in
        let same : d.off ≡ e.off = cc in subst P same p
    | inr miss ↦ search_key-off P es d.off (rw miss at h) a
  ]

  pub offsets-without :
      (P : ℕ → Type 0) (es : List Entry) → All P (offsets es) → All P (offsets (without key es))
  unfolding without
  offsets-without P [] a = tt
  offsets-without P (d ∷ es) (p, a) = elim (Bool-cases (str_eq d.key key)) [
    | inl hit ↦ rw hit a
    | inr miss ↦ rw miss (p, offsets-without P es a)
  ]

  pub Distinct-without :
      (es : List Entry) → Distinct (offsets es) → Distinct (offsets (without key es))
  unfolding without
  Distinct-without [] a = tt
  Distinct-without (d ∷ es) (n, a) = elim (Bool-cases (str_eq d.key key)) [
    | inl hit ↦ rw hit a
    | inr miss ↦ rw miss (offsets-without (λ y. d.off ≢ y) es n, Distinct-without es a)
  ]

-- A chain of records that stand in another file as well.
pub IsChain-All :
    (lim : Limits) (bs bs' : Bytes) (es : List Entry) (first : ℕ)
    → All (λ d. EntryAt lim bs' d) es
    → IsChain lim bs first es
    → IsChain lim bs' first es
IsChain-All lim bs bs' [] first a c = c
IsChain-All lim bs bs' (d ∷ es) first (at, a) (eq, p, _, c) =
    (eq, p, at, IsChain-All lim bs bs' es d.ptr a c)

-- What a write does to a record that is neither taken out nor changed, and to the one before it.
abbrev pub Keeps : Limits → Bytes → ℕ → ℕ → Entry → Type 0
Keeps lim bs' out prev d = d.off ≢ out → d.off ≢ prev → EntryAt lim bs' d

abbrev pub Patches : Limits → Bytes → ℕ → ℕ → Entry → Type 0
Patches lim bs' v prev d = d.off ≡ prev → EntryAt lim bs' (record d { ptr = v })

Keeps-All :
    (lim : Limits) (bs' : Bytes) (es : List Entry) (out prev : ℕ)
    → All (λ y. out ≢ y) (offsets es)
    → All (λ o. o ≢ prev) (offsets es)
    → All (Keeps lim bs' out prev) es
    → All (λ d. EntryAt lim bs' d) es
Keeps-All lim bs' [] out prev a b k = tt
Keeps-All lim bs' (d ∷ es) out prev (x, a) (y, b) (z, k) =
    (z (λ q. x (sym q)) y, Keeps-All lim bs' es out prev a b k)

module _ (lim : Limits) (key : Bytes) (bs bs' : Bytes) (prev : ℕ) (e : Entry) where
  pub IsChain-without :
      (es : List Entry) (first slot : ℕ)
      → search_key key slot es ≡ some (prev, e)
      → Distinct (offsets es)
      → All (λ o. o ≢ slot) (offsets es)
      → All (Keeps lim bs' e.off prev) es
      → All (Patches lim bs' e.ptr prev) es
      → IsChain lim bs first es
      → IsChain lim bs' (ptr_without key first es) (without key es)
  unfolding search_key ptr_without without
  IsChain-without [] first slot h d n k q c = absurd (none-ne-some h)
  IsChain-without (x ∷ es) first slot h (dx, d) (nx, n) (kx, k) (qx, q) (eq, p, at, c) =
      elim (Bool-cases (str_eq x.key key)) [
        | inl hit ↦
            let found : ◌≡◌ {A = Option (ℕ × Entry)} (some (slot, x)) (some (prev, e)) =
              rw hit at h in
            let same : x.off ≡ e.off = cc in
            let here : slot ≡ prev = cc in
            rw hit (
              IsChain-All lim bs bs' es x.ptr
                (Keeps-All lim bs' es e.off prev
                  (subst (λ o. All (λ y. o ≢ y) (offsets es)) same dx)
                  (subst (λ o. All (λ y. y ≢ o) (offsets es)) here n) k)
                c)
        | inr miss ↦
            let next = rw miss at h in
            let after : All (λ o. o ≢ x.off) (offsets es) =
              All-map (offsets es) (λ y ne q. ne (sym q)) dx in
            rw miss (
              eq,
              p,
              elim (ptr_without-eq key es x.ptr x.off after next) [
                | inl (at_x, moved) ↦ rw moved (qx (sym at_x))
                | inr (off_x, kept) ↦
                    rw kept (
                      kx (search_key-off key (λ o. x.off ≢ o) es x.off next dx)
                        (λ q. off_x (sym q)))
              ],
              IsChain-without es x.ptr x.off next d after k q c,
            )
      ]
