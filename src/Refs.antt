-- ===== src/Refs.antt =====
-- The objects with reference counts of more01/apue.3e/threads/mutex3.c, in hash chains. Each function
-- runs under `hashlock`, so its effect is one step. A read through a pointer to no object is `none`.

use unp_and_apue3e.Prelude.{
  ℕ, zero, suc, ◌+◌, ◌-◌, ◌%◌, ◌^◌, ◌≡◌, Bool, true, false, Option, none, some, ◌==◌, if◌then◌else◌,
  ℤ, pos, negsuc, is_zero, ◌+ℤ◌, ◌-ℤ◌, arith, ==_refl,
}

abbrev pub Ptr : Type 0
Ptr = ℕ

-- `struct foo`, less its mutex.
pub record Foo : Type 0 where
  pub f_count : ℤ
  pub f_id : ℤ
  pub f_next : Option Ptr

abbrev pub nhash : ℕ
nhash = 29

-- What pointers point to, and fh[NHASH].
pub record Table : Type 0 where
  pub foo : Ptr → Option Foo
  pub fh : ℕ → Option Ptr

-- HASH(id)
unfoldable pub hash : ℤ → ℕ
hash (pos n) = n % nhash
hash (negsuc n) = (2 ^ 64 - (n + 1)) % nhash

unfoldable pub put_at {ℓ} : {A : Type ℓ} → (ℕ → A) → ℕ → A → ℕ → A
put_at f i a j = if i == j then a else f j

abbrev same_id : ℤ → ℤ → Bool
same_id a b = is_zero (a -ℤ b)

-- foo_alloc; `fresh` is what `malloc` returned, `init` whether the mutex was made.
unfoldable pub foo_alloc : (fresh : Option Ptr) → (init : Bool) → ℤ → Table → Option Ptr × Table
foo_alloc none init id s = (none, s)
foo_alloc (some p) false id s = (none, s)
foo_alloc (some p) true id s = (
  some p,
  record {
    foo = put_at s.foo p (some (record { f_count = pos 1; f_id = id; f_next = s.fh (hash id) }));
    fh = put_at s.fh (hash id) (some p);
  },
)

abbrev counted : Foo → Foo
counted f = record f { f_count = f.f_count +ℤ pos 1 }

unfoldable pub foo_hold : Ptr → Table → Option Table
foo_hold p s = elim (s.foo p) [
  | none ↦ none
  | some f ↦ some (record s { foo = put_at s.foo p (some (counted f)) })
]

-- The loop of foo_find, on fuel.
unfoldable pub foo_loop : ℕ → Option Ptr → ℤ → Table → Option (Option Ptr × Table)
foo_loop k none id s = some (none, s)
foo_loop zero (some p) id s = none
foo_loop (suc k) (some p) id s = elim (s.foo p) [
  | none ↦ none
  | some f ↦
      let rest = foo_loop k f.f_next id s in
      if same_id f.f_id id
      then some (some p, record s { foo = put_at s.foo p (some (counted f)) })
      else rest
]

unfoldable pub foo_find : ℕ → ℤ → Table → Option (Option Ptr × Table)
foo_find k id s = foo_loop k (s.fh (hash id)) id s

-- The pointer `q` holds `p`.
abbrev holds : Option Ptr → Ptr → Bool
holds none p = false
holds (some q) p = q == p

-- The loop of foo_rele, on fuel: the objects without the one at `p`, whose next is `next`.
unfoldable pub unlink : ℕ → Option Ptr → Ptr → Option Ptr → Table → Option Table
unlink zero tfp p next s = none
unlink (suc k) none p next s = none
unlink (suc k) (some t) p next s = elim (s.foo t) [
  | none ↦ none
  | some f ↦
      let rest = unlink k f.f_next p next s in
      if holds f.f_next p
      then some (record s { foo = put_at s.foo t (some (record f { f_next = next })) })
      else rest
]

abbrev free : Ptr → Table → Table
free p s = record s { foo = put_at s.foo p none }

abbrev freed : Ptr → Option Table → Option Table
freed p none = none
freed p (some s) = some (free p s)

-- The last reference.
unfoldable pub remove : ℕ → Ptr → Foo → Table → Option Table
remove k p f s =
    if holds (s.fh (hash f.f_id)) p
    then some (free p (record s { fh = put_at s.fh (hash f.f_id) f.f_next }))
    else freed p (unlink k (s.fh (hash f.f_id)) p f.f_next s)

unfoldable pub foo_rele : ℕ → Ptr → Table → Option Table
foo_rele k p s = elim (s.foo p) [
  | none ↦ none
  | some f ↦
      let less = record f { f_count = f.f_count -ℤ pos 1 } in
      let t = record s { foo = put_at s.foo p (some less) } in
      if is_zero less.f_count then remove k p less t else some t
]

put_at_self {ℓ} : {A : Type ℓ} (f : ℕ → A) (i : ℕ) (a : A) → put_at f i a i ≡ a
unfolding put_at
put_at_self f i a = rw (==_refl i)

same_id_refl : (a : ℤ) → same_id a a ≡ true
unfolding ◌-ℤ◌
same_id_refl a = ground arith

-- An object that foo_alloc made is found by its id, at the address that malloc returned, as the
-- first of its chain, so with fuel for one round; it then has two references, and stands before
-- what was the head of the chain.
pub foo_find-foo_alloc :
    (p : Ptr) (id : ℤ) (s : Table) (k : ℕ)
    → (t : Table) × (foo_find (suc k) id (foo_alloc (some p) true id s).1 ≡ some (some p, t))
      × (t.foo p ≡ some (record { f_count = pos 2; f_id = id; f_next = s.fh (hash id) }))
unfolding foo_find foo_loop foo_alloc ◌+ℤ◌
foo_find-foo_alloc p id s k =
    let made : Foo = record { f_count = pos 1; f_id = id; f_next = s.fh (hash id) } in
    let t : Table = (foo_alloc (some p) true id s).1 in
    (
      record t { foo = put_at t.foo p (some (counted made)) },
      rw (
        put_at_self s.fh (hash id) (some p),
        foo_loop,
        put_at_self s.foo p (some made),
        same_id_refl id,
      ),
      put_at_self t.foo p (some (counted made)),
    )
