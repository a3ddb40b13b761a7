-- ===== src/Tbf/Bounds.antt =====
-- The arithmetic of one token bucket.
use unp_and_apue3e.Prelude.{
  ◌≡◌, refl, true, false, List, [], ◌∷◌, All, arith, ℤ, pos, is_neg, ◌+ℤ◌, ◌-ℤ◌, ◌≤ℤ◌, int_laws,
  Bool-cases, inl, inr, +ℤ_parts,
}
use unp_and_apue3e.Tbf.{
  Bucket, int_max, to_int, cap, add_token, min, Reply, wait, einval, count, try_fetch,
  mytbf_fetchtoken, mytbf_returntoken,
}

-- The tokens stand between 0 and the burst, the rate is no debt, and one more second's tokens on a
-- full bucket are an `int`.
pub record IsBounded (b : Bucket) : Type 0 where
  pub lo : pos 0 ≤ℤ b.token
  pub hi : b.token ≤ℤ b.burst
  pub rate : pos 0 ≤ℤ b.cps
  pub room : b.burst +ℤ b.cps ≤ℤ pos int_max

to_int-fits : (a : ℤ) → pos 0 ≤ℤ a → a ≤ℤ pos int_max → to_int a ≡ a
unfolding to_int
to_int-fits a lo hi = ground arith

-- A sum of tokens that is no more than the burst and a count that leaves room for it.
to_int-sum :
    (k u n : ℤ)
    → pos 0 ≤ℤ k
    → k ≤ℤ u
    → pos 0 ≤ℤ n
    → u +ℤ n ≤ℤ pos int_max
    → to_int (k +ℤ n) ≡ k +ℤ n
to_int-sum k u n lo hi p room = to_int-fits (k +ℤ n) (omega int_laws) (omega int_laws)

-- The sums of a bucket within bounds are those of integers.
add_token-sum :
    (b : Bucket) → IsBounded b → add_token b ≡ record b { token = cap (b.token +ℤ b.cps) b.burst }
unfolding add_token
add_token-sum b v = rw (to_int-sum b.token b.burst b.cps v.lo v.hi v.rate v.room) refl

not_neg : (a : ℤ) → is_neg a ≡ false → pos 0 ≤ℤ a
not_neg a h = ground arith

mytbf_returntoken-sum :
    (b : Bucket) (size : ℤ)
    → IsBounded b
    → b.burst +ℤ size ≤ℤ pos int_max
    → is_neg size ≡ false
    → mytbf_returntoken b size ≡ (count size, record b { token = cap (b.token +ℤ size) b.burst })
unfolding mytbf_returntoken
mytbf_returntoken-sum b size v fits n =
    rw (n, to_int-sum b.token b.burst size v.lo v.hi (not_neg size n) fits) refl

capped_lo : (k n u : ℤ) → pos 0 ≤ℤ k → k ≤ℤ u → pos 0 ≤ℤ n → pos 0 ≤ℤ cap (k +ℤ n) u
unfolding ◌+ℤ◌
capped_lo k n u p q r = ground arith

capped_hi : (t u : ℤ) → cap t u ≤ℤ u
capped_hi t u = ground arith

cap-IsBounded :
    (b : Bucket) (n : ℤ)
    → IsBounded b
    → pos 0 ≤ℤ n
    → IsBounded (record b { token = cap (b.token +ℤ n) b.burst })
cap-IsBounded b n v p = record {
  lo = capped_lo b.token n b.burst v.lo v.hi p;
  hi = capped_hi (b.token +ℤ n) b.burst;
  rate = v.rate;
  room = v.room;
}

pub add_token-IsBounded : (b : Bucket) → IsBounded b → IsBounded (add_token b)
add_token-IsBounded b v = rw (add_token-sum b v) (cap-IsBounded b b.cps v v.rate)

pub mytbf_fetchtoken-IsBounded :
    (b : Bucket) (size : ℤ) → IsBounded b → IsBounded (mytbf_fetchtoken b size).1
unfolding mytbf_fetchtoken try_fetch ◌-ℤ◌
mytbf_fetchtoken-IsBounded b size v = ground arith

refused : (b : Bucket) (size : ℤ) → is_neg size ≡ true → mytbf_returntoken b size ≡ (einval, b)
unfolding mytbf_returntoken
refused b size n = rw n refl

pub mytbf_returntoken-IsBounded :
    (b : Bucket) (size : ℤ)
    → IsBounded b
    → b.burst +ℤ size ≤ℤ pos int_max
    → IsBounded (mytbf_returntoken b size).1
mytbf_returntoken-IsBounded b size v fits = elim (Bool-cases (is_neg size)) [
  | inl n ↦ rw (refused b size n) v
  | inr n ↦ rw (mytbf_returntoken-sum b size v fits n) (cap-IsBounded b size v (not_neg size n))
]

-- What happens to a bucket: a turn of thr_alrm, a call of mytbf_fetchtoken that gets the lock, a
-- call of mytbf_returntoken.
pub data Event : Type 0 where
  tick : Event
  fetch : ℤ → Event
  give_back : ℤ → Event

-- No count that is given back makes more of a full bucket than an `int` can be.
abbrev pub Fits : ℤ → Event → Type 0
Fits burst tick = Unit
Fits burst (fetch size) = Unit
Fits burst (give_back size) = burst +ℤ size ≤ℤ pos int_max

-- A bucket, all that was put into it and all that was handed out.
pub record Tally : Type 0 where
  pub bucket : Bucket
  pub supply : ℤ
  pub granted : ℤ

abbrev pub amount : Reply → ℤ
amount (count n) = n
amount wait = pos 0
amount einval = pos 0

unfoldable pub happen : Tally → Event → Tally
happen t tick = record t { bucket = add_token t.bucket; supply = t.supply +ℤ t.bucket.cps }
happen t (fetch size) =
    let (r, b) = mytbf_fetchtoken t.bucket size in
    record t { bucket = b; granted = t.granted +ℤ amount r }
happen t (give_back size) =
    let (r, b) = mytbf_returntoken t.bucket size in
    record t { bucket = b; supply = t.supply +ℤ amount r }

unfoldable pub happen_all : Tally → List Event → Tally
happen_all t [] = t
happen_all t (e ∷ es) = happen_all (happen t e) es

-- No token is handed out that was not put in.
record IsFair (t : Tally) : Type 0 where
  bounded : IsBounded t.bucket
  fair : t.granted +ℤ t.bucket.token ≤ℤ t.supply

cap-le : (t b : ℤ) → cap t b ≤ℤ t
cap-le t b = ground arith

tick_fair : (g k k' c s : ℤ) → g +ℤ k ≤ℤ s → k' ≤ℤ k +ℤ c → g +ℤ k' ≤ℤ s +ℤ c
tick_fair g k k' c s h le = omega int_laws

fetch_fair : (g k n s : ℤ) → g +ℤ k ≤ℤ s → g +ℤ n +ℤ (k -ℤ n) ≤ℤ s
fetch_fair g k n s h = omega int_laws

still_fair : (g k s : ℤ) → g +ℤ k ≤ℤ s → g +ℤ pos 0 +ℤ k ≤ℤ s
still_fair g k s h = omega int_laws

fetch_step :
    (g s : ℤ) (b : Bucket) (size : ℤ)
    → g +ℤ b.token ≤ℤ s
    → let r = mytbf_fetchtoken b size in g +ℤ amount r.0 +ℤ r.1.token ≤ℤ s
unfolding mytbf_fetchtoken try_fetch
fetch_step g s b size h =
    ground (arith, fetch_fair g b.token (min b.token size) s h, still_fair g b.token s h)

return_step :
    (g s : ℤ) (b : Bucket) (size : ℤ)
    → IsBounded b
    → b.burst +ℤ size ≤ℤ pos int_max
    → g +ℤ b.token ≤ℤ s
    → let r = mytbf_returntoken b size in g +ℤ r.1.token ≤ℤ s +ℤ amount r.0
return_step g s b size v fits h = elim (Bool-cases (is_neg size)) [
  | inl n ↦ rw (refused b size n) (omega int_laws)
  | inr n ↦ rw (mytbf_returntoken-sum b size v fits n) (
      tick_fair g b.token (cap (b.token +ℤ size) b.burst) size s h
        (cap-le (b.token +ℤ size) b.burst))
]

happen-IsFair : (t : Tally) (e : Event) → IsFair t → Fits t.bucket.burst e → IsFair (happen t e)
unfolding happen
happen-IsFair t tick v f = record {
  bounded = add_token-IsBounded t.bucket v.bounded;
  fair = rw (add_token-sum t.bucket v.bounded) (
      tick_fair t.granted t.bucket.token (cap (t.bucket.token +ℤ t.bucket.cps) t.bucket.burst)
        t.bucket.cps t.supply v.fair (cap-le (t.bucket.token +ℤ t.bucket.cps) t.bucket.burst));
}
happen-IsFair t (fetch size) v f = record {
  bounded = mytbf_fetchtoken-IsBounded t.bucket size v.bounded;
  fair = fetch_step t.granted t.supply t.bucket size v.fair;
}
happen-IsFair t (give_back size) v f = record {
  bounded = mytbf_returntoken-IsBounded t.bucket size v.bounded f;
  fair = return_step t.granted t.supply t.bucket size v.bounded f v.fair;
}

same_burst : (t : Tally) (e : Event) → (happen t e).bucket.burst ≡ t.bucket.burst
unfolding happen add_token mytbf_fetchtoken try_fetch mytbf_returntoken
same_burst t tick = refl
same_burst t (fetch size) = ground arith
same_burst t (give_back size) = ground arith

happen_all-IsFair :
    (t : Tally) (es : List Event)
    → IsFair t
    → All (Fits t.bucket.burst) es
    → IsFair (happen_all t es)
unfolding happen_all
happen_all-IsFair t [] v f = v
happen_all-IsFair t (e ∷ es) v (f, fs) =
    happen_all-IsFair (happen t e) es (happen-IsFair t e v f) (rw (same_burst t e) fs)

-- A bucket with an account of its own.
abbrev pub opened : Bucket → Tally
opened b = record { bucket = b; supply = b.token; granted = pos 0 }

-- Let the tokens of a bucket stand between 0 and its burst, cps not be negative, and burst + cps be
-- at most INT_MAX (IsBounded), and let burst and each count that is given back be together at most
-- INT_MAX (Fits). Over any history of turns of thr_alrm, fetches and returns, the tokens handed out
-- are then at most those that it held at first, one cps for each turn and those that were given
-- back; and the bucket stays within its bounds, so that no sum of ints overflows.
pub granted-le-supply :
    (b : Bucket) (es : List Event)
    → IsBounded b
    → All (Fits b.burst) es
    → ((happen_all (opened b) es).granted ≤ℤ (happen_all (opened b) es).supply)
      × IsBounded (happen_all (opened b) es).bucket
granted-le-supply b es v f =
    let w : IsFair (happen_all (opened b) es) =
      happen_all-IsFair (opened b) es (record { bounded = v; fair = omega int_laws }) f in
    (below _ _ _ w.bounded.lo w.fair, w.bounded)
  where
    below : (g k s : ℤ) → pos 0 ≤ℤ k → g +ℤ k ≤ℤ s → g ≤ℤ s
    below g k s p q = omega int_laws

-- A call of mytbf_fetchtoken that returns a count returns one between 0 and the size asked for, and
-- the bucket loses exactly as many tokens.
pub mytbf_fetchtoken-count :
    (b : Bucket) (size n : ℤ)
    → (mytbf_fetchtoken b size).0 ≡ count n
    → (pos 0 ≤ℤ n) × (n ≤ℤ size) × ((mytbf_fetchtoken b size).1.token +ℤ n ≡ b.token)
unfolding mytbf_fetchtoken try_fetch
mytbf_fetchtoken-count b size n h =
    ground (arith, back b.token n, back b.token size, back b.token b.token)
  where
    back : (a c : ℤ) → a -ℤ c +ℤ c ≡ a
    back a c = omega int_laws

at_hand :
    (b : Bucket) (size : ℤ)
    → pos 1 ≤ℤ b.token
    → pos 1 ≤ℤ size
    → ((mytbf_fetchtoken b size).0 ≡ count (min b.token size)) × (pos 1 ≤ℤ min b.token size)
unfolding mytbf_fetchtoken try_fetch
at_hand b size t p = ground arith

filled : (t c u : ℤ) → pos 0 ≤ℤ t → pos 1 ≤ℤ c → pos 1 ≤ℤ u → pos 1 ≤ℤ cap (t +ℤ c) u
filled t c u p q r = ground (arith, +ℤ_parts t c)

-- After one turn of thr_alrm nobody waits at a bucket within bounds whose cps and burst are at
-- least one: a fetch of at least one token gets at least one.
fetch-add_token :
    (b : Bucket) (size : ℤ)
    → IsBounded b
    → pos 1 ≤ℤ b.cps
    → pos 1 ≤ℤ b.burst
    → pos 1 ≤ℤ size
    → (n : ℤ) × ((mytbf_fetchtoken (add_token b) size).0 ≡ count n) × (pos 1 ≤ℤ n)
fetch-add_token b size v c u p =
    let (got, some_got) = at_hand (add_token b) size full p in
    (min (add_token b).token size, got, some_got)
  where
    full : pos 1 ≤ℤ (add_token b).token
    full = rw (add_token-sum b v) (filled b.token b.cps b.burst v.lo c u)

-- As many tokens as an `int` can be, given back to a bucket that has some, leave it with a debt: the
-- next fetch waits.
returned_too_many :
    (b : Bucket) (size : ℤ)
    → pos 1 ≤ℤ b.token
    → b.token ≤ℤ pos int_max
    → pos 0 ≤ℤ b.burst
    → pos 1 ≤ℤ size
    → (mytbf_fetchtoken (mytbf_returntoken b (pos int_max)).1 size).0 ≡ wait
unfolding mytbf_returntoken mytbf_fetchtoken try_fetch to_int ◌+ℤ◌ ◌-ℤ◌
returned_too_many b size p q u r = ground arith
