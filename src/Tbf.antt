-- ===== src/Tbf.antt =====
-- The token buckets of more01/apue.3e/threads/mytbf.c. A bucket is an object behind a pointer, and
-- the array `job` holds the pointers that are in use. Each function runs under its mutexes, so its
-- effect is one step. An `int` has 32 bits, and a sum wraps, which C leaves undefined.
pub mod Bounds
pub mod Table
mod Tests
use unp_and_apue3e.Prelude.{
  ℕ, zero, suc, ◌+◌, ◌-◌, Bool, true, false, Option, none, some, List, [], ◌∷◌, ◌==◌, ltb, leb,
  if◌then◌else◌, set, ℤ, pos, negsuc, is_neg, ◌+ℤ◌, ◌-ℤ◌, lt_ℤ,
}

-- `struct mytbf_st`, less its mutex.
pub record Bucket : Type 0 where
  pub cps : ℤ
  pub burst : ℤ
  pub token : ℤ
  pub slot : ℕ

abbrev pub Ptr : Type 0
Ptr = ℕ

-- What pointers point to, and job[MYTBF_MAX], with `none` for NULL.
pub record Buckets : Type 0 where
  pub bucket : Ptr → Option Bucket
  pub job : List (Option Ptr)

unfoldable pub update : (Ptr → Option Bucket) → Ptr → Option Bucket → Ptr → Option Bucket
update h p b q = if p == q then b else h q

abbrev pub int_max : ℕ
int_max = 2147483647

-- The `int` that a sum of two of them gives.
unfoldable pub to_int : ℤ → ℤ
to_int a =
    if lt_ℤ (pos int_max) a
    then a -ℤ pos 4294967296
    else (if lt_ℤ a (negsuc int_max) then a +ℤ pos 4294967296 else a)

-- `if (token > burst) token = burst`
abbrev pub cap : ℤ → ℤ → ℤ
cap token burst = if lt_ℤ burst token then burst else token

-- The body of thr_alrm's loop at one bucket.
unfoldable pub add_token : Bucket → Bucket
add_token b = record b { token = cap (to_int (b.token +ℤ b.cps)) b.burst }

-- A pointer in the array to no object is a fault; Tbf.Table shows that there is none.
abbrev pub refill : (Ptr → Option Bucket) → Ptr → Ptr → Option Bucket
refill h p = elim (h p) [ none ↦ h | some b ↦ update h p (some (add_token b)) ]

unfoldable pub refill_all : List (Option Ptr) → (Ptr → Option Bucket) → Ptr → Option Bucket
refill_all [] h = h
refill_all (none ∷ job) h = refill_all job h
refill_all (some p ∷ job) h = refill_all job (refill h p)

-- One turn of thr_alrm, a second after the one before.
unfoldable pub alarm : Buckets → Buckets
alarm s = record s { bucket = refill_all s.job s.bucket }

-- get_free_pos_unlocked; `none` is -1.
unfoldable pub get_free_pos : List (Option Ptr) → ℕ → Option ℕ
get_free_pos [] i = none
get_free_pos (none ∷ job) i = some i
get_free_pos (some p ∷ job) i = get_free_pos job (i + 1)

abbrev new_bucket : ℤ → ℤ → ℕ → Bucket
new_bucket cps burst i = record { cps = cps; burst = burst; token = pos 0; slot = i }

abbrev place : Ptr → ℤ → ℤ → Buckets → Option ℕ → Option Ptr × Buckets
place p cps burst s none = (none, s)
place p cps burst s (some i) = (
  some p,
  record { bucket = update s.bucket p (some (new_bucket cps burst i)); job = set s.job i (some p) },
)

-- mytbf_init; `fresh` is what `malloc` returned.
unfoldable pub mytbf_init : (fresh : Option Ptr) → ℤ → ℤ → Buckets → Option Ptr × Buckets
mytbf_init none cps burst s = (none, s)
mytbf_init (some p) cps burst s = place p cps burst s (get_free_pos s.job 0)

abbrev pub min : ℤ → ℤ → ℤ
min a b = if lt_ℤ a b then a else b

-- What a call on a bucket comes to: it has to wait, it is refused (-EINVAL), or a count.
pub data Reply : Type 0 where
  wait : Reply
  einval : Reply
  count : ℤ → Reply

-- One round of mytbf_fetchtoken between two locks of the bucket. What is left of the tokens lies
-- between 0 and what was there, and so is an `int`.
unfoldable pub try_fetch : Bucket → ℤ → Reply × Bucket
try_fetch b size =
    if lt_ℤ (pos 0) b.token
    then (let n = min b.token size in (count n, record b { token = b.token -ℤ n }))
    else (wait, b)

unfoldable pub mytbf_fetchtoken : Bucket → ℤ → Reply × Bucket
mytbf_fetchtoken b size = if is_neg size then (einval, b) else try_fetch b size

unfoldable pub mytbf_returntoken : Bucket → ℤ → Reply × Bucket
mytbf_returntoken b size =
    if is_neg size
    then (einval, b)
    else (count size, record b { token = cap (to_int (b.token +ℤ size)) b.burst })

-- mytbf_destroy; `none` is a pointer to no object.
unfoldable pub mytbf_destroy : Ptr → Buckets → Option Buckets
mytbf_destroy p s = elim (s.bucket p) [
  | none ↦ none
  | some b ↦ some (record { bucket = update s.bucket p none; job = set s.job b.slot none })
]
