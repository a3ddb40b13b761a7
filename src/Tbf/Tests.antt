-- ===== src/Tbf/Tests.antt =====
-- The theorems about the token buckets at concrete buckets.
use unp_and_apue3e.Prelude.{
  ℕ, zero, suc, ◌≡◌, refl, none, some, List, [], ◌∷◌, arith, get_elem?, pos, ◌+ℤ◌, ◌≤ℤ◌, All,
}
use unp_and_apue3e.Tbf.{Bucket, Ptr, Buckets, update, get_free_pos, mytbf_init, mytbf_destroy}
use unp_and_apue3e.Tbf.Bounds.{
  IsBounded, Event, tick, fetch, give_back, Fits, happen_all, opened, granted-le-supply,
}
use unp_and_apue3e.Tbf.Table.{IsTable, mytbf_init-IsTable, mytbf_destroy-IsTable}

-- Ten tokens a second, at most a hundred, four at hand.
abbrev bucket : Bucket
bucket = record { cps = pos 10; burst = pos 100; token = pos 4; slot = 0 }

bucket-IsBounded : IsBounded bucket
unfolding ◌+ℤ◌
bucket-IsBounded = record {
  lo = omega arith;
  hi = omega arith;
  rate = omega arith;
  room = omega arith;
}

abbrev history : List Event
history = fetch (pos 7) ∷ tick ∷ give_back (pos 2) ∷ fetch (pos 100) ∷ []

history-Fits : All (Fits bucket.burst) history
unfolding ◌+ℤ◌
history-Fits = (tt, (tt, (omega arith, (tt, tt))))

granted-le-supply_example :
    ((happen_all (opened bucket) history).granted ≤ℤ (happen_all (opened bucket) history).supply)
    × IsBounded (happen_all (opened bucket) history).bucket
granted-le-supply_example = granted-le-supply bucket history bucket-IsBounded history-Fits

-- An array of two slots without buckets, and the same with one at address 5.
abbrev empty : Buckets
empty = record { bucket = λ p. none; job = none ∷ none ∷ [] }

empty-back :
    (i : ℕ) (p : Ptr)
    → get_elem? empty.job i ≡ some (some p)
    → (b : Bucket) × (empty.bucket p ≡ some b) × (b.slot ≡ i)
empty-back zero p h = ground arith
empty-back (suc zero) p h = ground arith
empty-back (suc (suc i)) p h = ground arith

empty-IsTable : IsTable empty
empty-IsTable = record { back = empty-back; forth = λ p b h. ground arith }

abbrev table : Buckets
table = (mytbf_init (some 5) (pos 10) (pos 100) empty).1

-- The bucket that a call of mytbf_init makes in the first slot.
abbrev made : Bucket
made = record { cps = pos 10; burst = pos 100; token = pos 0; slot = 0 }

made-at : table.bucket 5 ≡ some made
unfolding mytbf_init get_free_pos update
made-at = refl

table-IsTable : IsTable table
table-IsTable = mytbf_init-IsTable 5 (pos 10) (pos 100) empty refl empty-IsTable

mytbf_destroy-IsTable_example :
    (s' : Buckets) × (mytbf_destroy 5 table ≡ some s')
    × IsTable s'
    × (s'.bucket 5 ≡ none)
    × (get_elem? s'.job 0 ≡ some none)
mytbf_destroy-IsTable_example = mytbf_destroy-IsTable table 5 made made-at table-IsTable

-- An array whose one slot is in use.
abbrev full : Buckets
full = record { bucket = λ p. none; job = some 5 ∷ [] }
