-- ===== src/Db/Witnesses.antt =====
-- The theorems about the database functions, at an index file with one chain of two records.
use unp_and_apue3e.Prelude.{
  ◌+◌, ◌≡◌, ◌≢◌, refl, true, none, some, [], ◌∷◌, ◌++◌, arith, pos, length,
}
use unp_and_apue3e.Text.{Bytes, decimal, digits, pad_left, str_eq}
use unp_and_apue3e.File.{slice, seek_end}
use unp_and_apue3e.Db.State.{Limits, Db, ok, ◌>>◌, write_lock, ptr_sz, newline}
use unp_and_apue3e.Db.Record.{record_text, readidx, writeidx}
use unp_and_apue3e.Db.Entry.{Entry, Fits, EntryAt, render, loaded}
use unp_and_apue3e.Db.Readidx.{Sane, entry_of, appended, readidx-writeidx}
use unp_and_apue3e.Db.Chain.{has_key, search_key, walked}
use unp_and_apue3e.Db.Ops.{hash, hash_from, find_and_lock, fetch}
use unp_and_apue3e.Db.Open.{alloc}
use unp_and_apue3e.Db.Fetch.{
  HasChain, Untouched, entered, find_and_lock-HasChain, fetch-none, fetch-some,
}

abbrev pub limits : Limits
limits = record { idxlen_min = 6; idxlen_max = 1024; datlen_min = 2; datlen_max = 1024 }

pub limits-Sane : Sane limits
limits-Sane = record { nonempty = omega arith; four_digits = omega arith }

abbrev pub second : Entry
second = record { off = 32; ptr = 0; key = b'b' ∷ []; datoff = 3; datlen = 2 }

abbrev pub first : Entry
first = record { off = 15; ptr = 32; key = b'a' ∷ []; datoff = 0; datlen = 3 }

-- A free list without records, a hash table of one chain, and the two records.
abbrev pub index : Bytes
index = pad_left ptr_sz 0 ++ (pad_left ptr_sz 15 ++ (newline ∷ (render first ++ render second)))

abbrev pub data_file : Bytes
data_file = b'x' ∷ b'y' ∷ newline ∷ b'z' ∷ newline ∷ []

abbrev pub handle : Db
handle =
    record (alloc (record { bytes = index; offset = 0 })
      (record { bytes = data_file; offset = 0 })) { nhash = 1 }

second-Fits : Fits limits second
unfolding record_text decimal digits
second-Fits = record {
  is_key = record { no_nul = (refl, tt); no_sep = (refl, tt) };
  fits_ptr = omega arith;
  long_enough = omega arith;
  short_enough = omega arith;
  has_data = omega arith;
  data_fits = omega arith;
}

first-Fits : Fits limits first
unfolding record_text decimal digits
first-Fits = record {
  is_key = record { no_nul = (refl, tt); no_sep = (refl, tt) };
  fits_ptr = omega arith;
  long_enough = omega arith;
  short_enough = omega arith;
  has_data = omega arith;
  data_fits = omega arith;
}

pub first-EntryAt : EntryAt limits index first
unfolding record_text decimal digits pad_left
first-EntryAt = record { fits = first-Fits; text = refl }

pub second-EntryAt : EntryAt limits index second
unfolding record_text decimal digits pad_left
second-EntryAt = record { fits = second-Fits; text = refl }

pub head_text : slice 7 ptr_sz index ≡ pad_left ptr_sz 15
unfolding pad_left decimal digits record_text
head_text = refl

pub apart : first.off ≢ second.off
apart e = omega arith

pub length-index : length index ≡ 49
unfolding pad_left decimal digits record_text
length-index = refl

unfoldable pub handle-HasChain :
    (key : Bytes) → hash 1 key ≡ 0 → HasChain limits handle key (first ∷ second ∷ [])
unfolding alloc
handle-HasChain key h = record {
  first = 15;
  head = rw h (record { fits = omega arith; text = head_text });
  chain = (refl, omega arith, first-EntryAt, (refl, omega arith, second-EntryAt, refl));
  inside = (omega (arith, length-index), (omega (arith, length-index), tt));
  distinct = ((apart, tt), (tt, tt));
  some_table = omega arith;
  table_inside = omega (arith, length-index);
  past = (omega arith, (omega arith, tt));
}

fetch-some_example :
    (t : Db) × (fetch limits (b'b' ∷ []) handle ≡ ok (some (b'z' ∷ [])) t)
    × Untouched handle t
    × (t.counts ≡ record handle.counts { fetchok = handle.counts.fetchok + 1 })
unfolding alloc hash hash_from search_key str_eq
fetch-some_example =
    fetch-some limits limits-Sane handle (b'b' ∷ []) (first ∷ second ∷ [])
      (handle-HasChain (b'b' ∷ []) refl) (λ w b. refl) {prev = 15} {e = second} (b'z' ∷ []) refl
      (record { no_nul = (refl, tt); len = refl; text_at = refl })

fetch-none_example :
    (t : Db) × (fetch limits (b'c' ∷ []) handle ≡ ok none t)
    × Untouched handle t
    × (t.counts ≡ record handle.counts { fetcherr = handle.counts.fetcherr + 1 })
unfolding alloc hash hash_from has_key str_eq
fetch-none_example =
    fetch-none limits limits-Sane handle (b'c' ∷ []) (first ∷ second ∷ [])
      (handle-HasChain (b'c' ∷ []) refl) (λ w b. refl) refl

find_and_lock_example :
    find_and_lock limits (b'b' ∷ []) write_lock handle
    ≡ ok true (walked (entered handle (b'b' ∷ []) write_lock) (b'b' ∷ []) (first ∷ second ∷ []))
unfolding hash hash_from has_key str_eq
find_and_lock_example =
    find_and_lock-HasChain limits limits-Sane handle (b'b' ∷ []) (first ∷ second ∷ [])
      (handle-HasChain (b'b' ∷ []) refl) write_lock

-- A handle that is about to append a record for two bytes of data at offset 5.
abbrev appending : Db
appending = record handle { datoff = 5; datlen = 3 }

appending-Fits : Fits limits (entry_of appending (b'c' ∷ []) (length appending.idx.bytes) 15)
unfolding record_text decimal digits alloc
appending-Fits = record {
  is_key = record { no_nul = (refl, tt); no_sep = (refl, tt) };
  fits_ptr = omega arith;
  long_enough = omega arith;
  short_enough = omega arith;
  has_data = omega arith;
  data_fits = omega arith;
}

abbrev appended_entry : Entry
appended_entry = entry_of appending (b'c' ∷ []) (length appending.idx.bytes) 15

readidx-writeidx_example :
    (writeidx limits (b'c' ∷ []) (pos 0) seek_end (pos 15)
        >> readidx limits (pos (length appending.idx.bytes)))
      appending
    ≡ ok (pos 15) (loaded (appended appending appended_entry) appended_entry)
unfolding alloc
readidx-writeidx_example =
    readidx-writeidx limits limits-Sane appending (b'c' ∷ []) 15 appending-Fits
      (omega (arith, length-index))
