-- ===== src/Db/InsertTests.antt =====
-- The theorems about db_store at an index file with a hash table of two chains, one of them empty.
use unp_and_apue3e.Prelude.{◌+◌, ◌≡◌, ◌≢◌, refl, some, [], ◌∷◌, ◌++◌, arith, length}
use unp_and_apue3e.Text.{Bytes, decimal, digits, pad_left}
use unp_and_apue3e.Db.State.{Db, ok, ◌>>◌, ptr_sz, newline}
use unp_and_apue3e.Db.Record.{record_text}
use unp_and_apue3e.Db.Ops.{hash, hash_from, db_store, store, insert, done, fetch}
use unp_and_apue3e.Db.Entry.{Entry, EntryAt, render}
use unp_and_apue3e.Db.Open.{alloc}
use unp_and_apue3e.Db.Fetch.{HasChain, DataAt, AllFree, Untouched, chain_of}
use unp_and_apue3e.Db.Append.{new_entry}
use unp_and_apue3e.Db.Free.{HasFree, has_size}
use unp_and_apue3e.Db.Chain.{has_key}
use unp_and_apue3e.Db.Store.{CanAppend}
use unp_and_apue3e.Db.Insert.{db_store-append, fetch-db_store, db_store-others}
use unp_and_apue3e.Db.Witnesses.{limits, limits-Sane}

abbrev pub old_key : Bytes
old_key = b'a' ∷ []

abbrev pub new_key : Bytes
new_key = b'b' ∷ []

abbrev text : Bytes
text = b'z' ∷ b'z' ∷ []

abbrev pub only : Entry
only = record { off = 22; ptr = 0; key = b'a' ∷ []; datoff = 0; datlen = 3 }

abbrev index : Bytes
index = pad_left ptr_sz 0 ++ (pad_left ptr_sz 0 ++ (pad_left ptr_sz 22 ++ (newline ∷ render only)))

abbrev pub handle : Db
handle =
    record (alloc (record { bytes = index; offset = 0 })
      (record { bytes = b'x' ∷ b'y' ∷ newline ∷ []; offset = 0 })) { nhash = 2 }

length-handle : length handle.idx.bytes ≡ 39
unfolding alloc pad_left decimal digits record_text
length-handle = refl

only-EntryAt : EntryAt limits index only
unfolding record_text decimal digits pad_left
only-EntryAt = record {
  fits = record {
    is_key = record { no_nul = (refl, tt); no_sep = (refl, tt) };
    fits_ptr = omega arith;
    long_enough = omega arith;
    short_enough = omega arith;
    has_data = omega arith;
    data_fits = omega arith;
  };
  text = refl;
}

unfoldable pub new-HasChain : HasChain limits handle new_key []
unfolding alloc hash hash_from pad_left decimal digits record_text
new-HasChain = record {
  first = 0;
  head = record { fits = omega arith; text = refl };
  chain = refl;
  inside = tt;
  distinct = tt;
  some_table = omega arith;
  table_inside = omega arith;
  past = tt;
}

pub old-HasChain : HasChain limits handle old_key (only ∷ [])
unfolding alloc hash hash_from pad_left decimal digits record_text
old-HasChain = record {
  first = 22;
  head = record { fits = omega arith; text = refl };
  chain = (refl, omega arith, only-EntryAt, refl);
  inside = (omega arith, tt);
  distinct = (tt, tt);
  some_table = omega arith;
  table_inside = omega arith;
  past = (omega arith, tt);
}

pub handle-HasFree : HasFree limits handle []
unfolding alloc pad_left decimal digits record_text
handle-HasFree = record {
  first = 0;
  head = record { fits = omega arith; text = refl };
  chain = refl;
  inside = tt;
  distinct = tt;
}

new-CanAppend : CanAppend limits handle new_key text 0
unfolding alloc pad_left decimal digits record_text
new-CanAppend = record {
  fits = record {
    is_key = record { no_nul = (refl, tt); no_sep = (refl, tt) };
    fits_ptr = omega arith;
    long_enough = omega arith;
    short_enough = omega arith;
    has_data = omega arith;
    data_fits = omega arith;
  };
  no_nul = (refl, (refl, tt));
  small = omega arith;
  long_enough = omega arith;
}

pub handle-AllFree : AllFree handle.held
unfolding alloc
handle-AllFree w c = refl

db_store-append_example :
    (t : Db) × (db_store limits new_key text insert handle ≡ ok done t)
    × HasChain limits t new_key (new_entry handle new_key text 0 ∷ [])
    × DataAt t.dat.bytes (new_entry handle new_key text 0) text
    × AllFree t.held
    × (t.counts ≡ record handle.counts { stor1 = handle.counts.stor1 + 1 })
unfolding new-HasChain has_size has_key
db_store-append_example =
    db_store-append limits limits-Sane new_key text [] [] handle new-HasChain new-CanAppend
      handle-AllFree handle-HasFree refl refl insert refl

fetch-db_store_example :
    (t u : Db) × (db_store limits new_key text store handle ≡ ok done t)
    × ((db_store limits new_key text store >> fetch limits new_key) handle ≡ ok (some text) u)
    × Untouched t u
unfolding new-HasChain has_size has_key
fetch-db_store_example =
    fetch-db_store limits limits-Sane new_key text [] [] handle new-HasChain new-CanAppend
      handle-AllFree handle-HasFree refl refl store refl

pub two_chains : chain_of handle old_key ≢ chain_of handle new_key
unfolding alloc hash hash_from
two_chains e = omega arith

db_store-others_example :
    (t : Db) × (db_store limits new_key text insert handle ≡ ok done t)
    × HasChain limits t old_key (only ∷ [])
unfolding new-HasChain has_size has_key
db_store-others_example =
    db_store-others limits limits-Sane new_key text [] [] handle new-HasChain new-CanAppend
      handle-AllFree handle-HasFree refl refl insert refl old_key (only ∷ []) old-HasChain
      two_chains

old-DataAt : DataAt handle.dat.bytes only (b'x' ∷ b'y' ∷ [])
unfolding alloc
old-DataAt = record { no_nul = (refl, (refl, tt)); len = refl; text_at = refl }
