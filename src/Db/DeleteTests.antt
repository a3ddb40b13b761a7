-- ===== src/Db/DeleteTests.antt =====
-- The theorems about db_delete and about db_store over a record, at an index file with one chain of
-- two records and at one with two chains.
use unp_and_apue3e.Prelude.{
  ◌+◌, ◌≤◌, ◌≡◌, refl, sym, true, none, some, [], ◌∷◌, ◌++◌, arith, inl, inr, length,
}
use unp_and_apue3e.Text.{Bytes, decimal, digits, pad_left, str_eq}
use unp_and_apue3e.File.{slice}
use unp_and_apue3e.Db.State.{Db, ok, ◌>>◌, newline, ptr_max}
use unp_and_apue3e.Db.Record.{record_text}
use unp_and_apue3e.Db.Ops.{hash, hash_from, delete, fetch, db_store, store, replace, done}
use unp_and_apue3e.Db.Open.{alloc}
use unp_and_apue3e.Db.Entry.{Fits}
use unp_and_apue3e.Db.Chain.{has_key, search_key}
use unp_and_apue3e.Db.Fetch.{HasChain, DataAt, AllFree, Untouched}
use unp_and_apue3e.Db.Free.{HasFree}
use unp_and_apue3e.Db.Append.{new_entry}
use unp_and_apue3e.Db.Without.{without, ptr_without}
use unp_and_apue3e.Db.Spread.{Spread}
use unp_and_apue3e.Db.Unlink.{blanks, blanked}
use unp_and_apue3e.Db.Delete.{delete-some, fetch-delete, delete-others, delete-data}
use unp_and_apue3e.Db.Replace.{DataFits, fetch-same_length}
use unp_and_apue3e.Db.Rewrite.{fetch-other_length}
use unp_and_apue3e.Db.Witnesses.{limits, limits-Sane, handle, handle-HasChain, first, second}
use unp_and_apue3e.Db.InsertTests.{
  handle as two_handle, handle-HasFree as two-HasFree, handle-AllFree as two-AllFree, only, old_key,
  new_key, old-HasChain, new-HasChain, two_chains,
}

abbrev key_b : Bytes
key_b = b'b' ∷ []

handle-HasFree : HasFree limits handle []
unfolding alloc pad_left decimal digits record_text
handle-HasFree = record {
  first = 0;
  head = record { fits = omega arith; text = refl };
  chain = refl;
  inside = tt;
  distinct = tt;
}

handle-Spread : Spread handle (first ∷ second ∷ []) []
unfolding alloc pad_left decimal digits record_text
handle-Spread = record {
  among =
      ((inl refl, (inr (inr (omega arith)), tt)), ((inr (inl (omega arith)), (inl refl, tt)), tt));
  between = tt;
  past_free = tt;
  free_room = omega arith;
}

second-DataAt : DataAt handle.dat.bytes second (b'z' ∷ [])
unfolding alloc
second-DataAt = record { no_nul = (refl, tt); len = refl; text_at = refl }

first-DataAt : DataAt handle.dat.bytes first (b'x' ∷ b'y' ∷ [])
unfolding alloc
first-DataAt = record { no_nul = (refl, (refl, tt)); len = refl; text_at = refl }

at_b : search_key key_b 7 (first ∷ second ∷ []) ≡ some (15, second)
unfolding search_key str_eq
at_b = refl

delete-some_example :
    (t : Db) × (delete limits key_b handle ≡ ok true t)
    × HasChain limits t key_b (without key_b (first ∷ second ∷ []))
    × HasFree limits t (blanked second 0 ∷ [])
    × AllFree t.held
    × (t.counts ≡ record handle.counts { delok = handle.counts.delok + 1 })
unfolding alloc hash hash_from handle-HasFree
delete-some_example =
    delete-some limits limits-Sane handle key_b (first ∷ second ∷ []) (handle-HasChain key_b refl)
      (λ w b. refl) [] handle-HasFree handle-Spread {prev = 15} {e = second} at_b

fetch-delete_example :
    (t v : Db) × (delete limits key_b handle ≡ ok true t)
    × ((delete limits key_b >> fetch limits key_b) handle ≡ ok none v)
    × Untouched t v
unfolding alloc hash hash_from has_key without str_eq
fetch-delete_example =
    fetch-delete limits limits-Sane handle key_b (first ∷ second ∷ []) (handle-HasChain key_b refl)
      (λ w b. refl) [] handle-HasFree handle-Spread {prev = 15} {e = second} at_b refl

delete-data_example :
    (t : Db) × (delete limits key_b handle ≡ ok true t)
    × DataAt t.dat.bytes first (b'x' ∷ b'y' ∷ [])
    × (slice 3 2 t.dat.bytes ≡ blanks 1 ++ newline ∷ [])
unfolding alloc hash hash_from
delete-data_example =
    delete-data limits limits-Sane handle key_b (first ∷ second ∷ []) (handle-HasChain key_b refl)
      (λ w b. refl) [] handle-HasFree handle-Spread {prev = 15} {e = second} at_b (b'z' ∷ [])
      second-DataAt first (b'x' ∷ b'y' ∷ []) first-DataAt (inl (omega arith))

only-Spread : Spread two_handle (only ∷ []) []
unfolding alloc
only-Spread = record {
  among = ((inl refl, tt), tt);
  between = tt;
  past_free = tt;
  free_room = omega arith;
}

delete-others_example :
    (t : Db) × (delete limits old_key two_handle ≡ ok true t) × HasChain limits t new_key []
unfolding alloc hash hash_from search_key str_eq
delete-others_example =
    delete-others limits limits-Sane two_handle old_key (only ∷ []) old-HasChain two-AllFree []
      two-HasFree only-Spread {prev = 14} {e = only} refl new_key [] new-HasChain tt
      (λ q. two_chains (sym q))

one_byte-DataFits : DataFits limits (b'w' ∷ [])
one_byte-DataFits = record { long_enough = omega arith; short_enough = omega arith }

fetch-same_length_example :
    (t v : Db) × (db_store limits key_b (b'w' ∷ []) store handle ≡ ok done t)
    × ((db_store limits key_b (b'w' ∷ []) store >> fetch limits key_b) handle
        ≡ ok (some (b'w' ∷ [])) v)
    × Untouched t v
unfolding alloc hash hash_from
fetch-same_length_example =
    fetch-same_length limits limits-Sane handle key_b (b'w' ∷ []) (first ∷ second ∷ [])
      (handle-HasChain key_b refl) (λ w b. refl) one_byte-DataFits {prev = 15} {e = second} at_b
      refl (refl, tt) store refl

abbrev long : Bytes
long = b'w' ∷ b'w' ∷ []

long-DataFits : DataFits limits long
long-DataFits = record { long_enough = omega arith; short_enough = omega arith }

long-Fits : Fits limits (new_entry handle key_b long 15)
unfolding alloc pad_left decimal digits record_text
long-Fits = record {
  is_key = record { no_nul = (refl, tt); no_sep = (refl, tt) };
  fits_ptr = omega arith;
  long_enough = omega arith;
  short_enough = omega arith;
  has_data = omega arith;
  data_fits = omega arith;
}

handle-small : length handle.idx.bytes ≤ ptr_max
unfolding alloc pad_left decimal digits record_text
handle-small = omega arith

fetch-other_length_example :
    (t w : Db) × (db_store limits key_b long replace handle ≡ ok done t)
    × ((db_store limits key_b long replace >> fetch limits key_b) handle ≡ ok (some long) w)
    × Untouched t w
unfolding alloc hash hash_from handle-HasFree handle-HasChain search_key str_eq ptr_without
fetch-other_length_example =
    fetch-other_length limits limits-Sane handle key_b long (first ∷ second ∷ []) []
      (handle-HasChain key_b refl) handle-HasFree handle-Spread (λ w b. refl) {prev = 15}
      {e = second} at_b (b'z' ∷ []) second-DataAt (λ q. omega (arith, q)) long-DataFits
      (refl, (refl, tt)) handle-small long-Fits replace refl
