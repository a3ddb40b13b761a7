-- ===== src/Db/Insert.antt =====
-- db_store of more01/apue.3e/db/db.c with a key that the database does not have, appended to its
-- files, and db_fetch behind it.
use unp_and_apue3e.Prelude.{
  ℕ, ◌+◌, ◌≡◌, ◌≢◌, refl, ap, Bool, true, false, ◌&&◌, some, none, List, [], ◌∷◌, ◌++◌, arith, leb,
  length,
}
use unp_and_apue3e.Text.{Bytes}
use unp_and_apue3e.Text.Chars.{str_eq_refl}
use unp_and_apue3e.Db.State.{
  newline, Limits, Db, Held, idx, ok, ◌>>◌, LockKind, write_lock, unlock, set_region, Counts,
}
use unp_and_apue3e.Db.Ops.{
  store_found, db_store, Flag, insert, replace, store, other_flag, done, fetch,
}
use unp_and_apue3e.Db.Entry.{Entry}
use unp_and_apue3e.Db.Readidx.{Sane}
use unp_and_apue3e.Db.Chain.{has_key, search_key, walked, walked-SameFiles}
use unp_and_apue3e.Db.Fetch.{
  HasChain, DataAt, AllFree, chain_of, entered, find_and_lock-HasChain, fetch-some, Untouched,
}
use unp_and_apue3e.Db.Append.{new_entry, DataAt-end}
use unp_and_apue3e.Db.Free.{HasFree, has_size, FreeBut}
use unp_and_apue3e.Db.Store.{
  CanAppend, Ready, Ready-walked, looked-Ready, linked-HasChain, linked-DataAt, linked-others,
  grown, store_new-append, grown-FreeBut,
}

-- Whether db_store may add a record with this flag.
abbrev pub adds : Flag → Bool
adds insert = true
adds store = true
adds _ = false

pub FreeBut-lock :
    (h : Held) (c : ℕ) (k : LockKind) → AllFree h → FreeBut c (set_region h idx c 1 (some k))
FreeBut-lock h c k f w b e = ground (arith, f w b)

pub AllFree-unlock : (h : Held) (c : ℕ) → FreeBut c h → AllFree (set_region h idx c 1 none)
AllFree-unlock h c f w b = ground (arith, f w b)

false-ne-true : false ≡ true → ⊥
false-ne-true q = cc

module _ (lim : Limits) (sane : Sane lim) (key text : Bytes) (es fs : List Entry) (s : Db)
    (h : HasChain lim s key es) (can : CanAppend lim s key text h.first) (free : AllFree s.held)
    (f : HasFree lim s fs) (no_fit : has_size (length key) (length text + 1) fs ≡ false)
    (miss : has_key key es ≡ false) where
  -- Behind the search of the chain, the append, and the release of the chain.
  abbrev found : Db
  found = walked (entered s key write_lock) key es

  found-Ready : Ready s found (chain_of s key)
  found-Ready = Ready-walked s key es write_lock

  abbrev result : Db
  result =
      let t = grown lim sane key text es fs s h can found in
      record t { held = set_region t.held idx t.chainoff 1 none }

  in_limits : (leb lim.datlen_min (length text + 1) && leb (length text + 1) lim.datlen_max) ≡ true
  in_limits = let a = can.long_enough in let b = can.fits.data_fits in ground arith

  result_eq : (flag : Flag) → adds flag ≡ true → db_store lim key text flag s ≡ ok done result
  unfolding db_store store_found unlock
  result_eq insert a = rw (
    in_limits,
    find_and_lock-HasChain lim sane s key es h write_lock,
    miss,
    store_new-append lim sane key text es fs s h can found found-Ready f no_fit,
  )
  result_eq store a = rw (
    in_limits,
    find_and_lock-HasChain lim sane s key es h write_lock,
    miss,
    store_new-append lim sane key text es fs s h can found found-Ready f no_fit,
  )
  result_eq replace a = absurd (false-ne-true a)
  result_eq other_flag a = absurd (false-ne-true a)

  result_at : result.chainoff ≡ chain_of s key
  result_at = (looked-Ready lim sane key text es fs s h can found found-Ready).at_chain

  result-AllFree : AllFree result.held
  result-AllFree =
      AllFree-unlock (grown lim sane key text es fs s h can found).held result.chainoff (
        grown-FreeBut lim sane key text es fs s h can found result.chainoff (
          rw (result_at, (walked-SameFiles (entered s key write_lock) key es).same_held)
            (FreeBut-lock s.held (chain_of s key) write_lock free)))

  result_counts : result.counts ≡ record s.counts { stor1 = s.counts.stor1 + 1 }
  result_counts =
      let bump : Counts → Counts = λ c. record c { stor1 = c.stor1 + 1 } in
      ap bump (looked-Ready lim sane key text es fs s h can found found-Ready).same_counts

  result-HasChain : HasChain lim result key (new_entry s key text h.first ∷ es)
  result-HasChain =
      let q = looked-Ready lim sane key text es fs s h can found found-Ready in
      linked-HasChain lim sane key text es fs s h can _ q result refl refl refl

  result-DataAt : DataAt result.dat.bytes (new_entry s key text h.first) text
  result-DataAt =
      linked-DataAt lim sane key text es fs s h can _
        (looked-Ready lim sane key text es fs s h can found found-Ready)

  -- Where the chain of a key is well formed (HasChain) and has no record with the key, the free
  -- list is well formed (HasFree) and no record of it has a key and data as long as the new ones,
  -- no byte is locked, and the new record keeps within the limits and the format (CanAppend),
  -- db_store with DB_INSERT or DB_STORE returns 0: the chain of the key is well formed with the new
  -- record in front, its data stands in the data file, no byte is locked, and of the counters only
  -- stor1 moves, by one.
  pub db_store-append :
      (flag : Flag)
      → adds flag ≡ true
      → (t : Db) × (db_store lim key text flag s ≡ ok done t)
        × HasChain lim t key (new_entry s key text h.first ∷ es)
        × DataAt t.dat.bytes (new_entry s key text h.first) text
        × AllFree t.held
        × (t.counts ≡ record s.counts { stor1 = s.counts.stor1 + 1 })
  db_store-append flag a =
      (result, result_eq flag a, result-HasChain, result-DataAt, result-AllFree, result_counts)

  first_hit :
      search_key key (chain_of result key) (new_entry s key text h.first ∷ es)
      ≡ some (chain_of result key, new_entry s key text h.first)
  unfolding search_key
  first_hit = rw (str_eq_refl key)

  -- Where the chain of a key is well formed (HasChain) and has no record with the key, the free
  -- list is well formed (HasFree) and no record of it has a key and data as long as the new ones,
  -- no byte is locked, and the new record keeps within the limits and the format (CanAppend),
  -- db_store with DB_INSERT or DB_STORE returns 0, and fetch of the key behind it returns the text
  -- that was stored, changes no file and leaves no byte locked.
  pub fetch-db_store :
      (flag : Flag)
      → adds flag ≡ true
      → (t u : Db) × (db_store lim key text flag s ≡ ok done t)
        × ((db_store lim key text flag >> fetch lim key) s ≡ ok (some text) u)
        × Untouched t u
  fetch-db_store flag a =
      let (u, eq, same, c) =
        fetch-some lim sane result key (new_entry s key text h.first ∷ es) result-HasChain
          result-AllFree text first_hit result-DataAt in
      (result, u, result_eq flag a, rw (result_eq flag a) eq, same)

  -- Where the chain of a key is well formed (HasChain) and has no record with the key, the free
  -- list is well formed (HasFree) and no record of it has a key and data as long as the new ones,
  -- no byte is locked, and the new record keeps within the limits and the format (CanAppend),
  -- db_store with DB_INSERT or DB_STORE returns 0 and leaves each well-formed chain at another
  -- place of the hash table well formed, with the same records.
  pub db_store-others :
      (flag : Flag)
      → adds flag ≡ true
      → (other : Bytes) (os : List Entry) → HasChain lim s other os
      → chain_of s other ≢ chain_of s key
      → (t : Db) × (db_store lim key text flag s ≡ ok done t) × HasChain lim t other os
  db_store-others flag a other os ho ne = (
    result,
    result_eq flag a,
    linked-others lim sane key text es fs s h can _
        (looked-Ready lim sane key text es fs s h can found found-Ready) result refl refl refl other
        os ho ne,
  )

  -- Where the chain of a key is well formed (HasChain) and has no record with the key, the free
  -- list is well formed (HasFree) and no record of it has a key and data as long as the new ones,
  -- no byte is locked, and the new record keeps within the limits and the format (CanAppend),
  -- db_store with DB_INSERT or DB_STORE returns 0 and leaves the data of each record that has data
  -- in the data file (DataAt) there.
  pub db_store-old_data :
      (flag : Flag)
      → adds flag ≡ true
      → (e : Entry) (old : Bytes) → DataAt s.dat.bytes e old
      → (t : Db) × (db_store lim key text flag s ≡ ok done t) × DataAt t.dat.bytes e old
  db_store-old_data flag a e old d = (
    result,
    result_eq flag a,
    rw (looked-Ready lim sane key text es fs s h can found found-Ready).same_dat
        (DataAt-end s.dat.bytes (text ++ newline ∷ []) e old d),
  )
