-- ===== src/Db/Replace.antt =====
-- db_store of more01/apue.3e/db/db.c over a record that the database has, in the place of its data
-- where the new data is as long as the old.
use unp_and_apue3e.Prelude.{
  ℕ, ◌+◌, ◌≤◌, ◌≡◌, refl, sym, ◌∙◌, ap, Bool, ◌&&◌, leb, true, false, some, none, List, [], ◌∷◌,
  ◌++◌, arith, length, length-append, eq→==,
}
use unp_and_apue3e.Text.{Bytes}
use unp_and_apue3e.Text.Chars.{NoChar}
use unp_and_apue3e.File.Slice.{slice-overwrite_self}
use unp_and_apue3e.Db.State.{
  Limits, Db, idx, ok, ◌>>◌, write_lock, unlock, set_region, newline, Counts,
}
use unp_and_apue3e.Db.Ops.{
  db_store, store_found, store_over, Flag, insert, replace, store, other_flag, done, exists, fetch,
}
use unp_and_apue3e.Db.Entry.{Entry}
use unp_and_apue3e.Db.Readidx.{Sane}
use unp_and_apue3e.Db.Chain.{
  SameFiles, Located, has_key, search_key, walked, walked-SameFiles, walked-Located,
  search_key-has_key,
}
use unp_and_apue3e.Db.Fetch.{
  HasChain, HasChain-eq, DataAt, AllFree, Untouched, chain_of, entered, find_and_lock-HasChain,
  fetch-some, left, left-Untouched,
}
use unp_and_apue3e.Db.Insert.{FreeBut-lock, AllFree-unlock}
use unp_and_apue3e.Db.Dodelete.{dat_written, writedat-set}

-- Whether db_store may write over a record with this flag.
abbrev pub replaces : Flag → Bool
replaces replace = true
replaces store = true
replaces _ = false

-- The data that db_store is given keeps within the limits.
pub record DataFits (lim : Limits) (text : Bytes) : Type 0 where
  pub long_enough : lim.datlen_min ≤ length text + 1
  pub short_enough : length text + 1 ≤ lim.datlen_max

false-ne-true : false ≡ true → ⊥
false-ne-true q = cc

pub DataFits-limits :
    (lim : Limits) (text : Bytes)
    → DataFits lim text
    → (leb lim.datlen_min (length text + 1) && leb (length text + 1) lim.datlen_max) ≡ true
DataFits-limits lim text d = let a = d.long_enough in let b = d.short_enough in ground arith

module _ (lim : Limits) (sane : Sane lim) (s : Db) (key text : Bytes) (es : List Entry)
    (h : HasChain lim s key es) (locks : AllFree s.held) (fits : DataFits lim text) where
  abbrev u : Db
  u = walked (entered s key write_lock) key es

  -- A key that is there, with DB_INSERT: db_store returns 1, the files are as they were and only
  -- storerr is counted.
  pub db_store-exists :
      has_key key es ≡ true
      → (t : Db) × (db_store lim key text insert s ≡ ok exists t)
        × Untouched s t
        × (t.counts ≡ record s.counts { storerr = s.counts.storerr + 1 })
  unfolding db_store store_found unlock
  db_store-exists hit =
      let bump : Counts → Counts = λ c. record c { storerr = c.storerr + 1 } in
      (
        left lim sane s key es h locks write_lock bump,
        rw (
          DataFits-limits lim text fits,
          find_and_lock-HasChain lim sane s key es h write_lock,
          hit,
        ),
        left-Untouched lim sane s key es h locks write_lock bump,
        ap bump (walked-SameFiles (entered s key write_lock) key es).same_counts,
      )

  -- A write over the record goes through store_over, between the lock and the unlock.
  pub db_store-over :
      (flag : Flag)
      → replaces flag ≡ true
      → has_key key es ≡ true
      → (t : Db) → store_over lim key text u ≡ ok done t
      → db_store lim key text flag s
        ≡ ok done (record t { held = set_region t.held idx t.chainoff 1 none })
  unfolding db_store store_found unlock
  db_store-over replace a hit t eq = rw (
    DataFits-limits lim text fits,
    find_and_lock-HasChain lim sane s key es h write_lock,
    hit,
    eq,
  )
  db_store-over store a hit t eq = rw (
    DataFits-limits lim text fits,
    find_and_lock-HasChain lim sane s key es h write_lock,
    hit,
    eq,
  )
  db_store-over insert a hit t eq = absurd (false-ne-true a)
  db_store-over other_flag a hit t eq = absurd (false-ne-true a)

  module _ {prev : ℕ} {e : Entry} (found : search_key key (chain_of s key) es ≡ some (prev, e))
      (same_len : length text + 1 ≡ e.datlen) (no_nul : NoChar 0 text) where
    abbrev over : Db
    over = record (dat_written u text e.datoff) {
      counts = record u.counts { stor4 = u.counts.stor4 + 1 };
    }

    abbrev result : Db
    result = record over { held = set_region over.held idx over.chainoff 1 none }

    located : Located u prev e
    located = walked-Located es (entered s key write_lock) key (chain_of s key) prev e refl found

    same : SameFiles (entered s key write_lock) u
    same = walked-SameFiles (entered s key write_lock) key es

    over_lem : store_over lim key text u ≡ ok done over
    unfolding store_over
    over_lem =
        rw
          (
            eq→== (length text + 1) u.datlen (same_len ∙ sym located.at_datlen),
            writedat-set u text u.datoff,
          )
          (ap
            (λ o. ok done (record (dat_written u text o) {
              counts = record u.counts { stor4 = u.counts.stor4 + 1 };
            }))
            located.at_datoff)

    result-HasChain : HasChain lim result key es
    result-HasChain =
        HasChain-eq lim s result key es same.idx_bytes same.same_nhash same.same_hashoff h

    result-DataAt : DataAt result.dat.bytes e text
    result-DataAt = record {
      no_nul = no_nul;
      len = sym same_len;
      text_at =
          slice-overwrite_self u.dat.bytes e.datoff (text ++ newline ∷ []) e.datlen
            (sym same_len ∙ sym (length-append text (newline ∷ [])));
    }

    result-AllFree : AllFree result.held
    result-AllFree = AllFree-unlock u.held u.chainoff (
        rw (same.same_held, same.same_chain)
          (FreeBut-lock s.held (chain_of s key) write_lock locks))

    hit : has_key key es ≡ true
    hit = search_key-has_key es key (chain_of s key) prev e found

    -- Data of the same length is written in place: the index file is as it was.
    pub db_store-same_length :
        (flag : Flag)
        → replaces flag ≡ true
        → (t : Db) × (db_store lim key text flag s ≡ ok done t)
          × (t.idx.bytes ≡ s.idx.bytes)
          × DataAt t.dat.bytes e text
          × AllFree t.held
          × (t.counts ≡ record s.counts { stor4 = s.counts.stor4 + 1 })
    db_store-same_length flag a = (
      result,
      db_store-over flag a hit over over_lem,
      same.idx_bytes,
      result-DataAt,
      result-AllFree,
      (let bump : Counts → Counts = λ c. record c { stor4 = c.stor4 + 1 } in
          ap bump same.same_counts),
    )

    -- Where the chain of a key is well formed (HasChain) and a record of it has the key, the text
    -- has no NUL and keeps within the limits (DataFits), no byte is locked, and the text is as long
    -- as the data of the first record with the key, db_store with DB_REPLACE or DB_STORE returns 0,
    -- and fetch of the key behind it returns the text, changes no file and leaves no byte locked.
    pub fetch-same_length :
        (flag : Flag)
        → replaces flag ≡ true
        → (t v : Db) × (db_store lim key text flag s ≡ ok done t)
          × ((db_store lim key text flag >> fetch lim key) s ≡ ok (some text) v)
          × Untouched t v
    fetch-same_length flag a =
        let (v, eq, kept, c) =
          fetch-some lim sane result key es result-HasChain result-AllFree text found_again
            result-DataAt in
        (
          result,
          v,
          db_store-over flag a hit over over_lem,
          rw (db_store-over flag a hit over over_lem) eq,
          kept,
        )
      where
        found_again : search_key key (chain_of result key) es ≡ some (prev, e)
        found_again = rw (same.same_nhash, same.same_hashoff) found
