-- ===== src/Db/Fetch.antt =====
-- _db_find_and_lock, _db_readdat and db_fetch of more01/apue.3e/db/db.c on a well-formed chain.
use unp_and_apue3e.Prelude.{
  ℕ, suc, ◌+◌, ◌-◌, ◌*◌, ◌≤◌, ◌<◌, ◌≡◌, refl, sym, ◌∙◌, ap, false, Option, none, some, List, [],
  ◌∷◌, ◌++◌, arith, length, length-append, take-append, All, pos, map, eq→==, Distinct,
  length-Distinct,
}
use mathlib.Core.Path.{subst⁻¹}
use unp_and_apue3e.Text.{Bytes}
use unp_and_apue3e.Text.Chars.{NoChar, c_str-NoChar, get_or-append}
use unp_and_apue3e.File.{slice, read, lseek}
use unp_and_apue3e.Db.State.{
  Limits, Db, Held, idx, ok, LockKind, read_lock, set_region, lock, unlock, ptr_sz, newline, Which,
  Counts,
}
use unp_and_apue3e.Db.Record.{seek, get_bytes, readdat}
use unp_and_apue3e.Db.Pointer.{PtrAt, readptr-ok, at_idx}
use unp_and_apue3e.Db.Entry.{Entry}
use unp_and_apue3e.Db.Readidx.{Sane}
use unp_and_apue3e.Db.Chain.{
  IsChain, has_key, search_key, walked, find_loop-IsChain, walked-SameFiles, walked-Located,
  search_key-has_key,
}
use unp_and_apue3e.Db.Ops.{hash, find_and_lock, fuel_of, fetch}

-- The offset of the pointer to the key's chain.
abbrev pub chain_of : Db → Bytes → ℕ
chain_of s key = hash s.nhash key * ptr_sz + s.hashoff

abbrev pub offsets : List Entry → List ℕ
offsets = map λ e. e.off

-- Where the hash table ends.
abbrev pub table_end : Db → ℕ
table_end s = s.nhash * ptr_sz + s.hashoff

-- The chain of a key in the index file: a pointer to it in a hash table that is not empty, and
-- records at distinct offsets inside the file, behind the table.
pub record HasChain (lim : Limits) (s : Db) (key : Bytes) (es : List Entry) : Type 0 where
  pub first : ℕ
  pub head : PtrAt s.idx.bytes (chain_of s key) first
  pub chain : IsChain lim s.idx.bytes first es
  pub inside : All (λ o. o < length s.idx.bytes) (offsets es)
  pub distinct : Distinct (offsets es)
  pub some_table : 0 < s.nhash
  pub table_inside : table_end s ≤ length s.idx.bytes
  pub past : All (λ o. table_end s ≤ o) (offsets es)

-- A chain of another handle on the same index file.
pub HasChain-eq :
    (lim : Limits) (s t : Db) (key : Bytes) (es : List Entry)
    → t.idx.bytes ≡ s.idx.bytes
    → t.nhash ≡ s.nhash
    → t.hashoff ≡ s.hashoff
    → HasChain lim s key es
    → HasChain lim t key es
HasChain-eq lim s t key es b n o h =
    let ends : table_end t ≡ table_end s = rw (n, o) refl in
    record {
      first = h.first;
      head = rw (b, n, o) h.head;
      chain = subst⁻¹ (λ x. IsChain lim x h.first es) b h.chain;
      inside = subst⁻¹ (λ x. All (λ p. p < length x) (offsets es)) b h.inside;
      distinct = h.distinct;
      some_table = rw n h.some_table;
      table_inside = rw (b, ends) h.table_inside;
      past = subst⁻¹ (λ x. All (λ p. x ≤ p) (offsets es)) ends h.past;
    }

-- The handle with the chain locked, and where the walk begins.
abbrev locked : Db → Bytes → LockKind → Db
locked s key kind = record s {
  chainoff = chain_of s key;
  ptroff = pos (chain_of s key);
  held = set_region s.held idx (chain_of s key) 1 (some kind);
}

abbrev pub entered : Db → Bytes → LockKind → Db
entered s key kind = at_idx (locked s key kind) (chain_of s key + 7)

pub length-offsets : (es : List Entry) → length (offsets es) ≡ length es
length-offsets [] = refl
length-offsets (e ∷ es) = ap suc (length-offsets es)

module _ (lim : Limits) (sane : Sane lim) (s : Db) (key : Bytes) (es : List Entry)
    (h : HasChain lim s key es) where
  -- On a well-formed chain (HasChain) find_and_lock ends within its fuel, tells whether a record of
  -- the chain has the key, and leaves the chain locked and the handle as the walk along the chain
  -- does (walked).
  pub find_and_lock-HasChain :
      (kind : LockKind)
      → find_and_lock lim key kind s ≡ ok (has_key key es) (walked (entered s key kind) key es)
  unfolding find_and_lock lock
  find_and_lock-HasChain kind =
      rw (readptr-ok (locked s key kind) (chain_of s key) h.first h.head) (
        find_loop-IsChain lim sane key es (fuel_of s) h.first (entered s key kind)
          (omega (
            arith,
            length-offsets es,
            length-Distinct (length s.idx.bytes) (offsets es) h.inside h.distinct,
          ))
          h.chain)

-- The data record of `e` is the text and a newline.
pub record DataAt (dat : Bytes) (e : Entry) (text : Bytes) : Type 0 where
  pub no_nul : NoChar 0 text
  pub len : e.datlen ≡ length text + 1
  pub text_at : slice e.datoff e.datlen dat ≡ text ++ newline ∷ []

abbrev read_out : Db → Bytes → Db
read_out u text = record u {
  dat = record { bytes = u.dat.bytes; offset = u.datoff + length (text ++ newline ∷ []) };
  datbuf = text;
}

pub readdat-ok :
    (u : Db) (text : Bytes)
    → NoChar 0 text
    → u.datlen ≡ length text + 1
    → slice u.datoff u.datlen u.dat.bytes ≡ text ++ newline ∷ []
    → readdat u ≡ ok text (read_out u text)
unfolding readdat seek lseek get_bytes read
readdat-ok u text n l t =
    let full : length (text ++ newline ∷ []) ≡ u.datlen =
      length-append text (newline ∷ []) ∙ sym l in
    let last : u.datlen - 1 ≡ length text = omega arith in
    rw (
      t,
      eq→== (length (text ++ newline ∷ [])) u.datlen full,
      get_or-append text [] newline 0 (u.datlen - 1) last,
      take-append text (newline ∷ []) (u.datlen - 1) last,
      c_str-NoChar text n,
    )

-- No byte of either file is locked.
abbrev pub AllFree : Held → Type 0
AllFree h = (w : Which) (b : ℕ) → h w b ≡ none

unlock-AllFree :
    (h : Held) (start : ℕ) (k : Option LockKind)
    → AllFree h
    → AllFree (set_region (set_region h idx start 1 k) idx start 1 none)
unlock-AllFree h start k f w b = ground (arith, f w b)

-- The files are unchanged, and no lock is held.
pub record Untouched (s t : Db) : Type 0 where
  pub idx_bytes : t.idx.bytes ≡ s.idx.bytes
  pub dat_bytes : t.dat.bytes ≡ s.dat.bytes
  pub released : AllFree t.held

module _ (lim : Limits) (sane : Sane lim) (s : Db) (key : Bytes) (es : List Entry)
    (h : HasChain lim s key es) (free : AllFree s.held) where
  chain_kept : (kind : LockKind) → (walked (entered s key kind) key es).chainoff ≡ chain_of s key
  chain_kept kind = (walked-SameFiles (entered s key kind) key es).same_chain

  released_lem :
      (kind : LockKind)
      → AllFree (
          set_region
            (walked (entered s key kind) key es).held
            idx
            (walked (entered s key kind) key es).chainoff
            1
            none)
  released_lem kind w b =
      rw ((walked-SameFiles (entered s key kind) key es).same_held, chain_kept kind)
        (unlock-AllFree s.held (chain_of s key) (some kind) free w b)

  -- The handle behind the walk, with the chain unlocked and the counts changed.
  abbrev pub left : LockKind → (Counts → Counts) → Db
  left kind f =
      let u = walked (entered s key kind) key es in
      record u { held = set_region u.held idx u.chainoff 1 none; counts = f u.counts }

  pub left-Untouched : (kind : LockKind) (f : Counts → Counts) → Untouched s (left kind f)
  left-Untouched kind f =
      let same = walked-SameFiles (entered s key kind) key es in
      record {
        idx_bytes = same.idx_bytes;
        dat_bytes = ap (λ d. d.bytes) same.same_dat;
        released = released_lem kind;
      }

  -- Where the chain of a key is well formed (HasChain) and no record of it has the key, and no byte
  -- is locked, fetch returns the null pointer: the files are as they were, no byte is locked, and
  -- of the counters only fetcherr moves, by one.
  pub fetch-none :
      has_key key es ≡ false
      → (t : Db) × (fetch lim key s ≡ ok none t)
        × Untouched s t
        × (t.counts ≡ record s.counts { fetcherr = s.counts.fetcherr + 1 })
  unfolding fetch unlock
  fetch-none miss =
      let bump : Counts → Counts = λ c. record c { fetcherr = c.fetcherr + 1 } in
      (
        left read_lock bump,
        rw (find_and_lock-HasChain lim sane s key es h read_lock, miss),
        left-Untouched read_lock bump,
        ap bump (walked-SameFiles (entered s key read_lock) key es).same_counts,
      )

  -- Where the chain of a key is well formed (HasChain), `e` is the first record of the chain with
  -- the key, the data of `e` stands in the data file (DataAt), and no byte is locked, fetch returns
  -- that data: the files are as they were, no byte is locked, and of the counters only fetchok
  -- moves, by one.
  pub fetch-some :
      {prev : ℕ} {e : Entry} (text : Bytes)
      → search_key key (chain_of s key) es ≡ some (prev, e)
      → DataAt s.dat.bytes e text
      → (t : Db) × (fetch lim key s ≡ ok (some text) t)
        × Untouched s t
        × (t.counts ≡ record s.counts { fetchok = s.counts.fetchok + 1 })
  unfolding fetch unlock
  fetch-some {prev} {e} text found d =
      let bump : Counts → Counts = λ c. record c { fetchok = c.fetchok + 1 } in
      let u = walked (entered s key read_lock) key es in
      let same = walked-SameFiles (entered s key read_lock) key es in
      let l = walked-Located es (entered s key read_lock) key (chain_of s key) prev e refl found in
      let read_lem : readdat u ≡ ok text (read_out u text) =
        readdat-ok u text d.no_nul (l.at_datlen ∙ d.len)
          (rw (l.at_datoff, l.at_datlen, same.same_dat) d.text_at) in
      (
        record (left read_lock bump) { dat = (read_out u text).dat; datbuf = text },
        rw (
          find_and_lock-HasChain lim sane s key es h read_lock,
          search_key-has_key es key (chain_of s key) prev e found,
          read_lem,
        ),
        (let v = left-Untouched read_lock bump in
            record { idx_bytes = v.idx_bytes; dat_bytes = v.dat_bytes; released = v.released }),
        ap bump same.same_counts,
      )
