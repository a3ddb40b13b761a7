-- ===== src/Db/Store.antt =====
-- db_store of more01/apue.3e/db/db.c on a key that is not in the database, where no record of the
-- free list fits, and db_fetch behind it.
use unp_and_apue3e.Prelude.{ℕ, ◌+◌, ◌≤◌, ◌<◌, ◌≡◌, ◌≢◌, refl, ◌∙◌, false, List, ◌∷◌, length, All}
use mathlib.Core.Path.{subst⁻¹}
use unp_and_apue3e.Text.{Bytes}
use unp_and_apue3e.Text.Chars.{NoChar}
use unp_and_apue3e.Db.State.{Limits, Db, idx, dat, ok, LockKind, write_lock, ptr_max}
use unp_and_apue3e.Db.Ops.{store_new, done}
use unp_and_apue3e.Db.Pointer.{readptr-ok, at_idx}
use unp_and_apue3e.Db.Entry.{Entry, Fits}
use unp_and_apue3e.Db.Readidx.{Sane}
use unp_and_apue3e.Db.Chain.{IsChain, walked, walked-SameFiles}
use unp_and_apue3e.Db.Fetch.{HasChain, DataAt, chain_of, offsets, entered}
use unp_and_apue3e.Db.Append.{
  linked, new_entry, append_record-ok, front-HasChain, others-HasChain, DataAt-appended,
}
use unp_and_apue3e.Db.Free.{
  HasFree, has_size, Kept, FreeBut, FreeBut-unlocked, searched, searched-Kept, searched-FreeBut,
  findfree-none,
}

-- What an append makes of a handle: a chain with the new record in front, and its data.
pub record Grown (lim : Limits) (s t : Db) (key text : Bytes) (e : Entry) (es : List Entry)
    : Type 0 where
  pub has_chain : HasChain lim t key (e ∷ es)
  pub has_data : DataAt t.dat.bytes e text
  pub counted : t.counts ≡ record s.counts { stor1 = s.counts.stor1 + 1 }

-- What the format, the limits and the size of the index file allow.
pub record CanAppend (lim : Limits) (s : Db) (key text : Bytes) (first : ℕ) : Type 0 where
  pub fits : Fits lim (new_entry s key text first)
  pub no_nul : NoChar 0 text
  pub small : length s.idx.bytes ≤ ptr_max
  pub long_enough : lim.datlen_min ≤ length text + 1

-- A handle that is about to write to the files of `s`, at the chain at `c`.
pub record Ready (s u : Db) (c : ℕ) : Type 0 where
  pub idx_bytes : u.idx.bytes ≡ s.idx.bytes
  pub same_dat : u.dat ≡ s.dat
  pub same_hashoff : u.hashoff ≡ s.hashoff
  pub same_nhash : u.nhash ≡ s.nhash
  pub same_counts : u.counts ≡ s.counts
  pub at_chain : u.chainoff ≡ c

pub Ready-walked :
    (s : Db) (key : Bytes) (es : List Entry) (kind : LockKind)
    → Ready s (walked (entered s key kind) key es) (chain_of s key)
Ready-walked s key es kind =
    let f = walked-SameFiles (entered s key kind) key es in
    record {
      idx_bytes = f.idx_bytes;
      same_dat = f.same_dat;
      same_hashoff = f.same_hashoff;
      same_nhash = f.same_nhash;
      same_counts = f.same_counts;
      at_chain = f.same_chain;
    }

Ready-Kept : (s u v : Db) (c : ℕ) → Ready s u c → Kept u v → Ready s v c
Ready-Kept s u v c r k = record {
  idx_bytes = k.idx_bytes ∙ r.idx_bytes;
  same_dat = k.same_dat ∙ r.same_dat;
  same_hashoff = k.same_hashoff ∙ r.same_hashoff;
  same_nhash = k.same_nhash ∙ r.same_nhash;
  same_counts = k.same_counts ∙ r.same_counts;
  at_chain = k.same_chain ∙ r.at_chain;
}

Ready-at_idx : (s u : Db) (c o : ℕ) → Ready s u c → Ready s (at_idx u o) c
Ready-at_idx s u c o r = record {
  idx_bytes = r.idx_bytes;
  same_dat = r.same_dat;
  same_hashoff = r.same_hashoff;
  same_nhash = r.same_nhash;
  same_counts = r.same_counts;
  at_chain = r.at_chain;
}

HasFree-eq :
    (lim : Limits) (s u : Db) (fs : List Entry)
    → u.idx.bytes ≡ s.idx.bytes
    → HasFree lim s fs
    → HasFree lim u fs
HasFree-eq lim s u fs b h = record {
  first = h.first;
  head = rw b h.head;
  chain = subst⁻¹ (λ x. IsChain lim x h.first fs) b h.chain;
  inside = subst⁻¹ (λ x. All (λ p. p < length x) (offsets fs)) b h.inside;
  distinct = h.distinct;
}

module _ (lim : Limits) (sane : Sane lim) (key text : Bytes) (es fs : List Entry) (s : Db)
    (h : HasChain lim s key es) (can : CanAppend lim s key text h.first) where
  abbrev e_new : Entry
  e_new = new_entry s key text h.first

  new_entry-Ready : (u : Db) → Ready s u (chain_of s key) → new_entry u key text h.first ≡ e_new
  new_entry-Ready u r = rw (r.idx_bytes, r.same_dat)

  pub linked-HasChain :
      (u : Db) (r : Ready s u (chain_of s key)) (t : Db)
      → t.idx.bytes ≡ (linked u key text h.first).idx.bytes
      → t.nhash ≡ u.nhash
      → t.hashoff ≡ u.hashoff
      → HasChain lim t key (e_new ∷ es)
  linked-HasChain u r t b n o =
      front-HasChain lim sane s key es h e_new can.fits refl refl can.small t
        (b ∙ rw (r.idx_bytes, r.same_dat, r.at_chain)) (n ∙ r.same_nhash) (o ∙ r.same_hashoff)

  pub linked-DataAt :
      (u : Db) (r : Ready s u (chain_of s key))
      → DataAt (linked u key text h.first).dat.bytes e_new text
  linked-DataAt u r = rw r.same_dat (DataAt-appended s key text h.first can.no_nul)

  pub linked-others :
      (u : Db) (r : Ready s u (chain_of s key)) (t : Db)
      → t.idx.bytes ≡ (linked u key text h.first).idx.bytes
      → t.nhash ≡ u.nhash
      → t.hashoff ≡ u.hashoff
      → (other : Bytes) (os : List Entry) → HasChain lim s other os
      → chain_of s other ≢ chain_of s key
      → HasChain lim t other os
  linked-others u r t b n o other os ho ne =
      others-HasChain lim sane s key es h e_new can.fits refl refl can.small other os t ho ne
        (b ∙ rw (r.idx_bytes, r.same_dat, r.at_chain)) (n ∙ r.same_nhash) (o ∙ r.same_hashoff)

  -- The handle behind the search of the free list.
  abbrev pub looked : Db → Db
  looked u = searched (at_idx u (u.chainoff + 7)) fs

  pub looked-Ready : (u : Db) → Ready s u (chain_of s key) → Ready s (looked u) (chain_of s key)
  looked-Ready u r =
      Ready-Kept s (at_idx u (u.chainoff + 7)) (looked u) (chain_of s key)
        (Ready-at_idx s u (chain_of s key) (u.chainoff + 7) r)
        (searched-Kept (at_idx u (u.chainoff + 7)) fs)

  abbrev pub grown : Db → Db
  grown u =
      let t = linked (looked u) key text h.first in
      record t { counts = record t.counts { stor1 = t.counts.stor1 + 1 } }

  pub store_new-append :
      (u : Db)
      → Ready s u (chain_of s key)
      → HasFree lim s fs
      → has_size (length key) (length text + 1) fs ≡ false
      → store_new lim key text u ≡ ok done (grown u)
  unfolding store_new
  store_new-append u r f n =
      let v = at_idx u (u.chainoff + 7) in
      let q = looked-Ready u r in
      rw (
        readptr-ok u u.chainoff h.first (rw (r.idx_bytes, r.at_chain) h.head),
        findfree-none lim sane (length key) (length text + 1) v fs
            (HasFree-eq lim s v fs r.idx_bytes f) n,
        append_record-ok lim (looked u) key text h.first
            (rw (new_entry-Ready (looked u) q) can.fits) (rw q.idx_bytes can.small),
      )

  -- Each append leaves behind it the locks that were there, but for the bytes that it locked.
  pub grown-FreeBut : (u : Db) (c : ℕ) → FreeBut c u.held → FreeBut c (grown u).held
  grown-FreeBut u c f = FreeBut-unlocked _ c idx _ 0 write_lock (
      FreeBut-unlocked _ c dat 0 0 write_lock (searched-FreeBut (at_idx u (u.chainoff + 7)) fs c f))
