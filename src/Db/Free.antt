-- ===== src/Db/Free.antt =====
-- The free list of more01/apue.3e/db/db.c, where _db_findfree finds no record that fits.
use unp_and_apue3e.Prelude.{
  ℤ, ℕ, zero, suc, ◌<◌, ◌≡◌, refl, Bool, true, false, ◌&&◌, some, none, List, [], ◌∷◌, arith,
  length, All, pos, ◌==◌, if◌then◌else◌, Bool-cases, inl, inr, ne→==, Distinct, length-Distinct,
}
use unp_and_apue3e.Db.State.{
  Limits, Db, Held, ok, Which, idx, LockKind, write_lock, lock, unlock, set_region, same_file,
  free_off,
}
use unp_and_apue3e.Db.Ops.{free_loop, unlink_free, findfree, fuel_of}
use unp_and_apue3e.Db.Pointer.{PtrAt, readptr-ok, at_idx}
use unp_and_apue3e.Db.Entry.{Entry, loaded}
use unp_and_apue3e.Db.Readidx.{Sane, readidx-ok}
use unp_and_apue3e.Db.Chain.{IsChain}
use unp_and_apue3e.Db.Fetch.{offsets, length-offsets}

-- The free list: a pointer to it at the start of the file, and records at distinct offsets.
pub record HasFree (lim : Limits) (s : Db) (fs : List Entry) : Type 0 where
  pub first : ℕ
  pub head : PtrAt s.idx.bytes free_off first
  pub chain : IsChain lim s.idx.bytes first fs
  pub inside : All (λ o. o < length s.idx.bytes) (offsets fs)
  pub distinct : Distinct (offsets fs)

-- Whether a record of the list has a key and data of these lengths.
unfoldable pub has_size : ℕ → ℕ → List Entry → Bool
has_size keylen datlen [] = false
has_size keylen datlen (e ∷ es) =
    if (length e.key == keylen) && (e.datlen == datlen) then true else has_size keylen datlen es

-- The handle behind a walk along all of the list.
unfoldable pub passed : Db → List Entry → Db
passed s [] = s
passed s (e ∷ es) = passed (loaded s e) es

-- What such a walk leaves as it is.
pub record Kept (s t : Db) : Type 0 where
  pub idx_bytes : t.idx.bytes ≡ s.idx.bytes
  pub same_dat : t.dat ≡ s.dat
  pub same_chain : t.chainoff ≡ s.chainoff
  pub same_hashoff : t.hashoff ≡ s.hashoff
  pub same_nhash : t.nhash ≡ s.nhash
  pub same_counts : t.counts ≡ s.counts

passed-Kept : (s : Db) (es : List Entry) → Kept s (passed s es)
unfolding passed
passed-Kept s [] = record {
  idx_bytes = refl;
  same_dat = refl;
  same_chain = refl;
  same_hashoff = refl;
  same_nhash = refl;
  same_counts = refl;
}
passed-Kept s (e ∷ es) =
    let k = passed-Kept (loaded s e) es in
    record {
      idx_bytes = k.idx_bytes;
      same_dat = k.same_dat;
      same_chain = k.same_chain;
      same_hashoff = k.same_hashoff;
      same_nhash = k.same_nhash;
      same_counts = k.same_counts;
    }

passed-held : (s : Db) (es : List Entry) → (passed s es).held ≡ s.held
unfolding passed
passed-held s [] = refl
passed-held s (e ∷ es) = passed-held (loaded s e) es

-- No byte is locked but perhaps one of the index file.
abbrev pub FreeBut : ℕ → Held → Type 0
FreeBut c h = (w : Which) (b : ℕ) → (same_file idx w && (b == c)) ≡ false → h w b ≡ none

pub FreeBut-unlocked :
    (h : Held) (c : ℕ) (v : Which) (start len : ℕ) (k : LockKind)
    → FreeBut c h
    → FreeBut c (set_region (set_region h v start len (some k)) v start len none)
FreeBut-unlocked h c v start len k f w b e = ground (arith, f w b)

-- The handle behind the search of the free list.
abbrev pub searched : Db → List Entry → Db
searched s fs =
    let u =
      passed (at_idx (record s { held = set_region s.held idx free_off 1 (some write_lock) }) 7)
        fs in
    record u { held = set_region u.held idx free_off 1 none }

pub searched-Kept : (s : Db) (fs : List Entry) → Kept s (searched s fs)
searched-Kept s fs =
    let k =
      passed-Kept
        (at_idx (record s { held = set_region s.held idx free_off 1 (some write_lock) }) 7) fs in
    record {
      idx_bytes = k.idx_bytes;
      same_dat = k.same_dat;
      same_chain = k.same_chain;
      same_hashoff = k.same_hashoff;
      same_nhash = k.same_nhash;
      same_counts = k.same_counts;
    }

pub searched-FreeBut :
    (s : Db) (fs : List Entry) (c : ℕ) → FreeBut c s.held → FreeBut c (searched s fs).held
searched-FreeBut s fs c f =
    rw
      (passed-held
        (at_idx (record s { held = set_region s.held idx free_off 1 (some write_lock) }) 7) fs)
      (FreeBut-unlocked s.held c idx free_off 1 write_lock f)

module _ (lim : Limits) (sane : Sane lim) (keylen datlen : ℕ) where
  free_loop-none :
      (es : List Entry) (k o : ℕ) (save : ℤ) (s : Db)
      → length es < k
      → IsChain lim s.idx.bytes o es
      → has_size keylen datlen es ≡ false
      → free_loop lim k keylen datlen save (pos o) s ≡ ok none (passed s es)
  unfolding free_loop has_size passed
  free_loop-none es zero o save s h c n = absurd (omega arith)
  free_loop-none [] (suc k) o save s h c n = rw c
  free_loop-none (e ∷ es) (suc k) o save s h (eo, p, at, c) n =
      rw (eo, ne→== e.off 0 (omega arith), readidx-ok lim sane s e at p)
        (elim (Bool-cases ((length e.key == keylen) && (e.datlen == datlen))) [
          | inl hit ↦ absurd (true-ne-false (rw hit at n))
          | inr miss ↦
              rw miss
                (free_loop-none es k e.ptr (pos e.off) (loaded s e) (omega arith) c (rw miss at n))
        ])
    where
      true-ne-false : true ≡ false → ⊥
      true-ne-false q = cc

  pub findfree-none :
      (s : Db) (fs : List Entry)
      → HasFree lim s fs
      → has_size keylen datlen fs ≡ false
      → findfree lim keylen datlen s ≡ ok false (searched s fs)
  unfolding findfree lock unlock unlink_free
  findfree-none s fs h n =
      let u = record s { held = set_region s.held idx free_off 1 (some write_lock) } in
      rw (
        readptr-ok u free_off h.first h.head,
        free_loop-none fs (fuel_of s) h.first (pos free_off) (at_idx u 7)
            (omega (
              arith,
              length-offsets fs,
              length-Distinct (length s.idx.bytes) (offsets fs) h.inside h.distinct,
            ))
            h.chain n,
      )
