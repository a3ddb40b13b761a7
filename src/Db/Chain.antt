-- ===== src/Db/Chain.antt =====
-- Hash chains of more01/apue.3e/db/db.c: what the loop of _db_find_and_lock makes of one.
use unp_and_apue3e.Prelude.{
  ℕ, zero, suc, ◌<◌, ◌≡◌, refl, ◌∙◌, ap, Bool, true, false, Option, none, some, List, [], ◌∷◌,
  arith, if◌then◌else◌, length, pos, Bool-cases, inl, inr, ne→==,
}
use unp_and_apue3e.Text.{Bytes, str_eq}
use unp_and_apue3e.Db.State.{Limits, Db, ok}
use unp_and_apue3e.Db.Entry.{Entry, EntryAt, loaded}
use unp_and_apue3e.Db.Readidx.{Sane, readidx-ok}
use unp_and_apue3e.Db.Ops.{find_loop}

-- From offset `o` the pointers lead through the records `es` to the end of the chain.
abbrev pub IsChain : Limits → Bytes → ℕ → List Entry → Type 0
IsChain lim bs o [] = o ≡ 0
IsChain lim bs o (e ∷ es) = (o ≡ e.off) × (0 < e.off) × EntryAt lim bs e × IsChain lim bs e.ptr es

-- Whether a record of the chain has the key.
unfoldable pub has_key : Bytes → List Entry → Bool
has_key key [] = false
has_key key (e ∷ es) = if str_eq e.key key then true else has_key key es

-- The first record with the key, and the offset of the pointer to it, which is `prev` for the first.
unfoldable pub search_key : Bytes → ℕ → List Entry → Option (ℕ × Entry)
search_key key prev [] = none
search_key key prev (e ∷ es) = if str_eq e.key key then some (prev, e) else search_key key e.off es

-- The handle behind the walk.
unfoldable pub walked : Db → Bytes → List Entry → Db
walked s key [] = s
walked s key (e ∷ es) =
    if str_eq e.key key
    then loaded s e
    else walked (record (loaded s e) { ptroff = pos e.off }) key es

module _ (lim : Limits) (sane : Sane lim) (key : Bytes) where
  -- The loop ends, and its result tells whether the chain has the key.
  pub find_loop-IsChain :
      (es : List Entry) (k o : ℕ) (s : Db)
      → length es < k
      → IsChain lim s.idx.bytes o es
      → find_loop lim k key (pos o) s ≡ ok (has_key key es) (walked s key es)
  unfolding find_loop has_key walked
  find_loop-IsChain es zero o s h c = absurd (omega arith)
  find_loop-IsChain [] (suc k) o s h c = rw c
  find_loop-IsChain (e ∷ es) (suc k) o s h (eo, p, at, c) =
      rw (eo, ne→== e.off 0 (omega arith), readidx-ok lim sane s e at p)
        (elim (Bool-cases (str_eq e.key key)) [
          | inl hit ↦ rw hit
          | inr miss ↦ rw miss (
              find_loop-IsChain es k e.ptr (record (loaded s e) { ptroff = pos e.off })
                (omega arith) c)
        ])

-- The walk moves only the file offset and the fields that it loads.
pub record SameFiles (s t : Db) : Type 0 where
  pub idx_bytes : t.idx.bytes ≡ s.idx.bytes
  pub same_dat : t.dat ≡ s.dat
  pub same_chain : t.chainoff ≡ s.chainoff
  pub same_hashoff : t.hashoff ≡ s.hashoff
  pub same_nhash : t.nhash ≡ s.nhash
  pub same_held : t.held ≡ s.held
  pub same_counts : t.counts ≡ s.counts
  pub same_errno : t.errno ≡ s.errno
  pub same_datbuf : t.datbuf ≡ s.datbuf

pub walked-SameFiles : (s : Db) (key : Bytes) (es : List Entry) → SameFiles s (walked s key es)
unfolding walked
walked-SameFiles s key [] = ground arith
walked-SameFiles s key (e ∷ es) =
    ground (arith, walked-SameFiles (record (loaded s e) { ptroff = pos e.off }) key es)

-- The fields that the walk leaves loaded where it finds the key.
pub record Located (t : Db) (prev : ℕ) (e : Entry) : Type 0 where
  pub at_key : t.idxbuf ≡ e.key
  pub at_off : t.idxoff ≡ e.off
  pub at_ptr : t.ptrval ≡ pos e.ptr
  pub at_prev : t.ptroff ≡ pos prev
  pub at_datoff : t.datoff ≡ e.datoff
  pub at_datlen : t.datlen ≡ e.datlen

pub walked-Located :
    (es : List Entry) (s : Db) (key : Bytes) (first prev : ℕ) (e : Entry)
    → s.ptroff ≡ pos first
    → search_key key first es ≡ some (prev, e)
    → Located (walked s key es) prev e
unfolding walked search_key
walked-Located [] s key first prev e p h = absurd (none-ne-some h)
  where
    none-ne-some : {A : Type 0} {a : A} → ◌≡◌ {A = Option A} none (some a) → ⊥
    none-ne-some h = cc
walked-Located (d ∷ es) s key first prev e p h = elim (Bool-cases (str_eq d.key key)) [
  | inl hit ↦
      let found : ◌≡◌ {A = Option (ℕ × Entry)} (some (first, d)) (some (prev, e)) = rw hit at h in
      let same_prev : first ≡ prev = cc in
      let same_entry : d ≡ e = cc in
      rw hit (record {
        at_key = ap (λ x. x.key) same_entry;
        at_off = ap (λ x. x.off) same_entry;
        at_ptr = ap (λ x. pos x.ptr) same_entry;
        at_prev = p ∙ ap pos same_prev;
        at_datoff = ap (λ x. x.datoff) same_entry;
        at_datlen = ap (λ x. x.datlen) same_entry;
      })
  | inr miss ↦ rw miss (
      walked-Located es (record (loaded s d) { ptroff = pos d.off }) key d.off prev e refl
        (rw miss at h))
]

pub search_key-has_key :
    (es : List Entry) (key : Bytes) (first prev : ℕ) (e : Entry)
    → search_key key first es ≡ some (prev, e)
    → has_key key es ≡ true
unfolding search_key has_key
search_key-has_key [] key first prev e h = ground arith
search_key-has_key (d ∷ es) key first prev e h =
    ground (arith, search_key-has_key es key d.off prev e)
