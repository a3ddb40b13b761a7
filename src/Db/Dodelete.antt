-- ===== src/Db/Dodelete.antt =====
-- _db_dodelete of more01/apue.3e/db/db.c, once _db_find_and_lock has loaded the record.
use unp_and_apue3e.Prelude.{
  ℕ, ◌+◌, ◌-◌, ◌≤◌, ◌≡◌, refl, ◌∙◌, ap, some, none, [], ◌∷◌, ◌++◌, arith, length, pos,
  length-replicate,
}
use unp_and_apue3e.Text.{Bytes, pad_left}
use unp_and_apue3e.File.{seek_set, overwrite, lseek, write}
use unp_and_apue3e.Db.State.{
  Limits, Db, ok, lock, unlock, set_region, write_lock, idx, ptr_sz, ptr_max, free_off, newline,
  space,
}
use unp_and_apue3e.Db.Record.{seek, put_bytes, writedat}
use unp_and_apue3e.Db.Ops.{dodelete}
use unp_and_apue3e.Db.Pointer.{PtrAt, readptr-ok, writeptr-ok, at_idx, put_idx}
use unp_and_apue3e.Db.Entry.{Entry, Fits, text_of}
use unp_and_apue3e.Db.Readidx.{writeidx-set, wrote}
use unp_and_apue3e.Db.Chain.{Located}
use unp_and_apue3e.Db.Unlink.{blanks, blanked, blanked-Fits, idx_unlinked}

-- Behind a data record that is written at an offset.
abbrev pub dat_written : Db → Bytes → ℕ → Db
dat_written s text o = record s {
  dat = record {
    bytes = overwrite s.dat.bytes o (text ++ newline ∷ []);
    offset = o + length (text ++ newline ∷ []);
  };
  datoff = o;
  datlen = length text + 1;
}

pub writedat-set :
    (s : Db) (text : Bytes) (o : ℕ)
    → writedat text (pos o) seek_set s ≡ ok tt (dat_written s text o)
unfolding writedat seek lseek put_bytes write
writedat-set s text o = refl

-- The handle as the walk to the record `e` leaves it.
abbrev placed : Db → ℕ → Entry → Db
placed u prev e = record u {
  idxbuf = e.key;
  idxoff = e.off;
  ptrval = pos e.ptr;
  ptroff = pos prev;
  datoff = e.datoff;
  datlen = e.datlen;
}

placed-Located : (u : Db) (prev : ℕ) (e : Entry) → Located u prev e → u ≡ placed u prev e
placed-Located u prev e l =
    rw (← l.at_key, ← l.at_off, ← l.at_ptr, ← l.at_prev, ← l.at_datoff, ← l.at_datlen) refl

-- The handle behind _db_dodelete, where `next` was the first record of the free list.
abbrev pub deleted : Db → ℕ → Entry → ℕ → Db
deleted u prev e next = record u {
  idx = record {
    bytes = idx_unlinked u.idx.bytes prev next e;
    offset = prev + length (pad_left ptr_sz e.ptr);
  };
  dat = (dat_written u (blanks (e.datlen - 1)) e.datoff).dat;
  idxbuf = text_of (blanked e next);
  datbuf = blanks (e.datlen - 1);
  idxoff = e.off;
  datoff = e.datoff;
  datlen = e.datlen;
  ptrval = pos next;
  ptroff = pos prev;
  held = set_region (set_region u.held idx free_off 1 (some write_lock)) idx free_off 1 none;
}

module _ (lim : Limits) (u : Db) (prev : ℕ) (e : Entry) (f : Fits lim e)
    (off_fits : e.off ≤ ptr_max) (next : ℕ) (head : PtrAt u.idx.bytes free_off next) where
  same_len : length (blanks (e.datlen - 1)) + 1 ≡ e.datlen
  same_len = let d = f.has_data in omega (arith, length-replicate (e.datlen - 1) space)

  -- Before the data record is written, and behind it.
  abbrev blanking : Db
  blanking = record (placed u prev e) {
    datbuf = blanks (e.datlen - 1);
    idxbuf = blanks (length e.key);
    held = set_region u.held idx free_off 1 (some write_lock);
  }

  abbrev no_data : Db
  no_data = record blanking { dat = (dat_written u (blanks (e.datlen - 1)) e.datoff).dat }

  no_data_lem : writedat (blanks (e.datlen - 1)) (pos e.datoff) seek_set blanking ≡ ok tt no_data
  no_data_lem =
      writedat-set blanking (blanks (e.datlen - 1)) e.datoff
      ∙ ap (λ n. ok tt (record no_data { datlen = n })) same_len

  placed_lem : dodelete lim (placed u prev e) ≡ ok tt (deleted u prev e next)
  unfolding dodelete lock unlock
  placed_lem =
      let t = at_idx no_data 7 in
      let v = wrote t (blanked e next) in
      let w = put_idx v free_off (pad_left ptr_sz e.off) in
      rw (
        no_data_lem,
        readptr-ok no_data free_off next head,
        writeidx-set lim t (blanks (length e.key)) e.off next (blanked-Fits lim e next head.fits f),
        writeptr-ok v free_off e.off off_fits,
        writeptr-ok w prev e.ptr f.fits_ptr,
      )

  pub dodelete-ok : Located u prev e → dodelete lim u ≡ ok tt (deleted u prev e next)
  dodelete-ok l = ap (dodelete lim) (placed-Located u prev e l) ∙ placed_lem
