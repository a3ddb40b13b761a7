-- ===== src/Db/Entry.antt =====
-- The index records of more01/apue.3e/db/db.c: what readidx makes of a record that writeidx wrote.
use unp_and_apue3e.Prelude.{
  ℕ, ◌+◌, ◌-◌, ◌≤◌, ◌<◌, ◌≡◌, refl, sym, ◌∙◌, ap, true, ◌&&◌, [], ◌∷◌, ◌++◌, append_assoc,
  append-nil, arith, leb, length, take, drop, get_or, length-append, take-append, pos, ==_refl,
}
use unp_and_apue3e.Text.{Bytes, c_str, atol, decimal, pad_left}
use unp_and_apue3e.Text.Number.{atol-decimal, length-pad_left}
use unp_and_apue3e.Text.Chars.{
  NoChar, NoChar-append, c_str-NoChar, split_at_char-none, split_at_char-some, decimal-NoChar,
  get_or-append,
}
use unp_and_apue3e.File.{slice, read}
use unp_and_apue3e.Db.State.{Limits, Db, ok, ptr_sz, ptr_max, idxlen_sz, sep, newline}
use unp_and_apue3e.Db.Record.{get_bytes, set_fields, parse_fields, read_body, record_text}
use unp_and_apue3e.Db.Pointer.{length-ptr}

-- What an index record says, and where it stands.
pub record Entry : Type 0 where
  pub off : ℕ
  pub ptr : ℕ
  pub key : Bytes
  pub datoff : ℕ
  pub datlen : ℕ

-- A key that the format can hold: no NUL and no separator in it.
pub record IsKey (key : Bytes) : Type 0 where
  pub no_nul : NoChar 0 key
  pub no_sep : NoChar sep key

-- The record's text before its newline.
abbrev core : Bytes → ℕ → ℕ → Bytes
core key datoff datlen = key ++ (sep ∷ (decimal datoff ++ (sep ∷ decimal datlen)))

pub record_text-core :
    (key : Bytes) (datoff datlen : ℕ)
    → record_text key datoff datlen ≡ core key datoff datlen ++ newline ∷ []
unfolding record_text
record_text-core key datoff datlen = simp append_assoc

abbrev pub text_of : Entry → Bytes
text_of e = record_text e.key e.datoff e.datlen

-- The bytes of a record in the file.
abbrev pub render : Entry → Bytes
render e = pad_left ptr_sz e.ptr ++ (pad_left idxlen_sz (length (text_of e)) ++ text_of e)

-- What the code can read back.
pub record Fits (lim : Limits) (e : Entry) : Type 0 where
  pub is_key : IsKey e.key
  pub fits_ptr : e.ptr ≤ ptr_max
  pub long_enough : lim.idxlen_min ≤ length (text_of e)
  pub short_enough : length (text_of e) ≤ lim.idxlen_max
  pub has_data : 1 ≤ e.datlen
  pub data_fits : e.datlen ≤ lim.datlen_max

-- The state that readidx leaves behind.
abbrev pub loaded : Db → Entry → Db
loaded s e = record s {
  idx = record { bytes = s.idx.bytes; offset = e.off + length (render e) };
  idxbuf = e.key;
  idxoff = e.off;
  idxlen = length (text_of e);
  datoff = e.datoff;
  datlen = e.datlen;
  ptrval = pos e.ptr;
}

module _ (lim : Limits) where
  set_fields-ok :
      (s : Db) (key : Bytes) (datoff datlen : ℕ)
      → 1 ≤ datlen
      → datlen ≤ lim.datlen_max
      → set_fields lim key (pos datoff) (pos datlen) s
        ≡ ok tt (record s { idxbuf = key; datoff = datoff; datlen = datlen })
  unfolding set_fields
  set_fields-ok s key datoff datlen l h = ground arith

  parse_fields-ok :
      (s : Db) (e : Entry)
      → Fits lim e
      → parse_fields lim (core e.key e.datoff e.datlen) s
        ≡ ok tt (record s { idxbuf = e.key; datoff = e.datoff; datlen = e.datlen })
  unfolding parse_fields
  parse_fields-ok s e f =
      rw
        (
          split_at_char-some sep e.key (decimal e.datoff ++ (sep ∷ decimal e.datlen))
              f.is_key.no_sep,
          parse_fields,
          split_at_char-some sep (decimal e.datoff) (decimal e.datlen)
              (decimal-NoChar sep e.datoff refl),
          split_at_char-none sep (decimal e.datlen) (decimal-NoChar sep e.datlen refl),
          atol_plain e.datoff,
          atol_plain e.datlen,
        )
        (set_fields-ok s e.key e.datoff e.datlen f.has_data f.data_fits)
    where
      atol_plain : (n : ℕ) → atol (decimal n) ≡ pos n
      atol_plain n = ap atol (sym (append-nil (decimal n))) ∙ atol-decimal n [] tt

  core-NoChar : (e : Entry) → IsKey e.key → NoChar 0 (core e.key e.datoff e.datlen)
  core-NoChar e h = NoChar-append 0 e.key _ h.no_nul (
    refl,
    NoChar-append 0 (decimal e.datoff) _ (decimal-NoChar 0 e.datoff refl)
        (refl, decimal-NoChar 0 e.datlen refl),
  )

  text_length : (e : Entry) → length (text_of e) ≡ length (core e.key e.datoff e.datlen) + 1
  text_length e =
      ap length (record_text-core e.key e.datoff e.datlen)
      ∙ length-append (core e.key e.datoff e.datlen) (newline ∷ [])

  last_newline : (e : Entry) → get_or (text_of e) (length (text_of e) - 1) 0 ≡ newline
  last_newline e =
      ap (λ t. get_or t (length (text_of e) - 1) 0) (record_text-core e.key e.datoff e.datlen)
      ∙ get_or-append (core e.key e.datoff e.datlen) [] newline 0 _ (omega (arith, text_length e))

  core_of_text :
      (e : Entry)
      → IsKey e.key
      → c_str (take (length (text_of e) - 1) (text_of e)) ≡ core e.key e.datoff e.datlen
  core_of_text e h =
      ap (λ t. c_str (take (length (text_of e) - 1) t)) (record_text-core e.key e.datoff e.datlen)
      ∙ ap c_str (
          take-append (core e.key e.datoff e.datlen) (newline ∷ []) _
            (omega (arith, text_length e)))
      ∙ c_str-NoChar _ (core-NoChar e h)

  -- The body of a record, once its eleven bytes of head are read.
  pub read_body-ok :
      (s : Db) (e : Entry)
      → Fits lim e
      → 0 < lim.idxlen_min
      → slice s.idx.offset (length (text_of e)) s.idx.bytes ≡ text_of e
      → (head : Bytes) → atol (take ptr_sz head) ≡ pos e.ptr
      → atol (drop ptr_sz head) ≡ pos (length (text_of e))
      → read_body lim head s
        ≡ ok (pos e.ptr) (record s {
          idx = record { bytes = s.idx.bytes; offset = s.idx.offset + length (text_of e) };
          idxbuf = e.key;
          idxlen = length (text_of e);
          datoff = e.datoff;
          datlen = e.datlen;
          ptrval = pos e.ptr;
        })
  unfolding read_body get_bytes read
  read_body-ok s e f p t head a b =
      rw (a, b, in_range)
        (rw (t, ==_refl, last_newline e, core_of_text e f.is_key, parse_fields-ok _ e f))
    where
      in_range :
          (leb lim.idxlen_min (length (text_of e)) && leb (length (text_of e)) lim.idxlen_max)
          ≡ true
      in_range = let lo = f.long_enough in let hi = f.short_enough in ground arith

  pub header_length :
      (e : Entry)
      → Fits lim e
      → lim.idxlen_max ≤ 9999
      → length (pad_left idxlen_sz (length (text_of e))) ≡ 4
  header_length e f h =
      length-pad_left 3 (length (text_of e)) (let hi = f.short_enough in omega arith)

  -- A record of the file at its offset.
  pub record EntryAt (bs : Bytes) (e : Entry) : Type 0 where
    pub fits : Fits lim e
    pub text : slice e.off (length (render e)) bs ≡ render e

  pub length-render :
      (e : Entry) → Fits lim e → lim.idxlen_max ≤ 9999 → length (render e) ≡ 11 + length (text_of e)
  length-render e f h = omega (
    arith,
    length-append (pad_left ptr_sz e.ptr) (pad_left idxlen_sz (length (text_of e)) ++ text_of e),
    length-append (pad_left idxlen_sz (length (text_of e))) (text_of e),
    length-ptr e.ptr f.fits_ptr,
    header_length e f h,
  )
