-- ===== src/Printer/Read.antt =====
-- What a printer reads of the requests of more01/apue.3e/printer/printd.c.
use unp_and_apue3e.Prelude.{
  ℕ, zero, suc, ◌+◌, ◌*◌, ◌/◌, ◌%◌, ◌^◌, ◌≤◌, ◌<◌, ◌≡◌, ◌≢◌, refl, sym, ◌∙◌, ap, Bool, true, false,
  Option, none, some, List, [], ◌∷◌, ◌++◌, arith, length, length-append, take, drop, take-append,
  drop-append, append_assoc, if◌then◌else◌, ◌==◌, ltb, leb, All, ==_refl, ne→==, pos, Bool-cases,
  inl, inr,
}
use unp_and_apue3e.Text.{Bytes, atol, decimal}
use unp_and_apue3e.Text.Number.{atol-decimal}
use unp_and_apue3e.Text.Literal.{text}
use unp_and_apue3e.Printer.Options.{
  Ipp, Print, ◌>>=◌, str_size, htons, option_bytes, add_option, put_byte, uri, document_format,
  attributes, ibuf, hbuf, extra, body, sent,
}

abbrev pub Attribute : Type 0
Attribute = ℕ × Bytes × Bytes

-- A length in two bytes and so many bytes, and what is behind them.
unfoldable pub read_field : Bytes → Option (Bytes × Bytes)
read_field (h ∷ l ∷ s) =
    let n = h * 256 + l in if leb n (length s) then some (take n s, drop n s) else none
read_field s = none

abbrev pub read_value : ℕ → Option (Bytes × Bytes) → Option (Attribute × Bytes)
read_value t none = none
read_value t (some (name, s)) = elim (read_field s) [
  | none ↦ none
  | some (value, rest) ↦ some ((t, name, value), rest)
]

-- A tag, a name and a value.
unfoldable pub read_attribute : Bytes → Option (Attribute × Bytes)
read_attribute [] = none
read_attribute (t ∷ s) = read_value t (read_field s)

abbrev pub cons : Attribute → Option (List Attribute) → Option (List Attribute)
cons a none = none
cons a (some rest) = some (a ∷ rest)

-- The attributes up to the tag that ends them, behind which nothing is left.
unfoldable pub read_attributes : ℕ → ℕ → Bytes → Option (List Attribute)
read_attributes zero end s = none
read_attributes (suc k) end [] = none
read_attributes (suc k) end (t ∷ s) =
    if t == end then (if length s == 0 then some [] else none) else elim (read_attribute (t ∷ s)) [
      | none ↦ none
      | some (a, rest) ↦ cons a (read_attributes k end rest)
    ]

read_field-htons :
    (x s : Bytes) → length x < 65536 → read_field (htons (length x) ++ (x ++ s)) ≡ some (x, s)
unfolding read_field htons
read_field-htons x s h =
    let n : length x / 256 % 256 * 256 + length x % 256 ≡ length x = omega arith in
    let fits : leb (length x) (length (x ++ s)) ≡ true = ground (arith, length-append x s) in
    rw (n, fits, take-append x s (length x) refl, drop-append x s (length x) refl) refl

read_attribute-option :
    (t : ℕ) (name value s : Bytes)
    → length name < 65536
    → length value < 65536
    → read_attribute (option_bytes t name value ++ s) ≡ some ((t, name, value), s)
unfolding read_attribute option_bytes
read_attribute-option t name value s h g =
    let rest = htons (length value) ++ (value ++ s) in
    rw
      (
        append_assoc,
        append_assoc,
        append_assoc,
        read_field-htons name rest h,
        read_value,
        read_field-htons value s g,
      )
      refl

step :
    (k end t : ℕ) (name value s : Bytes)
    → t ≢ end
    → length name < 65536
    → length value < 65536
    → read_attributes (suc k) end (option_bytes t name value ++ s)
      ≡ cons (t, name, value) (read_attributes k end s)
unfolding read_attributes option_bytes
step k end t name value s ne h g =
    let r = read_attribute-option t name value s h g in rw (ne→== t end ne, r) refl

length-option :
    (tag : ℕ) (name value : Bytes)
    → length (option_bytes tag name value) ≡ 5 + length name + length value
unfolding option_bytes htons
length-option tag name value =
    let tail = htons (length value) ++ value in omega (arith, length-append name tail)

-- An option for which there is room.
add_option-room :
    (size tag : ℕ) (name value buf : Bytes)
    → length buf + 5 + length name + length value < size
    → add_option size tag name value buf ≡ some (buf ++ option_bytes tag name value)
unfolding add_option
add_option-room size tag name value buf h =
    let opt = option_bytes tag name value in
    let fits : ltb (length (buf ++ opt)) size ≡ true =
      ground (arith, length-append buf opt, length-option tag name value) in
    rw fits refl

-- The options one after another, and the tag behind them.
unfoldable add_all : ℕ → ℕ → List Attribute → Bytes → Option Bytes
add_all size end [] buf = put_byte size end buf
add_all size end ((t, name, value) ∷ xs) buf =
    add_option size t name value buf >>= λ b. add_all size end xs b

-- The number of bytes of options.
unfoldable total : List Attribute → ℕ
total [] = 0
total ((t, name, value) ∷ xs) = 5 + length name + length value + total xs

add_all-read :
    (size end : ℕ) (xs : List Attribute) (buf : Bytes)
    → All (λ a. a.0 ≢ end) xs
    → length buf + total xs < size
    → size ≤ 2 ^ 16
    → (s : Bytes) × (add_all size end xs buf ≡ some (buf ++ s))
      × (read_attributes (suc (length xs)) end s ≡ some xs)
unfolding add_all total put_byte read_attributes
add_all-read size end [] buf other room small =
    let fits : ltb (length buf) size ≡ true = ground arith in
    (end ∷ [], rw fits refl, rw (==_refl end) refl)
add_all-read size end ((t, name, value) ∷ xs) buf (ne, other) room small =
    let opt = option_bytes t name value in
    let long = length-option t name value in
    let added = add_option-room size t name value buf (omega arith) in
    let (s, made, read) =
      add_all-read size end xs (buf ++ opt) other (omega (arith, length-append buf opt, long))
        small in
    (
      opt ++ s,
      rw added (made ∙ ap some (append_assoc buf opt s)),
      step (suc (length xs)) end t name value s ne (omega arith) (omega arith)
          ∙ ap (cons (t, name, value)) read,
    )

-- The options of a request, with the name of the printer in the third.
abbrev options : Ipp → Bytes → Print → List Attribute
options c str j =
    (c.tag_charset, text "attributes-charset", text "utf-8")
    ∷ (c.tag_natulang, text "attributes-natural-language", text "en-us")
    ∷ (c.tag_uri, text "printer-uri", str)
    ∷ (c.tag_namewolang, text "requesting-user-name", j.usernm)
    ∷ (c.tag_namewolang, text "job-name", j.jobnm)
    ∷ (c.tag_mimetype, text "document-format", document_format j.pr_text)
    ∷ []

attributes-all :
    (c : Ipp) (printer_name : Bytes) (j : Print) (b str : Bytes)
    → uri printer_name ≡ some str
    → attributes c printer_name j b ≡ add_all c.ibufsz c.tag_end_of_attr (options c str j) b
unfolding attributes add_all
attributes-all c printer_name j b str e = rw e refl

length-uri : (p : Bytes) → length (text "http://" ++ p ++ text "/ipp") ≡ length p + 11
unfolding text
length-uri p = omega (arith, length-append p (47 ∷ 105 ∷ 112 ∷ 112 ∷ []))

-- Where no tag is the tag that ends the attributes, http://printer_name/ipp and a NUL fit into the
-- 64 bytes of str, and what ibuf has already, the six attributes and the tag behind them fit into
-- IBUFSZ bytes, which are at most 2 ^ 16, the attributes are stored behind what ibuf has, no store
-- being outside a buffer, and a reader of tags, two-byte lengths and texts gets the six attributes
-- back, in their order, with nothing left behind them.
pub read_attributes-attributes :
    (c : Ipp) (printer_name : Bytes) (j : Print) (b : Bytes)
    → c.tag_charset ≢ c.tag_end_of_attr
    → c.tag_natulang ≢ c.tag_end_of_attr
    → c.tag_uri ≢ c.tag_end_of_attr
    → c.tag_namewolang ≢ c.tag_end_of_attr
    → c.tag_mimetype ≢ c.tag_end_of_attr
    → length printer_name + 11 < str_size
    → length b
        + 151
        + length printer_name
        + length j.usernm
        + length j.jobnm
        + length (document_format j.pr_text)
      ≤ c.ibufsz
    → c.ibufsz ≤ 2 ^ 16
    → (s : Bytes) × (attributes c printer_name j b ≡ some (b ++ s))
      × (read_attributes 7 c.tag_end_of_attr s
          ≡ some (
              (c.tag_charset, text "attributes-charset", text "utf-8")
              ∷ (c.tag_natulang, text "attributes-natural-language", text "en-us")
              ∷ (c.tag_uri, text "printer-uri", text "http://" ++ printer_name ++ text "/ipp")
              ∷ (c.tag_namewolang, text "requesting-user-name", j.usernm)
              ∷ (c.tag_namewolang, text "job-name", j.jobnm)
              ∷ (c.tag_mimetype, text "document-format", document_format j.pr_text)
              ∷ []))
unfolding uri text total
read_attributes-attributes c printer_name j b n1 n2 n3 n4 n5 short room small =
    let str = text "http://" ++ printer_name ++ text "/ipp" in
    let long : length str ≡ length printer_name + 11 = length-uri printer_name in
    let fits : ltb (length str) str_size ≡ true = ground (arith, long) in
    let (s, made, read) =
      add_all-read c.ibufsz c.tag_end_of_attr (options c str j) b
        (n1, (n2, (n3, (n4, (n4, (n5, tt)))))) (omega (arith, long)) small in
    (s, attributes-all c printer_name j b str (rw fits refl) ∙ made, read)

length-between :
    (a f : Bytes) (b : Bool)
    → length (a ++ (if b then 8 ∷ [] else []) ++ f) ≡ length f + length a + extra b
length-between a f true = omega (arith, length-append (a ++ 8 ∷ []) f, length-append a (8 ∷ []))
length-between a f false = omega (arith, length-append (a ++ []) f, length-append a [])

-- What hbuf is where it has room.
abbrev head_text : Ipp → Bytes → ℕ → Bytes
head_text c printer_name n =
    text "POST /ipp HTTP/1.1\r\nContent-Length: "
    ++ (decimal n
        ++ (text "\r\nContent-Type: application/ipp\r\nHost: "
            ++ (printer_name ++ (text ":" ++ (decimal c.ipp_port ++ text "\r\n\r\n")))))

hbuf-text :
    (c : Ipp) (printer_name : Bytes) (size ilen : ℕ) (pr_text : Bool) (h : Bytes)
    → hbuf c printer_name size ilen pr_text ≡ some h
    → h ≡ head_text c printer_name (size + ilen + extra pr_text)
unfolding hbuf
hbuf-text c printer_name size ilen pr_text h e =
    let t = head_text c printer_name (size + ilen + extra pr_text) in
    elim (Bool-cases (leb (length t) c.hbufsz)) [
      | inl fits ↦ let same : some t ≡ some h = rw fits at e in cc
      | inr over ↦ let lost : none ≡ some h = rw over at e in absurd (cc)
    ]

-- Where the head and the attributes have room in their buffers, the number behind Content-Length in
-- what printer_thread sends for a job is the number of bytes that it sends behind the head, for a
-- plain text with the backspace before it and for PostScript without.
atol-sent :
    (c : Ipp) (printer_name : Bytes) (j : Print) (file i h s : Bytes)
    → ibuf c printer_name j ≡ some i
    → hbuf c printer_name (length file) (length i) j.pr_text ≡ some h
    → sent c printer_name j file ≡ some s
    → atol (drop (length (text "POST /ipp HTTP/1.1\r\nContent-Length: ")) s)
      ≡ pos (length (body i j.pr_text file))
unfolding sent hbuf body text
atol-sent c printer_name j file i h s ei eh es =
    let n = length file + length i + extra j.pr_text in
    let long : length (body i j.pr_text file) ≡ n = length-between i file j.pr_text in
    let all : some (h ++ body i j.pr_text file) ≡ some s = rw (ei, eh) at es in
    let head : h ≡ head_text c printer_name n =
      hbuf-text c printer_name (length file) (length i) j.pr_text h eh in
    let same : h ++ body i j.pr_text file ≡ s = cc in
    rw (← same, head, head_text, append_assoc) (atol-decimal n _ refl) ∙ ap pos (sym long)
