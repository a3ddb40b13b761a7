-- ===== src/Printer/Options.antt =====
-- The requests that printer_thread of more01/apue.3e/printer/printd.c sends: the attributes of
-- add_option, and the head in front of them.
use unp_and_apue3e.Prelude.{
  ℕ, ◌+◌, ◌/◌, ◌%◌, Bool, Option, none, some, [], ◌∷◌, ◌++◌, length, ltb, leb, if◌then◌else◌,
}
use unp_and_apue3e.Text.{Bytes, decimal}
use unp_and_apue3e.Text.Literal.{text}

-- The names of ipp.h, which is not in the repository, with the bytes of `struct ipp_hdr` up to its
-- field attr_group, for a request ID; and IBUFSZ and HBUFSZ, which are not in it either.
pub record Ipp : Type 0 where
  pub tag_operation_attr : ℕ
  pub tag_charset : ℕ
  pub tag_natulang : ℕ
  pub tag_uri : ℕ
  pub tag_namewolang : ℕ
  pub tag_mimetype : ℕ
  pub tag_end_of_attr : ℕ
  pub ipp_port : ℕ
  pub header : ℕ → Bytes
  pub ibufsz : ℕ
  pub hbufsz : ℕ

-- The two bytes of a number of 16 bits, as htons orders them.
unfoldable pub htons : ℕ → Bytes
htons n = (n / 256 % 256) ∷ (n % 256) ∷ []

-- `none` is a store outside a buffer.
infixl 5 ◌>>=◌
abbrev pub ◌>>=◌ : Option Bytes → (Bytes → Option Bytes) → Option Bytes
none >>= f = none
some s >>= f = f s

-- What strcpy or sprintf leaves in an array of `size` bytes, which has room for the NUL too.
abbrev pub with_nul : ℕ → Bytes → Option Bytes
with_nul size s = if ltb (length s) size then some s else none

-- The bytes of an option.
unfoldable pub option_bytes : ℕ → Bytes → Bytes → Bytes
option_bytes tag optname optval =
    tag ∷ (htons (length optname) ++ (optname ++ (htons (length optval) ++ optval)))

-- add_option at the end of what is in a buffer of `size` bytes, which the result ends behind.
unfoldable pub add_option : ℕ → ℕ → Bytes → Bytes → Bytes → Option Bytes
add_option size tag optname optval buf = with_nul size (buf ++ option_bytes tag optname optval)

-- *icp++ = c
unfoldable pub put_byte : ℕ → ℕ → Bytes → Option Bytes
put_byte size c buf = if ltb (length buf) size then some (buf ++ c ∷ []) else none

-- What printer_thread reads of a job: its number, the names, and is PR_TEXT set in the flags?
pub record Print : Type 0 where
  pub jobid : ℕ
  pub usernm : Bytes
  pub jobnm : Bytes
  pub pr_text : Bool

-- char str[64]
abbrev pub str_size : ℕ
str_size = 64

-- sprintf(str, "http://%s/ipp", printer_name)
unfoldable pub uri : Bytes → Option Bytes
uri printer_name = with_nul str_size (text "http://" ++ printer_name ++ text "/ipp")

unfoldable pub document_format : Bool → Bytes
document_format pr_text = if pr_text then text "text/plain" else text "application/postscript"

-- The attributes, from the first option on, behind what is in ibuf.
unfoldable pub attributes : Ipp → Bytes → Print → Bytes → Option Bytes
attributes c printer_name j b0 = do
  b1 ← add_option c.ibufsz c.tag_charset (text "attributes-charset") (text "utf-8") b0
  b2 ← add_option c.ibufsz c.tag_natulang (text "attributes-natural-language") (text "en-us") b1
  str ← uri printer_name
  b3 ← add_option c.ibufsz c.tag_uri (text "printer-uri") str b2
  b4 ← add_option c.ibufsz c.tag_namewolang (text "requesting-user-name") j.usernm b3
  b5 ← add_option c.ibufsz c.tag_namewolang (text "job-name") j.jobnm b4
  b6 ← add_option c.ibufsz c.tag_mimetype (text "document-format") (document_format j.pr_text) b5
  put_byte c.ibufsz c.tag_end_of_attr b6

-- What stands in ibuf.
unfoldable pub ibuf : Ipp → Bytes → Print → Option Bytes
ibuf c printer_name j =
    if leb (length (c.header j.jobid)) c.ibufsz
    then (do
      b ← put_byte c.ibufsz c.tag_operation_attr (c.header j.jobid)
      attributes c printer_name j b)
    else none

abbrev pub extra : Bool → ℕ
extra pr_text = if pr_text then 1 else 0

-- What stands in hbuf, for a file of `size` bytes; the last two bytes take the place of a NUL.
unfoldable pub hbuf : Ipp → Bytes → ℕ → ℕ → Bool → Option Bytes
hbuf c printer_name size ilen pr_text =
    let s =
      text "POST /ipp HTTP/1.1\r\nContent-Length: "
      ++ (decimal (size + ilen + extra pr_text)
          ++ (text "\r\nContent-Type: application/ipp\r\nHost: "
              ++ (printer_name ++ (text ":" ++ (decimal c.ipp_port ++ text "\r\n\r\n"))))) in
    if leb (length s) c.hbufsz then some s else none

-- What is sent behind hbuf where no write fails: ibuf, a backspace before a plain text, the file.
unfoldable pub body : Bytes → Bool → Bytes → Bytes
body ibuf pr_text file = ibuf ++ (if pr_text then 8 ∷ [] else []) ++ file

-- All that is sent.
unfoldable pub sent : Ipp → Bytes → Print → Bytes → Option Bytes
sent c printer_name j file = do
  i ← ibuf c printer_name j
  h ← hbuf c printer_name (length file) (length i) j.pr_text
  some (h ++ body i j.pr_text file)
