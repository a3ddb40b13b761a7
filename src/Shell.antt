-- ===== src/Shell.antt =====
-- The shell of more01/smsh1.c: the reading of a line, its words, and the commands that are run.
pub mod Lines
pub mod Split
pub mod Session
mod Tests
use unp_and_apue3e.Prelude.{
  ℕ, zero, suc, ◌+◌, ◌/◌, Bool, true, false, ◌||◌, Option, none, some, List, [], ◌∷◌, ◌++◌, ◌==◌,
  ltb, leb, if◌then◌else◌, length,
}
use unp_and_apue3e.Text.{Bytes, c_str}

abbrev pub newline : ℕ
newline = 10

abbrev pub blank : ℕ
blank = 32

-- The value of the constant '/t' of two characters, which is no char.
abbrev pub slash_t : ℕ
slash_t = 12148

abbrev pub is_delim : ℕ → Bool
is_delim c = (c == blank) || (c == slash_t)

-- buf, pos characters of it, and its size.
pub record Buf : Type 0 where
  pub text : Bytes
  pub bufspace : ℕ

-- What next_cmd returns, with the input that is left: a null pointer, a line, or a store behind
-- the end of buf.
pub data Line : Type 0 where
  end_of_file : Line
  line : Bytes → Bytes → Line
  fault : Line

-- buf[pos] = '\0'
unfoldable pub ended : Buf → Bytes → Line
ended b input = if ltb (length b.text) b.bufspace then line b.text input else fault

abbrev pub at_eof : Buf → Line
at_eof b = if length b.text == 0 then end_of_file else ended b []

-- args with argnum words in it, spots and bufspace.
pub record Args : Type 0 where
  pub words : List Bytes
  pub spots : ℕ
  pub bufspace : ℕ

-- A pointer has eight bytes.
abbrev pub sizeof_ptr : ℕ
sizeof_ptr = 8

-- A store at args[argnum] is inside args.
abbrev pub has_room : Args → Bool
has_room a = ltb (length a.words) (a.bufspace / sizeof_ptr)

unfoldable pub skip_delims : Bytes → Bytes
skip_delims [] = []
skip_delims (c ∷ cp) = let rest : Bytes = skip_delims cp in if is_delim c then rest else c ∷ cp

-- The characters up to a delimiter, and the rest.
unfoldable pub word_end : Bytes → Bytes × Bytes
word_end [] = ([], [])
word_end (c ∷ cp) =
    let (w, rest) = word_end cp in if is_delim c then ([], c ∷ cp) else (c ∷ w, rest)

-- execute runs the program whose name is argv[0], if there is one.
unfoldable pub execute : List Bytes → List (List Bytes) → List (List Bytes)
execute [] runs = runs
execute (name ∷ args) runs = (name ∷ args) ∷ runs

-- BUFSIZ is of stdio.h.
module _ (bufsiz : ℕ) where
  -- if(pos + 1 >= bufspace)
  unfoldable pub expand : Buf → Buf
  expand b =
      if leb b.bufspace (length b.text + 1) then record b { bufspace = b.bufspace + bufsiz } else b

  unfoldable pub read_loop : Buf → Bytes → Line
  read_loop b [] = at_eof b
  read_loop b (c ∷ input) =
      let e = expand b in
      let rest : Line = read_loop (record e { text = e.text ++ c ∷ [] }) input in
      if c == newline
      then ended e input
      else (if ltb (length e.text) e.bufspace then rest else fault)

  -- next_cmd on the input that is left.
  unfoldable pub next_cmd : Bytes → Line
  next_cmd input = read_loop (record { text = []; bufspace = 0 }) input

  -- if(argnum + 1 >= spots)
  unfoldable pub expand_args : Args → Args
  expand_args a =
      if leb a.spots (length a.words + 1)
      then record a { bufspace = a.bufspace + bufsiz; spots = a.spots + bufsiz / sizeof_ptr }
      else a

  -- args[argnum++] = newstr(start, len)
  unfoldable pub put_word : Args → Bytes → Option Args
  put_word a w =
      let e = expand_args a in
      if has_room e then some (record e { words = e.words ++ w ∷ [] }) else none

  -- `none` is a store behind the end of args, or no end within the fuel.
  unfoldable pub split_loop : ℕ → Args → Bytes → Option Args
  split_loop zero a cp = none
  split_loop (suc k) a cp = elim (skip_delims cp) [
    | [] ↦ some a
    | c ∷ cp2 ↦
        let (w, rest) = word_end cp2 in
        elim (put_word a (c ∷ w)) [ none ↦ none | some b ↦ split_loop k b rest ]
  ]

  -- splitline; each round takes a character at least.
  unfoldable pub splitline : Bytes → Option (List Bytes)
  splitline text =
      elim (split_loop (suc (length text))
        (record { words = []; spots = bufsiz / sizeof_ptr; bufspace = bufsiz }) text) [
          | none ↦ none
          | some a ↦ if has_room a then some a.words else none
        ]

  -- The loop of main: the commands that are run, in their order.
  unfoldable pub main_loop : ℕ → Bytes → Option (List (List Bytes))
  main_loop zero input = none
  main_loop (suc k) input = elim (next_cmd input) [
    | end_of_file ↦ some []
    | fault ↦ none
    | line text rest ↦ elim (splitline (c_str text)) [
      | none ↦ none
      | some argv ↦ elim (main_loop k rest) [ none ↦ none | some runs ↦ some (execute argv runs) ]
    ]
  ]

  unfoldable pub main : Bytes → Option (List (List Bytes))
  main input = main_loop (suc (length input)) input
