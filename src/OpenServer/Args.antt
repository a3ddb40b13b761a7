-- ===== src/OpenServer/Args.antt =====
-- buf_args of more01/apue.3e/lib/bufargs.c: a request's text, taken apart by strtok(3).
use unp_and_apue3e.Prelude.{
  ℕ, zero, suc, ◌+◌, ◌-◌, Bool, ◌||◌, Option, none, some, List, [], ◌∷◌, ◌++◌, ◌==◌, leb,
  if◌then◌else◌, length,
}
use unp_and_apue3e.Text.{Bytes}

abbrev pub max_argc : ℕ
max_argc = 50

-- Blank, tab and newline.
abbrev pub is_white : ℕ → Bool
is_white c = (c == 32) || (c == 9) || (c == 10)

-- The white space at the front, and what follows it.
unfoldable pub white_span : Bytes → Bytes × Bytes
white_span [] = ([], [])
white_span (c ∷ s) = if is_white c then (let (w, r) = white_span s in (c ∷ w, r)) else ([], c ∷ s)

-- What stands before the first white space, and what follows that character, which becomes a NUL.
unfoldable pub word_span : Bytes → Bytes × Bytes
word_span [] = ([], [])
word_span (c ∷ s) = if is_white c then ([], s) else (let (w, r) = word_span s in (c ∷ w, r))

-- strtok: the token and what is left, or `none` where only white space is left.
abbrev token_of : Bytes → Option (Bytes × Bytes)
token_of [] = none
token_of (c ∷ s) = some (word_span (c ∷ s))

unfoldable pub strtok : Bytes → Option (Bytes × Bytes)
strtok s = token_of (white_span s).1

-- The loop of buf_args: the arguments behind argv[argc], or `none` for its `return(-1)`.
unfoldable pub args_loop : ℕ → ℕ → Bytes → Option (List Bytes)
args_loop zero argc s = none
args_loop (suc k) argc s = elim (strtok s) [
  | none ↦ some []
  | some (word, rest) ↦
      let more = args_loop k (argc + 1) rest in
      if leb (max_argc - 1) (argc + 1)
      then none
      else elim more [ none ↦ none | some args ↦ some (word ∷ args) ]
]

-- argv, of which argv[0] is the buffer itself: the first token with the white space before it. The
-- fuel is above the number of characters, so above that of tokens.
unfoldable pub buf_args : Bytes → Option (List Bytes)
buf_args s = elim (strtok s) [
  | none ↦ none
  | some (word, rest) ↦ elim (args_loop (suc (length rest)) 0 rest) [
    | none ↦ none
    | some args ↦ some (((white_span s).0 ++ word) ∷ args)
  ]
]
