-- ===== src/Shell/Session.antt =====
-- main of more01/smsh1.c on an input of whole lines.
use unp_and_apue3e.Prelude.{
  ℕ, zero, suc, ◌≤◌, ◌<◌, ◌≡◌, refl, ap, false, some, List, [], ◌∷◌, ◌++◌, arith, ◌==◌, length,
  length-append, replicate, All,
}
use unp_and_apue3e.Text.{Bytes}
use unp_and_apue3e.Text.Chars.{NoChar, NoChar-append, c_str-NoChar}
use unp_and_apue3e.Shell.{newline, blank, next_cmd, read_loop, execute, main_loop, main}
use unp_and_apue3e.Shell.Lines.{next_cmd-line}
use unp_and_apue3e.Shell.Split.{IsWord, Gaps, spaced, words_of, splitline-spaced}

-- The words of a line, each behind its number of blanks, and the blanks at its end.
abbrev pub Typed : Type 0
Typed = List (ℕ × Bytes) × ℕ

-- Words with blanks between them that hold neither a newline nor a NUL.
pub record IsTyped (l : Typed) : Type 0 where
  pub words : All (λ p. IsWord p.1) l.0
  pub gaps : Gaps l.0
  pub no_newline : All (λ p. NoChar newline p.1) l.0
  pub no_nul : All (λ p. NoChar 0 p.1) l.0

unfoldable pub input_of : List Typed → Bytes
input_of [] = []
input_of (l ∷ ls) = spaced l.0 l.1 ++ newline ∷ input_of ls

-- The commands of the lines: one for each line with a word in it.
unfoldable pub commands : List Typed → List (List Bytes)
commands [] = []
commands (([], end) ∷ ls) = commands ls
commands ((w ∷ ws, end) ∷ ls) = words_of (w ∷ ws) ∷ commands ls

NoChar-replicate : (c n : ℕ) → (blank == c) ≡ false → NoChar c (replicate n blank)
NoChar-replicate c zero h = tt
NoChar-replicate c (suc n) h = (h, NoChar-replicate c n h)

NoChar-spaced :
    (c : ℕ) (ws : List (ℕ × Bytes)) (end : ℕ)
    → (blank == c) ≡ false
    → All (λ p. NoChar c p.1) ws
    → NoChar c (spaced ws end)
unfolding spaced
NoChar-spaced c [] end h a = NoChar-replicate c end h
NoChar-spaced c ((n, w) ∷ ws) end h (a, rest) =
    NoChar-append c (replicate n blank) _ (NoChar-replicate c n h)
      (NoChar-append c w _ a (NoChar-spaced c ws end h rest))

execute-commands :
    (l : Typed) (ls : List Typed) → execute (words_of l.0) (commands ls) ≡ commands (l ∷ ls)
unfolding execute commands
execute-commands ([], end) ls = refl
execute-commands (w ∷ ws, end) ls = refl

length-input : (ls : List Typed) → length ls ≤ length (input_of ls)
unfolding input_of
length-input [] = omega arith
length-input (l ∷ ls) =
    omega (arith, length-append (spaced l.0 l.1) (newline ∷ input_of ls), length-input ls)

module _ (bufsiz : ℕ) (eight : 8 ≤ bufsiz) where
  main_loop-commands :
      (ls : List Typed) (k : ℕ)
      → All IsTyped ls
      → length ls < k
      → main_loop bufsiz k (input_of ls) ≡ some (commands ls)
  unfolding main_loop input_of commands next_cmd read_loop
  main_loop-commands ls zero t h = absurd (omega arith)
  main_loop-commands [] (suc k) t h = refl
  main_loop-commands (l ∷ ls) (suc k) (t, ts) h =
      rw
        (
          main_loop,
          next_cmd-line bufsiz (omega arith) (spaced l.0 l.1) (input_of ls)
              (NoChar-spaced newline l.0 l.1 refl t.no_newline),
          c_str-NoChar (spaced l.0 l.1) (NoChar-spaced 0 l.0 l.1 refl t.no_nul),
          splitline-spaced bufsiz eight l.0 l.1 t.words t.gaps,
          main_loop-commands ls k ts (omega arith),
        )
        (ap some (execute-commands l ls))

  -- Where BUFSIZ is at least eight, on an input of lines, each of words of other characters than
  -- blank, newline and NUL with one blank or more between them and any number before and behind,
  -- main stores nothing outside its buffers and ends, and has run one command for each line with a
  -- word in it, with the words of the line, in the order of the lines.
  pub main-commands :
      (ls : List Typed) → All IsTyped ls → main bufsiz (input_of ls) ≡ some (commands ls)
  unfolding main
  main-commands ls t =
      main_loop-commands ls (suc (length (input_of ls))) t (omega (arith, length-input ls))
