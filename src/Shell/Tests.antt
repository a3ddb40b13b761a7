-- ===== src/Shell/Tests.antt =====
-- Lines typed at the shell.
use unp_and_apue3e.Prelude.{◌≡◌, refl, some, [], ◌∷◌, ◌++◌, arith}
use unp_and_apue3e.Text.{Bytes}
use unp_and_apue3e.Shell.{splitline, split_loop, main, skip_delims, word_end, put_word, expand_args}
use unp_and_apue3e.Shell.Split.{IsWord}
use unp_and_apue3e.Shell.Session.{Typed, IsTyped, input_of, commands, main-commands}

abbrev ls : Bytes
ls = b'l' ∷ b's' ∷ []

abbrev opt : Bytes
opt = b'-' ∷ b'l' ∷ []

abbrev typed : Typed
typed = ((1, ls) ∷ (2, opt) ∷ [], 1)

abbrev empty : Typed
empty = ([], 2)

ls-IsWord : IsWord ls
ls-IsWord = record { nonempty = omega arith; no_delim = (refl, (refl, tt)) }

opt-IsWord : IsWord opt
opt-IsWord = record { nonempty = omega arith; no_delim = (refl, (refl, tt)) }

typed-IsTyped : IsTyped typed
typed-IsTyped = record {
  words = (ls-IsWord, (opt-IsWord, tt));
  gaps = (omega arith, tt);
  no_newline = ((refl, (refl, tt)), ((refl, (refl, tt)), tt));
  no_nul = ((refl, (refl, tt)), ((refl, (refl, tt)), tt));
}

main-commands_example :
    main 16 (input_of (typed ∷ empty ∷ typed ∷ [])) ≡ some ((ls ∷ opt ∷ []) ∷ (ls ∷ opt ∷ []) ∷ [])
unfolding commands
main-commands_example = main-commands 16 (omega arith) (typed ∷ empty ∷ typed ∷ []) (
  typed-IsTyped,
  (record { words = tt; gaps = tt; no_newline = tt; no_nul = tt }, (typed-IsTyped, tt)),
)

-- A tab does not end a word.
tab : splitline 16 (ls ++ 9 ∷ opt) ≡ some ((ls ++ 9 ∷ opt) ∷ [])
unfolding splitline split_loop skip_delims word_end put_word expand_args
tab = refl
