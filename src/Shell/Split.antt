-- ===== src/Shell/Split.antt =====
-- splitline of more01/smsh1.c on words with blanks between them.
use unp_and_apue3e.Prelude.{
  ℕ, zero, suc, ◌+◌, ◌/◌, ◌≤◌, ◌<◌, ◌≡◌, refl, sym, ◌∙◌, ap, true, false, some, List, [], ◌∷◌, ◌++◌,
  append_assoc, append-nil, map, arith, ltb, leb, length, length-append, replicate, All, lt→ltb,
  Bool-cases, inl, inr,
}
use unp_and_apue3e.Text.{Bytes}
use unp_and_apue3e.Shell.{
  is_delim, blank, Args, expand_args, skip_delims, word_end, put_word, split_loop, splitline,
}

-- A word: not empty, and without delimiters.
pub record IsWord (w : Bytes) : Type 0 where
  pub nonempty : 0 < length w
  pub no_delim : All (λ c. is_delim c ≡ false) w

-- Each word behind its number of blanks, and blanks at the end.
unfoldable pub spaced : List (ℕ × Bytes) → ℕ → Bytes
spaced [] end = replicate end blank
spaced ((n, w) ∷ ws) end = replicate n blank ++ (w ++ spaced ws end)

abbrev pub words_of : List (ℕ × Bytes) → List Bytes
words_of = map λ p. p.1

skip_delims-blanks : (n : ℕ) (cp : Bytes) → skip_delims (replicate n blank ++ cp) ≡ skip_delims cp
unfolding skip_delims
skip_delims-blanks zero cp = refl
skip_delims-blanks (suc n) cp = skip_delims-blanks n cp

skip_delims-end : (n : ℕ) → skip_delims (replicate n blank) ≡ []
unfolding skip_delims
skip_delims-end zero = refl
skip_delims-end (suc n) = skip_delims-end n

-- Words that blanks stand between end where the blanks begin.
word_end-spaced :
    (w : Bytes) (ws : List (ℕ × Bytes)) (end : ℕ)
    → All (λ c. is_delim c ≡ false) w
    → All (λ p. 0 < p.0) ws
    → word_end (w ++ spaced ws end) ≡ (w, spaced ws end)
unfolding word_end spaced
word_end-spaced [] [] zero d g = refl
word_end-spaced [] [] (suc end) d g = refl
word_end-spaced [] ((zero, v) ∷ ws) end d (g, gs) = absurd (omega arith)
word_end-spaced [] ((suc n, v) ∷ ws) end d g = refl
word_end-spaced (c ∷ w) ws end (e, d) g = rw (e, word_end-spaced w ws end d g)

skip_first : (c : ℕ) (cp : Bytes) → is_delim c ≡ false → skip_delims (c ∷ cp) ≡ c ∷ cp
unfolding skip_delims
skip_first c cp h = rw h

-- Blanks stand between any two words.
abbrev pub Gaps : List (ℕ × Bytes) → Type 0
Gaps [] = Unit
Gaps (w ∷ ws) = All (λ p. 0 < p.0) ws

Gaps-after : (ws : List (ℕ × Bytes)) → All (λ p. 0 < p.0) ws → Gaps ws
Gaps-after [] g = tt
Gaps-after (w ∷ ws) (g, gs) = gs

length-spaced :
    (ws : List (ℕ × Bytes)) (end : ℕ)
    → All (λ p. IsWord p.1) ws
    → length ws ≤ length (spaced ws end)
unfolding spaced
length-spaced [] end i = omega arith
length-spaced ((n, w) ∷ ws) end (i, is) =
    let p = i.nonempty in
    omega (
      arith,
      length-append (replicate n blank) (w ++ spaced ws end),
      length-append w (spaced ws end),
      length-spaced ws end is,
    )

module _ (bufsiz : ℕ) (eight : 8 ≤ bufsiz) where
  -- The array is as large as spots says, and has room for one more pointer.
  record Roomy (a : Args) : Type 0 where
    room : length a.words + 1 ≤ a.spots
    backed : a.spots ≤ a.bufspace / 8

  -- realloc makes room for as many pointers as spots is raised by, one at least.
  quotients : (n : ℕ) → (1 ≤ bufsiz / 8) × (n / 8 + bufsiz / 8 ≤ (n + bufsiz) / 8)
  quotients n = (omega arith, omega arith)

  put_word-Roomy :
      (a : Args) (w : Bytes)
      → Roomy a
      → (b : Args) × (put_word bufsiz a w ≡ some b) × Roomy b × (b.words ≡ a.words ++ w ∷ [])
  unfolding put_word expand_args
  put_word-Roomy a w h = elim (Bool-cases (leb a.spots (length a.words + 1))) [
    | inl full ↦
        let e : Args = record a { bufspace = a.bufspace + bufsiz; spots = a.spots + bufsiz / 8 } in
        (
          record e { words = a.words ++ w ∷ [] },
          rw (
            full,
            lt→ltb (length a.words) (e.bufspace / 8) (
                let r = h.room in
                let b = h.backed in
                omega (arith, (quotients a.bufspace).0, (quotients a.bufspace).1)),
          ),
          record {
            room =
                (let r = h.room in
                  omega (arith, length-append a.words (w ∷ []), (quotients a.bufspace).0));
            backed =
                (let b = h.backed in
                  omega (arith, (quotients a.bufspace).0, (quotients a.bufspace).1));
          },
          refl,
        )
    | inr free ↦ (
      record a { words = a.words ++ w ∷ [] },
      rw (
        free,
        lt→ltb (length a.words) (a.bufspace / 8)
            (let r = h.room in let b = h.backed in ground (arith, free)),
      ),
      record {
        room = (let r = h.room in ground (arith, free, length-append a.words (w ∷ [])));
        backed = h.backed;
      },
      refl,
    )
  ]

  split_loop-spaced :
      (ws : List (ℕ × Bytes)) (end k : ℕ) (a : Args)
      → All (λ p. IsWord p.1) ws
      → Gaps ws
      → length ws < k
      → Roomy a
      → (b : Args) × (split_loop bufsiz k a (spaced ws end) ≡ some b)
        × Roomy b
        × (b.words ≡ a.words ++ words_of ws)
  unfolding split_loop spaced
  split_loop-spaced ws end zero a i g h r = absurd (omega arith)
  split_loop-spaced [] end (suc k) a i g h r =
      (a, rw (split_loop, skip_delims-end end), r, sym (append-nil a.words))
  split_loop-spaced ((n, []) ∷ ws) end (suc k) a (i, is) g h r =
      absurd (let p = i.nonempty in omega arith)
  split_loop-spaced ((n, c ∷ w) ∷ ws) end (suc k) a (i, is) g h r =
      let (b, put, roomy, words) = put_word-Roomy a (c ∷ w) r in
      let (e, rest, more, all) =
        split_loop-spaced ws end k b is (Gaps-after ws g) (omega arith) roomy in
      (
        e,
        rw
            (
              split_loop,
              skip_delims-blanks n ((c ∷ w) ++ spaced ws end),
              skip_first c (w ++ spaced ws end) i.no_delim.0,
              word_end-spaced w ws end i.no_delim.1 g,
              put,
            )
            (ap (λ p. split_loop bufsiz k b p.1) (word_end-spaced w ws end i.no_delim.1 g) ∙ rest),
        more,
        all ∙ ap (λ l. l ++ words_of ws) words ∙ append_assoc a.words ((c ∷ w) ∷ []) (words_of ws),
      )

  -- splitline returns the words of a line, however many there are.
  pub splitline-spaced :
      (ws : List (ℕ × Bytes)) (end : ℕ)
      → All (λ p. IsWord p.1) ws
      → Gaps ws
      → splitline bufsiz (spaced ws end) ≡ some (words_of ws)
  unfolding splitline
  splitline-spaced ws end i g =
      let (b, split, r, words) =
        split_loop-spaced ws end (suc (length (spaced ws end)))
          (record { words = []; spots = bufsiz / 8; bufspace = bufsiz }) i g
          (omega (arith, length-spaced ws end i)) start in
      let inside : ltb (length b.words) (b.bufspace / 8) ≡ true =
        let room = r.room in let backed = r.backed in lt→ltb _ _ (omega arith) in
      rw (splitline, split, inside) (ap some words)
    where
      start : Roomy (record { words = []; spots = bufsiz / 8; bufspace = bufsiz })
      start = record { room = omega arith; backed = omega arith }
