-- ===== src/OpenServer/Words.antt =====
-- What buf_args makes of words with one blank between each two.
use unp_and_apue3e.Prelude.{
  ℕ, zero, suc, ◌+◌, ◌≤◌, ◌<◌, ◌≡◌, refl, ◌∙◌, ap, true, false, none, some, List, [], ◌∷◌, ◌++◌,
  arith, leb, if◌then◌else◌, length, length-append, All, Bool-cases, inl, inr,
}
use unp_and_apue3e.Text.{Bytes}
use unp_and_apue3e.OpenServer.Args.{is_white, white_span, word_span, strtok, args_loop, buf_args}

-- A word: not empty, and without white space.
pub record IsWord (w : Bytes) : Type 0 where
  pub nonempty : 0 < length w
  pub no_white : All (λ c. is_white c ≡ false) w

unfoldable pub join : List Bytes → Bytes
join [] = []
join (w ∷ []) = w
join (w ∷ v ∷ ws) = w ++ 32 ∷ join (v ∷ ws)

word_span-word : (w r : Bytes) → All (λ c. is_white c ≡ false) w → word_span (w ++ 32 ∷ r) ≡ (w, r)
unfolding word_span
word_span-word [] r h = refl
word_span-word (c ∷ w) r h = rw (h.0, word_span-word w r h.1)

word_span-last : (w : Bytes) → All (λ c. is_white c ≡ false) w → word_span w ≡ (w, [])
unfolding word_span
word_span-last [] h = refl
word_span-last (c ∷ w) h = rw (h.0, word_span-last w h.1)

white_span-cons : (c : ℕ) (r : Bytes) → is_white c ≡ false → white_span (c ∷ r) ≡ ([], c ∷ r)
unfolding white_span
white_span-cons c r h = rw h

strtok-join : (w : Bytes) (ws : List Bytes) → IsWord w → strtok (join (w ∷ ws)) ≡ some (w, join ws)
unfolding strtok join
strtok-join [] ws h = absurd (let p = h.nonempty in omega arith)
strtok-join (c ∷ w) [] h =
    rw (white_span-cons c w h.no_white.0) (ap some (word_span-last (c ∷ w) h.no_white))
strtok-join (c ∷ w) (v ∷ ws) h =
    rw (white_span-cons c (w ++ 32 ∷ join (v ∷ ws)) h.no_white.0)
      (ap some (word_span-word (c ∷ w) (join (v ∷ ws)) h.no_white))

strtok-nil : strtok (join []) ≡ none
unfolding strtok white_span join
strtok-nil = refl

length-join : (ws : List Bytes) → All IsWord ws → length ws ≤ length (join ws)
unfolding join
length-join [] h = omega arith
length-join (w ∷ []) h = h.0.nonempty
length-join (w ∷ v ∷ ws) h =
    let p = h.0.nonempty in
    omega (arith, length-append w (32 ∷ join (v ∷ ws)), length-join (v ∷ ws) h.1)

args_loop-join :
    (ws : List Bytes) (k argc : ℕ)
    → All IsWord ws
    → length ws < k
    → argc ≤ 48
    → args_loop k argc (join ws) ≡ (if leb (argc + length ws) 48 then some ws else none)
unfolding args_loop
args_loop-join ws zero argc h l a = absurd (omega arith)
args_loop-join [] (suc k) argc h l a = rw (strtok-nil, args_loop) (ground arith)
args_loop-join (w ∷ ws) (suc k) argc h l a = elim (Bool-cases (leb 49 (argc + 1))) [
  | inl full ↦ rw (strtok-join w ws h.0, args_loop, full) (ground arith)
  | inr room ↦
      rw
        (
          strtok-join w ws h.0,
          args_loop,
          room,
          args_loop-join ws k (argc + 1) h.1 (omega arith) (ground arith),
        )
        (ground arith)
]

white_span_nil : (w : Bytes) (ws : List Bytes) → IsWord w → (white_span (join (w ∷ ws))).0 ≡ []
unfolding join
white_span_nil [] ws h = absurd (let p = h.nonempty in omega arith)
white_span_nil (c ∷ w) [] h = ap (λ p. p.0) (white_span-cons c w h.no_white.0)
white_span_nil (c ∷ w) (v ∷ ws) h =
    ap (λ p. p.0) (white_span-cons c (w ++ 32 ∷ join (v ∷ ws)) h.no_white.0)

args_loop-rest :
    (w : Bytes) (ws : List Bytes)
    → All IsWord (w ∷ ws)
    → args_loop (suc (length (join ws))) 0 (join ws)
      ≡ (if leb (length (w ∷ ws)) 49 then some ws else none)
args_loop-rest w ws h =
    args_loop-join ws (suc (length (join ws))) 0 h.1 (omega (arith, length-join ws h.1))
      (omega arith)
    ∙ ground arith

-- Words with one blank between each two come back from buf_args as its argv, up to forty-nine of
-- them, and more are refused.
pub buf_args-join :
    (w : Bytes) (ws : List Bytes)
    → All IsWord (w ∷ ws)
    → buf_args (join (w ∷ ws)) ≡ (if leb (length (w ∷ ws)) 49 then some (w ∷ ws) else none)
unfolding buf_args
buf_args-join w ws h = elim (Bool-cases (leb (length (w ∷ ws)) 49)) [
  | inl few ↦
      let all : args_loop (suc (length (join ws))) 0 (join ws) ≡ some ws =
        args_loop-rest w ws h ∙ rw few refl in
      rw (strtok-join w ws h.0, buf_args, all, white_span_nil w ws h.0, few)
  | inr many ↦
      let over : args_loop (suc (length (join ws))) 0 (join ws) ≡ none =
        args_loop-rest w ws h ∙ rw many refl in
      rw (strtok-join w ws h.0, buf_args, over, many)
]

white_strtok : (c : ℕ) (s : Bytes) → is_white c ≡ true → strtok (c ∷ s) ≡ strtok s
unfolding strtok white_span
white_strtok c s h = rw h

white_front :
    (c : ℕ) (s : Bytes) → is_white c ≡ true → (white_span (c ∷ s)).0 ≡ c ∷ (white_span s).0
unfolding white_span
white_front c s h = rw h

-- Where one white-space character stands before at most forty-nine words, argv[0] begins with that
-- character, and the other arguments are the words.
pub buf_args-white :
    (c : ℕ) (w : Bytes) (ws : List Bytes)
    → is_white c ≡ true
    → All IsWord (w ∷ ws)
    → length (w ∷ ws) ≤ 49
    → buf_args (c ∷ join (w ∷ ws)) ≡ some ((c ∷ w) ∷ ws)
unfolding buf_args
buf_args-white c w ws white h room =
    let few : leb (length (w ∷ ws)) 49 ≡ true = ground arith in
    let all : args_loop (suc (length (join ws))) 0 (join ws) ≡ some ws =
      args_loop-rest w ws h ∙ rw few refl in
    rw (
      white_strtok c (join (w ∷ ws)) white,
      strtok-join w ws h.0,
      buf_args,
      all,
      white_front c (join (w ∷ ws)) white,
      white_span_nil w ws h.0,
    )
