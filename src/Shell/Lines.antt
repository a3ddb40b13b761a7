-- ===== src/Shell/Lines.antt =====
-- next_cmd of more01/smsh1.c: the line that it returns, and the buffer that it grows.
use unp_and_apue3e.Prelude.{
  ℕ, ◌+◌, ◌≤◌, ◌<◌, ◌≡◌, refl, sym, ◌∙◌, ap, true, [], ◌∷◌, ◌++◌, append_assoc, append-nil, arith,
  ltb, leb, length, length-append, ◌⊎◌, inl, inr, lt→ltb, ne→==, Bool-cases,
}
use unp_and_apue3e.Text.{Bytes}
use unp_and_apue3e.Text.Chars.{NoChar}
use unp_and_apue3e.Shell.{newline, Buf, line, expand, ended, read_loop, next_cmd}

-- There is room for the NUL, or the buffer is not there yet.
abbrev HasRoom : Buf → Type 0
HasRoom b = (length b.text + 1 ≤ b.bufspace) ⊎ ((b.text ≡ []) × (b.bufspace ≡ 0))

module _ (bufsiz : ℕ) (two : 2 ≤ bufsiz) where
  expand-text : (b : Buf) → (expand bufsiz b).text ≡ b.text
  unfolding expand
  expand-text b = elim (Bool-cases (leb b.bufspace (length b.text + 1))) [
    | inl full ↦ rw full refl
    | inr room ↦ rw room refl
  ]

  expand-room : (b : Buf) → HasRoom b → length b.text + 2 ≤ (expand bufsiz b).bufspace
  unfolding expand
  expand-room b (inl room) = ground arith
  expand-room b (inr (none_yet, no_space)) = let l = ap length none_yet in ground arith

  -- One character goes into the buffer.
  abbrev stored : Buf → ℕ → Buf
  stored b c = record (expand bufsiz b) { text = (expand bufsiz b).text ++ c ∷ [] }

  stored-HasRoom : (b : Buf) (c : ℕ) → HasRoom b → HasRoom (stored b c)
  stored-HasRoom b c h = inl (
      omega (
        arith,
        length-append (expand bufsiz b).text (c ∷ []),
        ap length (expand-text b),
        expand-room b h,
      ))

  store_inside :
      (b : Buf) → HasRoom b → ltb (length (expand bufsiz b).text) (expand bufsiz b).bufspace ≡ true
  store_inside b h = lt→ltb _ _ (omega (arith, ap length (expand-text b), expand-room b h))

  read_loop-line :
      (l rest : Bytes) (b : Buf)
      → NoChar newline l
      → HasRoom b
      → read_loop bufsiz b (l ++ newline ∷ rest) ≡ line (b.text ++ l) rest
  unfolding read_loop ended
  read_loop-line [] rest b n h =
      rw (store_inside b h) (ap (λ t. line t rest) (expand-text b ∙ sym (append-nil b.text)))
  read_loop-line (c ∷ l) rest b (other, n) h =
      rw (other, store_inside b h)
        (read_loop-line l rest (stored b c) n (stored-HasRoom b c h)
          ∙ ap (λ t. line t rest)
              (ap (λ t. (t ++ c ∷ []) ++ l) (expand-text b) ∙ append_assoc b.text (c ∷ []) l))

  stored-length : (b : Buf) (c : ℕ) → length (stored b c).text ≡ length b.text + 1
  stored-length b c =
      omega (arith, length-append (expand bufsiz b).text (c ∷ []), ap length (expand-text b))

  stored-room : (b : Buf) (c : ℕ) → HasRoom b → length (stored b c).text + 1 ≤ (stored b c).bufspace
  stored-room b c h = omega (arith, stored-length b c, expand-room b h)

  read_loop-last :
      (l : Bytes) (b : Buf)
      → NoChar newline l
      → length b.text + 1 ≤ b.bufspace
      → 0 < length b.text
      → read_loop bufsiz b l ≡ line (b.text ++ l) []
  unfolding read_loop ended
  read_loop-last [] b n h p =
      rw
        (
          ne→== (length b.text) 0 (λ q. omega (arith, q)),
          lt→ltb (length b.text) b.bufspace (omega arith),
        )
        (ap (λ t. line t []) (sym (append-nil b.text)))
  read_loop-last (c ∷ l) b (other, n) h p =
      rw (other, store_inside b (inl h))
        (read_loop-last l (stored b c) n (stored-room b c (inl h))
            (omega (arith, stored-length b c))
          ∙ ap (λ t. line t [])
              (ap (λ t. (t ++ c ∷ []) ++ l) (expand-text b) ∙ append_assoc b.text (c ∷ []) l))

  -- next_cmd returns what stands before the newline, whatever its length.
  pub next_cmd-line :
      (l rest : Bytes) → NoChar newline l → next_cmd bufsiz (l ++ newline ∷ rest) ≡ line l rest
  unfolding next_cmd
  next_cmd-line l rest n =
      read_loop-line l rest (record { text = []; bufspace = 0 }) n (inr (refl, refl))

  pub next_cmd-last :
      (c : ℕ) (l : Bytes) → NoChar newline (c ∷ l) → next_cmd bufsiz (c ∷ l) ≡ line (c ∷ l) []
  unfolding next_cmd read_loop
  next_cmd-last c l (other, n) =
      let b : Buf = record { text = []; bufspace = 0 } in
      let none_yet : HasRoom b = inr (refl, refl) in
      rw (other, store_inside b none_yet)
        (read_loop-last l (stored b c) n (stored-room b c none_yet)
            (omega (arith, stored-length b c))
          ∙ ap (λ t. line ((t ++ c ∷ []) ++ l) []) (expand-text b))
