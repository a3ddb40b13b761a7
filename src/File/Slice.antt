-- ===== src/File/Slice.antt =====
-- What a write leaves in a file: the bytes written where they were written, the old ones elsewhere.
use unp_and_apue3e.Prelude.{
  ℕ, zero, suc, ◌+◌, ◌≤◌, ◌≡◌, refl, ap, ◌∙◌, sym, [], ◌∷◌, ◌++◌, arith, length, take, drop,
  drop-nil, length-append, length-take, length-drop, take-append,
}
use unp_and_apue3e.Text.{Bytes}
use unp_and_apue3e.File.{slice, overwrite}

-- Reading back what was just written.
pub slice-overwrite_self :
    (bs : Bytes) (o : ℕ) (d : Bytes) (n : ℕ) → n ≡ length d → slice o n (overwrite bs o d) ≡ d
unfolding overwrite
slice-overwrite_self bs zero d n h = take-append d (drop (length d) bs) n h
slice-overwrite_self [] (suc o) d n h = slice-overwrite_self [] o d n h
slice-overwrite_self (b ∷ bs) (suc o) d n h = slice-overwrite_self bs o d n h

-- What stands wholly before the write is unchanged.
pub slice-overwrite_before :
    (bs : Bytes) (o : ℕ) (d : Bytes) (p n : ℕ)
    → p + n ≤ o
    → o ≤ length bs
    → slice p n (overwrite bs o d) ≡ slice p n bs
unfolding overwrite
slice-overwrite_before bs zero d zero zero h le = refl
slice-overwrite_before bs zero d (suc p) n h le = absurd (omega arith)
slice-overwrite_before bs zero d zero (suc n) h le = absurd (omega arith)
slice-overwrite_before [] (suc o) d p n h le = absurd (omega arith)
slice-overwrite_before (b ∷ bs) (suc o) d zero zero h le = refl
slice-overwrite_before (b ∷ bs) (suc o) d zero (suc n) h le =
    ap (λ l. b ∷ l) (slice-overwrite_before bs o d zero n (omega arith) (omega arith))
slice-overwrite_before (b ∷ bs) (suc o) d (suc p) n h le =
    slice-overwrite_before bs o d p n (omega arith) (omega arith)

drop-overwrite_start :
    (bs d : Bytes) (p : ℕ) → length d ≤ p → drop p (d ++ drop (length d) bs) ≡ drop p bs
drop-overwrite_start bs [] p h = refl
drop-overwrite_start bs (c ∷ d) zero h = absurd (omega arith)
drop-overwrite_start [] (c ∷ d) (suc p) h =
    ap (λ l. drop p (d ++ l)) (sym (drop-nil ℕ (length d)))
    ∙ drop-overwrite_start [] d p (omega arith)
    ∙ drop-nil ℕ p
drop-overwrite_start (b ∷ bs) (c ∷ d) (suc p) h = drop-overwrite_start bs d p (omega arith)

-- What stands wholly behind the write is unchanged.
pub slice-overwrite_after :
    (bs : Bytes) (o : ℕ) (d : Bytes) (p n : ℕ)
    → o + length d ≤ p
    → o ≤ length bs
    → slice p n (overwrite bs o d) ≡ slice p n bs
unfolding overwrite
slice-overwrite_after bs zero d p n h le = ap (take n) (drop-overwrite_start bs d p (omega arith))
slice-overwrite_after [] (suc o) d p n h le = absurd (omega arith)
slice-overwrite_after (b ∷ bs) (suc o) d zero n h le = absurd (omega arith)
slice-overwrite_after (b ∷ bs) (suc o) d (suc p) n h le =
    slice-overwrite_after bs o d p n (omega arith) (omega arith)

-- An append, and an overwrite inside the file.
pub length-overwrite_end :
    (bs : Bytes) (o : ℕ) (d : Bytes)
    → o ≡ length bs
    → length (overwrite bs o d) ≡ length bs + length d
unfolding overwrite
length-overwrite_end [] zero d h =
    omega (arith, length-append d (drop (length d) []), ap length (drop-nil ℕ (length d)))
length-overwrite_end (b ∷ bs) zero d h = absurd (omega arith)
length-overwrite_end [] (suc o) d h = absurd (omega arith)
length-overwrite_end (b ∷ bs) (suc o) d h = omega (arith, length-overwrite_end bs o d (omega arith))

pub length-overwrite_inside :
    (bs : Bytes) (o : ℕ) (d : Bytes)
    → o + length d ≤ length bs
    → length (overwrite bs o d) ≡ length bs
unfolding overwrite
length-overwrite_inside bs zero d h =
    omega (arith, length-append d (drop (length d) bs), length-drop (length d) bs)
length-overwrite_inside [] (suc o) d h = absurd (omega arith)
length-overwrite_inside (b ∷ bs) (suc o) d h =
    omega (arith, length-overwrite_inside bs o d (omega arith))

-- A slice is full where the file reaches.
pub length-slice : (bs : Bytes) (o n : ℕ) → o + n ≤ length bs → length (slice o n bs) ≡ n
length-slice bs o n h = omega (arith, length-take n (drop o bs), length-drop o bs)
