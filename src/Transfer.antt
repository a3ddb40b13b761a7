-- ===== src/Transfer.antt =====
-- readn and writen of more01/apue.3e/lib: read(2) and write(2) again until all is moved. What the
-- calls answer is the environment's choice.
mod Tests
use unp_and_apue3e.Prelude.{
  ℕ, zero, suc, ◌+◌, ◌-◌, ◌≡◌, refl, sym, ◌∙◌, ap, Option, none, some, List, [], ◌∷◌, ◌++◌,
  append_assoc, append-nil, arith, ◌==◌, if◌then◌else◌, length, length-append, take, drop, ◌<◌, All,
  ne→==, map, drop-append, take-append,
}
use unp_and_apue3e.Text.{Bytes}

-- What read(2) answers: the bytes that came, none at the end of the file, or -1.
pub data ReadAnswer : Type 0 where
  got : Bytes → ReadAnswer
  read_error : ReadAnswer

-- What readn returns: -1, or the bytes.
pub data Result : Type 0 where
  failed : Result
  moved : Bytes → Result

-- The loop of readn, over what came so far; the result `none` is that the answers ran out.
unfoldable pub readn_loop : ℕ → ℕ → Bytes → List ReadAnswer → Option Result
readn_loop n nleft done [] = if nleft == 0 then some (moved done) else none
readn_loop n nleft done (read_error ∷ rs) =
    if nleft == 0 then some (moved done) else if nleft == n then some failed else some (moved done)
readn_loop n nleft done (got [] ∷ rs) = some (moved done)
readn_loop n nleft done (got (b ∷ bs) ∷ rs) =
    let rest = readn_loop n (nleft - length (b ∷ bs)) (done ++ (b ∷ bs)) rs in
    if nleft == 0 then some (moved done) else rest

unfoldable pub readn : ℕ → List ReadAnswer → Option Result
readn n rs = readn_loop n n [] rs

-- What write(2) answers: the count of bytes taken, or -1.
pub data WriteAnswer : Type 0 where
  took : ℕ → WriteAnswer
  write_error : WriteAnswer

-- The loop of writen, over the text at `ptr` and what was written so far.
unfoldable pub writen_loop : ℕ → Bytes → Bytes → List WriteAnswer → Option Result
writen_loop n ptr done [] = if length ptr == 0 then some (moved done) else none
writen_loop n ptr done (write_error ∷ ws) =
    if length ptr == 0
    then some (moved done)
    else if length ptr == n
    then some failed
    else some (moved done)
writen_loop n ptr done (took k ∷ ws) =
    let rest = writen_loop n (drop k ptr) (done ++ take k ptr) ws in
    if length ptr == 0 then some (moved done) else if k == 0 then some (moved done) else rest

unfoldable pub writen : Bytes → List WriteAnswer → Option Result
writen text ws = writen_loop (length text) text [] ws

abbrev pub total : List Bytes → Bytes
total [] = []
total (c ∷ cs) = c ++ total cs

readn_loop-chunks :
    (n : ℕ) (done : Bytes) (chunks : List Bytes)
    → All (λ c. 0 < length c) chunks
    → readn_loop n (length (total chunks)) done (map got chunks)
      ≡ some (moved (done ++ total chunks))
unfolding readn_loop
readn_loop-chunks n done [] h = ap (λ x. some (moved x)) (sym (append-nil done))
readn_loop-chunks n done ([] ∷ cs) h = absurd (let p = h.0 in omega arith)
readn_loop-chunks n done ((b ∷ bs) ∷ cs) h =
    let left : length ((b ∷ bs) ++ total cs) - length (b ∷ bs) ≡ length (total cs) =
      omega (arith, length-append (b ∷ bs) (total cs)) in
    rw (left, ne→== (length ((b ∷ bs) ++ total cs)) 0 (omega arith))
      (readn_loop-chunks n (done ++ (b ∷ bs)) cs h.1
        ∙ ap (λ x. some (moved x)) (append_assoc done (b ∷ bs) (total cs)))

-- Where read(2) answers with parts of the bytes, none of them empty, and the parts are together as
-- long as was asked for, readn ends and returns the parts in their order.
pub readn-chunks :
    (chunks : List Bytes)
    → All (λ c. 0 < length c) chunks
    → readn (length (total chunks)) (map got chunks) ≡ some (moved (total chunks))
unfolding readn
readn-chunks chunks h = readn_loop-chunks (length (total chunks)) [] chunks h

writen_loop-chunks :
    (n : ℕ) (done : Bytes) (chunks : List Bytes)
    → All (λ c. 0 < length c) chunks
    → writen_loop n (total chunks) done (map (λ c. took (length c)) chunks)
      ≡ some (moved (done ++ total chunks))
unfolding writen_loop
writen_loop-chunks n done [] h = ap (λ x. some (moved x)) (sym (append-nil done))
writen_loop-chunks n done (c ∷ cs) h =
    let p = h.0 in
    rw
      (
        ne→== (length (c ++ total cs)) 0 (omega (arith, length-append c (total cs))),
        ne→== (length c) 0 (omega arith),
        drop-append c (total cs) (length c) refl,
        take-append c (total cs) (length c) refl,
      )
      (writen_loop-chunks n (done ++ c) cs h.1
        ∙ ap (λ x. some (moved x)) (append_assoc done c (total cs)))

-- Where write(2) takes the text in parts, none of them empty, writen ends, has written each byte of
-- the text once and in its order, and returns that it has written them all.
pub writen-chunks :
    (chunks : List Bytes)
    → All (λ c. 0 < length c) chunks
    → writen (total chunks) (map (λ c. took (length c)) chunks) ≡ some (moved (total chunks))
unfolding writen
writen-chunks chunks h = writen_loop-chunks (length (total chunks)) [] chunks h
