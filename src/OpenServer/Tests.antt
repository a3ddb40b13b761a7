-- ===== src/OpenServer/Tests.antt =====
-- The theorems about the open server at concrete requests and clients.
use unp_and_apue3e.Prelude.{
  ℕ, zero, suc, ◌≡◌, refl, false, Option, none, some, List, [], ◌∷◌, arith, leb, if◌then◌else◌, All,
  replicate, ℤ, pos,
}
use unp_and_apue3e.Text.{Bytes}
use unp_and_apue3e.Text.Chars.{NoChar}
use unp_and_apue3e.OpenServer.Args.{is_white, buf_args}
use unp_and_apue3e.OpenServer.Clients.{Client, client_add}
use unp_and_apue3e.OpenServer.Request.{Server, usage, blank, send_err, send_fd, handle_request}
use unp_and_apue3e.OpenServer.Words.{IsWord, join, buf_args-join}
use unp_and_apue3e.OpenServer.Slots.{Added, client_add-Added}
use unp_and_apue3e.OpenServer.Replies.{request, handle_request-open, handle_request-stale}

letter-IsWord : (c : ℕ) → is_white c ≡ false → IsWord (c ∷ [])
letter-IsWord c h = record { nonempty = omega arith; no_white = (h, tt) }

buf_args-join_example :
    buf_args (join ((b'o' ∷ []) ∷ (b'p' ∷ []) ∷ [])) ≡ some ((b'o' ∷ []) ∷ (b'p' ∷ []) ∷ [])
buf_args-join_example =
    buf_args-join (b'o' ∷ []) ((b'p' ∷ []) ∷ [])
      (letter-IsWord b'o' refl, (letter-IsWord b'p' refl, tt))

abbrev server : Server
server = record { errmsg = blank; pathname = []; oflag = pos 0 }

-- open(2) that succeeds, on the path "p" only.
abbrev sys_open : Bytes → ℤ → Option ℕ
sys_open (c ∷ []) flags = if leb c b'p' then some 3 else none
sys_open path flags = none

handle_request-open_example :
    (handle_request
      (b'o' ∷ [])
      sys_open
      (request ((b'o' ∷ []) ∷ (b'p' ∷ []) ∷ (b'2' ∷ []) ∷ []))
      server).0
    ≡ send_fd 3
handle_request-open_example =
    handle_request-open (b'o' ∷ []) (b'p' ∷ []) (b'2' ∷ []) sys_open server
      (letter-IsWord b'o' refl, (letter-IsWord b'p' refl, (letter-IsWord b'2' refl, tt)))
      ((refl, tt), ((refl, tt), ((refl, tt), tt)))

-- Fifty words.
abbrev many : List Bytes
many = replicate 49 (b'x' ∷ [])

replicate-All {ℓ ℓ'} : {A : Type ℓ} (P : A → Type ℓ') (n : ℕ) (a : A) → P a → All P (replicate n a)
replicate-All P zero a p = tt
replicate-All P (suc n) a p = (p, replicate-All P n a p)

handle_request-stale_example :
    handle_request
      (b'o' ∷ [])
      sys_open
      (request ((b'o' ∷ []) ∷ many))
      (record server { errmsg = usage })
    ≡ (send_err usage, record server { errmsg = usage })
handle_request-stale_example =
    handle_request-stale (b'o' ∷ []) (b'o' ∷ []) many sys_open (record server { errmsg = usage })
      (letter-IsWord b'o' refl, replicate-All IsWord 49 (b'x' ∷ []) (letter-IsWord b'x' refl))
      ((refl, tt), replicate-All (NoChar 0) 49 (b'x' ∷ []) (refl, tt)) (omega arith)

abbrev clients : List Client
clients = record { fd = pos 4; uid = 7 } ∷ record { fd = pos 5; uid = 8 } ∷ []

client_add-Added_example :
    (i : ℕ) × (ds : List Client) × (client_add clients (pos 6) 9 ≡ some (i, ds))
    × Added clients (pos 6) 9 i ds
client_add-Added_example = client_add-Added clients (pos 6) 9
