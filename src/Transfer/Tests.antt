-- ===== src/Transfer/Tests.antt =====
-- The theorems about readn and writen at bytes that come in two parts.
use unp_and_apue3e.Prelude.{◌≡◌, some, List, [], ◌∷◌, arith, map}
use unp_and_apue3e.Text.{Bytes}
use unp_and_apue3e.Transfer.{got, moved, readn, readn-chunks}

abbrev parts : List Bytes
parts = (1 ∷ 2 ∷ []) ∷ (3 ∷ []) ∷ []

readn-chunks_example : readn 3 (map got parts) ≡ some (moved (1 ∷ 2 ∷ 3 ∷ []))
readn-chunks_example = readn-chunks parts (omega arith, (omega arith, tt))
