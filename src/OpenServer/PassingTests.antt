-- ===== src/OpenServer/PassingTests.antt =====
-- The theorems about passed descriptors and errors at short texts.
use unp_and_apue3e.Prelude.{◌≡◌, refl, Bool, true, none, some, [], ◌∷◌, ◌++◌, map, arith, negsuc}
use unp_and_apue3e.Text.{Bytes, c_str}
use unp_and_apue3e.OpenServer.Passing.{send_err, negative, returned, recv_fd}
use unp_and_apue3e.OpenServer.Passed.{arrive, recv_fd-send_err}

unfoldable takes_all : Bytes → Bool
takes_all t = true

-- The message "no" in two pieces, the second with the status.
recv_fd-send_err_example :
    recv_fd takes_all (
      map (arrive none) ((110 ∷ []) ∷ [])
      ++ arrive
          (send_err (negsuc 1) (110 ∷ 111 ∷ [])).1.passed
          (111 ∷ (send_err (negsuc 1) (110 ∷ 111 ∷ [])).1.bytes)
        ∷ [])
    ≡ some (returned (negsuc 1) (c_str (110 ∷ 111 ∷ [])))
recv_fd-send_err_example =
    recv_fd-send_err takes_all (negsuc 1) (110 ∷ 111 ∷ []) ((110 ∷ []) ∷ []) (111 ∷ []) 1
      (λ t. unfold takes_all in refl) (unfold negative in refl) (omega arith) (omega arith, tt)
      (unfold send_err c_str in refl)
