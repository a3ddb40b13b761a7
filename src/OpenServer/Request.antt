-- ===== src/OpenServer/Request.antt =====
-- cli_args and handle_request of more01/apue.3e/ipc2/opend.
use unp_and_apue3e.Prelude.{
  ℕ, ◌-◌, Bool, true, false, not, Option, none, some, List, [], ◌∷◌, ◌==◌, if◌then◌else◌, length,
  get_or, ℤ,
}
use unp_and_apue3e.Text.{Bytes, c_str, str_eq, atol}
use unp_and_apue3e.OpenServer.Args.{buf_args}

-- The texts that `errmsg` is set to, by what they say.
pub data Message : Type 0 where
  blank usage not_terminated cannot_open : Message

-- The globals of main.c that a request changes.
pub record Server : Type 0 where
  pub errmsg : Message
  pub pathname : Bytes
  pub oflag : ℤ

-- What the client is sent: send_err with a message, or send_fd.
pub data Reply : Type 0 where
  send_err : Message → Reply
  send_fd : ℕ → Reply

-- cli_args over argv; CL_OPEN is of opend.h, which is not part of the repository. True is 0.
unfoldable pub cli_args : (cl_open : Bytes) → List Bytes → Server → Bool × Server
cli_args cl_open (a ∷ b ∷ c ∷ []) s =
    if str_eq a cl_open
    then (true, record s { pathname = b; oflag = atol c })
    else (false, record s { errmsg = usage })
cli_args cl_open argv s = (false, record s { errmsg = usage })

abbrev parsed : (cl_open : Bytes) → Option (List Bytes) → Server → Bool × Server
parsed cl_open none s = (false, s)
parsed cl_open (some argv) s = cli_args cl_open argv s

abbrev opened : Option ℕ → Server → Reply × Server
opened none s = (send_err cannot_open, record s { errmsg = cannot_open })
opened (some fd) s = (send_fd fd, s)

-- handle_request; `sys_open` is open(2) on a path and flags. The buffer holds the `nread` bytes.
unfoldable pub handle_request :
    (cl_open : Bytes) → (Bytes → ℤ → Option ℕ) → Bytes → Server → Reply × Server
handle_request cl_open sys_open buf s =
    if not (get_or buf (length buf - 1) 0 == 0)
    then (send_err not_terminated, record s { errmsg = not_terminated })
    else (let (done, t) = parsed cl_open (buf_args (c_str buf)) s in
        if done then opened (sys_open t.pathname t.oflag) t else (send_err t.errmsg, t))
