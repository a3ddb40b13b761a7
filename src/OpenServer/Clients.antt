-- ===== src/OpenServer/Clients.antt =====
-- The array of clients of more01/apue.3e/ipc2/opend/client.c.
use unp_and_apue3e.Prelude.{
  ℕ, zero, suc, ◌+◌, Bool, true, false, Option, none, some, List, [], ◌∷◌, ◌++◌, ◌==◌,
  if◌then◌else◌, set, replicate, ℤ, pos, negsuc,
}

pub record Client : Type 0 where
  pub fd : ℤ
  pub uid : ℕ

abbrev pub nalloc : ℕ
nalloc = 10

-- An entry that is available: its fd is -1, and its uid whatever the memory holds.
abbrev free_entry : Client
free_entry = record { fd = negsuc 0; uid = 0 }

-- client_alloc, over the entries in use; `malloc` and `realloc` succeed.
unfoldable pub client_alloc : List Client → List Client
client_alloc c = c ++ replicate nalloc free_entry

abbrev pub eq_ℤ : ℤ → ℤ → Bool
eq_ℤ (pos a) (pos b) = a == b
eq_ℤ (negsuc a) (negsuc b) = a == b
eq_ℤ (pos a) (negsuc b) = false
eq_ℤ (negsuc a) (pos b) = false

-- The index of the first entry with an fd.
unfoldable pub find_fd : ℤ → List Client → ℕ → Option ℕ
find_fd fd [] i = none
find_fd fd (c ∷ cs) i = if eq_ℤ c.fd fd then some i else find_fd fd cs (i + 1)

-- From the label `again`: `none` is a jump too many.
unfoldable pub add_again : ℕ → List Client → ℤ → ℕ → Option (ℕ × List Client)
add_again zero cs fd uid = none
add_again (suc k) cs fd uid = elim (find_fd (negsuc 0) cs 0) [
  | some i ↦ some (i, set cs i (record { fd = fd; uid = uid }))
  | none ↦ add_again k (client_alloc cs) fd uid
]

abbrev pub is_nil : List Client → Bool
is_nil [] = true
is_nil (c ∷ cs) = false

-- client_add; the empty list is the null pointer.
unfoldable pub client_add : List Client → ℤ → ℕ → Option (ℕ × List Client)
client_add cs fd uid = add_again 2 (if is_nil cs then client_alloc cs else cs) fd uid

-- client_del; `none` is log_quit.
unfoldable pub client_del : List Client → ℤ → Option (List Client)
client_del [] fd = none
client_del (c ∷ cs) fd =
    if eq_ℤ c.fd fd
    then some (record c { fd = negsuc 0 } ∷ cs)
    else elim (client_del cs fd) [ none ↦ none | some ds ↦ some (c ∷ ds) ]
