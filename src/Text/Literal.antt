-- ===== src/Text/Literal.antt =====
-- The bytes of the texts in the programs.
use Prim.Native.Char.{code}
use Prim.Native.String.{String, [] as nil, ◌∷◌ as ◌then◌}
use unp_and_apue3e.Prelude.{[], ◌∷◌}
use unp_and_apue3e.Text.{Bytes}

-- A text without a NUL behind it.
unfoldable pub text : String → Bytes
text nil = []
text (c then s) = code c ∷ text s
