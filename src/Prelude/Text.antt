-- ===== src/Prelude/Text.antt =====
-- Byte strings. Go's `string` and `[]byte` are lists of numbers below 256.
use Prim.Native.Nat.{ℕ}
use Prim.Native.Char.{code}
use Prim.Native.String.{String}
use mathlib.Core.List.{List, [], ◌∷◌}

abbrev pub Bytes : Type 0
Bytes = List ℕ

-- The bytes of an ASCII literal.
abbrev pub codes : String → Bytes
codes String.[] = []
codes (String.◌∷◌ c s) = code c ∷ codes s

-- os.PathSeparator
abbrev pub slash : ℕ
slash = b'/'
