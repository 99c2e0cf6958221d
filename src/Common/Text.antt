-- ===== src/Common/Text.antt =====
-- Text as the list of its bytes.
use Prim.Native.Char.{code}
use Prim.Native.String.{String}
use uiscsi.Common.{ℕ, List, [], ◌∷◌}

-- The bytes of an ASCII literal. `String` has its own `[]` and `∷`.
abbrev pub codes : String → List ℕ
codes String.[] = []
codes (String.◌∷◌ c s) = code c ∷ codes s
