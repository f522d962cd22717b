-- ===== src/Prelude/Text.antt =====
-- String literals as the bytes they stand for.
use rasync.Prelude.{ℕ, List, [], ◌∷◌}
use Prim.Native.String.{String}
use Prim.Native.Char.{code}

-- The bytes of an ASCII text.
abbrev pub text : String → List ℕ
text String.[] = []
text (String.◌∷◌ c s) = code c ∷ text s
