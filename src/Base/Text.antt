-- ===== src/Base/Text.antt =====
-- C's string literals as lists of bytes.
use Prim.Native.Char.{code}
use Prim.Native.String.{String}
use mathlib.Core.List.{List, [], ◌∷◌, ◌++◌}
use Prim.Native.Nat.{ℕ}

-- The bytes of an ASCII text, without the terminating zero.
abbrev pub codes : String → List ℕ
codes String.[] = []
codes (String.◌∷◌ c s) = code c ∷ codes s

-- The bytes of one output call after the other.
abbrev pub printed : List (List ℕ) → List ℕ
printed [] = []
printed (text ∷ texts) = text ++ printed texts
