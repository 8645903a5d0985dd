-- ===== src/Prelude/Ascii.antt =====
-- Texts of ASCII characters, and the formats of `sprintf` that put numbers between them.
use Prim.Native.Nat.{ℕ, suc, ◌≤◌, ◌<◌, ◌+◌, ◌^◌}
use Prim.Native.Char.{code}
use Prim.Native.String.count
use Prim.Native.String.{String, [], ◌∷◌, count}
use mathlib.Core.Path.{◌≡◌, refl, sym, ap, ◌∙◌}
use mathlib.Core.List.{List, [] as []ᴸ, ◌∷◌ as ◌∷ᴸ◌}
use native.Mathlib.Omega.{arith}
use mathlib.Core.List.{◌++◌}
use uaflow.Prelude.{length, length-append}
use uaflow.Prelude.Decimal.{decimal, length-decimal}

unfoldable pub ascii : String → List ℕ
ascii [] = []ᴸ
ascii (c ∷ s) = code c ∷ᴸ ascii s

pub length-ascii : (s : String) → length (ascii s) ≡ count s
unfolding ascii
length-ascii [] = refl
length-ascii (c ∷ s) = ap suc (length-ascii s) ∙ sym (count.cons c s)

-- A format's pieces: texts, and numbers that are printed by `%u`, `%lu` or, from 0 on, `%d`.
pub data Piece : Type 0 where
  words : String → Piece
  number : ℕ → Piece

unfoldable pub format : List Piece → List ℕ
format []ᴸ = []ᴸ
format (words s ∷ᴸ ps) = ascii s ++ format ps
format (number n ∷ᴸ ps) = decimal n ++ format ps

-- Every number has 64 bits.
abbrev pub Words64 : List Piece → Type 0
Words64 []ᴸ = Unit
Words64 (words s ∷ᴸ ps) = Words64 ps
Words64 (number n ∷ᴸ ps) = (n < 2 ^ 64) × Words64 ps

-- The bytes that suffice for the pieces: the texts' own, and 20 for each number.
abbrev pub room : List Piece → ℕ
room []ᴸ = 0
room (words s ∷ᴸ ps) = count s + room ps
room (number n ∷ᴸ ps) = 20 + room ps

pub length-format : (ps : List Piece) → Words64 ps → length (format ps) ≤ room ps
unfolding format
length-format []ᴸ small = omega arith
length-format (words s ∷ᴸ ps) small =
    omega (arith, length-append (ascii s) (format ps), length-ascii s, length-format ps small)
length-format (number n ∷ᴸ ps) small = omega (
  arith,
  length-append (decimal n) (format ps),
  length-decimal 20 n (omega arith) (omega arith),
  length-format ps small.1,
)
