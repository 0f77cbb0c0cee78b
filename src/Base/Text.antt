-- ===== src/Base/Text.antt =====
-- src/common/utils.js: `remove0x` and `add0x`; and `toLowerCase` of the language, on the letters
-- that an address has.
use Prim.Native.Char.{Char, code}
use Prim.Native.Nat.{ℕ}
use Prim.Native.String.{String, ◌++◌}
use mathlib.Core.Path.{◌≡◌, refl}
use mathlib.Core.Bool.{Bool, false, ◌&&◌}
use mathlib.Core.List.{List, []}
use mathlib.Core.List.{◌∷◌}
use enigma_p2p.Base.Tests.{◌==◌, if◌then◌else◌}

unfoldable pub has_0x : String → Bool
has_0x (String.◌∷◌ c (String.◌∷◌ d s)) = code c == b'0' && code d == b'x'
has_0x _ = false

unfoldable pub remove0x : String → String
unfolding has_0x
remove0x (String.◌∷◌ c (String.◌∷◌ d s)) =
    if code c == b'0' && code d == b'x' then s else String.◌∷◌ c (String.◌∷◌ d s)
remove0x s = s

unfoldable pub add0x : String → String
unfolding has_0x
add0x s = if has_0x s then s else "0x" ++ s

-- The capital letters that a hexadecimal address holds, each with its small letter.
abbrev hex_letters : List (ℕ × Char)
hex_letters =
    (b'A', "a")
    ∷ (b'B', "b")
    ∷ (b'C', "c")
    ∷ (b'D', "d")
    ∷ (b'E', "e")
    ∷ (b'F', "f")
    ∷ (b'X', "x")
    ∷ []

lower_char : Char → List (ℕ × Char) → Char
lower_char c [] = c
lower_char c ((n, small) ∷ table) = if code c == n then small else lower_char c table

-- `toLowerCase`
unfoldable pub to_lower : String → String
unfolding lower_char
to_lower String.[] = String.[]
to_lower (String.◌∷◌ c s) = String.◌∷◌ (lower_char c hex_letters) (to_lower s)

to_lower_mixed : to_lower "0xAbF1" ≡ "0xabf1"
unfolding to_lower
to_lower_mixed = refl
