-- ===== src/Common/Text.antt =====
-- `format!` and the decimal `Display` of unsigned integers.
pub mod Trim
use Prim.Native.Nat.{ℕ, zero, suc, ◌/◌, ◌%◌}
use Prim.Native.String
use Prim.Native.String.{String}
use mathlib.Core.Path.{◌≡◌, refl}
use mathlib.Core.List.{List, [], ◌∷◌}
use Prim.Native.Char.{Char, code}
use mathlib.Core.Bool.{Bool, true, false, ◌&&◌, ◌||◌}
use access.Common.Tests.{ltb, leb, if◌then◌else◌}

-- The pieces of a formatted text, joined.
unfoldable pub format : List String → String
format [] = ""
format (s ∷ rest) = String.◌++◌ s (format rest)

abbrev digit_text : ℕ → String
digit_text zero = "0"
digit_text (suc zero) = "1"
digit_text (suc (suc zero)) = "2"
digit_text (suc (suc (suc zero))) = "3"
digit_text (suc (suc (suc (suc zero)))) = "4"
digit_text (suc (suc (suc (suc (suc zero))))) = "5"
digit_text (suc (suc (suc (suc (suc (suc zero)))))) = "6"
digit_text (suc (suc (suc (suc (suc (suc (suc zero))))))) = "7"
digit_text (suc (suc (suc (suc (suc (suc (suc (suc zero)))))))) = "8"
digit_text (suc (suc (suc (suc (suc (suc (suc (suc (suc n))))))))) = "9"

decimal_digits : ℕ → ℕ → String
decimal_digits zero n = ""
decimal_digits (suc fuel) n =
    let front = decimal_digits fuel (n / 10) in
    if ltb n 10 then digit_text n else String.◌++◌ front (digit_text (n % 10))

-- A `u64` has at most twenty digits.
unfoldable pub decimal : ℕ → String
unfolding decimal_digits
decimal n = decimal_digits 20 n

decimal_examples : (decimal 0 ≡ "0") × (decimal 42 ≡ "42") × (decimal 90210 ≡ "90210")
unfolding decimal
decimal_examples = (refl, refl, refl)

abbrev pub is_empty_text : String → Bool
is_empty_text String.[] = true
is_empty_text (String.◌∷◌ c s) = false

abbrev pub between : ℕ → ℕ → ℕ → Bool
between low high n = leb low n && leb n high

-- `char::is_whitespace`, by the code: the White_Space property of Unicode
unfoldable pub is_whitespace : ℕ → Bool
is_whitespace n =
    between 0x9 0xd n
    || between 0x20 0x20 n
    || between 0x85 0x85 n
    || between 0xa0 0xa0 n
    || between 0x1680 0x1680 n
    || between 0x2000 0x200a n
    || between 0x2028 0x2029 n
    || between 0x202f 0x202f n
    || between 0x205f 0x205f n
    || between 0x3000 0x3000 n

unfoldable pub trim_start : String → String
unfolding is_whitespace
trim_start String.[] = ""
trim_start (String.◌∷◌ c s) =
    let rest = trim_start s in if is_whitespace (code c) then rest else String.◌∷◌ c s

-- What is left of a character before a text that is trimmed at its end.
abbrev pub keep : Char → String → String
keep c String.[] = if is_whitespace (code c) then "" else String.◌∷◌ c ""
keep c (String.◌∷◌ d s) = String.◌∷◌ c (String.◌∷◌ d s)

unfoldable pub trim_end : String → String
unfolding is_whitespace
trim_end String.[] = ""
trim_end (String.◌∷◌ c s) = keep c (trim_end s)

-- `str::trim`
unfoldable pub trim : String → String
unfolding trim_start trim_end
trim s = trim_end (trim_start s)

trim_examples : (trim " a b\n" ≡ "a b") × (trim "" ≡ "") × (trim "\t " ≡ "")
unfolding trim
trim_examples = (refl, refl, refl)
