-- ===== src/Common/Text/Trim.antt =====
-- Trimming a text without white space, and one that only a line feed follows.
use Prim.Native.Nat.{ℕ}
use Prim.Native.String
use Prim.Native.String.{String}
use Prim.Native.Char.{Char, code}
use mathlib.Core.Path.{◌≡◌, refl}
use mathlib.Core.Bool.{Bool, true, false, ◌||◌}
use mathlib.Core.List.{[], ◌∷◌}
use native.Mathlib.Omega.{arith}
use text.Mathlib.TextLemmas.{cons-append}
use access.Common.Text.{between, is_whitespace, format, keep, trim_start, trim_end, trim}

-- `0` to `9` and `a` to `f`
abbrev pub is_hex_digit : ℕ → Bool
is_hex_digit n = between 48 57 n || between 97 102 n

abbrev pub IsHexText : String → Type 0
IsHexText String.[] = Unit
IsHexText (String.◌∷◌ c s) = (is_hex_digit (code c) ≡ true) × IsHexText s

hex_digit-dark : (n : ℕ) → is_hex_digit n ≡ true → is_whitespace n ≡ false
unfolding is_whitespace
hex_digit-dark n h = ground arith

keep-dark : (c : Char) (s : String) → is_whitespace (code c) ≡ false → keep c s ≡ String.◌∷◌ c s
keep-dark c String.[] h = rw h refl
keep-dark c (String.◌∷◌ d s) h = refl

trim_end-hex : (s : String) → IsHexText s → trim_end s ≡ s
unfolding trim_end
trim_end-hex String.[] h = refl
trim_end-hex (String.◌∷◌ c s) (h, rest) =
    rw (trim_end-hex s rest) (keep-dark c s (hex_digit-dark (code c) h))

trim_end-line : (s : String) → IsHexText s → trim_end (String.◌++◌ s "\n") ≡ s
unfolding trim_end is_whitespace
trim_end-line String.[] h = refl
trim_end-line (String.◌∷◌ c s) (h, rest) =
    rw (cons-append c s "\n", trim_end-line s rest) (keep-dark c s (hex_digit-dark (code c) h))

trim_cons-line :
    (c : Char) (s : String)
    → IsHexText (String.◌∷◌ c s)
    → trim_end (String.◌∷◌ c (String.◌++◌ s "\n")) ≡ String.◌∷◌ c s
unfolding trim_end
trim_cons-line c s (h, rest) = rw (trim_end-line s rest) (keep-dark c s (hex_digit-dark (code c) h))

trim_start-hex :
    (c : Char) (s : String)
    → is_hex_digit (code c) ≡ true
    → trim_start (String.◌∷◌ c s) ≡ String.◌∷◌ c s
unfolding trim_start
trim_start-hex c s h = rw (hex_digit-dark (code c) h) refl

-- A text of hexadecimal digits is left as it is.
pub trim-hex : (s : String) → IsHexText s → trim s ≡ s
unfolding trim
trim-hex String.[] h = refl
trim-hex (String.◌∷◌ c s) (h, rest) =
    rw (trim_start-hex c s h) (trim_end-hex (String.◌∷◌ c s) (h, rest))

-- A printed line of hexadecimal digits loses its line feed.
pub trim-line : (s : String) → IsHexText s → trim (format (s ∷ "\n" ∷ [])) ≡ s
unfolding trim format
trim-line String.[] h = refl
trim-line (String.◌∷◌ c s) (h, rest) =
    rw (cons-append c s "\n", trim_start-hex c (String.◌++◌ s "\n") h)
      (trim_cons-line c s (h, rest))
