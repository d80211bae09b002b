-- ===== src/Utf8.antt =====
-- The UTF-8 of Rust's `String`: `as_bytes`, and `String::from_utf8`, which checks its input. Both
-- stand between a key identifier and its bytes in rust/access_core/src/protocol.rs.
pub mod Laws
use Prim.Native.Char.{Char, char, code, IsLt, IsScalar}
use Prim.Native.Nat.{compare, Ordering}
use Prim.Native.String
use access.Common.{
  ℕ, zero, suc, ◌+◌, ◌-◌, ◌*◌, ◌/◌, ◌%◌, Bool, true, false, ◌&&◌, Option, none, some, List, [], ◌∷◌,
  ◌++◌, String, Bytes, ltb, leb, if◌then◌else◌,
}

unfoldable pub encode_code : ℕ → Bytes
encode_code n =
    if ltb n 0x80
    then n ∷ []
    else if ltb n 0x800
    then (0xc0 + n / 64) ∷ (0x80 + n % 64) ∷ []
    else if ltb n 0x10000
    then (0xe0 + n / 4096) ∷ (0x80 + n / 64 % 64) ∷ (0x80 + n % 64) ∷ []
    else (0xf0 + n / 262144) ∷ (0x80 + n / 4096 % 64) ∷ (0x80 + n / 64 % 64) ∷ (0x80 + n % 64) ∷ []

unfoldable pub as_bytes : String → Bytes
unfolding encode_code
as_bytes String.[] = []
as_bytes (String.◌∷◌ c s) = encode_code (code c) ++ as_bytes s

-- What is read of a character: how many bytes it still needs, its bits so far, and the least code
-- that this length may encode.
pub data Pending : Type 0 where
  pending : ℕ → ℕ → ℕ → Pending

pub data Fed : Type 0 where
  bad : Fed
  more : Pending → Fed
  done : Char → Fed

-- The clauses of `IsScalar`, whose helpers are private to their module.
abbrev BothLt : Ordering → Ordering → Type 0
BothLt Ordering.lt o = IsLt o
BothLt Ordering.eq _ = ⊥
BothLt Ordering.gt _ = ⊥

abbrev Scalar : Ordering → Ordering → Ordering → Type 0
Scalar Ordering.lt _ _ = Unit
Scalar Ordering.eq o p = BothLt o p
Scalar Ordering.gt o p = BothLt o p

IsLt_dec : (o : Ordering) → Dec (IsLt o)
IsLt_dec Ordering.lt = yes tt
IsLt_dec Ordering.eq = no (λ h. h)
IsLt_dec Ordering.gt = no (λ h. h)

both_lt_dec : (o p : Ordering) → Dec (BothLt o p)
both_lt_dec Ordering.lt p = IsLt_dec p
both_lt_dec Ordering.eq p = no (λ h. h)
both_lt_dec Ordering.gt p = no (λ h. h)

scalar_dec : (o p q : Ordering) → Dec (Scalar o p q)
scalar_dec Ordering.lt p q = yes tt
scalar_dec Ordering.eq p q = both_lt_dec p q
scalar_dec Ordering.gt p q = both_lt_dec p q

IsScalar_dec : (n : ℕ) → Dec (IsScalar n)
unfolding scalar_dec both_lt_dec IsLt_dec
IsScalar_dec n = scalar_dec (compare n 0xd800) (compare 0xdfff n) (compare n 0x110000)

-- The character with a code, if there is one.
to_char : ℕ → Fed
unfolding IsScalar_dec
to_char n = elim (IsScalar_dec n) [ yes p ↦ done (char n p) | no _ ↦ bad ]

feed : Pending → ℕ → Fed
unfolding to_char
feed (pending zero bits least) b =
    if ltb b 0x80
    then to_char b
    else if ltb b 0xc0
    then bad
    else if ltb b 0xe0
    then more (pending 1 (b - 0xc0) 0x80)
    else if ltb b 0xf0
    then more (pending 2 (b - 0xe0) 0x800)
    else if ltb b 0xf8
    then more (pending 3 (b - 0xf0) 0x10000)
    else bad
feed (pending (suc zero) bits least) b =
    let n = bits * 64 + (b - 0x80) in
    if leb 0x80 b && ltb b 0xc0 && leb least n then to_char n else bad
feed (pending (suc (suc k)) bits least) b =
    if leb 0x80 b && ltb b 0xc0 then more (pending (suc k) (bits * 64 + (b - 0x80)) least) else bad

abbrev start : Pending
start = pending 0 0 0

abbrev prepend : Char → Option String → Option String
prepend c none = none
prepend c (some s) = some (String.◌∷◌ c s)

decode_from : Pending → Bytes → Option String
decode_from (pending zero bits least) [] = some String.[]
decode_from (pending (suc n) bits least) [] = none
decode_from p (b ∷ bs) = elim (feed p b) [
  | bad ↦ none
  | more q ↦ decode_from q bs
  | done c ↦ prepend c (decode_from start bs)
]

unfoldable pub from_utf8 : Bytes → Option String
unfolding decode_from feed
from_utf8 bs = decode_from start bs
