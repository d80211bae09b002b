-- ===== src/Common/Int.antt =====
-- Signed integers over the native numbers, and the operations of Rust's `i64` that the code uses.
use Prim.Native.Nat.{ℕ, suc, ◌+◌, ◌-◌, ◌*◌, ◌%◌, ◌^◌, ◌≤◌, ◌<◌}
use mathlib.Core.Path.{◌≡◌, refl}
use mathlib.Core.Bool.{Bool, true, false}
use native.Mathlib.Omega.{arith}
use native.Mathlib.Decide.{ℕ_discrete}
use access.Common.Tests.{ltb, leb, if◌then◌else◌, Eq}

-- `negsuc n` is -(n + 1).
pub data ℤ : Type 0 where
  pos : ℕ → ℤ
  negsuc : ℕ → ℤ

abbrev pub pos_part : ℤ → ℕ
pos_part (pos n) = n
pos_part (negsuc n) = 0

abbrev pub neg_part : ℤ → ℕ
neg_part (pos n) = 0
neg_part (negsuc n) = suc n

-- a - b, as an integer.
abbrev pub sub_ℕ : ℕ → ℕ → ℤ
sub_ℕ a b = if leb b a then pos (a - b) else negsuc (b - a - 1)

infixl 65 ◌+ℤ◌ ◌-ℤ◌
infixl 70 ◌*ℤ◌
infix 50 ◌≤ℤ◌ ◌<ℤ◌
unfoldable pub ◌+ℤ◌ : ℤ → ℤ → ℤ
a +ℤ b = sub_ℕ (pos_part a + pos_part b) (neg_part a + neg_part b)

unfoldable pub ◌-ℤ◌ : ℤ → ℤ → ℤ
a -ℤ b = sub_ℕ (pos_part a + neg_part b) (neg_part a + pos_part b)

unfoldable pub ◌*ℤ◌ : ℤ → ℤ → ℤ
a *ℤ b =
    sub_ℕ (pos_part a * pos_part b + neg_part a * neg_part b)
      (pos_part a * neg_part b + neg_part a * pos_part b)

abbrev pub ◌≤ℤ◌ : ℤ → ℤ → Type 0
a ≤ℤ b = pos_part a + neg_part b ≤ pos_part b + neg_part a

abbrev pub ◌<ℤ◌ : ℤ → ℤ → Type 0
a <ℤ b = pos_part a + neg_part b < pos_part b + neg_part a

abbrev pub ltb_ℤ : ℤ → ℤ → Bool
ltb_ℤ a b = ltb (pos_part a + neg_part b) (pos_part b + neg_part a)

pub ltb_ℤ-eq-false : (a b : ℤ) → ltb_ℤ a b ≡ false → b ≤ℤ a
ltb_ℤ-eq-false a b h = ground arith

pub ltb_ℤ-eq-true : (a b : ℤ) → ltb_ℤ a b ≡ true → a <ℤ b
ltb_ℤ-eq-true a b h = ground arith

pub eq_of_parts : (a b : ℤ) → pos_part a + neg_part b ≡ pos_part b + neg_part a → a ≡ b
eq_of_parts a b h = ground arith

-- `i64::MAX`, `i64::MIN`
abbrev pub i64_max : ℤ
i64_max = pos (2 ^ 63 - 1)

abbrev pub i64_min : ℤ
i64_min = negsuc (2 ^ 63 - 1)

-- The nearest value of `i64`.
unfoldable pub saturate : ℤ → ℤ
saturate a = if ltb_ℤ i64_max a then i64_max else if ltb_ℤ a i64_min then i64_min else a

unfoldable pub saturating_add : ℤ → ℤ → ℤ
unfolding saturate ◌+ℤ◌
saturating_add a b = saturate (a +ℤ b)

unfoldable pub saturating_sub : ℤ → ℤ → ℤ
unfolding saturate ◌-ℤ◌
saturating_sub a b = saturate (a -ℤ b)

unfoldable pub saturating_mul : ℤ → ℤ → ℤ
unfolding saturate ◌*ℤ◌
saturating_mul a b = saturate (a *ℤ b)

-- The `i64` with the low 64 bits of a number: the cast `as i64` of a `u64`.
unfoldable pub as_i64 : ℕ → ℤ
as_i64 n = let m = n % 2 ^ 64 in if ltb m (2 ^ 63) then pos m else negsuc (2 ^ 64 - m - 1)

-- The low 64 bits of an integer.
abbrev pub low_u64 : ℤ → ℕ
low_u64 (pos n) = n % 2 ^ 64
low_u64 (negsuc n) = 2 ^ 64 - 1 - n % 2 ^ 64

-- `+` and `-` on `i64` as a release build computes them: the sum wraps.
unfoldable pub wrapping_add : ℤ → ℤ → ℤ
unfolding ◌+ℤ◌ as_i64
wrapping_add a b = as_i64 (low_u64 (a +ℤ b))

unfoldable pub wrapping_sub : ℤ → ℤ → ℤ
unfolding ◌-ℤ◌ as_i64
wrapping_sub a b = as_i64 (low_u64 (a -ℤ b))

-- `abs_diff`, a `u64`, which is never out of range
unfoldable pub abs_diff : ℤ → ℤ → ℕ
abs_diff a b =
    let x = pos_part a + neg_part b in
    let y = pos_part b + neg_part a in if leb y x then x - y else y - x

abbrev pub unsigned_abs : ℤ → ℕ
unsigned_abs a = pos_part a + neg_part a

unfoldable pub ℤ_dec : Discrete ℤ
unfolding ℕ_discrete
ℤ_dec = hlevel ℕ_discrete

instance unfoldable pub int_eq : Eq ℤ
unfolding ℤ_dec
int_eq = record { dec = ℤ_dec }

-- Within a window of `k` on either side.
pub abs_diff-le_iff :
    (a b : ℤ) (k : ℕ) → ltb k (abs_diff a b) ≡ false → (a ≤ℤ b +ℤ pos k) × (b ≤ℤ a +ℤ pos k)
unfolding abs_diff ◌+ℤ◌
abs_diff-le_iff a b k h = ground arith

-- A saturated difference within a bound below `i64::MAX` bounds the difference itself.
pub saturating_sub_le : (a b k : ℤ) → k <ℤ i64_max → saturating_sub a b ≤ℤ k → a -ℤ b ≤ℤ k
unfolding saturating_sub
saturating_sub_le a b k small h = ground arith

saturating_examples :
    (saturating_sub (pos 5) (pos 8) ≡ negsuc 2)
    × (saturating_add i64_max (pos 1) ≡ i64_max)
    × (saturating_mul (pos 3) (pos 1000) ≡ pos 3000)
    × (as_i64 (2 ^ 64 - 1) ≡ negsuc 0)
    × (abs_diff (negsuc 1) (pos 3) ≡ 5)
unfolding saturating_sub saturating_add saturating_mul as_i64 abs_diff
saturating_examples = (refl, refl, refl, refl, refl)

saturate_mono : (a b : ℤ) → a ≤ℤ b → saturate a ≤ℤ saturate b
unfolding saturate
saturate_mono a b h = ground arith

sub_antitone : (a b c : ℤ) → b ≤ℤ c → a -ℤ c ≤ℤ a -ℤ b
unfolding ◌-ℤ◌
sub_antitone a b c h = ground arith

-- The later the subtrahend, the smaller the saturated difference.
pub saturating_sub_antitone : (a b c : ℤ) → b ≤ℤ c → saturating_sub a c ≤ℤ saturating_sub a b
unfolding saturating_sub
saturating_sub_antitone a b c h = saturate_mono (a -ℤ c) (a -ℤ b) (sub_antitone a b c h)

-- One second before a time that is an `i64` and not the least one.
pub wrapping_sub-one_lt : (a : ℤ) → i64_min <ℤ a → a ≤ℤ i64_max → wrapping_sub a (pos 1) <ℤ a
unfolding wrapping_sub ◌-ℤ◌ as_i64
wrapping_sub-one_lt a low high = ground arith
