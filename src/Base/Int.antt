-- ===== src/Base/Int.antt =====
-- The C integers as integers over the native numbers (the library's ℤ stands on another ℕ), with
-- the conversion that C makes when a 64-bit value is returned as an `int`.
use Prim.Native.Nat.{ℕ, suc, ◌+◌, ◌-◌, ◌*◌, ◌/◌, ◌%◌, ◌^◌, ◌≤◌, ◌<◌}
use mathlib.Core.Path.{◌≡◌}
use mathlib.Core.Bool.{Bool, true, ◌&&◌}
use native.Mathlib.Omega.{arith}
use dunst.Base.Tests.{ltb, leb, ◌==◌, if◌then◌else◌}

-- `negsuc n` is -(n + 1).
pub data ℤ : Type 0 where
  pos : ℕ → ℤ
  negsuc : ℕ → ℤ

abbrev pub pos_part : ℤ → ℕ
pos_part (pos n) = n
pos_part (negsuc n) = 0

abbrev pub neg_part : ℤ → ℕ
neg_part (pos n) = 0
neg_part (negsuc n) = suc n

-- The difference of two numbers, as an integer.
abbrev pub sub_ℕ : ℕ → ℕ → ℤ
sub_ℕ a b = if leb b a then pos (a - b) else negsuc (b - a - 1)

infixl 65 ◌+ℤ◌ ◌-ℤ◌
unfoldable pub ◌+ℤ◌ : ℤ → ℤ → ℤ
a +ℤ b = sub_ℕ (pos_part a + pos_part b) (neg_part a + neg_part b)

unfoldable pub ◌-ℤ◌ : ℤ → ℤ → ℤ
a -ℤ b = sub_ℕ (pos_part a + neg_part b) (neg_part a + pos_part b)

-- A product with a number of a positive unit.
unfoldable pub scale : ℤ → ℕ → ℤ
scale a k = sub_ℕ (pos_part a * k) (neg_part a * k)

infix 50 ◌≤ℤ◌ ◌<ℤ◌
abbrev pub ◌≤ℤ◌ : ℤ → ℤ → Type 0
a ≤ℤ b = pos_part a + neg_part b ≤ pos_part b + neg_part a

abbrev pub ◌<ℤ◌ : ℤ → ℤ → Type 0
a <ℤ b = suc (pos_part a + neg_part b) ≤ pos_part b + neg_part a

abbrev pub lt_ℤ : ℤ → ℤ → Bool
lt_ℤ a b = ltb (pos_part a + neg_part b) (pos_part b + neg_part a)

abbrev pub le_ℤ : ℤ → ℤ → Bool
le_ℤ a b = leb (pos_part a + neg_part b) (pos_part b + neg_part a)

abbrev pub eq_ℤ : ℤ → ℤ → Bool
eq_ℤ a b = (pos_part a + neg_part b) == (pos_part b + neg_part a)

abbrev pub minus_one : ℤ
minus_one = negsuc 0

pub eq_ℤ→eq : (a b : ℤ) → eq_ℤ a b ≡ true → a ≡ b
eq_ℤ→eq a b h = ground arith

pub eq_ℤ_refl : (a : ℤ) → eq_ℤ a a ≡ true
eq_ℤ_refl a = ground arith

pub +ℤ_parts :
    (a b : ℤ)
    → pos_part (a +ℤ b) + neg_part a + neg_part b ≡ neg_part (a +ℤ b) + pos_part a + pos_part b
unfolding ◌+ℤ◌
+ℤ_parts a b = ground arith

pub -ℤ_parts :
    (a b : ℤ)
    → pos_part (a -ℤ b) + neg_part a + pos_part b ≡ neg_part (a -ℤ b) + pos_part a + neg_part b
unfolding ◌-ℤ◌
-ℤ_parts a b = ground arith

pub +ℤ_assoc : (a b c : ℤ) → (a +ℤ b) +ℤ c ≡ a +ℤ (b +ℤ c)
+ℤ_assoc a b c =
    let left = +ℤ_parts (a +ℤ b) c in
    let right = +ℤ_parts a (b +ℤ c) in
    eq_ℤ→eq ((a +ℤ b) +ℤ c) (a +ℤ (b +ℤ c)) (
      eq_of ((a +ℤ b) +ℤ c) (a +ℤ (b +ℤ c))
        (omega (arith, left, right, +ℤ_parts a b, +ℤ_parts b c)))
  where
    eq_of : (x y : ℤ) → pos_part x + neg_part y ≡ pos_part y + neg_part x → eq_ℤ x y ≡ true
    eq_of x y h = ground arith

pub le_ℤ-true : (a b : ℤ) → le_ℤ a b ≡ true → a ≤ℤ b
le_ℤ-true a b h = ground arith

-- Two spans that meet are one.
pub span_join :
    (a b d y : ℤ)
    → a ≤ℤ b
    → b ≤ℤ d
    → (if le_ℤ a y && lt_ℤ y b then true else (le_ℤ b y && lt_ℤ y d)) ≡ (le_ℤ a y && lt_ℤ y d)
span_join a b d y h k = ground arith

abbrev pub two32 : ℕ
two32 = 2 ^ 32

-- (int) of a wider integer: the 32 low bits, read as two's complement.
abbrev pub low32 : ℤ → ℕ
low32 (pos n) = n % two32
low32 (negsuc n) = two32 - 1 - n % two32

unfoldable pub to_int : ℤ → ℤ
to_int z = let u = low32 z in if ltb u (2 ^ 31) then pos u else negsuc (two32 - 1 - u)

pub to_int-small : (n : ℕ) → n < 2147483648 → to_int (pos n) ≡ pos n
unfolding to_int
to_int-small n h = let e : n % 4294967296 ≡ n = omega arith in rw e (ground arith)

abbrev pub int_max : ℤ
int_max = pos (2 ^ 31 - 1)

abbrev pub int_min : ℤ
int_min = negsuc (2 ^ 31 - 1)

-- Division by 2 in C, towards 0.
abbrev pub half : ℤ → ℤ
half (pos n) = pos (n / 2)
half (negsuc n) = sub_ℕ 0 (suc n / 2)
