-- ===== src/Common/Bits.antt =====
-- Masks and shifts as arithmetic. On a byte each mask is a table that is checked by evaluation;
-- on a word the laws come from the recursion on binary digits that the native operations mean.
use Prim.Native.Nat.{ℕ, zero, suc, ◌+◌, ◌*◌, ◌/◌, ◌%◌, ◌≤◌, ◌<◌, min, max}
use Prim.Native.Nat.{bit_and, bit_or, digits, bit_and-bitwise, bit_or-bitwise}
use mathlib.Core.Path.{◌≡◌, refl, sym, ap, ◌∙◌}
use mathlib.Core.Bool.{Bool, true, ◌&&◌}
use native.Mathlib.Omega.{arith}
use cantal.Common.Tests.{◌==◌}

agrees : (f g : ℕ → ℕ) → ℕ → Bool
agrees f g zero = true
agrees f g (suc n) = (f n == g n) && agrees f g n

agrees-eq : (f g : ℕ → ℕ) (n x : ℕ) → agrees f g n ≡ true → x < n → f x ≡ g x
unfolding agrees
agrees-eq f g zero x h lt = absurd (omega arith)
agrees-eq f g (suc n) x h lt = ground (arith, agrees-eq f g n x)

pub and_continuation : (b : ℕ) → b < 256 → bit_and b 0x80 ≡ b / 128 * 128
unfolding agrees
and_continuation b h = agrees-eq (λ b. bit_and b 0x80) (λ b. b / 128 * 128) 256 b refl h

pub and_special : (b : ℕ) → b < 256 → bit_and b 0x40 ≡ b / 64 % 2 * 64
unfolding agrees
and_special b h = agrees-eq (λ b. bit_and b 0x40) (λ b. b / 64 % 2 * 64) 256 b refl h

pub and_sign : (b : ℕ) → b < 256 → bit_and b 0x20 ≡ b / 32 % 2 * 32
unfolding agrees
and_sign b h = agrees-eq (λ b. bit_and b 0x20) (λ b. b / 32 % 2 * 32) 256 b refl h

pub and_special_three : (b : ℕ) → b < 256 → bit_and b 0xe0 ≡ b / 32 * 32
unfolding agrees
and_special_three b h = agrees-eq (λ b. bit_and b 0xe0) (λ b. b / 32 * 32) 256 b refl h

pub set_skip : (n : ℕ) → n < 32 → bit_or 0x60 n ≡ 96 + n
unfolding agrees
set_skip n h = agrees-eq (λ n. bit_or 0x60 n) (λ n. 96 + n) 32 n refl h

pub set_zero : (n : ℕ) → n < 32 → bit_or n 0x40 ≡ n + 64
unfolding agrees
set_zero n h = agrees-eq (λ n. bit_or n 0x40) (λ n. n + 64) 32 n refl h

pub set_sign : (n : ℕ) → n < 32 → bit_or 0x20 n ≡ 32 + n
unfolding agrees
set_sign n h = agrees-eq (λ n. bit_or 0x20 n) (λ n. 32 + n) 32 n refl h

pub set_plus : (n : ℕ) → n < 32 → bit_or 0 n ≡ n
unfolding agrees
set_plus n h = agrees-eq (λ n. bit_or 0 n) (λ n. n) 32 n refl h

pub set_continuation : (n : ℕ) → n < 128 → bit_or n 0x80 ≡ n + 128
unfolding agrees
set_continuation n h = agrees-eq (λ n. bit_or n 0x80) (λ n. n + 128) 128 n refl h

-- The fuel of `digits` is the first number; a number with enough fuel does not see how much.
module _ (z : ℕ → ℕ) (f : ℕ → ℕ → ℕ) where
  digits_done : (k b : ℕ) → digits z f k 0 b ≡ z b
  digits_done zero b = refl
  digits_done (suc k) b = refl

  digits_agree : (j k : ℕ) (a b : ℕ) → a ≤ j → a ≤ k → digits z f j a b ≡ digits z f k a b
  digits_agree j k zero b hj hk = digits_done j b ∙ sym (digits_done k b)
  digits_agree zero k (suc a) b hj hk = absurd (omega arith)
  digits_agree (suc j) zero (suc a) b hj hk = absurd (omega arith)
  digits_agree (suc j) (suc k) (suc a) b hj hk =
      ap (λ t. t * 2 + f (suc a % 2) (b % 2))
        (digits_agree j k (suc a / 2) (b / 2) (omega arith) (omega arith))

-- One digit of `|`.
or_digit : (a b : ℕ) → bit_or a b ≡ bit_or (a / 2) (b / 2) * 2 + max (a % 2) (b % 2)
or_digit zero b = omega (arith, bit_or-bitwise 0 b, bit_or-bitwise 0 (b / 2))
or_digit (suc a) b = omega (
  arith,
  bit_or-bitwise (suc a) b,
  bit_or-bitwise (suc a / 2) (b / 2),
  digits_agree (λ b. b) max a (suc a / 2) (suc a / 2) (b / 2) (omega arith) (omega arith),
)

-- One digit of `&`.
and_digit : (a b : ℕ) → bit_and a b ≡ bit_and (a / 2) (b / 2) * 2 + min (a % 2) (b % 2)
and_digit zero b = omega (arith, bit_and-bitwise 0 b, bit_and-bitwise 0 (b / 2))
and_digit (suc a) b = omega (
  arith,
  bit_and-bitwise (suc a) b,
  bit_and-bitwise (suc a / 2) (b / 2),
  digits_agree (λ b. 0) min a (suc a / 2) (suc a / 2) (b / 2) (omega arith) (omega arith),
)

or_nothing : (k a : ℕ) → a ≤ k → bit_or a 0 ≡ a
or_nothing k zero h = refl
or_nothing zero (suc a) h = absurd (omega arith)
or_nothing (suc k) (suc a) h =
    omega (arith, or_digit (suc a) 0, or_nothing k (suc a / 2) (omega arith))

and_nothing : (k a : ℕ) → a ≤ k → bit_and a 0 ≡ 0
and_nothing k zero h = refl
and_nothing zero (suc a) h = absurd (omega arith)
and_nothing (suc k) (suc a) h =
    omega (arith, and_digit (suc a) 0, and_nothing k (suc a / 2) (omega arith))

-- `|` with a number that lies in low bits which are clear is a sum.
pub or_five : (a x : ℕ) → x < 32 → bit_or (a * 32) x ≡ a * 32 + x
or_five a x h = ground (
  arith,
  or_digit (a * 32) x,
  or_digit (a * 16) (x / 2),
  or_digit (a * 8) (x / 2 / 2),
  or_digit (a * 4) (x / 2 / 2 / 2),
  or_digit (a * 2) (x / 2 / 2 / 2 / 2),
  or_nothing a a (omega arith),
)

pub and_five : (a : ℕ) → bit_and a 31 ≡ a % 32
and_five a = omega (
  arith,
  and_digit a 31,
  and_digit (a / 2) 15,
  and_digit (a / 2 / 2) 7,
  and_digit (a / 2 / 2 / 2) 3,
  and_digit (a / 2 / 2 / 2 / 2) 1,
  and_nothing (a / 2 / 2 / 2 / 2 / 2) (a / 2 / 2 / 2 / 2 / 2) (omega arith),
)

pub or_seven : (a x : ℕ) → x < 128 → bit_or (a * 128) x ≡ a * 128 + x
or_seven a x h =
    ground
      (arith, or_digit (a * 128) x, or_digit (a * 64) (x / 2), or_five a (x / 2 / 2) (omega arith))

pub and_seven : (a : ℕ) → bit_and a 127 ≡ a % 128
and_seven a = omega (arith, and_digit a 127, and_digit (a / 2) 63, and_five (a / 2 / 2))
