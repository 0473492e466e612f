-- ===== src/History/Word.antt =====
-- The machine integers of cantal_history/src/deltabuf.rs (its trait `Int`): u64 and i64, as the
-- 64-bit patterns that the release build computes with. Subtraction and addition wrap alike for
-- both; the order and the right shift differ.
use cantal.Common.{ℕ, ◌+◌, ◌-◌, ◌*◌, ◌/◌, ◌%◌, ◌^◌, ◌<◌, Bool, ltb, min, if◌then◌else◌}

pub data Width : Type 0 where
  unsigned signed : Width

abbrev pub modulus : ℕ
modulus = 2 ^ 64

abbrev pub half : ℕ
half = 2 ^ 63

abbrev pub IsWord : ℕ → Type 0
IsWord x = x < modulus

-- `a - b` and `a + b`.
abbrev pub word_sub : ℕ → ℕ → ℕ
word_sub a b = (a + modulus - b) % modulus

abbrev pub word_add : ℕ → ℕ → ℕ
word_add a b = (a + b) % modulus

-- A pattern as a number that is in the order of the values: the sign bit of an i64 is turned over.
abbrev pub rank : Width → ℕ → ℕ
rank unsigned a = a
rank signed a = (a + half) % modulus

-- `a > b`.
abbrev pub gtb : Width → ℕ → ℕ → Bool
gtb w a b = ltb (rank w b) (rank w a)

-- `a >> k`: an i64 below zero is filled with ones.
abbrev pub shift_right : Width → ℕ → ℕ → ℕ
shift_right unsigned a k = a / 2 ^ k
shift_right signed a k = if ltb a half then a / 2 ^ k else modulus - 2 ^ (64 - k) + a / 2 ^ k

-- `a << k`.
abbrev pub shift_left : ℕ → ℕ → ℕ
shift_left a k = a * 2 ^ k % modulus

-- `a.saturating_sub(b)`: an i64 stays between -2 ^ 63 and 2 ^ 63 - 1.
abbrev pub saturating_sub : Width → ℕ → ℕ → ℕ
saturating_sub unsigned a b = a - b
saturating_sub signed a b =
    if ltb (rank signed a) (rank signed b)
    then modulus - min (rank signed b - rank signed a) half
    else min (rank signed a - rank signed b) (half - 1)

-- How far `old` and `new` lie apart.
abbrev pub gap : Width → ℕ → ℕ → ℕ
gap w a b = if gtb w a b then rank w a - rank w b else rank w b - rank w a

-- The difference of two values is one of the type: always so for u64, for i64 if it stays
-- below 2 ^ 63.
abbrev pub Fits : Width → ℕ → ℕ → Type 0
Fits unsigned a b = IsWord a × IsWord b
Fits signed a b = IsWord a × IsWord b × (gap signed a b < half)
