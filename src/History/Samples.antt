-- ===== src/History/Samples.antt =====
-- Data that the tests share.
use cantal.Common.{ℕ, ◌+◌, ◌-◌, ◌*◌, ◌/◌, refl, Bool, true, false, Option, none, some, [], ◌∷◌}
use cantal.History.Float.{Float}
use cantal.History.DeltaBuf.{DeltaBuf}
use cantal.History.Key.{Key}

abbrev is_none : Option ℕ → Bool
is_none none = true
is_none (some _) = false

abbrev combine : (ℕ → ℕ → ℕ) → Option ℕ → Option ℕ → Option ℕ
combine f (some a) (some b) = some (f a b)
combine f _ _ = none

-- Whole numbers and one NaN.
abbrev pub whole_float : Float
whole_float = record {
  F64 = Option ℕ;
  nan = none;
  is_nan = is_none;
  add = combine (λ a b. a + b);
  sub = combine (λ a b. a - b);
  mul = combine (λ a b. a * b);
  div = combine (λ a b. a / b);
  of_u64 = some;
  of_i64 = some;
  nan-is_nan = refl;
}

-- 5 newer than 3 newer than nothing for forty scans.
abbrev pub small_buffer : DeltaBuf
small_buffer = 2 ∷ 105 ∷ 127 ∷ []

-- The keys `test_metric` and `other` by their first letters.
abbrev pub test_metric : Key
test_metric = some (116 ∷ [])

abbrev pub other_metric : Key
other_metric = some (111 ∷ [])
