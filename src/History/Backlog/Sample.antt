-- ===== src/History/Backlog/Sample.antt =====
-- A backlog that the tests share.
use cantal.Common.{ℕ, refl, arith, [], ◌∷◌}
use cantal.Common.{Option, some}
use cantal.Common.Maps.{lookup}
use cantal.History.DeltaBuf.Decode.{decode, is_valid}
use cantal.History.Samples.{test_metric, other_metric}
use cantal.History.Key.{key_eq}
use cantal.History.Backlog.{Backlog, Value}
use cantal.History.Backlog.Invariant.{BacklogIsValid}

-- A counter read in the last two of three scans, and a float in the first.
abbrev pub three_scans : Backlog (Option ℕ)
three_scans = record {
  age = 3;
  timestamps = (1300, 10) ∷ (1200, 10) ∷ (1100, 10) ∷ [];
  values =
      (test_metric, Value.counter (record { tip = 20; age = 3; buf = 10 ∷ [] }))
      ∷ (other_metric, Value.float (record { tip = some 1; age = 1; buf = [] }))
      ∷ [];
}

pub three_scans-BacklogIsValid : BacklogIsValid three_scans
unfolding is_valid decode key_eq lookup
three_scans-BacklogIsValid = record {
  recorded = omega arith;
  ordered = (omega arith, (omega arith, tt));
  unique = (refl, (refl, tt));
  fits = (
    record { valid = refl; word = omega arith; past = omega arith; room = omega arith },
    (record { past = omega arith; room = omega arith }, tt),
  );
}
