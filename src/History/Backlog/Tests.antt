-- ===== src/History/Backlog/Tests.antt =====
-- The runs of the program's own tests in backlog.rs, and the theorems at concrete inputs.
use cantal.Common.{ℕ, ◌≡◌, refl, arith, List, [], ◌∷◌}
use cantal.Common.{Option, some}
use cantal.Common.Maps.{lookup}
use cantal.History.Backlog.Sample.{three_scans, three_scans-BacklogIsValid}
use cantal.History.Samples.{whole_float, test_metric, other_metric}
use cantal.History.Key.{Key, key_eq, key_has_eq}
use cantal.History.Values.{TipValue}
use cantal.History.Backlog.{Backlog, push, truncate_by_num, truncate_by_time}
use cantal.History.Backlog.Invariant.{BacklogIsValid}
use cantal.History.Backlog.Push.{push-BacklogIsValid}
use cantal.History.Backlog.Truncate.{truncate_by_num_lem, truncate_by_time_lem, survivor}

abbrev fourth : List (Key × TipValue (Option ℕ))
fourth = (test_metric, TipValue.counter 25) ∷ (other_metric, TipValue.integer 3) ∷ []

push-BacklogIsValid_example :
    (bl' : Backlog (Option ℕ)) × (push whole_float three_scans (1400, 10) fourth ≡ some bl')
    × BacklogIsValid bl'
    × (bl'.age ≡ 4)
    × (bl'.timestamps ≡ (1400, 10) ∷ three_scans.timestamps)
unfolding key_eq
push-BacklogIsValid_example =
    push-BacklogIsValid whole_float three_scans (1400, 10) fourth three_scans-BacklogIsValid
      (omega arith, (refl, tt), (omega arith, tt, tt)) refl (omega arith)

truncate_by_num_lem_example :
    let bl' = truncate_by_num whole_float three_scans 1 in
    BacklogIsValid bl'
    × (bl'.age ≡ 3)
    × (bl'.timestamps ≡ (1300, 10) ∷ [])
    × ((k : Key) → lookup k bl'.values ≡ survivor whole_float 2 (lookup k three_scans.values))
truncate_by_num_lem_example =
    truncate_by_num_lem whole_float three_scans 1 three_scans-BacklogIsValid

truncate_by_time_lem_example :
    let bl' = truncate_by_time whole_float three_scans 1150 in
    BacklogIsValid bl' × (bl'.age ≡ 3) × (bl'.timestamps ≡ (1300, 10) ∷ (1200, 10) ∷ [])
truncate_by_time_lem_example =
    truncate_by_time_lem whole_float three_scans 1150 three_scans-BacklogIsValid
