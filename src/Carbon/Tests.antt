-- ===== src/Carbon/Tests.antt =====
-- A rate from a small backlog.
use cantal.Common.{ℕ, ◌≡◌, refl, arith, Option, some, [], ◌∷◌}
use cantal.Common.Maps.{lookup}
use cantal.History.DeltaBuf.{DeltaBuf}
use cantal.History.Key.{key_eq}
use cantal.History.Inner.{Inner}
use cantal.History.Samples.{whole_float, test_metric}
use cantal.History.Backlog.{Value}
use cantal.History.Backlog.Sample.{three_scans, three_scans-BacklogIsValid}
use cantal.Query.Rule.{diff_to_at_most}
use cantal.Query.Extraction.{extract_single}
use cantal.Carbon.{get_counter_diff}
use cantal.Carbon.Rates.{as_rate, get_counter_diff_total}

abbrev hist : Inner ℕ DeltaBuf
hist = record { tip = 20; age = 3; buf = 10 ∷ [] }

get_counter_diff_total_example :
    (d : Option (ℕ × ℕ)) × (get_counter_diff whole_float (Value.counter hist) three_scans 2
      ≡ some d)
    × (as_rate whole_float
          (extract_single whole_float (Value.counter hist) three_scans (diff_to_at_most 2))
        ≡ some d)
unfolding key_eq lookup
get_counter_diff_total_example =
    get_counter_diff_total whole_float three_scans test_metric hist 2 three_scans-BacklogIsValid
      (omega arith) refl
