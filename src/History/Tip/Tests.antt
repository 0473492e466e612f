-- ===== src/History/Tip/Tests.antt =====
-- The theorems on `Tip` and `History` at concrete inputs.
use cantal.Common.{ℕ, ◌≡◌, refl, List, [], ◌∷◌, Option}
use cantal.Common.Maps.{lookup, Unique}
use cantal.History.Samples.{whole_float, test_metric, other_metric}
use cantal.History.Key.{Key, key_has_eq}
use cantal.History.Values.{TipValue}
use cantal.History.Backlog.Sample.{three_scans, three_scans-BacklogIsValid}
use cantal.History.Backlog.Invariant.{BacklogIsValid}
use cantal.History.Tip.{Tip, push, History, truncate_history}
use cantal.History.Tip.Newest.{last_of, newer_or, since, tip_push_lem, truncate_history_lem}

-- A state that was read at 1000.
abbrev one_state : Tip (Option ℕ)
one_state = record {
  latest_timestamp = (1200, 10);
  values = (test_metric, (1000, TipValue.state 990 (111 ∷ 107 ∷ []))) ∷ [];
}

one_state-Unique : Unique one_state.values
unfolding lookup
one_state-Unique = (refl, tt)

abbrev scan : List (Key × TipValue (Option ℕ))
scan = (other_metric, TipValue.counter 7) ∷ []

tip_push_lem_example :
    let tip' = push one_state (1300, 10) scan in
    (tip'.latest_timestamp ≡ (1300, 10))
    × Unique tip'.values
    × ((k : Key)
        → lookup k tip'.values ≡ newer_or 1300 (last_of k scan) (lookup k one_state.values))
tip_push_lem_example = tip_push_lem one_state (1300, 10) scan one_state-Unique

abbrev both : History (Option ℕ)
both = record { fine = three_scans; tip = one_state }

truncate_history_lem_example :
    let h' = truncate_history whole_float both 1150 in
    BacklogIsValid h'.fine
    × (h'.fine.timestamps ≡ (1300, 10) ∷ (1200, 10) ∷ [])
    × Unique h'.tip.values
    × ((k : Key) → lookup k h'.tip.values ≡ since 1150 (lookup k one_state.values))
truncate_history_lem_example =
    truncate_history_lem whole_float both 1150 three_scans-BacklogIsValid one_state-Unique
