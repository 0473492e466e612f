-- ===== src/Query/Run/Tests.antt =====
-- The theorem on queries at a concrete input.
use cantal.Common.{ℕ, ◌≡◌, refl, arith, false, Option, some, List, [], ◌∷◌}
use cantal.Common.Maps.{lookup}
use cantal.History.Samples.{whole_float}
use cantal.History.DeltaBuf.Decode.{decode, is_valid}
use cantal.History.Key.{key_eq}
use cantal.History.Key.Pairs.{from_iter}
use cantal.History.Key.Sample.{counted, counted-IsCodec, two_pairs, two_pairs-IsSized}
use cantal.History.Values.{TipValue}
use cantal.History.Backlog.{Backlog, Value}
use cantal.History.Backlog.Invariant.{BacklogIsValid}
use cantal.History.Tip.{History}
use cantal.Query.Condition.{Regexes, has}
use cantal.Query.Rule
use cantal.Query.Rule.{Rule}
use cantal.Query.Dataset.{Dataset}
use cantal.Query.Run.{select, exec_all, query_history}
use cantal.Query.Run.Total.{query_history-select}

abbrev no_regexes : Regexes
no_regexes = record { Regex = List ℕ; is_match = λ r x. false }

abbrev one_counter : Backlog (Option ℕ)
one_counter = record {
  age = 2;
  timestamps = (1200, 10) ∷ (1100, 10) ∷ [];
  values =
      (from_iter counted two_pairs, Value.counter (record { tip = 20; age = 2; buf = 10 ∷ [] }))
      ∷ [];
}

one_counter-BacklogIsValid : BacklogIsValid one_counter
unfolding is_valid decode key_eq lookup
one_counter-BacklogIsValid = record {
  recorded = omega arith;
  ordered = (omega arith, tt);
  unique = (refl, tt);
  fits = (record { valid = refl; word = omega arith; past = omega arith; room = omega arith }, tt);
}

abbrev store : History (Option ℕ)
store = record {
  fine = one_counter;
  tip = record {
    latest_timestamp = (1200, 10);
    values = (from_iter counted two_pairs, (1200, TipValue.counter 7)) ∷ [];
  };
}

-- The change of every metric that has a field `4` over at most two scans.
abbrev changes : Rule (List ℕ)
changes = record {
  series = record { source = Rule.fine; condition = has (4 ∷ []) };
  extract = Rule.diff_to_at_most 2;
  functions = Rule.sum ∷ [];
}

query_history-select_example :
    (d : Dataset (Option ℕ)) × (select counted whole_float no_regexes Rule.fine
        (has (4 ∷ []))
        (Rule.diff_to_at_most 2)
        store
      ≡ some d)
    × (query_history counted whole_float no_regexes changes store
        ≡ exec_all counted whole_float d (Rule.sum ∷ []))
    × (query_history counted whole_float no_regexes (record changes { functions = [] }) store
        ≡ some d)
query_history-select_example =
    query_history-select counted whole_float no_regexes changes store counted-IsCodec
      one_counter-BacklogIsValid (omega arith) ((two_pairs, two_pairs-IsSized, refl), tt)
      ((two_pairs, two_pairs-IsSized, refl), tt)
