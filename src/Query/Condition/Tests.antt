-- ===== src/Query/Condition/Tests.antt =====
-- The theorem on conditions at a concrete input.
use cantal.Common.{ℕ, ◌≡◌, true, some, List, [], ◌∷◌}
use cantal.History.Key.{bytes_eq}
use cantal.History.Key.Pairs.{from_iter}
use cantal.History.Key.Sample.{counted, counted-IsCodec, two_pairs, two_pairs-IsSized}
use cantal.Query.Condition.{Regexes, Condition, eq, and, negation, has, matches}
use cantal.Query.Condition.Meaning.{matches-holds}

-- Expressions that are texts to be equal to.
abbrev literals : Regexes
literals = record { Regex = List ℕ; is_match = bytes_eq }

abbrev a_and_not_b : Condition (List ℕ)
a_and_not_b = and (eq (4 ∷ []) (5 ∷ 6 ∷ [])) (negation (has (7 ∷ [])))

matches-holds_example :
    matches counted literals a_and_not_b (from_iter counted two_pairs) ≡ some true
unfolding bytes_eq
matches-holds_example =
    matches-holds counted literals a_and_not_b two_pairs counted-IsCodec two_pairs-IsSized
