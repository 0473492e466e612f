-- ===== src/Query/Functions/Tests.antt =====
-- The theorems on sums at concrete inputs.
use cantal.Common.{ℕ, ◌≡◌, refl, arith, List, [], ◌∷◌, get_elem?, map}
use cantal.Common.{Option, none, some}
use cantal.History.Samples.{whole_float, test_metric, other_metric}
use cantal.History.Key.{Key}
use cantal.History.Chunk.{HistoryChunk}
use cantal.Query.Dataset.{ok}
use cantal.Query.Functions.{sum_series}
use cantal.Query.Functions.Derive.{derive_series, derive_series-rates}
use cantal.Query.Functions.Summing.{counter_series, sum_series-counters, sum_series-short}

abbrev full : Key × List (Option ℕ)
full = (test_metric, some 5 ∷ none ∷ some 3 ∷ [])

abbrev other : Key × List (Option ℕ)
other = (other_metric, some 1 ∷ none ∷ none ∷ [])

-- A metric that is two scans old.
abbrev young : Key × List (Option ℕ)
young = (other_metric, some 1 ∷ some 2 ∷ [])

abbrev times : List ℕ
times = 1300 ∷ 1200 ∷ 1100 ∷ []

sum_series-counters_example :
    sum_series whole_float (map (counter_series whole_float times) (full ∷ other ∷ []))
    ≡ some (ok (none, HistoryChunk.counter (some 6 ∷ none ∷ some 3 ∷ []), times))
sum_series-counters_example =
    sum_series-counters whole_float times full other [] (omega arith, (omega arith, tt))

derive_series-rates_example :
    (us : List (Option (Option ℕ))) × (ns : List (Option (Option ℕ))) × (derive_series whole_float
        (HistoryChunk.counter full.1)
        times
      ≡ (HistoryChunk.float us, 1300 ∷ 1200 ∷ []))
    × (derive_series whole_float (HistoryChunk.integer full.1) times
        ≡ (HistoryChunk.float ns, 1300 ∷ 1200 ∷ []))
    × (get_elem? us 1 ≡ some none)
    × (get_elem? ns 1 ≡ some none)
derive_series-rates_example =
    derive_series-rates whole_float full.1 times 1 none (some 3) 1200 1100 refl refl refl refl

-- The first is too short.
sum_series-short_example :
    sum_series whole_float (map (counter_series whole_float times) (young ∷ full ∷ [])) ≡ none
sum_series-short_example =
    sum_series-short whole_float times [] young (full ∷ []) (omega arith) (omega arith)
