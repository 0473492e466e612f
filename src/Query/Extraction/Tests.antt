-- ===== src/Query/Extraction/Tests.antt =====
-- The theorems on extraction at concrete inputs.
use cantal.Common.{ℕ, ◌≡◌, refl, arith, [], ◌∷◌}
use cantal.Common.{Option, some}
use cantal.Common.Maps.{lookup}
use cantal.History.Samples.{whole_float, test_metric}
use cantal.History.Key.{key_eq}
use cantal.History.DeltaBuf.Decode.{decode}
use cantal.History.Chunk.{HistoryChunk}
use cantal.History.Backlog.{Value, value_age}
use cantal.History.Backlog.Sample.{three_scans, three_scans-BacklogIsValid}
use cantal.Query.Rule.{diff_to_at_most, history_by_num, history_by_time}
use cantal.Query.Extraction.{Slice, extract_single, extract_multi}
use cantal.Query.Extraction.Single.{IsSlice, extract_single-IsSlice}
use cantal.Query.Extraction.Multi.{extract_multi-by_num, extract_multi-by_time}

-- 20 at scan 3, 10 at scan 2.
abbrev counter : Value (Option ℕ)
counter = Value.counter (record { tip = 20; age = 3; buf = 10 ∷ [] })

extract_single-IsSlice_example :
    (r : Option (Slice whole_float)) × (extract_single whole_float counter three_scans
        (diff_to_at_most 2)
      ≡ some r)
    × IsSlice whole_float three_scans 0 r
unfolding lookup key_eq value_age
extract_single-IsSlice_example =
    extract_single-IsSlice whole_float three_scans test_metric counter (diff_to_at_most 2)
      three_scans-BacklogIsValid (omega arith) refl

extract_multi-by_num_example :
    extract_multi whole_float counter three_scans (history_by_num 3)
    ≡ some (HistoryChunk.counter (some 20 ∷ some 10 ∷ []), 1300 ∷ 1200 ∷ 1100 ∷ [])
unfolding lookup key_eq decode
extract_multi-by_num_example =
    extract_multi-by_num whole_float three_scans test_metric counter 3 three_scans-BacklogIsValid
      (omega arith) refl

extract_multi-by_time_example :
    extract_multi whole_float counter three_scans (history_by_time 100)
    ≡ some (HistoryChunk.counter (some 20 ∷ some 10 ∷ []), 1300 ∷ 1200 ∷ [])
unfolding lookup key_eq decode
extract_multi-by_time_example =
    extract_multi-by_time whole_float three_scans test_metric counter 100 (1300, 10)
      ((1200, 10) ∷ (1100, 10) ∷ []) three_scans-BacklogIsValid (omega arith) refl refl
      (omega arith)
