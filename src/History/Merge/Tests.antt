-- ===== src/History/Merge/Tests.antt =====
-- The theorem on `merge` at concrete inputs.
use cantal.Common.{ℕ, ◌≡◌, List, [], ◌∷◌, none, some}
use cantal.History.Chunk.{HistoryChunk}
use cantal.History.Merge.{ChunkSet, merge}
use cantal.History.Merge.Kinds.{merge-gathered}

abbrev two_counters : List (HistoryChunk ℕ)
two_counters = HistoryChunk.counter (some 1 ∷ []) ∷ HistoryChunk.counter (none ∷ some 2 ∷ []) ∷ []

merge-gathered_example :
    merge two_counters ≡ ChunkSet.counters ((some 1 ∷ []) ∷ (none ∷ some 2 ∷ []) ∷ [])
merge-gathered_example = merge-gathered two_counters
