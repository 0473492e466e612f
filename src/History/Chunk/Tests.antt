-- ===== src/History/Chunk/Tests.antt =====
-- The theorems on the iterator over a chunk at concrete inputs.
use cantal.Common.{ℕ, ◌≡◌, arith, [], ◌∷◌, Option, none, some}
use cantal.History.Values.{TipValue}
use cantal.History.Chunk.{HistoryChunk, ChunkIter, chunk_size, chunk_at, next, next_back, len}
use cantal.History.Chunk.Ends.{InChunk, next-both}

abbrev levels : HistoryChunk ℕ
levels = HistoryChunk.integer (some 4 ∷ none ∷ some 6 ∷ [])

-- With the last entry taken.
abbrev two_left : ChunkIter ℕ
two_left = record { chunk = levels; start_index = 0; end_index = 2 }

two_left-InChunk : InChunk two_left
unfolding chunk_size
two_left-InChunk = record { ordered = omega arith; inside = omega arith }

next-both_example :
    (front back : Option (TipValue ℕ)) × (it' it'' : ChunkIter ℕ) × (next two_left
      ≡ some (some front, it'))
    × (chunk_at levels 0 ≡ some front)
    × InChunk it'
    × (len it' ≡ 1)
    × (next_back two_left ≡ some (some back, it''))
    × (chunk_at levels 1 ≡ some back)
    × InChunk it''
    × (len it'' ≡ 1)
unfolding len
next-both_example = next-both two_left two_left-InChunk (omega arith)
