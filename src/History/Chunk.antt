-- ===== src/History/Chunk.antt =====
-- cantal_history/src/chunk.rs, `HistoryChunk`: a piece of the history of one metric.
pub mod Ends
mod Tests
use cantal.Common.{ℕ, ◌+◌, ◌-◌, leb, if◌then◌else◌, Option, none, some, List, length, get_elem?}
use cantal.History.Values.{TipValue}

-- A state's text is the list of its bytes.
pub data HistoryChunk (F : Type 0) : Type 0 where
  state : ℕ × List ℕ → HistoryChunk F
  counter : List (Option ℕ) → HistoryChunk F
  integer : List (Option ℕ) → HistoryChunk F
  float : List (Option F) → HistoryChunk F

-- `HistoryChunkIter`.
pub record ChunkIter (F : Type 0) : Type 0 where
  pub chunk : HistoryChunk F
  pub start_index : ℕ
  pub end_index : ℕ

-- What `next` and `next_back` give: the end, or an entry, and the iterator afterwards.
abbrev pub Yield : Type 0 → Type 0
Yield F = Option (Option (TipValue F)) × ChunkIter F

module _ {F : Type 0} where
  unfoldable pub chunk_size : HistoryChunk F → ℕ
  chunk_size (HistoryChunk.state _) = 1
  chunk_size (HistoryChunk.counter slc) = length slc
  chunk_size (HistoryChunk.integer slc) = length slc
  chunk_size (HistoryChunk.float slc) = length slc

  -- `iter`, which asserts that the chunk is not empty: a panic is `none`.
  unfoldable pub iter : HistoryChunk F → Option (ChunkIter F)
  iter chunk =
      if leb 1 (chunk_size chunk)
      then some (record { chunk = chunk; start_index = 0; end_index = chunk_size chunk })
      else none

  abbrev pub as_value : {A : Type 0} → (A → TipValue F) → Option A → Option (TipValue F)
  as_value value none = none
  as_value value (some x) = some (value x)

  -- `slc[idx].map(value)`.
  abbrev pub at_index :
      {A : Type 0} → (A → TipValue F) → Option (Option A) → Option (Option (TipValue F))
  at_index value none = none
  at_index value (some x) = some (as_value value x)

  -- What stands at an index: past the end is a panic.
  unfoldable pub chunk_at : HistoryChunk F → ℕ → Option (Option (TipValue F))
  chunk_at (HistoryChunk.state (ts, val)) idx = some (some (TipValue.state ts val))
  chunk_at (HistoryChunk.counter slc) idx = at_index TipValue.counter (get_elem? slc idx)
  chunk_at (HistoryChunk.integer slc) idx = at_index TipValue.integer (get_elem? slc idx)
  chunk_at (HistoryChunk.float slc) idx = at_index TipValue.float (get_elem? slc idx)

  abbrev pub yield : Option (Option (TipValue F)) → ChunkIter F → Option (Yield F)
  yield none it = none
  yield (some v) it = some (some v, it)

  -- `next`; a panic is `none`.
  unfoldable pub next : ChunkIter F → Option (Yield F)
  next it =
      if leb it.end_index it.start_index
      then some (none, it)
      else yield (chunk_at it.chunk it.start_index) (record it { start_index = it.start_index + 1 })

  -- `next_back`.
  unfoldable pub next_back : ChunkIter F → Option (Yield F)
  next_back it =
      if leb it.end_index it.start_index
      then some (none, it)
      else yield (chunk_at it.chunk (it.end_index - 1)) (record it { end_index = it.end_index - 1 })

  -- `len`.
  unfoldable pub len : ChunkIter F → ℕ
  len it = it.end_index - it.start_index
