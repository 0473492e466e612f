-- ===== src/History/Chunk/Ends.antt =====
-- The iterator over a chunk is taken from both ends and meets in the middle.
use cantal.Common.{ℕ, zero, suc, ◌+◌, ◌-◌, ◌≤◌, ◌<◌, ◌≡◌, refl, arith, false, leb, le→leb, gt→leb}
use cantal.Common.{Option, some, List, [], ◌∷◌, length, get_elem?}
use cantal.History.Values.{TipValue}
use cantal.History.Chunk.{
  HistoryChunk, ChunkIter, chunk_size, iter, chunk_at, as_value, at_index, yield, next, next_back,
  len,
}

module _ {F : Type 0} where
  -- The iterator's bounds lie within the chunk.
  pub record InChunk (it : ChunkIter F) : Type 0 where
    pub ordered : it.start_index ≤ it.end_index
    pub inside : it.end_index ≤ chunk_size it.chunk

  at_index-inside :
      {A : Type 0} (value : A → TipValue F) (slc : List (Option A)) (i : ℕ)
      → i < length slc
      → (v : Option (TipValue F)) × (at_index value (get_elem? slc i) ≡ some v)
  at_index-inside value [] i h = absurd (omega arith)
  at_index-inside value (x ∷ slc) zero h = (as_value value x, refl)
  at_index-inside value (x ∷ slc) (suc i) h = at_index-inside value slc i (omega arith)

  chunk_at-inside :
      (chunk : HistoryChunk F) (i : ℕ)
      → i < chunk_size chunk
      → (v : Option (TipValue F)) × (chunk_at chunk i ≡ some v)
  unfolding chunk_at chunk_size
  chunk_at-inside (HistoryChunk.state (ts, val)) i h = (some (TipValue.state ts val), refl)
  chunk_at-inside (HistoryChunk.counter slc) i h = at_index-inside TipValue.counter slc i h
  chunk_at-inside (HistoryChunk.integer slc) i h = at_index-inside TipValue.integer slc i h
  chunk_at-inside (HistoryChunk.float slc) i h = at_index-inside TipValue.float slc i h

  -- An iterator within its chunk that is not at its end yields the entry at its start index from
  -- `next`, and the entry before its end index from `next_back`, without a panic; it is then one
  -- shorter, and still within the chunk.
  pub next-both :
      (it : ChunkIter F)
      → InChunk it
      → 0 < len it
      → (front back : Option (TipValue F)) × (it' it'' : ChunkIter F) × (next it
          ≡ some (some front, it'))
        × (chunk_at it.chunk it.start_index ≡ some front)
        × InChunk it'
        × (len it' ≡ len it - 1)
        × (next_back it ≡ some (some back, it''))
        × (chunk_at it.chunk (it.end_index - 1) ≡ some back)
        × InChunk it''
        × (len it'' ≡ len it - 1)
  unfolding next next_back len
  next-both it h l =
      let (front, f) =
        chunk_at-inside it.chunk it.start_index (omega (arith, h.inside, h.ordered)) in
      let (back, b) = chunk_at-inside it.chunk (it.end_index - 1) (omega (arith, h.inside)) in
      let more : leb it.end_index it.start_index ≡ false =
        gt→leb it.end_index it.start_index (omega arith) in
      (
        front,
        back,
        record it { start_index = it.start_index + 1 },
        record it { end_index = it.end_index - 1 },
        rw (more, yield, f) refl,
        f,
        record { ordered = omega arith; inside = h.inside },
        omega arith,
        rw (more, yield, b) refl,
        b,
        record { ordered = omega arith; inside = omega (arith, h.inside) },
        omega arith,
      )

  -- The iterator of a chunk that is not empty begins with all of the chunk.
  pub iter-InChunk :
      (chunk : HistoryChunk F)
      → 0 < chunk_size chunk
      → (it : ChunkIter F) × (iter chunk ≡ some it)
        × InChunk it
        × (it.chunk ≡ chunk)
        × (len it ≡ chunk_size chunk)
  unfolding iter len
  iter-InChunk chunk h = (
    record { chunk = chunk; start_index = 0; end_index = chunk_size chunk },
    rw (le→leb 1 (chunk_size chunk) (omega arith)) refl,
    record { ordered = omega arith; inside = omega arith },
    refl,
    omega arith,
  )
