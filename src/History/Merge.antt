-- ===== src/History/Merge.antt =====
-- cantal_history/src/merge.rs: chunks, or values, of one kind gathered from several metrics.
pub mod Kinds
mod Tests
use cantal.Common.{ℕ, List, [], ◌∷◌, ◌++◌, Option}
use cantal.History.Chunk.{HistoryChunk}
use cantal.History.Values.{TipValue}

-- A state is a timestamp and a text.
abbrev pub StateItem : Type 0
StateItem = ℕ × List ℕ

pub data ChunkSet (F : Type 0) : Type 0 where
  empty : ChunkSet F
  states : List StateItem → ChunkSet F
  counters : List (List (Option ℕ)) → ChunkSet F
  integers : List (List (Option ℕ)) → ChunkSet F
  floats : List (List (Option F)) → ChunkSet F
  conflict : ChunkSet F

pub data ValueSet (F : Type 0) : Type 0 where
  empty : ValueSet F
  states : List StateItem → ValueSet F
  counters : List ℕ → ValueSet F
  integers : List ℕ → ValueSet F
  floats : List F → ValueSet F
  conflict : ValueSet F

module _ {F : Type 0} where
  -- `ChunkSet::join`.
  pub join : ChunkSet F → HistoryChunk F → ChunkSet F
  join ChunkSet.empty (HistoryChunk.state item) = ChunkSet.states (item ∷ [])
  join ChunkSet.empty (HistoryChunk.counter item) = ChunkSet.counters (item ∷ [])
  join ChunkSet.empty (HistoryChunk.integer item) = ChunkSet.integers (item ∷ [])
  join ChunkSet.empty (HistoryChunk.float item) = ChunkSet.floats (item ∷ [])
  join (ChunkSet.states x) (HistoryChunk.state item) = ChunkSet.states (x ++ (item ∷ []))
  join (ChunkSet.counters x) (HistoryChunk.counter item) = ChunkSet.counters (x ++ (item ∷ []))
  join (ChunkSet.integers x) (HistoryChunk.integer item) = ChunkSet.integers (x ++ (item ∷ []))
  join (ChunkSet.floats x) (HistoryChunk.float item) = ChunkSet.floats (x ++ (item ∷ []))
  join _ _ = ChunkSet.conflict

  merge_onto : ChunkSet F → List (HistoryChunk F) → ChunkSet F
  merge_onto set [] = set
  merge_onto set (chunk ∷ iter) = merge_onto (join set chunk) iter

  -- `ChunkSet::merge`.
  pub merge : List (HistoryChunk F) → ChunkSet F
  merge iter = merge_onto ChunkSet.empty iter

  -- `ValueSet::join`.
  pub join_value : ValueSet F → TipValue F → ValueSet F
  join_value ValueSet.empty (TipValue.state ts text) = ValueSet.states ((ts, text) ∷ [])
  join_value ValueSet.empty (TipValue.counter item) = ValueSet.counters (item ∷ [])
  join_value ValueSet.empty (TipValue.integer item) = ValueSet.integers (item ∷ [])
  join_value ValueSet.empty (TipValue.float item) = ValueSet.floats (item ∷ [])
  join_value (ValueSet.states x) (TipValue.state ts text) = ValueSet.states (x ++ ((ts, text) ∷ []))
  join_value (ValueSet.counters x) (TipValue.counter item) = ValueSet.counters (x ++ (item ∷ []))
  join_value (ValueSet.integers x) (TipValue.integer item) = ValueSet.integers (x ++ (item ∷ []))
  join_value (ValueSet.floats x) (TipValue.float item) = ValueSet.floats (x ++ (item ∷ []))
  join_value _ _ = ValueSet.conflict

  merge_values_onto : ValueSet F → List (TipValue F) → ValueSet F
  merge_values_onto set [] = set
  merge_values_onto set (value ∷ iter) = merge_values_onto (join_value set value) iter

  -- `ValueSet::merge`.
  pub merge_values : List (TipValue F) → ValueSet F
  merge_values iter = merge_values_onto ValueSet.empty iter
