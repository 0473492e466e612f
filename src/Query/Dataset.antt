-- ===== src/Query/Dataset.antt =====
-- cantal_query/src/dataset.rs: what a query gives, and why it could not.
use cantal.Common.{ℕ, List}
use cantal.History.Key.{Key}
use cantal.History.Values.{TipValue}
use cantal.History.Chunk.{HistoryChunk}

-- The times of the newer and of the older scan.
abbrev pub TimeSlice : Type 0
TimeSlice = ℕ × ℕ

pub data Conflict : Type 0 where
  cant_sum_chart dissimilar cant_sum_timestamps cant_sum_states cant_derive : Conflict

abbrev pub Series : Type 0 → Type 0
Series F = Key × HistoryChunk F × List ℕ

abbrev pub TipEntry : Type 0 → Type 0
TipEntry F = Key × TipValue F × TimeSlice

-- The strings of a chart are lists of bytes.
pub data Dataset (F : Type 0) : Type 0 where
  single_series : Series F → Dataset F
  multi_series : List (Series F) → Dataset F
  single_tip : TipEntry F → Dataset F
  multi_tip : List (TipEntry F) → Dataset F
  chart : List (List ℕ × ℕ) → Dataset F
  empty : Dataset F
  incompatible : Conflict → Dataset F

-- `Result<T, Conflict>`.
pub data Result (A : Type 0) : Type 0 where
  ok : A → Result A
  err : Conflict → Result A
