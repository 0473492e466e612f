-- ===== src/Query/Functions.antt =====
-- cantal_query/src/functions: sums over the series, or the values, of several metrics. A panic of
-- the program is `none`.
pub mod Columns
pub mod Summing
pub mod Derive
mod Tests
use cantal.Common.{
  ℕ, ◌+◌, Bool, true, false, ltb, ◌==◌, if◌then◌else◌, ◌&&◌, get_elem?, map, replicate,
}
use cantal.Common.{Option, none, some, List, [], ◌∷◌, length}
use cantal.History.Word.{word_add}
use cantal.History.Float.{Float}
use cantal.History.Key.{Key}
use cantal.History.Values.{TipValue}
use cantal.History.Chunk.{HistoryChunk}
use cantal.History.Merge.{ChunkSet, ValueSet, merge, merge_values}
use cantal.Query.Dataset.{
  Dataset, Conflict, Series, TipEntry, TimeSlice, Result, ok, err, cant_sum_chart, dissimilar,
  cant_sum_timestamps, cant_sum_states, incompatible, single_series, single_tip,
}

module _ {A : Type 0} (add : A → A → A) where
  -- The arms of the match in `vec_sum`.
  abbrev pub add_known : Option A → Option A → Option A
  add_known (some x) (some y) = some (add x y)
  add_known none y = y
  add_known (some x) none = some x

  -- A source that is shorter than the target is indexed past its end.
  pub vec_sum : List (Option A) → List (Option A) → Option (List (Option A))
  vec_sum [] source = some []
  vec_sum (x ∷ target) [] = none
  vec_sum (x ∷ target) (y ∷ source) = elim (vec_sum target source) [
    | none ↦ none
    | some sums ↦ some (add_known x y ∷ sums)
  ]

  -- `lst.iter().fold(target, vec_sum)`.
  pub vec_sum_all : List (Option A) → List (List (Option A)) → Option (List (Option A))
  vec_sum_all target [] = some target
  vec_sum_all target (source ∷ lst) = elim (vec_sum target source) [
    | none ↦ none
    | some sums ↦ vec_sum_all sums lst
  ]

  pub sum_iter_onto : A → List A → A
  sum_iter_onto x [] = x
  sum_iter_onto x (y ∷ iter) = sum_iter_onto (add x y) iter

  -- `iter.next().unwrap()` panics where there is nothing.
  pub sum_iter : List A → Option A
  sum_iter [] = none
  sum_iter (x ∷ iter) = some (sum_iter_onto x iter)

-- The `==` of lists of timestamps, and of slices.
abbrev pub times_eq : List ℕ → List ℕ → Bool
times_eq [] [] = true
times_eq (a ∷ xs) (b ∷ ys) = a == b && times_eq xs ys
times_eq _ _ = false

abbrev pub slice_eq : TimeSlice → TimeSlice → Bool
slice_eq a b = (a.0 == b.0) && (a.1 == b.1)

abbrev pub all_same {ℓ} : {A : Type ℓ} → (A → Bool) → List A → Bool
all_same same [] = true
all_same same (x ∷ xs) = same x && all_same same xs

module _ (fl : Float) where
  open fl use {F64, add}

  abbrev pub finish :
      {A : Type 0} → (A → HistoryChunk F64) → List ℕ → Option A → Option (Result (Series F64))
  finish chunk ts none = none
  finish chunk ts (some points) = some (ok (none, chunk points, ts))

  -- The match on the merged chunks in `sum_series`.
  pub sum_chunks : ChunkSet F64 → List ℕ → Option (Result (Series F64))
  sum_chunks ChunkSet.empty ts = none
  sum_chunks (ChunkSet.counters lst) ts =
      finish HistoryChunk.counter ts (vec_sum_all word_add (replicate (length ts) none) lst)
  sum_chunks (ChunkSet.integers lst) ts =
      finish HistoryChunk.integer ts (vec_sum_all word_add (replicate (length ts) none) lst)
  sum_chunks (ChunkSet.floats lst) ts =
      finish HistoryChunk.float ts (vec_sum_all add (replicate (length ts) none) lst)
  sum_chunks (ChunkSet.states _) ts = some (err cant_sum_states)
  sum_chunks ChunkSet.conflict ts = some (err dissimilar)

  -- `sum_series`, which asserts that there are two series or more.
  pub sum_series : List (Series F64) → Option (Result (Series F64))
  sum_series [] = none
  sum_series (_ ∷ []) = none
  sum_series ((key, chunk, ts) ∷ (second ∷ more)) =
      if all_same (λ s. times_eq ts s.2) (second ∷ more)
      then sum_chunks (merge (chunk ∷ map (λ s. s.1) (second ∷ more))) ts
      else some (err cant_sum_timestamps)

  abbrev pub finish_tip :
      {A : Type 0} → (A → TipValue F64) → TimeSlice → Option A → Option (Dataset F64)
  finish_tip value slice none = none
  finish_tip value slice (some total) = some (single_tip (none, value total, slice))

  -- The match on the merged values in `sum_tip`.
  pub sum_values : ValueSet F64 → TimeSlice → Option (Dataset F64)
  sum_values ValueSet.empty slice = some Dataset.empty
  sum_values (ValueSet.counters lst) slice =
      finish_tip TipValue.counter slice (sum_iter word_add lst)
  sum_values (ValueSet.integers lst) slice =
      finish_tip TipValue.integer slice (sum_iter word_add lst)
  sum_values (ValueSet.floats lst) slice = finish_tip TipValue.float slice (sum_iter add lst)
  sum_values (ValueSet.states _) slice = some (incompatible cant_sum_states)
  sum_values ValueSet.conflict slice = some (incompatible dissimilar)

  -- The slice of the last entry, which is the same as the others.
  abbrev pub last_slice : TimeSlice → List (TipEntry F64) → TimeSlice
  last_slice slice [] = slice
  last_slice slice (entry ∷ more) = last_slice entry.2 more

  pub sum_tip : List (TipEntry F64) → Option (Dataset F64)
  sum_tip [] = some Dataset.empty
  sum_tip (entry ∷ []) = some (single_tip entry)
  sum_tip ((key, value, slice) ∷ (second ∷ more)) =
      if all_same (λ e. slice_eq slice e.2) (second ∷ more)
      then sum_values (merge_values (value ∷ map (λ e. e.1) (second ∷ more)))
          (last_slice slice (second ∷ more))
      else some (incompatible cant_sum_timestamps)

  of_result : Option (Result (Series F64)) → Option (Dataset F64)
  of_result none = none
  of_result (some (ok series)) = some (single_series series)
  of_result (some (err c)) = some (incompatible c)

  pub sum_many : List (Series F64) → Option (Dataset F64)
  sum_many [] = some Dataset.empty
  sum_many (series ∷ []) = some (single_series series)
  sum_many (series ∷ (second ∷ more)) = of_result (sum_series (series ∷ (second ∷ more)))

  -- `sum`.
  pub sum : Dataset F64 → Option (Dataset F64)
  sum (Dataset.multi_series vec) = sum_many vec
  sum (Dataset.multi_tip vec) = sum_tip vec
  sum (Dataset.single_series series) = some (single_series series)
  sum (Dataset.single_tip entry) = some (single_tip entry)
  sum (Dataset.incompatible c) = some (incompatible c)
  sum (Dataset.chart _) = some (incompatible cant_sum_chart)
  sum Dataset.empty = some Dataset.empty
