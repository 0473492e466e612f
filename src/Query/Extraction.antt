-- ===== src/Query/Extraction.antt =====
-- cantal_query/src/query.rs, `extract_single` and `extract_multi`: what a query reads out of the
-- history of one metric. A panic of the program is `none`.
pub mod Single
pub mod Multi
mod Tests
use cantal.Common.{ℕ, suc, ◌+◌, ◌*◌, Bool, ltb, leb, if◌then◌else◌, get_elem?, map, take, drop}
use cantal.Common.{Option, none, some, List, [], ◌∷◌, length}
use cantal.History.Word.{unsigned, signed, word_sub, saturating_sub}
use cantal.History.Float.{Float}
use cantal.History.Values.{TipValue}
use cantal.History.Chunk.{HistoryChunk}
use cantal.History.Inner.{Inner}
use cantal.History.Inner.Timeline.{history_list}
use cantal.History.Inner.Deque.{float_list}
use cantal.History.Backlog.{Backlog, Value, SnapTime}
use cantal.Query.Rule.{Extract, tip, diff_to_at_most, history_by_num, history_by_time}

-- `Iterator::last`.
abbrev pub last {ℓ} : {A : Type ℓ} → List A → Option A
last [] = none
last (x ∷ xs) = elim (last xs) [ none ↦ some x | some y ↦ some y ]

-- `enumerate`, from an index on, and the `filter_map` that keeps the values that are known.
abbrev pub known {ℓ} : {A : Type ℓ} → ℕ → List (Option A) → List (ℕ × A)
known idx [] = []
known idx (none ∷ xs) = known (suc idx) xs
known idx (some x ∷ xs) = (idx, x) ∷ known (suc idx) xs

-- `enumerate().skip(1).take(n).filter_map(..).last()`.
unfoldable pub last_known {ℓ} : {A : Type ℓ} → List (Option A) → ℕ → Option (ℕ × A)
last_known values n = last (known 1 (take n (drop 1 values)))

module _ (fl : Float) where
  open fl use {F64, sub}

  -- `bl.timestamps[idx].0`.
  abbrev pub timestamp_at : Backlog F64 → ℕ → Option ℕ
  timestamp_at bl idx = elim (get_elem? bl.timestamps idx) [ none ↦ none | some t ↦ some t.0 ]

  -- What is read, with the times of the newer and of the older scan.
  abbrev pub Slice : Type 0
  Slice = TipValue F64 × (ℕ × ℕ)

  pub extract_tip : Backlog F64 → TipValue F64 → ℕ → Option (Option Slice)
  extract_tip bl value age = elim (timestamp_at bl (word_sub bl.age age)) [
    | none ↦ none
    | some ts ↦ some (some (value, (ts, ts)))
  ]

  -- `(bl.timestamps[cur].0, bl.timestamps[idx].0)` with a value.
  unfoldable pub between : Backlog F64 → TipValue F64 → ℕ → ℕ → Option (Option Slice)
  between bl value cur idx = elim (timestamp_at bl cur) [
    | none ↦ none
    | some newer ↦ elim (timestamp_at bl idx) [
      | none ↦ none
      | some older ↦ some (some (value, (newer, older)))
    ]
  ]

  -- The closures of `DiffToAtMost`, over the value that was found.
  unfoldable pub extract_diff :
      {A : Type 0} → Backlog F64 → (A → TipValue F64) → ℕ → Option (ℕ × A) → Option (Option Slice)
  extract_diff bl diff age none = some none
  extract_diff bl diff age (some (idx, x)) =
      let cur = word_sub bl.age age in if leb cur idx then between bl (diff x) cur idx else none

  unfoldable pub extract_single : Value F64 → Backlog F64 → Extract → Option (Option Slice)
  extract_single (Value.counter x) bl tip = extract_tip bl (TipValue.counter x.tip) x.age
  extract_single (Value.integer x) bl tip = extract_tip bl (TipValue.integer x.tip) x.age
  extract_single (Value.float x) bl tip = extract_tip bl (TipValue.float x.tip) x.age
  extract_single (Value.counter hist) bl (diff_to_at_most n) =
      extract_diff bl (λ x. TipValue.counter (saturating_sub unsigned hist.tip x)) hist.age
        (last_known (history_list hist bl.age) n)
  extract_single (Value.integer hist) bl (diff_to_at_most n) =
      extract_diff bl (λ x. TipValue.integer (saturating_sub signed hist.tip x)) hist.age
        (last_known (history_list hist bl.age) n)
  extract_single (Value.float hist) bl (diff_to_at_most n) =
      extract_diff bl (λ x. TipValue.float (sub hist.tip x)) hist.age
        (last_known (float_list fl hist bl.age) n)
  extract_single value bl (history_by_num n) = some none
  extract_single value bl (history_by_time time_delta) = some none

  -- The newest `num` entries of a metric's history, and their times.
  pub newest : Value F64 → Backlog F64 → ℕ → HistoryChunk F64 × List ℕ
  newest (Value.counter x) bl num = (
    HistoryChunk.counter (take num (history_list x bl.age)),
    map (λ t. t.0) (take num bl.timestamps),
  )
  newest (Value.integer x) bl num = (
    HistoryChunk.integer (take num (history_list x bl.age)),
    map (λ t. t.0) (take num bl.timestamps),
  )
  newest (Value.float x) bl num = (
    HistoryChunk.float (take num (float_list fl x bl.age)),
    map (λ t. t.0) (take num bl.timestamps),
  )

  -- The loop that looks for the first scan that is `time_delta` before the newest: how many scans
  -- there are with it, or all `num`.
  pub scans_within : List SnapTime → ℕ → ℕ → ℕ → ℕ → ℕ
  scans_within [] newest_ts time_delta idx num = num
  scans_within ((ts, _) ∷ timestamps) newest_ts time_delta idx num =
      if leb time_delta (word_sub newest_ts ts)
      then idx + 1
      else scans_within timestamps newest_ts time_delta (idx + 1) num

  -- The case `HistoryByTime`, over the timestamps.
  pub extract_by_time :
      Value F64 → Backlog F64 → List SnapTime → ℕ → Option (HistoryChunk F64 × List ℕ)
  extract_by_time value bl [] time_delta = none
  extract_by_time value bl (latest ∷ older) time_delta =
      let timestamps = latest ∷ older in
      some (newest value bl (scans_within timestamps latest.0 time_delta 0 (length timestamps)))

  pub extract_multi : Value F64 → Backlog F64 → Extract → Option (HistoryChunk F64 × List ℕ)
  extract_multi value bl tip = none
  extract_multi value bl (diff_to_at_most n) = none
  extract_multi value bl (history_by_num n) = some (newest value bl n)
  extract_multi value bl (history_by_time time_delta) =
      extract_by_time value bl bl.timestamps time_delta
