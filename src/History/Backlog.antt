-- ===== src/History/Backlog.antt =====
-- cantal_history/src/backlog.rs, `Value` and `Backlog`: the fine-grained history of all metrics,
-- one entry a scan. A panic of the program is `none`.
pub mod Invariant
pub mod Fits
pub mod Push
pub mod Truncate
pub mod Sample
mod Tests
use cantal.Common.{ℕ, suc, ◌+◌, ◌-◌, Bool, true, false, ltb, leb, if◌then◌else◌}
use cantal.Common.{Option, none, some, List, [], ◌∷◌, length, take}
use cantal.Common.Maps.{Map, lookup, insert}
use cantal.History.Word.{Width, unsigned, signed}
use cantal.History.DeltaBuf
use cantal.History.DeltaBuf.{DeltaBuf}
use cantal.History.Float.{Float}
use cantal.History.Inner
use cantal.History.Inner.{Inner, delta_buf, float_buf}
use cantal.History.Key.{Key, key_has_eq}
use cantal.History.Values.{TipValue}

pub data Value (F : Type 0) : Type 0 where
  counter : Inner ℕ DeltaBuf → Value F
  integer : Inner ℕ DeltaBuf → Value F
  float : Inner F (List F) → Value F

-- A timestamp and a duration, in milliseconds.
abbrev pub SnapTime : Type 0
SnapTime = ℕ × ℕ

pub record Backlog (F : Type 0) : Type 0 where
  pub age : ℕ
  -- Newest first.
  pub timestamps : List SnapTime
  pub values : Map Key (Value F)

pub new : {F : Type 0} → Backlog F
new = record { age = 0; timestamps = []; values = [] }

-- `assert!(self.timestamps.len() == 0 || timestamp.0 > self.timestamps[0].0)`.
abbrev pub is_newer : SnapTime → List SnapTime → Bool
is_newer timestamp [] = true
is_newer timestamp (latest ∷ _) = ltb latest.0 timestamp.0

module _ (fl : Float) where
  open fl use {F64}

  -- `Value::new`: a state has no history, and is `unreachable!()`.
  pub new_value : TipValue F64 → ℕ → Option (Value F64)
  new_value (TipValue.counter v) age =
      some (Value.counter (record { tip = v; age = age; buf = DeltaBuf.new }))
  new_value (TipValue.integer v) age =
      some (Value.integer (record { tip = v; age = age; buf = DeltaBuf.new }))
  new_value (TipValue.float v) age = some (Value.float (record { tip = v; age = age; buf = [] }))
  new_value (TipValue.state ts text) age = none

  -- `Value::push`: the value afterwards, and whether the types matched. What `Inner::push`
  -- answers is not looked at.
  pub push_value : Value F64 → TipValue F64 → ℕ → Value F64 × Bool
  push_value (Value.counter b) (TipValue.counter v) age =
      (Value.counter (Inner.push (delta_buf unsigned) b v age).0, true)
  push_value (Value.integer b) (TipValue.integer v) age =
      (Value.integer (Inner.push (delta_buf signed) b v age).0, true)
  push_value (Value.float b) (TipValue.float v) age =
      (Value.float (Inner.push (float_buf fl) b v age).0, true)
  push_value b v age = (b, false)

  -- `Value::truncate`: the value afterwards, and whether it is kept.
  pub truncate_value : Value F64 → ℕ → Value F64 × Bool
  truncate_value (Value.counter b) age =
      let (b', kept) = Inner.truncate (delta_buf unsigned) b age in (Value.counter b', kept)
  truncate_value (Value.integer b) age =
      let (b', kept) = Inner.truncate (delta_buf signed) b age in (Value.integer b', kept)
  truncate_value (Value.float b) age =
      let (b', kept) = Inner.truncate (float_buf fl) b age in (Value.float b', kept)

  -- `Value::age`.
  unfoldable pub value_age : Value F64 → ℕ
  value_age (Value.counter b) = b.age
  value_age (Value.integer b) = b.age
  value_age (Value.float b) = b.age

  -- `Value::tip_value`.
  pub tip_value : Value F64 → TipValue F64
  tip_value (Value.counter b) = TipValue.counter b.tip
  tip_value (Value.integer b) = TipValue.integer b.tip
  tip_value (Value.float b) = TipValue.float b.tip

  -- `Value::tip_or_none`.
  pub tip_or_none : Value F64 → ℕ → Option (TipValue F64)
  tip_or_none v min_age = if leb min_age (value_age v) then some (tip_value v) else none

  -- A metric whose type does not match, or which is not there, is begun anew.
  pub begin_value : Map Key (Value F64) → Key → TipValue F64 → ℕ → Option (Map Key (Value F64))
  begin_value values k v age = elim (new_value v age) [
    | some value ↦ some (insert k value values)
    | none ↦ none
  ]

  -- One round of the loop of `Backlog::push`.
  pub push_metric : Map Key (Value F64) → Key → TipValue F64 → ℕ → Option (Map Key (Value F64))
  push_metric values k v age = elim (lookup k values) [
    | some old ↦
        let (value, matched) = push_value old v age in
        if matched then some (insert k value values) else begin_value values k v age
    | none ↦ begin_value values k v age
  ]

  -- The loop.
  pub push_metrics :
      Map Key (Value F64) → List (Key × TipValue F64) → ℕ → Option (Map Key (Value F64))
  push_metrics values [] age = some values
  push_metrics values ((k, v) ∷ iter) age = elim (push_metric values k v age) [
    | some values' ↦ push_metrics values' iter age
    | none ↦ none
  ]

  -- `Backlog::push`.
  pub push : Backlog F64 → SnapTime → List (Key × TipValue F64) → Option (Backlog F64)
  push bl timestamp iter =
      if is_newer timestamp bl.timestamps
      then (elim (push_metrics bl.values iter (bl.age + 1)) [
        | some values' ↦
            some (record {
              age = bl.age + 1;
              timestamps = timestamp ∷ bl.timestamps;
              values = values';
            })
        | none ↦ none
      ])
      else none

  -- The `filter_map` over the entries.
  pub truncate_values : ℕ → Map Key (Value F64) → Map Key (Value F64)
  truncate_values target_age [] = []
  truncate_values target_age ((k, v) ∷ values) =
      let (v', kept) = truncate_value v target_age in
      let rest = truncate_values target_age values in if kept then (k, v') ∷ rest else rest

  -- `Backlog::truncate_by_num`.
  pub truncate_by_num : Backlog F64 → ℕ → Backlog F64
  truncate_by_num bl idx = record {
    age = bl.age;
    timestamps = take idx bl.timestamps;
    values = truncate_values (bl.age - idx) bl.values;
  }

  -- The index of the first timestamp before `timestamp`.
  pub find_older : List SnapTime → ℕ → ℕ → Option ℕ
  find_older [] timestamp idx = none
  find_older ((ts, _) ∷ timestamps) timestamp idx =
      if ltb ts timestamp then some idx else find_older timestamps timestamp (idx + 1)

  -- `Backlog::truncate_by_time`.
  pub truncate_by_time : Backlog F64 → ℕ → Backlog F64
  truncate_by_time bl timestamp = elim (find_older bl.timestamps timestamp 0) [
    | some idx ↦ truncate_by_num bl idx
    | none ↦ bl
  ]
