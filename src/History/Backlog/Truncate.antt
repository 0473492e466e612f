-- ===== src/History/Backlog/Truncate.antt =====
-- `Backlog::truncate_by_num` and `truncate_by_time` keep the newest scans and the metrics that
-- were read in them.
use cantal.Common.{ℕ, zero, suc, ◌+◌, ◌-◌, ◌≤◌, ◌<◌, ◌≡◌, refl, sym, ap, ◌∙◌, arith, min}
use cantal.Common.{List, [], ◌∷◌, length, take, length-take, inl, inr, ◌⊎◌, Bool-cases, ltb}
use cantal.Common.{lt→ltb, ge→ltb}
use mathlib.Core.Path.{subst}
use cantal.Common.{Option, none, some, if◌then◌else◌}
use cantal.Common.Maps.{Map, lookup, Unique}
use cantal.History.Float.{Float}
use cantal.History.Key.{Key, key_eq, key_eq_iff, key_has_eq}
use cantal.History.Backlog.{
  Backlog, Value, SnapTime, truncate_value, truncate_values, truncate_by_num, truncate_by_time,
  find_older, value_age,
}
use cantal.History.Backlog.Invariant.{ValueFits, EntriesFit, Descending, BacklogIsValid}
use cantal.History.Backlog.Fits.{
  truncate_value-ValueFits, truncate_value-dropped, truncate_value-kept,
}

ValueFits-mono :
    {F : Type 0} (age n m : ℕ) (v : Value F) → n ≤ m → ValueFits age n v → ValueFits age m v
ValueFits-mono age n m (Value.counter b) h f = record {
  valid = f.valid;
  word = f.word;
  past = f.past;
  room = omega arith;
}
ValueFits-mono age n m (Value.integer b) h f = record {
  valid = f.valid;
  word = f.word;
  past = f.past;
  room = omega arith;
}
ValueFits-mono age n m (Value.float b) h f = record { past = f.past; room = omega arith }

module _ (fl : Float) where
  open fl use {F64}

  younger_cases :
      (v : Value F64) (target : ℕ) → (value_age fl v ≤ target) ⊎ (target < value_age fl v)
  younger_cases v target = elim (Bool-cases (ltb target (value_age fl v))) [
    | inl e ↦ inr (ground arith)
    | inr e ↦ inl (ground arith)
  ]

  truncate_values-EntriesFit :
      (age n m target : ℕ) (values : Map Key (Value F64))
      → min n (age - target) ≤ m
      → EntriesFit age n values
      → EntriesFit age m (truncate_values fl target values)
  unfolding truncate_values
  truncate_values-EntriesFit age n m target [] h f = tt
  truncate_values-EntriesFit age n m target ((k, v) ∷ values) h f =
      let rest : EntriesFit age m (truncate_values fl target values) =
        truncate_values-EntriesFit age n m target values h f.1 in
      elim (younger_cases v target) [
        | inl old ↦ rw (truncate_value-dropped fl v target old) rest
        | inr young ↦ rw (truncate_value-kept fl v target young).0 (
          ValueFits-mono age (min n (age - target)) m (truncate_value fl v target).0 h
              (truncate_value-ValueFits fl age n target v f.0 young),
          rest,
        )
      ]

  -- What truncation leaves of one metric.
  abbrev pub survivor : ℕ → Option (Value F64) → Option (Value F64)
  survivor target none = none
  survivor target (some v) =
      if ltb target (value_age fl v) then some (truncate_value fl v target).0 else none

  lookup-truncate_values :
      (k : Key) (target : ℕ) (values : Map Key (Value F64))
      → Unique values
      → lookup k (truncate_values fl target values) ≡ survivor target (lookup k values)
  unfolding truncate_values lookup
  lookup-truncate_values k target [] u = refl
  lookup-truncate_values k target ((j, v) ∷ values) u =
      let rest = lookup-truncate_values k target values u.1 in
      elim (Bool-cases (key_eq j k)) [
        | inl t ↦
            let same : j ≡ k = (key_eq_iff j k).0 t in
            let no_other : lookup k values ≡ none = subst (λ i. lookup i values ≡ none) same u.0 in
            elim (younger_cases v target) [
              | inl old ↦
                  rw (truncate_value-dropped fl v target old, t, ge→ltb target (value_age fl v) old)
                    (rest ∙ rw no_other)
              | inr young ↦ rw (
                (truncate_value-kept fl v target young).0,
                t,
                lt→ltb target (value_age fl v) young,
              )
            ]
        | inr f ↦ elim (younger_cases v target) [
          | inl old ↦ rw (truncate_value-dropped fl v target old, f) rest
          | inr young ↦ rw ((truncate_value-kept fl v target young).0, f) rest
        ]
      ]

  truncate_values-Unique :
      (target : ℕ) (values : Map Key (Value F64))
      → Unique values
      → Unique (truncate_values fl target values)
  unfolding truncate_values
  truncate_values-Unique target [] u = tt
  truncate_values-Unique target ((j, v) ∷ values) u =
      let rest = truncate_values-Unique target values u.1 in
      let gone : lookup j (truncate_values fl target values) ≡ none =
        lookup-truncate_values j target values u.1 ∙ rw u.0 in
      elim (younger_cases v target) [
        | inl old ↦ rw (truncate_value-dropped fl v target old) rest
        | inr young ↦ rw (truncate_value-kept fl v target young).0 (gone, rest)
      ]

  Descending-take : (n : ℕ) (ts : List SnapTime) → Descending ts → Descending (take n ts)
  Descending-take zero ts d = tt
  Descending-take (suc n) [] d = tt
  Descending-take (suc zero) (t ∷ ts) d = tt
  Descending-take (suc (suc n)) (t ∷ []) d = tt
  Descending-take (suc (suc n)) (t ∷ (u ∷ ts)) d = (d.0, Descending-take (suc n) (u ∷ ts) d.1)

  -- Truncating a well-formed backlog to its newest `idx` scans leaves a well-formed backlog of the
  -- same age with the newest `idx` timestamps, in which a metric is found exactly if it was found
  -- before and its newest value was read in those scans; it is then cut to them.
  pub truncate_by_num_lem :
      (bl : Backlog F64) (idx : ℕ)
      → BacklogIsValid bl
      → let bl' = truncate_by_num fl bl idx in
        BacklogIsValid bl'
        × (bl'.age ≡ bl.age)
        × (bl'.timestamps ≡ take idx bl.timestamps)
        × ((k : Key) → lookup k bl'.values ≡ survivor (bl.age - idx) (lookup k bl.values))
  unfolding truncate_by_num
  truncate_by_num_lem bl idx v =
      let n : ℕ = length bl.timestamps in
      let len : length (take idx bl.timestamps) ≡ min idx n = length-take idx bl.timestamps in
      (
        record {
          recorded = omega (arith, len, v.recorded);
          ordered = Descending-take idx bl.timestamps v.ordered;
          unique = truncate_values-Unique (bl.age - idx) bl.values v.unique;
          fits =
              truncate_values-EntriesFit bl.age n (length (take idx bl.timestamps)) (bl.age - idx)
                bl.values (omega (arith, len, v.recorded)) v.fits;
        },
        refl,
        refl,
        λ k. lookup-truncate_values k (bl.age - idx) bl.values v.unique,
      )

  -- The timestamps that are no older than `timestamp`.
  abbrev pub not_older : List SnapTime → ℕ → List SnapTime
  not_older [] timestamp = []
  not_older (t ∷ ts) timestamp = if ltb t.0 timestamp then [] else t ∷ not_older ts timestamp

  data Found (ts : List SnapTime) (timestamp idx : ℕ) : Type 0 where
    all_kept :
        find_older fl ts timestamp idx ≡ none → not_older ts timestamp ≡ ts → Found ts timestamp idx
    first_older :
        (k : ℕ)
        → find_older fl ts timestamp idx ≡ some (idx + k)
        → not_older ts timestamp ≡ take k ts
        → Found ts timestamp idx

  find_older-Found : (ts : List SnapTime) (timestamp idx : ℕ) → Found ts timestamp idx
  unfolding find_older
  find_older-Found [] timestamp idx = all_kept refl refl
  find_older-Found (t ∷ ts) timestamp idx = elim (Bool-cases (ltb t.0 timestamp)) [
    | inl e ↦ first_older 0 (rw e (ap some (omega arith))) (rw e)
    | inr e ↦ elim (find_older-Found ts timestamp (idx + 1)) [
      | all_kept f n ↦ all_kept (rw e f) (rw e (ap (◌∷◌ t) n))
      | first_older k f n ↦
          first_older (suc k) (rw e (f ∙ ap some (omega arith))) (rw e (ap (◌∷◌ t) n))
    ]
  ]

  -- Truncating a well-formed backlog by time leaves a well-formed backlog of the same age, whose
  -- timestamps are those before the first that is older than `timestamp`.
  pub truncate_by_time_lem :
      (bl : Backlog F64) (timestamp : ℕ)
      → BacklogIsValid bl
      → let bl' = truncate_by_time fl bl timestamp in
        BacklogIsValid bl'
        × (bl'.age ≡ bl.age)
        × (bl'.timestamps ≡ not_older bl.timestamps timestamp)
  unfolding truncate_by_time
  truncate_by_time_lem bl timestamp v = elim (find_older-Found bl.timestamps timestamp 0) [
    | all_kept f n ↦ rw (truncate_by_time, f) (v, refl, sym n)
    | first_older k f n ↦
        let (v', a, ts, _) = truncate_by_num_lem bl (0 + k) v in
        let start : 0 + k ≡ k = omega arith in
        rw (truncate_by_time, f) (v', a, ts ∙ ap (λ k. take k bl.timestamps) start ∙ sym n)
  ]
