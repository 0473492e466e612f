-- ===== src/Query/Run.antt =====
-- cantal_query/src/query.rs, `query_history`, with functions/mod.rs and `sum_by` of
-- functions/sum.rs: a whole query. A panic of the program is `none`.
pub mod Total
mod Tests
use cantal.Common.{
  ℕ, ltb, Bool, true, false, ◌&&◌, if◌then◌else◌, Option, none, some, List, [], ◌∷◌, ◌++◌, length,
}
use cantal.Common.Maps.{Map, Eq, lookup, insert}
use cantal.History.Float.{Float}
use cantal.History.Key.{Key, bytes_eq, bytes_eq_iff}
use cantal.History.Key.Pairs.{Cbor, get_with, from_pair}
use cantal.History.Values.{TipValue}
use cantal.History.Backlog.{Backlog, Value}
use cantal.History.Tip.{Tip, History}
use cantal.Query.Condition.{Regexes, Condition, matches}
use cantal.Query.Rule
use cantal.Query.Rule.{Rule, Function, Extract, single_value, Source}
use cantal.Query.Extraction.{extract_single, extract_multi}
use cantal.Query.Dataset.{Dataset, Series, TipEntry, Result, ok, err, incompatible, cant_sum_chart}
use cantal.Query.Functions
use cantal.Query.Functions.{sum_series}
use cantal.Query.Functions.Derive.{non_negative_derivative}

instance abbrev bytes_has_eq : Eq (List ℕ)
bytes_has_eq = record { eq = bytes_eq; eq_iff = bytes_eq_iff }

-- A row that is pushed if the key matches and there is something to push.
abbrev pub push_row :
    {A : Type 0} → Option Bool → Option (Option A) → Option (List A) → Option (List A)
push_row none row rest = none
push_row (some false) row rest = rest
push_row (some true) none rest = none
push_row (some true) (some none) rest = rest
push_row (some true) (some (some row)) none = none
push_row (some true) (some (some row)) (some rest) = some (row ∷ rest)

abbrev pub keyed : {A B : Type 0} → Key → Option (A × B) → Option (Key × A × B)
keyed key none = none
keyed key (some (a, b)) = some (key, a, b)

abbrev pub keyed_or_panic :
    {A B : Type 0} → Key → Option (Option (A × B)) → Option (Option (Key × A × B))
keyed_or_panic key none = none
keyed_or_panic key (some o) = some (keyed key o)

module _ (cbor : Cbor) (fl : Float) where
  open fl use {F64}

  -- The series of a name so far, with one more.
  abbrev pub add_series :
      List ℕ → Series F64 → Map (List ℕ) (List (Series F64)) → Map (List ℕ) (List (Series F64))
  add_series name series map = elim (lookup name map) [
    | none ↦ insert name (series ∷ []) map
    | some vec ↦ insert name (vec ++ (series ∷ [])) map
  ]

  -- The first loop of `sum_series_by`: series whose key has no such name are left out.
  pub group_by :
      List ℕ
      → List (Series F64)
      → Map (List ℕ) (List (Series F64))
      → Option (Map (List ℕ) (List (Series F64)))
  group_by by [] map = some map
  group_by by (series ∷ vec) map = elim (get_with cbor series.0 by) [
    | none ↦ none
    | some none ↦ group_by by vec map
    | some (some name) ↦ group_by by vec (add_series name series map)
  ]

  -- One series, or the sum of more.
  pub sum_group : List (Series F64) → Option (Result (Series F64))
  sum_group [] = none
  sum_group (series ∷ []) = some (ok series)
  sum_group (series ∷ (second ∷ more)) = sum_series fl (series ∷ (second ∷ more))

  -- The second loop.
  pub sum_groups : List ℕ → Map (List ℕ) (List (Series F64)) → Option (Result (List (Series F64)))
  sum_groups by [] = some (ok [])
  sum_groups by ((name, vec) ∷ map) = elim (sum_group vec) [
    | none ↦ none
    | some (err c) ↦ some (err c)
    | some (ok (_, points, ts)) ↦ elim (sum_groups by map) [
      | none ↦ none
      | some (err c) ↦ some (err c)
      | some (ok res) ↦ some (ok ((from_pair cbor by name, points, ts) ∷ res))
    ]
  ]

  pub sum_series_by : List ℕ → List (Series F64) → Option (Result (List (Series F64)))
  sum_series_by by vec = elim (group_by by vec []) [ none ↦ none | some map ↦ sum_groups by map ]

  -- The series of `sum_by`, with their sum at the end if it is asked for and there are several.
  pub with_total : Bool → List (Series F64) → Option (Dataset F64)
  with_total total vec =
      if total && ltb 1 (length vec)
      then (elim (sum_series fl vec) [
        | none ↦ none
        | some (err c) ↦ some (incompatible c)
        | some (ok series) ↦ some (Dataset.multi_series (vec ++ (series ∷ [])))
      ])
      else some (Dataset.multi_series vec)

  of_groups : Bool → Option (Result (List (Series F64))) → Option (Dataset F64)
  of_groups total none = none
  of_groups total (some (err c)) = some (incompatible c)
  of_groups total (some (ok vec)) = with_total total vec

  -- `sum_by`, which is not implemented for single values.
  pub sum_by : List ℕ → Bool → Dataset F64 → Option (Dataset F64)
  sum_by by total (Dataset.multi_series vec) = of_groups total (sum_series_by by vec)
  sum_by by total (Dataset.multi_tip _) = none
  sum_by by total (Dataset.single_series series) = some (Dataset.single_series series)
  sum_by by total (Dataset.single_tip entry) = some (Dataset.single_tip entry)
  sum_by by total (incompatible c) = some (incompatible c)
  sum_by by total (Dataset.chart _) = some (incompatible cant_sum_chart)
  sum_by by total Dataset.empty = some Dataset.empty

  -- `Function::exec`.
  pub exec : Dataset F64 → Function → Option (Dataset F64)
  exec d (Function.expect _) = none
  exec d Function.non_negative_derivative = some (non_negative_derivative fl d)
  exec d Function.sum = Functions.sum fl d
  exec d (Function.sum_by by total) = sum_by by total d
  exec d (Function.state_chart _) = none

  -- The fold over the functions of a rule.
  unfoldable pub exec_all : Dataset F64 → List Function → Option (Dataset F64)
  exec_all d [] = some d
  exec_all d (f ∷ functions) = elim (exec d f) [ none ↦ none | some d' ↦ exec_all d' functions ]

  module _ (re : Regexes) where
    open re use {Regex}

    -- The loops of `query_history`.
    unfoldable pub tip_rows :
        Condition Regex → Map Key (ℕ × TipValue F64) → Option (List (TipEntry F64))
    tip_rows c [] = some []
    tip_rows c ((key, (ts, value)) ∷ values) =
        push_row (matches cbor re c key) (some (some (key, value, (ts, ts)))) (tip_rows c values)

    unfoldable pub single_rows :
        Condition Regex → Extract → Backlog F64 → Map Key (Value F64) → Option (List (TipEntry F64))
    single_rows c extract bl [] = some []
    single_rows c extract bl ((key, value) ∷ values) =
        push_row (matches cbor re c key) (keyed_or_panic key (extract_single fl value bl extract))
          (single_rows c extract bl values)

    unfoldable pub multi_rows :
        Condition Regex → Extract → Backlog F64 → Map Key (Value F64) → Option (List (Series F64))
    multi_rows c extract bl [] = some []
    multi_rows c extract bl ((key, value) ∷ values) =
        push_row (matches cbor re c key) (some (keyed key (extract_multi fl value bl extract)))
          (multi_rows c extract bl values)

    abbrev pub as_dataset :
        {A : Type 0} → (List A → Dataset F64) → Option (List A) → Option (Dataset F64)
    as_dataset dataset none = none
    as_dataset dataset (some rows) = some (dataset rows)

    unfoldable pub select : Source → Condition Regex → Extract → History F64 → Option (Dataset F64)
    select Source.tip c extract h = as_dataset Dataset.multi_tip (tip_rows c h.tip.values)
    select Source.fine c extract h =
        if single_value extract
        then as_dataset Dataset.multi_tip (single_rows c extract h.fine h.fine.values)
        else as_dataset Dataset.multi_series (multi_rows c extract h.fine h.fine.values)

    unfoldable pub query_history : Rule Regex → History F64 → Option (Dataset F64)
    query_history rule history =
        elim (select rule.series.source rule.series.condition rule.extract history) [
          | none ↦ none
          | some dset ↦ exec_all dset rule.functions
        ]
