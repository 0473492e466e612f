-- ===== src/History/Tip/Newest.antt =====
-- Which value a `Tip` has for a key after a push and after truncation.
use cantal.Common.{
  ℕ, ◌≡◌, refl, ◌∙◌, leb, if◌then◌else◌, List, [], ◌∷◌, Option, none, some, inl, inr, Bool-cases,
}
use mathlib.Core.Path.{subst}
use cantal.Common.Maps.{Map, lookup, insert, lookup-insert, Unique, insert-Unique}
use cantal.History.Key.{Key, key_eq, key_eq_iff, key_has_eq}
use cantal.History.Values.{TipValue}
use cantal.History.Float.{Float}
use cantal.History.Backlog.{SnapTime}
use cantal.History.Backlog.Invariant.{BacklogIsValid}
use cantal.History.Backlog.Truncate.{truncate_by_time_lem, not_older}
use cantal.History.Tip.{
  Tip, push, push_values, keep_since, truncate_by_time, History, truncate_history,
}

module _ {F : Type 0} where
  -- The last value that a scan has for a key.
  abbrev pub last_of : Key → List (Key × TipValue F) → Option (TipValue F)
  last_of k [] = none
  last_of k ((j, v) ∷ iter) = elim (last_of k iter) [
    | some w ↦ some w
    | none ↦ if key_eq j k then some v else none
  ]

  -- The value that is read at `ts`, or else what there was.
  abbrev pub newer_or : ℕ → Option (TipValue F) → Option (ℕ × TipValue F) → Option (ℕ × TipValue F)
  newer_or ts (some v) before = some (ts, v)
  newer_or ts none before = before

  push_values-lookup :
      (k : Key) (values : Map Key (ℕ × TipValue F)) (ts : ℕ) (iter : List (Key × TipValue F))
      → lookup k (push_values values ts iter) ≡ newer_or ts (last_of k iter) (lookup k values)
  unfolding push_values
  push_values-lookup k values ts [] = refl
  push_values-lookup k values ts ((j, v) ∷ iter) =
      push_values-lookup k (insert j (ts, v) values) ts iter
      ∙ over (last_of k iter) (lookup-insert j k (ts, v) values)
    where
      over :
          (o : Option (TipValue F))
          → lookup k (insert j (ts, v) values)
            ≡ (if key_eq j k then some (ts, v) else lookup k values)
          → newer_or ts o (lookup k (insert j (ts, v) values))
            ≡ newer_or ts
                (elim o [ some w ↦ some w | none ↦ if key_eq j k then some v else none ])
                (lookup k values)
      over (some w) e = refl
      over none e = elim (Bool-cases (key_eq j k)) [
        | inl t ↦ rw t (rw t at e)
        | inr f ↦ rw f (rw f at e)
      ]

  push_values-Unique :
      (values : Map Key (ℕ × TipValue F)) (ts : ℕ) (iter : List (Key × TipValue F))
      → Unique values
      → Unique (push_values values ts iter)
  unfolding push_values
  push_values-Unique values ts [] u = u
  push_values-Unique values ts ((j, v) ∷ iter) u =
      push_values-Unique (insert j (ts, v) values) ts iter (insert-Unique j (ts, v) values u)

  -- After a push the store has the scan's timestamp, and for each key the last value that the scan
  -- has for it, read at that time, or, if it has none, what was there before. A store with at
  -- most one entry a key stays so.
  pub tip_push_lem :
      (tip : Tip F) (timestamp : SnapTime) (iter : List (Key × TipValue F))
      → Unique tip.values
      → let tip' = push tip timestamp iter in
        (tip'.latest_timestamp ≡ timestamp)
        × Unique tip'.values
        × ((k : Key)
            → lookup k tip'.values ≡ newer_or timestamp.0 (last_of k iter) (lookup k tip.values))
  unfolding push
  tip_push_lem tip timestamp iter u = (
    refl,
    push_values-Unique tip.values timestamp.0 iter u,
    λ k. push_values-lookup k tip.values timestamp.0 iter,
  )

  -- An entry, if it is no older than `timestamp`.
  abbrev pub since : ℕ → Option (ℕ × TipValue F) → Option (ℕ × TipValue F)
  since timestamp none = none
  since timestamp (some (ts, v)) = if leb timestamp ts then some (ts, v) else none

  keep_since-lookup :
      (k : Key) (timestamp : ℕ) (values : Map Key (ℕ × TipValue F))
      → Unique values
      → lookup k (keep_since timestamp values) ≡ since timestamp (lookup k values)
  unfolding keep_since lookup
  keep_since-lookup k timestamp [] u = refl
  keep_since-lookup k timestamp ((j, (ts, v)) ∷ values) u =
      let rest = keep_since-lookup k timestamp values u.1 in
      elim (Bool-cases (key_eq j k)) [
        | inl t ↦
            let same : j ≡ k = (key_eq_iff j k).0 t in
            let no_other : lookup k values ≡ none = subst (λ i. lookup i values ≡ none) same u.0 in
            elim (Bool-cases (leb timestamp ts)) [
              | inl young ↦ rw (young, t, young) refl
              | inr old ↦ rw (old, t, old) (rest ∙ rw no_other refl)
            ]
        | inr f ↦ elim (Bool-cases (leb timestamp ts)) [
          | inl young ↦ rw (young, f) rest
          | inr old ↦ rw (old, f) rest
        ]
      ]

  pub keep_since-Unique :
      (timestamp : ℕ) (values : Map Key (ℕ × TipValue F))
      → Unique values
      → Unique (keep_since timestamp values)
  unfolding keep_since
  keep_since-Unique timestamp [] u = tt
  keep_since-Unique timestamp ((j, (ts, v)) ∷ values) u =
      let rest = keep_since-Unique timestamp values u.1 in
      let gone : lookup j (keep_since timestamp values) ≡ none =
        keep_since-lookup j timestamp values u.1 ∙ rw u.0 refl in
      elim (Bool-cases (leb timestamp ts)) [
        | inl young ↦ rw young (gone, rest)
        | inr old ↦ rw old rest
      ]

-- Truncating both stores by time keeps the fine one well formed, with the timestamps before the
-- first that is too old, and keeps in the other exactly the entries that are no older.
pub truncate_history_lem :
    (fl : Float) (h : History fl.F64) (tstamp : ℕ)
    → BacklogIsValid h.fine
    → Unique h.tip.values
    → let h' = truncate_history fl h tstamp in
      BacklogIsValid h'.fine
      × (h'.fine.timestamps ≡ not_older fl h.fine.timestamps tstamp)
      × Unique h'.tip.values
      × ((k : Key) → lookup k h'.tip.values ≡ since tstamp (lookup k h.tip.values))
unfolding truncate_history truncate_by_time
truncate_history_lem fl h tstamp v u =
    let (v', _, ts) = truncate_by_time_lem fl h.fine tstamp v in
    (
      v',
      ts,
      keep_since-Unique tstamp h.tip.values u,
      λ k. keep_since-lookup k tstamp h.tip.values u,
    )
