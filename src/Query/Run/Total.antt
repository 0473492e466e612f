-- ===== src/Query/Run/Total.antt =====
-- `query_history` selects its rows without a panic.
use cantal.Common.{
  ℕ, ◌<◌, ◌≡◌, refl, Bool, true, false, Bool-cases, inl, inr, Option, none, some, List, [], ◌∷◌,
  length, All,
}
use cantal.Common.Maps.{Map}
use cantal.History.Word.{modulus}
use cantal.History.Float.{Float}
use cantal.History.Key.{Key}
use cantal.History.Key.Pairs.{Cbor, IsCodec, Pair, IsSized, from_iter}
use cantal.History.Values.{TipValue}
use cantal.History.Backlog.{Backlog, Value}
use cantal.History.Backlog.Invariant.{BacklogIsValid, EntriesFit}
use cantal.History.Tip.{History}
use cantal.Query.Condition.{Regexes, Condition, matches}
use cantal.Query.Condition.Meaning.{holds, matches-holds}
use cantal.Query.Rule.{Rule, Extract, Source, single_value}
use cantal.Query.Extraction.{extract_multi}
use cantal.Query.Extraction.Single.{extract_single-fits}
use cantal.Query.Dataset.{Dataset, Series, TipEntry}
use cantal.Query.Run.{
  push_row, keyed, tip_rows, single_rows, multi_rows, as_dataset, select, query_history, exec_all,
}

-- A key that `from_iter` made of some pairs.
abbrev pub IsMade : Cbor → Key → Type 0
IsMade cbor key = (pairs : List Pair) × IsSized pairs × (key ≡ from_iter cbor pairs)

push_row-some :
    {A : Type 0} (b : Bool) (row : Option A) (rest : List A)
    → (rows : List A) × (push_row (some b) (some row) (some rest) ≡ some rows)
push_row-some false row rest = (rest, refl)
push_row-some true none rest = (rest, refl)
push_row-some true (some row) rest = (row ∷ rest, refl)

module _ (cbor : Cbor) (fl : Float) (re : Regexes) (law : IsCodec cbor)
    (c : Condition re.Regex) where
  open fl use {F64}

  matches-some : (key : Key) → IsMade cbor key → (b : Bool) × (matches cbor re c key ≡ some b)
  matches-some key (pairs, sized, e) =
      (holds re c pairs, rw e (matches-holds cbor re c pairs law sized))

  tip_rows-some :
      (values : Map Key (ℕ × TipValue F64))
      → All (λ e. IsMade cbor e.0) values
      → (rows : List (TipEntry F64)) × (tip_rows cbor fl re c values ≡ some rows)
  unfolding tip_rows
  tip_rows-some [] a = ([], refl)
  tip_rows-some ((key, (ts, value)) ∷ values) a =
      let (b, m) = matches-some key a.0 in
      let (rest, r) = tip_rows-some values a.1 in
      rw (m, r) (push_row-some b (some (key, value, (ts, ts))) rest)

  single_rows-some :
      (extract : Extract) (bl : Backlog F64) (values : Map Key (Value F64))
      → bl.age < modulus
      → EntriesFit bl.age (length bl.timestamps) values
      → All (λ e. IsMade cbor e.0) values
      → (rows : List (TipEntry F64)) × (single_rows cbor fl re c extract bl values ≡ some rows)
  unfolding single_rows
  single_rows-some extract bl [] h f a = ([], refl)
  single_rows-some extract bl ((key, value) ∷ values) h f a =
      let (b, m) = matches-some key a.0 in
      let (rest, r) = single_rows-some extract bl values h f.1 a.1 in
      let (row, e, _) = extract_single-fits fl bl value extract h f.0 in
      rw (m, r, e) (push_row-some b (keyed key row) rest)

  multi_rows-some :
      (extract : Extract) (bl : Backlog F64) (values : Map Key (Value F64))
      → All (λ e. IsMade cbor e.0) values
      → (rows : List (Series F64)) × (multi_rows cbor fl re c extract bl values ≡ some rows)
  unfolding multi_rows
  multi_rows-some extract bl [] a = ([], refl)
  multi_rows-some extract bl ((key, value) ∷ values) a =
      let (b, m) = matches-some key a.0 in
      let (rest, r) = multi_rows-some extract bl values a.1 in
      rw (m, r) (push_row-some b (keyed key (extract_multi fl value bl extract)) rest)

  select-some :
      (source : Source) (extract : Extract) (h : History F64)
      → BacklogIsValid h.fine
      → h.fine.age < modulus
      → All (λ e. IsMade cbor e.0) h.fine.values
      → All (λ e. IsMade cbor e.0) h.tip.values
      → (d : Dataset F64) × (select cbor fl re source c extract h ≡ some d)
  unfolding select
  select-some Source.tip extract h v k fine tip =
      let (rows, e) = tip_rows-some h.tip.values tip in
      (Dataset.multi_tip rows, rw (as_dataset, e) refl)
  select-some Source.fine extract h v k fine tip = elim (Bool-cases (single_value extract)) [
    | inl s ↦
        let (rows, e) = single_rows-some extract h.fine h.fine.values k v.fits fine in
        (Dataset.multi_tip rows, rw (s, as_dataset, e) refl)
    | inr s ↦
        let (rows, e) = multi_rows-some extract h.fine h.fine.values fine in
        (Dataset.multi_series rows, rw (s, as_dataset, e) refl)
  ]

-- With a CBOR library whose decoder reads what its encoder wrote within the decoder's default
-- limits, and over a history whose fine store is well formed, with an age that fits a word, and
-- whose keys were each made of at most 1000 pairs of UTF-8 texts of at most 5242880 bytes, a query
-- selects its rows without a panic, whatever its source, condition and extract are; it gives what
-- its functions make of them, and does not panic if it has none.
pub query_history-select :
    (cbor : Cbor) (fl : Float) (re : Regexes) (rule : Rule re.Regex) (h : History fl.F64)
    → IsCodec cbor
    → BacklogIsValid h.fine
    → h.fine.age < modulus
    → All (λ e. IsMade cbor e.0) h.fine.values
    → All (λ e. IsMade cbor e.0) h.tip.values
    → (d : Dataset fl.F64) × (select cbor fl re rule.series.source rule.series.condition
          rule.extract h
        ≡ some d)
      × (query_history cbor fl re rule h ≡ exec_all cbor fl d rule.functions)
      × (query_history cbor fl re (record rule { functions = [] }) h ≡ some d)
unfolding query_history exec_all
query_history-select cbor fl re rule h law v k fine tip =
    let (d, e) =
      select-some cbor fl re law rule.series.condition rule.series.source rule.extract h v k fine
        tip in
    (d, e, rw (query_history, e) refl, rw (query_history, e) refl)
