-- ===== src/Carbon.antt =====
-- src/carbon/util.rs and appmetrics.rs: the rates that are sent to a carbon server, and those of
-- the metrics of applications. What is sent is a list; `none` is a panic.
pub mod Rates
mod Tests
use cantal.Common.{
  ℕ, zero, suc, ◌+◌, ◌-◌, ◌*◌, ltb, leb, min, Bool, true, false, if◌then◌else◌, Option, none, some,
  List, [], ◌∷◌, ◌++◌, length,
}
use cantal.Common.Maps.{Map}
use cantal.History.Word.{word_sub, saturating_sub, unsigned}
use cantal.History.Float.{Float}
use cantal.History.DeltaBuf.{DeltaBuf}
use cantal.History.Key.{Key}
use cantal.History.Key.Pairs.{Cbor, get_with}
use cantal.History.Inner.{Inner}
use cantal.History.Inner.Timeline.{history_list}
use cantal.History.Backlog.{Backlog, Value, SnapTime}
use cantal.Query.Extraction.{last_known, timestamp_at}

abbrev pub Text : Type 0
Text = List ℕ

-- `skip_while(..).next()`, with the index that it is reached at: the first scan that had ended
-- by `cut`.
unfoldable pub first_before : ℕ → ℕ → List SnapTime → Option ℕ
first_before cut idx [] = none
first_before cut idx ((x, d) ∷ timestamps) =
    let rest = first_before cut (idx + 1) timestamps in
    if ltb cut (word_sub x d) then rest else some idx

abbrev pub or_last : Option ℕ → List SnapTime → ℕ
or_last none timestamps = length timestamps - 1
or_last (some idx) timestamps = idx

-- How many scans back the interval of the server begins.
unfoldable pub scans_back : ℕ → List SnapTime → ℕ → ℕ
scans_back timestamp timestamps interval =
    or_last (first_before (word_sub timestamp (interval * 1000)) 0 timestamps) timestamps

module _ (fl : Float) where
  open fl use {F64, mul, div, of_u64, of_i64}

  -- The two timestamps that a rate is between.
  abbrev pub rate_between : Backlog F64 → ℕ → ℕ → ℕ → Option (Option (ℕ × ℕ))
  rate_between blog value cur idx = elim (timestamp_at fl blog cur) [
    | none ↦ none
    | some newer ↦ elim (timestamp_at fl blog idx) [
      | none ↦ none
      | some older ↦ some (some (value, word_sub newer older))
    ]
  ]

  abbrev pub rate_at : Inner ℕ DeltaBuf → Backlog F64 → Option (ℕ × ℕ) → Option (Option (ℕ × ℕ))
  rate_at hist blog none = some none
  rate_at hist blog (some (idx, x)) =
      let cur = word_sub blog.age hist.age in
      if leb cur idx then rate_between blog (saturating_sub unsigned hist.tip x) cur idx else none

  unfoldable pub get_rate_from_counter :
      Inner ℕ DeltaBuf → Backlog F64 → ℕ → Option (Option (ℕ × ℕ))
  get_rate_from_counter hist blog num =
      rate_at hist blog (last_known (history_list hist blog.age) num)

  unfoldable pub get_counter_diff : Value F64 → Backlog F64 → ℕ → Option (Option (ℕ × ℕ))
  get_counter_diff (Value.counter hist) blog num = get_rate_from_counter hist blog num
  get_counter_diff (Value.integer hist) blog num = some none
  get_counter_diff (Value.float hist) blog num = some none

  abbrev pub per_second : Option (Option (ℕ × ℕ)) → Option (Option F64)
  per_second none = none
  per_second (some none) = some none
  per_second (some (some (value, millis))) =
      some (some (div (mul (of_u64 value) (of_u64 1000)) (of_u64 millis)))

  unfoldable pub graphite_data : Value F64 → Backlog F64 → ℕ → Option (Option F64)
  graphite_data (Value.counter hist) blog num = per_second (get_rate_from_counter hist blog num)
  graphite_data (Value.integer hist) blog num =
      if leb (blog.age - min num blog.age) hist.age
      then some (some (of_i64 hist.tip))
      else some none
  graphite_data (Value.float hist) blog num = some none

-- `format_args!` with dots between the parts.
abbrev pub dotted : List Text → Text
dotted [] = []
dotted (t ∷ []) = t
dotted (t ∷ u ∷ texts) = t ++ (b'.' ∷ dotted (u ∷ texts))

abbrev pub or_no_cluster : Option Text → Text
or_no_cluster none = b'n' ∷ b'o' ∷ b'-' ∷ b'c' ∷ b'l' ∷ b'u' ∷ b's' ∷ b't' ∷ b'e' ∷ b'r' ∷ []
or_no_cluster (some name) = name

abbrev pub program : Text
program = b'c' ∷ b'a' ∷ b'n' ∷ b't' ∷ b'a' ∷ b'l' ∷ []

abbrev pub apps : Text
apps = b'a' ∷ b'p' ∷ b'p' ∷ b's' ∷ []

abbrev pub appname : Text
appname = b'a' ∷ b'p' ∷ b'p' ∷ b'n' ∷ b'a' ∷ b'm' ∷ b'e' ∷ []

abbrev pub metric_field : Text
metric_field = b'm' ∷ b'e' ∷ b't' ∷ b'r' ∷ b'i' ∷ b'c' ∷ []

abbrev pub state_field : Text
state_field = b's' ∷ b't' ∷ b'a' ∷ b't' ∷ b'e' ∷ []

abbrev pub group_field : Text
group_field = b'g' ∷ b'r' ∷ b'o' ∷ b'u' ∷ b'p' ∷ []

-- `add_value_at`: the name, the value and the time in milliseconds.
abbrev pub Sent : Type 0 → Type 0
Sent F = Text × F × ℕ

abbrev pub both {ℓ} : {A : Type ℓ} → Option (List A) → Option (List A) → Option (List A)
both none b = none
both (some xs) none = none
both (some xs) (some ys) = some (xs ++ ys)

-- `get_with`, with its closure.
abbrev pub with_found {ℓ} :
    {A : Type ℓ} → Option (Option Text) → (Text → Option (List A)) → Option (List A)
with_found none f = none
with_found (some none) f = some []
with_found (some (some value)) f = f value

module _ (fl : Float) (cbor : Cbor) (cluster : Option Text) (hostname : Text) where
  open fl use {F64}

  abbrev pub send_value : Text → ℕ → Option (Option F64) → Option (List (Sent F64))
  send_value name unixtime none = none
  send_value name unixtime (some none) = some []
  send_value name unixtime (some (some v)) = some ((name, v, unixtime) ∷ [])

  -- What is sent for one metric of an application, for its state and for its group.
  unfoldable pub send_metric : Key → Value F64 → Backlog F64 → ℕ → ℕ → Option (List (Sent F64))
  send_metric key value backlog num unixtime =
      let name =
        λ (parts : List Text). dotted (program ∷ or_no_cluster cluster ∷ hostname ∷ apps ∷ parts) in
      with_found (get_with cbor key appname) λ app.
        with_found (get_with cbor key metric_field) λ metric.
          both
            (with_found (get_with cbor key state_field) λ statename.
              send_value (name (app ∷ (state_field ++ (b's' ∷ [])) ∷ statename ∷ metric ∷ []))
                unixtime (graphite_data fl value backlog num))
            (with_found (get_with cbor key group_field) λ group.
              send_value (name (app ∷ (group_field ++ (b's' ∷ [])) ∷ group ∷ metric ∷ [])) unixtime
                (graphite_data fl value backlog num))

  unfoldable pub send_metrics : Map Key (Value F64) → Backlog F64 → ℕ → ℕ → Option (List (Sent F64))
  send_metrics [] backlog num unixtime = some []
  send_metrics ((key, value) ∷ values) backlog num unixtime =
      both (send_metric key value backlog num unixtime) (send_metrics values backlog num unixtime)

  -- `appmetrics::scan`: nothing before there are two scans.
  abbrev scan_at : Backlog F64 → ℕ → List SnapTime → Option (List (Sent F64))
  scan_at backlog interval [] = some []
  scan_at backlog interval (newest ∷ []) = some []
  scan_at backlog interval (newest ∷ older ∷ timestamps) =
      send_metrics backlog.values backlog
        (scans_back newest.0 (newest ∷ older ∷ timestamps) interval) newest.0

  unfoldable pub scan_apps : Backlog F64 → ℕ → Option (List (Sent F64))
  scan_apps backlog interval = scan_at backlog interval backlog.timestamps
