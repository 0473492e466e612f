-- ===== src/Scanner.antt =====
-- src/scanner.rs: one round of the loop that scans the machine and keeps what it read. What
-- is read from the machine is given; durations are in milliseconds.
pub mod Entries
pub mod Snapshots
pub mod Rounds
mod Tests
use cantal.Common.{
  ℕ, ◌+◌, ◌-◌, ◌/◌, ltb, min, Bool, true, false, if◌then◌else◌, Option, none, some, List, [], ◌∷◌,
}
use cantal.Common.Maps.{Map}
use cantal.History.Word.{word_sub}
use cantal.History.Float.{Float}
use cantal.History.Key.{Key}
use cantal.History.Values.{TipValue}
use cantal.History.Backlog
use cantal.History.Backlog.{SnapTime}
use cantal.History.Tip
use cantal.History.Tip.{History}
use cantal.Storage.{Items, store_metrics}

abbrev pub snapshot_interval : ℕ
snapshot_interval = 60000

pub record Settings : Type 0 where
  pub backlog_time : ℕ
  pub has_storage : Bool

-- What one scan reads: its start and duration, the metrics, the time of the boot, and the
-- processes and connections, which are only kept. `has_stats` is whether `stats.write()` succeeds:
-- it does not if another thread panicked while it held the lock.
pub record Reading (F Seen : Type 0) : Type 0 where
  pub start : ℕ
  pub scan_duration : ℕ
  pub tip : Map Key (TipValue F)
  pub boot_time : Option ℕ
  pub seen : Seen
  pub has_stats : Bool

-- The variables of the loop, and what it writes of `Stats`.
pub record Scanner (F Seen : Type 0) : Type 0 where
  pub last_store : ℕ
  pub last_scan : ℕ
  pub last_hourly : ℕ
  pub scan_duration : ℕ
  pub boot_time : Option ℕ
  pub seen : Option Seen
  pub history : History F
  pub storage : Items
  -- How often `Subscription::Scan` was triggered.
  pub triggers : ℕ

abbrev pub is_state : {F : Type 0} → TipValue F → Bool
is_state (TipValue.counter v) = false
is_state (TipValue.integer v) = false
is_state (TipValue.float v) = false
is_state (TipValue.state ts text) = true

-- The two `filter`s over what was read.
unfoldable pub tip_entries : {F : Type 0} → Map Key (TipValue F) → List (Key × TipValue F)
tip_entries [] = []
tip_entries ((k, v) ∷ tip) =
    let rest = tip_entries tip in if is_state v then (k, v) ∷ rest else rest

unfoldable pub fine_entries : {F : Type 0} → Map Key (TipValue F) → List (Key × TipValue F)
fine_entries [] = []
fine_entries ((k, v) ∷ tip) =
    let rest = fine_entries tip in if is_state v then rest else (k, v) ∷ rest

abbrev pub boot_or {ℓ} : {A : Type ℓ} → Option A → Option A → Option A
boot_or none b = b
boot_or (some a) b = some a

-- The encoder, and the name of an hourly snapshot, are made by libraries.
module _ (fl : Float) (Seen : Type 0) (encode : History fl.F64 → Option (List ℕ))
    (hourly_name : ℕ → List ℕ) (settings : Settings) where
  open fl use {F64}

  abbrev pub truncate_fine : History F64 → ℕ → History F64
  truncate_fine h start = record h {
    fine = Backlog.truncate_by_time fl h.fine (word_sub start settings.backlog_time);
  }

  -- The fine history is cut when an hour begins, or at each snapshot if it is kept for an hour at
  -- most. With it: the name of the snapshot, and the hour.
  unfoldable pub cut_history : History F64 → ℕ → ℕ → History F64 × Option (List ℕ) × ℕ
  cut_history h start last_hourly =
      let hourly = start / 3600000 in
      if ltb 3600000 settings.backlog_time
      then if ltb last_hourly hourly
        then (truncate_fine h start, some (hourly_name hourly), hourly)
        else (h, none, last_hourly)
      else (truncate_fine h start, none, last_hourly)

  abbrev pub store_buffer : Items → ℕ → Option (List ℕ) → Option (List ℕ) → Items
  store_buffer items start snapshot none = items
  store_buffer items start snapshot (some buf) =
      if settings.has_storage
      then store_metrics items (record { timestamp = start; snapshot = snapshot; bytes = buf })
      else items

  unfoldable pub take_snapshot : Scanner F64 Seen → ℕ → Scanner F64 Seen
  take_snapshot sc start =
      let tip =
        Tip.truncate_by_time sc.history.tip (word_sub start (min settings.backlog_time 60000)) in
      let (history, snapshot, hourly) =
        cut_history (record sc.history { tip = tip }) start sc.last_hourly in
      record sc {
        last_store = start;
        last_hourly = hourly;
        history = history;
        storage = store_buffer sc.storage start snapshot (encode history);
      }

  -- What a scan writes: nothing where `push` panics.
  unfoldable pub record_scan : Scanner F64 Seen → Reading F64 Seen → Option (Scanner F64 Seen)
  record_scan sc r =
      let snap : SnapTime = (r.start, r.scan_duration) in
      let tip = Tip.push sc.history.tip snap (tip_entries r.tip) in
      elim (Backlog.push fl sc.history.fine snap (fine_entries r.tip)) [
        | none ↦ none
        | some fine ↦ some (record sc {
          scan_duration = r.scan_duration;
          boot_time = boot_or r.boot_time sc.boot_time;
          seen = some r.seen;
          history = record { fine = fine; tip = tip };
        })
      ]

  abbrev pub snapshot_if_due : Scanner F64 Seen → ℕ → Scanner F64 Seen
  snapshot_if_due sc start =
      if ltb snapshot_interval (start - sc.last_store) then take_snapshot sc start else sc

  abbrev pub snapshot_recorded : ℕ → Option (Scanner F64 Seen) → Option (Scanner F64 Seen)
  snapshot_recorded start none = none
  snapshot_recorded start (some sc) = some (snapshot_if_due sc start)

  abbrev pub end_round : ℕ → Option (Scanner F64 Seen) → Option (Scanner F64 Seen)
  end_round start none = none
  end_round start (some sc) = some (record sc { last_scan = start; triggers = sc.triggers + 1 })

  -- One round of `scan_loop`; `none` is a panic.
  unfoldable pub scan_round : Scanner F64 Seen → Reading F64 Seen → Option (Scanner F64 Seen)
  scan_round sc r =
      if ltb r.start sc.last_scan
      then if ltb (r.start - sc.last_scan) 10000 then some sc else none
      else end_round r.start
          (if r.has_stats then snapshot_recorded r.start (record_scan sc r) else some sc)
