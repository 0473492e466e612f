-- ===== src/Scanner/Snapshots.antt =====
-- A snapshot of the scanner: what it cuts and stores, and that it leaves well-formed histories.
use cantal.Common.{
  ℕ, ◌-◌, ◌/◌, ◌<◌, ltb, min, ◌≡◌, refl, ◌∙◌, ap, Bool, true, false, not, ◌&&◌, ◌||◌, if◌then◌else◌,
  Bool-cases, inl, inr, Option, none, some, List, [], ◌∷◌,
}
use cantal.Common.Maps.{Unique}
use cantal.History.Word.{word_sub}
use cantal.History.Float.{Float}
use cantal.History.Key.{key_has_eq}
use cantal.History.Backlog
use cantal.History.Backlog.{SnapTime, is_newer}
use cantal.History.Backlog.Invariant.{BacklogIsValid}
use cantal.History.Backlog.Truncate.{not_older, truncate_by_time_lem}
use cantal.History.Tip
use cantal.History.Tip.{History}
use cantal.History.Tip.Newest.{keep_since-Unique}
use cantal.Storage.{Items, store_metrics}
use cantal.Scanner.{
  Settings, Scanner, truncate_fine, cut_history, take_snapshot, snapshot_if_due, store_buffer,
  snapshot_interval,
}

-- Well-formed histories, and no scan in them is later than the last one.
pub record HistoryIsValid {F : Type 0} (h : History F) (last_scan : ℕ) : Type 0 where
  pub fine : BacklogIsValid h.fine
  pub tip : Unique h.tip.values
  pub newer : (snap : SnapTime) → last_scan < snap.0 → is_newer snap h.fine.timestamps ≡ true

module _ (fl : Float) (Seen : Type 0) (encode : History fl.F64 → Option (List ℕ))
    (hourly_name : ℕ → List ℕ) (settings : Settings) where
  open fl use {F64}

  not_older-newer :
      (times : List SnapTime) (t : ℕ) (snap : SnapTime)
      → is_newer snap times ≡ true
      → is_newer snap (not_older fl times t) ≡ true
  not_older-newer [] t snap h = refl
  not_older-newer (s ∷ times) t snap h = elim (Bool-cases (ltb s.0 t)) [
    | inl e ↦ rw e refl
    | inr e ↦ rw e h
  ]

  truncate_fine-IsValid :
      (h : History F64) (last_scan start : ℕ)
      → HistoryIsValid h last_scan
      → HistoryIsValid (truncate_fine fl Seen encode hourly_name settings h start) last_scan
  truncate_fine-IsValid h last_scan start v =
      let t = word_sub start settings.backlog_time in
      let (fine, _, times) = truncate_by_time_lem fl h.fine t v.fine in
      record {
        fine = fine;
        tip = v.tip;
        newer = λ snap later.
            ap (is_newer snap) times
            ∙ not_older-newer h.fine.timestamps t snap (v.newer snap later);
      }

  cut_history-IsValid :
      (h : History F64) (last_scan start last_hourly : ℕ)
      → HistoryIsValid h last_scan
      → HistoryIsValid
          (cut_history fl Seen encode hourly_name settings h start last_hourly).0
          last_scan
  unfolding cut_history
  cut_history-IsValid h last_scan start last_hourly v =
      let cut = truncate_fine-IsValid h last_scan start v in
      elim (Bool-cases (ltb 3600000 settings.backlog_time)) [
        | inl e ↦ elim (Bool-cases (ltb last_hourly (start / 3600000))) [
          | inl l ↦ rw (e, l) cut
          | inr l ↦ rw (e, l) v
        ]
        | inr e ↦ rw e cut
      ]

  take_snapshot-IsValid :
      (sc : Scanner F64 Seen) (last_scan start : ℕ)
      → HistoryIsValid sc.history last_scan
      → HistoryIsValid
          (take_snapshot fl Seen encode hourly_name settings sc start).history
          last_scan
  unfolding take_snapshot Tip.truncate_by_time
  take_snapshot-IsValid sc last_scan start v =
      let t = word_sub start (min settings.backlog_time 60000) in
      let h : History F64 = record sc.history { tip = Tip.truncate_by_time sc.history.tip t } in
      cut_history-IsValid h last_scan start sc.last_hourly (record {
        fine = v.fine;
        tip = keep_since-Unique t sc.history.tip.values v.tip;
        newer = v.newer;
      })

  -- What a snapshot changes: the histories are cut, and what is encoded of them is stored.
  abbrev pub is_due : Scanner F64 Seen → ℕ → Bool
  is_due sc start = ltb snapshot_interval (start - sc.last_store)

  abbrev pub is_hour : Scanner F64 Seen → ℕ → Bool
  is_hour sc start = ltb 3600000 settings.backlog_time && ltb sc.last_hourly (start / 3600000)

  abbrev pub is_cut : Scanner F64 Seen → ℕ → Bool
  is_cut sc start = is_due sc start && (not (ltb 3600000 settings.backlog_time) || is_hour sc start)

  abbrev pub written : Items → ℕ → Bool → Option (List ℕ) → Items
  written items start hour none = items
  written items start hour (some buf) =
      if settings.has_storage
      then record items {
        metrics = some (record {
          timestamp = start;
          snapshot = if hour then some (hourly_name (start / 3600000)) else none;
          bytes = buf;
        });
      }
      else items

  store_buffer-written :
      (items : Items) (start : ℕ) (hour : Bool) (o : Option (List ℕ))
      → store_buffer fl Seen encode hourly_name settings items start
          (if hour then some (hourly_name (start / 3600000)) else none)
          o
        ≡ written items start hour o
  unfolding store_metrics
  store_buffer-written items start hour none = refl
  store_buffer-written items start hour (some buf) = refl

  pub snapshot_if_due-fields :
      (sc : Scanner F64 Seen) (start : ℕ)
      → let sc' = snapshot_if_due fl Seen encode hourly_name settings sc start in
        (sc'.last_store ≡ (if is_due sc start then start else sc.last_store))
        × (sc'.last_hourly
            ≡ (if is_due sc start && is_hour sc start then start / 3600000 else sc.last_hourly))
        × (sc'.history.fine ≡ (
            if is_cut sc start
            then Backlog.truncate_by_time fl sc.history.fine (word_sub start settings.backlog_time)
            else sc.history.fine))
        × (sc'.history.tip ≡ (
            if is_due sc start
            then Tip.truncate_by_time sc.history.tip
                (word_sub start (min settings.backlog_time 60000))
            else sc.history.tip))
        × (sc'.storage ≡ (
            if is_due sc start
            then written sc.storage start (is_hour sc start) (encode sc'.history)
            else sc.storage))
  unfolding take_snapshot cut_history
  snapshot_if_due-fields sc start =
      let h : History F64 = record sc.history {
        tip =
            Tip.truncate_by_time sc.history.tip (word_sub start (min settings.backlog_time 60000));
      } in
      let cut : History F64 = truncate_fine fl Seen encode hourly_name settings h start in
      elim (Bool-cases (is_due sc start)) [
        | inr d ↦ rw d (refl, refl, refl, refl, refl)
        | inl d ↦ elim (Bool-cases (ltb 3600000 settings.backlog_time)) [
          | inr e ↦
              rw (d, e)
                (refl, refl, refl, refl, store_buffer-written sc.storage start false (encode cut))
          | inl e ↦ elim (Bool-cases (ltb sc.last_hourly (start / 3600000))) [
            | inl l ↦
                rw (d, e, l)
                  (refl, refl, refl, refl, store_buffer-written sc.storage start true (encode cut))
            | inr l ↦
                rw (d, e, l)
                  (refl, refl, refl, refl, store_buffer-written sc.storage start false (encode h))
          ]
        ]
      ]

  pub snapshot_if_due-IsValid :
      (sc : Scanner F64 Seen) (start : ℕ)
      → HistoryIsValid sc.history start
      → HistoryIsValid (snapshot_if_due fl Seen encode hourly_name settings sc start).history start
  snapshot_if_due-IsValid sc start v = elim (Bool-cases (is_due sc start)) [
    | inl e ↦ rw e (take_snapshot-IsValid sc start start v)
    | inr e ↦ rw e v
  ]

  pub snapshot_if_due-kept :
      (sc : Scanner F64 Seen) (start : ℕ)
      → let sc' = snapshot_if_due fl Seen encode hourly_name settings sc start in
        (sc'.triggers ≡ sc.triggers)
        × (sc'.scan_duration ≡ sc.scan_duration)
        × (sc'.boot_time ≡ sc.boot_time)
        × (sc'.seen ≡ sc.seen)
  unfolding take_snapshot
  snapshot_if_due-kept sc start = elim (Bool-cases (is_due sc start)) [
    | inl e ↦ rw e (refl, refl, refl, refl)
    | inr e ↦ rw e (refl, refl, refl, refl)
  ]
