-- ===== src/Scanner/Rounds.antt =====
-- A round of the scanner: what it records, that it keeps the history well formed, and that it
-- does not panic.
use cantal.Common.{
  ℕ, ◌+◌, ◌/◌, ◌≤◌, ◌<◌, ltb, ge→ltb, lt→ltb, min, ◌≡◌, refl, sym, ◌∙◌, ap, arith, Bool, true,
  false, not, ◌&&◌, if◌then◌else◌, Bool-cases, inl, inr, Option, some, List, ◌∷◌, All,
}
use mathlib.Core.Path.{subst}
use cantal.Common.Maps.{Unique, filter_entries}
use cantal.History.Word.{half, word_sub}
use cantal.History.Float.{Float}
use cantal.History.Key.{Key, key_has_eq}
use cantal.History.Values.{TipValue}
use cantal.History.Backlog
use cantal.History.Backlog.{SnapTime, is_newer}
use cantal.History.Backlog.Push.{push-BacklogIsValid}
use cantal.History.Tip
use cantal.History.Tip.{Tip, History}
use cantal.History.Tip.Newest.{tip_push_lem}
use cantal.Scanner.{
  Settings, Reading, Scanner, is_state, tip_entries, fine_entries, boot_or, record_scan,
  snapshot_if_due, snapshot_recorded, end_round, scan_round,
}
use cantal.Scanner.Snapshots.{
  HistoryIsValid, is_due, is_hour, is_cut, written, snapshot_if_due-fields, snapshot_if_due-IsValid,
  snapshot_if_due-kept,
}
use cantal.Scanner.Entries.{HasWord, fine_entries-IsScan, fine_entries-filter, tip_entries-filter}

module _ (fl : Float) (Seen : Type 0) (encode : History fl.F64 → Option (List ℕ))
    (hourly_name : ℕ → List ℕ) (settings : Settings) where
  open fl use {F64}

  -- The tip with the states of a scan pushed to it, cut if a snapshot is due.
  abbrev pub tip_after : Scanner F64 Seen → Reading F64 Seen → List (Key × TipValue F64) → Tip F64
  tip_after sc r states =
      let tip = Tip.push sc.history.tip (r.start, r.scan_duration) states in
      if is_due fl Seen encode hourly_name settings sc r.start
      then Tip.truncate_by_time tip (word_sub r.start (min settings.backlog_time 60000))
      else tip

  -- What a scan leaves that `stats` takes: the histories with what was read pushed to them, cut if
  -- a snapshot is due, and what was stored.
  pub record Recorded (sc : Scanner F64 Seen) (r : Reading F64 Seen) (sc' : Scanner F64 Seen)
      : Type 0 where
    pub last_store :
        sc'.last_store
        ≡ (if is_due fl Seen encode hourly_name settings sc r.start then r.start else sc.last_store)
    pub last_hourly : sc'.last_hourly ≡ (
        if is_due fl Seen encode hourly_name settings sc r.start
          && is_hour fl Seen encode hourly_name settings sc r.start
        then r.start / 3600000
        else sc.last_hourly)
    pub pushed : Backlog.Backlog F64
    pub push_lem :
        Backlog.push fl sc.history.fine
          (r.start, r.scan_duration)
          (filter_entries (λ k v. not (is_state v)) r.tip)
        ≡ some pushed
    pub age : pushed.age ≡ sc.history.fine.age + 1
    pub timestamps : pushed.timestamps ≡ (r.start, r.scan_duration) ∷ sc.history.fine.timestamps
    pub fine : sc'.history.fine ≡ (
        if is_cut fl Seen encode hourly_name settings sc r.start
        then Backlog.truncate_by_time fl pushed (word_sub r.start settings.backlog_time)
        else pushed)
    pub tip : sc'.history.tip ≡ tip_after sc r (filter_entries (λ k v. is_state v) r.tip)
    pub storage : sc'.storage ≡ (
        if is_due fl Seen encode hourly_name settings sc r.start
        then written fl Seen encode hourly_name settings sc.storage r.start
            (is_hour fl Seen encode hourly_name settings sc r.start)
            (encode sc'.history)
        else sc.storage)
    pub scan_duration : sc'.scan_duration ≡ r.scan_duration
    pub boot_time : sc'.boot_time ≡ boot_or r.boot_time sc.boot_time
    pub seen : sc'.seen ≡ some r.seen

  -- A round of the loop whose clock has gone on since the last scan does not panic: it ends with
  -- histories that are well formed and not newer than the scan, and those who follow scans are told
  -- once. If the statistics can be locked, what was read is pushed as the newest scan, states to
  -- the tip and all else to the fine history. If then the last store was more than a minute before,
  -- the tip is cut to a minute (or to the age of the backlog, if that is less), the fine history is
  -- cut to the age of the backlog where that is an hour at most or a new hour has begun, and what
  -- is encoded of the histories is given to the storage, if there is one, with the name of an
  -- hourly snapshot if a new hour has begun and the backlog is longer than an hour; otherwise
  -- nothing is cut and nothing stored. Where the statistics cannot be locked, nothing is recorded.
  -- The numbers that were read are of 64 bits, each metric was read once, and the age of the fine
  -- history stays within 2 ^ 63.
  pub scan_round-Recorded :
      (sc : Scanner F64 Seen) (r : Reading F64 Seen)
      → HistoryIsValid sc.history sc.last_scan
      → sc.last_scan < r.start
      → Unique r.tip
      → All (λ e. HasWord e.1) r.tip
      → sc.history.fine.age + 1 ≤ half
      → (sc' : Scanner F64 Seen) × (scan_round fl Seen encode hourly_name settings sc r ≡ some sc')
        × HistoryIsValid sc'.history sc'.last_scan
        × (sc'.last_scan ≡ r.start)
        × (sc'.triggers ≡ sc.triggers + 1)
        × (if r.has_stats
            then Recorded sc r sc'
            else (sc' ≡ record sc { last_scan = r.start; triggers = sc.triggers + 1 }))
  unfolding scan_round record_scan
  scan_round-Recorded sc r v later u w bound = elim (Bool-cases r.has_stats) [
    | inl open_stats ↦ recorded open_stats
    | inr locked ↦ (
      record sc { last_scan = r.start; triggers = sc.triggers + 1 },
      round false locked (some sc) refl,
      record {
        fine = v.fine;
        tip = v.tip;
        newer = λ snap l. v.newer snap (omega (arith, later, l));
      },
      refl,
      refl,
      subst (Left (record sc { last_scan = r.start; triggers = sc.triggers + 1 })) (sym locked)
          refl,
    )
  ]
    where
      on : ltb r.start sc.last_scan ≡ false
      on = ge→ltb _ _ (omega (arith, later))

      Left : Scanner F64 Seen → Bool → Type 0
      Left sc' has_stats =
          if has_stats
          then Recorded sc r sc'
          else (sc' ≡ record sc { last_scan = r.start; triggers = sc.triggers + 1 })

      round :
          (has_stats : Bool)
          → r.has_stats ≡ has_stats
          → (after : Option (Scanner F64 Seen))
          → (if has_stats
              then snapshot_recorded fl Seen encode hourly_name settings r.start
                  (record_scan fl Seen encode hourly_name settings sc r)
              else some sc)
            ≡ after
          → scan_round fl Seen encode hourly_name settings sc r
            ≡ end_round fl Seen encode hourly_name settings r.start after
      round has_stats h after e = rw on (
          ap
            (λ b. end_round fl Seen encode hourly_name settings r.start (
              if b
              then snapshot_recorded fl Seen encode hourly_name settings r.start
                  (record_scan fl Seen encode hourly_name settings sc r)
              else some sc))
            h
          ∙ ap (end_round fl Seen encode hourly_name settings r.start) e)

      recorded :
          r.has_stats ≡ true
          → (sc' : Scanner F64 Seen) × (scan_round fl Seen encode hourly_name settings sc r
              ≡ some sc')
            × HistoryIsValid sc'.history sc'.last_scan
            × (sc'.last_scan ≡ r.start)
            × (sc'.triggers ≡ sc.triggers + 1)
            × (if r.has_stats
                then Recorded sc r sc'
                else (sc' ≡ record sc { last_scan = r.start; triggers = sc.triggers + 1 }))
      recorded open_stats =
          let snap : SnapTime = (r.start, r.scan_duration) in
          let (pushed, push_lem, valid, aged, times) =
            push-BacklogIsValid fl sc.history.fine snap (fine_entries r.tip) v.fine
              (fine_entries-IsScan r.tip u w) (v.newer snap later) bound in
          let tip = Tip.push sc.history.tip snap (tip_entries r.tip) in
          let sc1 : Scanner F64 Seen = record sc {
            scan_duration = r.scan_duration;
            boot_time = boot_or r.boot_time sc.boot_time;
            seen = some r.seen;
            history = record { fine = pushed; tip = tip };
          } in
          let valid1 : HistoryIsValid sc1.history r.start = record {
            fine = valid;
            tip = (tip_push_lem sc.history.tip snap (tip_entries r.tip) v.tip).1;
            newer = λ s l. ap (is_newer s) times ∙ lt→ltb _ _ l;
          } in
          let sc2 = snapshot_if_due fl Seen encode hourly_name settings sc1 r.start in
          let scanned : record_scan fl Seen encode hourly_name settings sc r ≡ some sc1 =
            rw (record_scan, push_lem) refl in
          let (store, hour, fine, tips, items) =
            snapshot_if_due-fields fl Seen encode hourly_name settings sc1 r.start in
          let (triggers, duration, boot, seen) =
            snapshot_if_due-kept fl Seen encode hourly_name settings sc1 r.start in
          (
            record sc2 { last_scan = r.start; triggers = sc2.triggers + 1 },
            round true open_stats (some sc2)
                (ap (snapshot_recorded fl Seen encode hourly_name settings r.start) scanned),
            snapshot_if_due-IsValid fl Seen encode hourly_name settings sc1 r.start valid1,
            refl,
            ap (λ n. n + 1) triggers,
            subst (Left (record sc2 { last_scan = r.start; triggers = sc2.triggers + 1 }))
                (sym open_stats)
                (record {
                  last_store = store;
                  last_hourly = hour;
                  pushed = pushed;
                  push_lem =
                      ap (Backlog.push fl sc.history.fine snap) (sym (fine_entries-filter r.tip))
                      ∙ push_lem;
                  age = aged;
                  timestamps = times;
                  fine = fine;
                  tip = tips ∙ ap (tip_after sc r) (tip_entries-filter r.tip);
                  storage = items;
                  scan_duration = duration;
                  boot_time = boot;
                  seen = seen;
                }),
          )
