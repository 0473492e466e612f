-- ===== src/Scanner/Tests.antt =====
-- A round of the scanner after three scans.
use cantal.Common.{ℕ, lt→ltb, ◌≡◌, refl, arith, true, Option, none, some, [], ◌∷◌}
use cantal.Common.Maps.{lookup}
use cantal.History.Key.{key_eq}
use cantal.History.Values.{TipValue}
use cantal.History.Samples.{whole_float, test_metric, other_metric}
use cantal.History.Backlog.Sample.{three_scans, three_scans-BacklogIsValid}
use cantal.History.Tip.{new}
use cantal.Scanner.{Settings, Reading, Scanner, scan_round}
use cantal.Scanner.Snapshots.{HistoryIsValid}
use cantal.Scanner.Rounds.{Recorded, scan_round-Recorded}

abbrev settings : Settings
settings = record { backlog_time = 600000; has_storage = true }

abbrev third : Scanner (Option ℕ) ℕ
third = record {
  last_store = 0;
  last_scan = 1300;
  last_hourly = 0;
  scan_duration = 10;
  boot_time = none;
  seen = none;
  history = record { fine = three_scans; tip = new };
  storage = record { metrics = none; peers = none };
  triggers = 3;
}

abbrev reading : Reading (Option ℕ) ℕ
reading = record {
  start = 70000;
  scan_duration = 12;
  tip = (test_metric, TipValue.counter 25) ∷ (other_metric, TipValue.state 3 []) ∷ [];
  boot_time = some 1;
  seen = 5;
  has_stats = true;
}

scan_round-Recorded_example :
    (sc' : Scanner (Option ℕ) ℕ) × (scan_round whole_float ℕ
        (λ h. some [])
        (λ n. n ∷ [])
        settings
        third
        reading
      ≡ some sc')
    × HistoryIsValid sc'.history sc'.last_scan
    × (sc'.last_scan ≡ 70000)
    × (sc'.triggers ≡ 4)
    × Recorded whole_float ℕ (λ h. some []) (λ n. n ∷ []) settings third reading sc'
unfolding key_eq lookup new
scan_round-Recorded_example =
    scan_round-Recorded whole_float ℕ (λ h. some []) (λ n. n ∷ []) settings third reading
      (record {
        fine = three_scans-BacklogIsValid;
        tip = tt;
        newer = λ snap later. lt→ltb 1300 snap.0 later;
      })
      (omega arith) (refl, (refl, tt)) (omega arith, (tt, tt)) (omega arith)
