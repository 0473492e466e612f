-- ===== src/History/Tip.antt =====
-- cantal_history/src/tip.rs: the newest value of each metric that has no fine history; and the two
-- stores together, lib.rs.
pub mod Newest
mod Tests
use cantal.Common.{ℕ, Bool, leb, if◌then◌else◌, List, [], ◌∷◌}
use cantal.Common.Maps.{Map, insert}
use cantal.History.Float.{Float}
use cantal.History.Key.{Key, key_has_eq}
use cantal.History.Values.{TipValue}
use cantal.History.Backlog
use cantal.History.Backlog.{Backlog, SnapTime}

pub record Tip (F : Type 0) : Type 0 where
  pub latest_timestamp : SnapTime
  -- The value of a key, with the time at which it was read.
  pub values : Map Key (ℕ × TipValue F)

module _ {F : Type 0} where
  unfoldable pub new : Tip F
  new = record { latest_timestamp = (0, 0); values = [] }

  -- The loop of `push`: the entry of a key is written, whether there was one or not.
  pub push_values :
      Map Key (ℕ × TipValue F) → ℕ → List (Key × TipValue F) → Map Key (ℕ × TipValue F)
  push_values values ts [] = values
  push_values values ts ((k, v) ∷ iter) = push_values (insert k (ts, v) values) ts iter

  pub push : Tip F → SnapTime → List (Key × TipValue F) → Tip F
  push tip timestamp iter = record {
    latest_timestamp = timestamp;
    values = push_values tip.values timestamp.0 iter;
  }

  -- The `filter` over the entries.
  pub keep_since : ℕ → Map Key (ℕ × TipValue F) → Map Key (ℕ × TipValue F)
  keep_since timestamp [] = []
  keep_since timestamp ((k, (ts, v)) ∷ values) =
      let rest = keep_since timestamp values in
      if leb timestamp ts then (k, (ts, v)) ∷ rest else rest

  unfoldable pub truncate_by_time : Tip F → ℕ → Tip F
  truncate_by_time tip timestamp = record tip { values = keep_since timestamp tip.values }

-- lib.rs, `History`.
pub record History (F : Type 0) : Type 0 where
  pub fine : Backlog F
  pub tip : Tip F

pub empty_history : {F : Type 0} → History F
empty_history = record { fine = Backlog.new; tip = new }

-- `History::truncate_by_time`.
pub truncate_history : (fl : Float) → History fl.F64 → ℕ → History fl.F64
truncate_history fl h tstamp = record {
  fine = Backlog.truncate_by_time fl h.fine tstamp;
  tip = truncate_by_time h.tip tstamp;
}
