-- ===== src/Storage.antt =====
-- src/storage.rs: what waits to be written to the disk, the newest of each kind.
use cantal.Common.{ℕ, Option, none, some, List}

-- A text is the list of its bytes.
pub record MetricBuffer : Type 0 where
  pub timestamp : ℕ
  pub snapshot : Option (List ℕ)
  pub bytes : List ℕ

pub data Task : Type 0 where
  metrics : MetricBuffer → Task
  peers : List ℕ → Task

pub record Items : Type 0 where
  pub metrics : Option MetricBuffer
  pub peers : Option (List ℕ)

-- `Storage::new`.
unfoldable pub new : Items
new = record { metrics = none; peers = none }

unfoldable pub store_metrics : Items → MetricBuffer → Items
store_metrics items value = record items { metrics = some value }

unfoldable pub store_peers : Items → List ℕ → Items
store_peers items value = record items { peers = some value }

-- One round of the loop of `get`: nothing where it waits.
abbrev take_from : Items → Option (List ℕ) → Option MetricBuffer → Option (Task × Items)
take_from items (some val) _ = some (Task.peers val, record items { peers = none })
take_from items none (some val) = some (Task.metrics val, record items { metrics = none })
take_from items none none = none

unfoldable pub get : Items → Option (Task × Items)
get items = take_from items items.peers items.metrics
