-- ===== src/Gossip/Config.antt =====
-- src/gossip/mod.rs, `Config`, and the waiting times of src/gossip/config.rs. Durations are in
-- milliseconds.
use cantal.Common.{ℕ, min, List}
use cantal.Gossip.MachineId.{MachineId}

-- A text is the list of its bytes, and a socket address a number that stands for it.
abbrev pub Text : Type 0
Text = List ℕ

abbrev pub SocketAddr : Type 0
SocketAddr = ℕ

pub record Config : Type 0 where
  pub machine_id : MachineId
  pub cluster_name : Text
  pub hostname : Text
  pub name : Text
  pub str_addresses : List Text
  pub interval : ℕ
  pub num_pings_to_send : ℕ
  pub min_ping_interval : ℕ
  pub max_ping_interval : ℕ
  pub num_friends_in_a_packet : ℕ
  pub prefail_time : ℕ
  pub max_roundtrip : ℕ
  pub fail_time : ℕ
  pub stale_time : ℕ
  pub remove_time : ℕ
  pub garbage_collector_interval : ℕ
  pub add_host_retry_times : ℕ
  pub add_host_retry_min : ℕ
  pub add_host_retry_cap : ℕ

-- `Config::new` and `done` with what the builder is given: the default settings.
pub default_config : MachineId → Text → Text → Text → List Text → Config
default_config machine_id cluster_name name hostname str_addresses = record {
  machine_id = machine_id;
  cluster_name = cluster_name;
  hostname = hostname;
  name = name;
  str_addresses = str_addresses;
  interval = 1000;
  num_pings_to_send = 10;
  min_ping_interval = 5000;
  max_ping_interval = 60000;
  num_friends_in_a_packet = 10;
  prefail_time = 20000;
  max_roundtrip = 2000;
  fail_time = 3600000;
  stale_time = 600000;
  remove_time = 172800000;
  garbage_collector_interval = 300000;
  add_host_retry_times = 5;
  add_host_retry_min = 100;
  add_host_retry_cap = 3600000;
}

-- The random factors come from `random_ms`: a time around a given one, and one around a given
-- one after it has grown by the exponent, both in f32.
pub record Sleeps : Type 0 where
  pub around : ℕ → ℕ
  pub around_grown : ℕ → ℕ

pub add_host_first_sleep : Config → Sleeps → ℕ
add_host_first_sleep config sleeps = sleeps.around config.add_host_retry_min

pub add_host_next_sleep : Config → Sleeps → ℕ → ℕ
add_host_next_sleep config sleeps prev_sleep =
    min (sleeps.around_grown prev_sleep) config.add_host_retry_cap
