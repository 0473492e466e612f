-- ===== src/Gossip/Proto.antt =====
-- src/gossip/proto.rs: the state of the protocol, and what it does with commands, with packets
-- and as time passes. What it sends, triggers and stores is kept in the state, the latest last.
pub mod Hearing
pub mod Timers
pub mod Known
pub mod Rounds
pub mod Addresses
pub mod Hosts
pub mod Queue
pub mod Retry
pub mod Packets
pub mod Visits
pub mod Pings
pub mod Pinged
pub mod Turns
mod Tests
use cantal.Common.{
  ℕ, zero, suc, ◌+◌, ◌-◌, ◌%◌, ◌^◌, Bool, true, false, ltb, leb, ◌==◌, not, ◌&&◌, ◌||◌,
  if◌then◌else◌, min,
}
use cantal.Common.{Option, none, some, map, List, [], ◌∷◌, ◌++◌, length, ==_iff}
use cantal.Common.Maps.{Map, Eq, lookup, insert}
use cantal.History.Word.{word_add}
use cantal.History.Key.{bytes_eq}
use cantal.Gossip.MachineId.{MachineId, id_eq, id_has_eq}
use cantal.Gossip.Config.{Config, Text, SocketAddr, add_host_first_sleep, add_host_next_sleep}
use cantal.Gossip.Peer.{
  Peer, Report, new_peer, apply_addresses, apply_report, apply_hostname, apply_node_name,
  apply_roundtrip, has_fresh_report, ping_primary_address, random_ping_addr, is_stale,
  should_remove,
}
use cantal.Gossip.Info.{Info, MyInfo, FriendInfo, Packet, ping, pong, Env, get_friends}

instance abbrev pub nat_has_eq : Eq ℕ
nat_has_eq = record { eq = λ a b. a == b; eq_iff = ==_iff }

pub record FutureHost : Type 0 where
  pub deadline : ℕ
  pub address : SocketAddr
  pub attempts : ℕ
  pub timeout : ℕ

pub data AddrStatus : Type 0 where
  available ping_sent : AddrStatus

pub record Proto : Type 0 where
  pub info : Info
  pub addr_status : Map SocketAddr AddrStatus
  -- A binary heap.
  pub add_queue : List FutureHost
  -- The last of the vector first.
  pub ping_queue : List MachineId
  pub next_ping : ℕ
  pub next_gc : ℕ
  -- How many readings of clocks and random choices were made.
  pub ticks : ℕ
  pub sent : List (SocketAddr × Packet)
  -- How often `Subscription::Peers` was triggered.
  pub triggers : ℕ
  -- What was given to the storage: the addresses of all peers.
  pub stored : List (List Text)
  pub num_peers : ℕ
  pub num_stale : ℕ

abbrev pub tick : Proto → Proto
tick st = record st { ticks = st.ticks + 1 }

abbrev pub put_peers : Proto → Map MachineId Peer → Proto
put_peers st peers = record st { info = record st.info { peers = peers } }

module _ (env : Env) (config : Config) where
  unfoldable pub new : Info → Proto
  new info = record {
    info = info;
    addr_status = [];
    add_queue = [];
    ping_queue = [];
    next_ping = env.instant 0 + config.interval;
    next_gc = env.instant 1 + config.garbage_collector_interval;
    ticks = 2;
    sent = [];
    triggers = 0;
    stored = [];
    num_peers = 0;
    num_stale = 0;
  }

  -- What the agent says of itself.
  abbrev pub my_info : Info → MyInfo
  my_info info = record {
    id = config.machine_id;
    addresses = config.str_addresses;
    host = config.hostname;
    name = config.name;
    report = record { peers = length info.peers % 2 ^ 32; has_remote = info.has_remote };
  }

  abbrev pub send : Proto → SocketAddr → Packet → Proto
  send st addr packet = record (tick st) { sent = st.sent ++ ((addr, packet) ∷ []) }

  unfoldable pub send_gossip : Proto → SocketAddr → Proto
  send_gossip st addr = send st addr (
      ping config.cluster_name (my_info st.info) (env.clock st.ticks)
        (get_friends env st.ticks st.info addr config))

  -- `AddHost`, one command of `internal_messages`.
  abbrev pub add_host_in : Proto → SocketAddr → Option AddrStatus → Proto
  add_host_in st addr (some available) = st
  add_host_in st addr (some ping_sent) = send_gossip st addr
  add_host_in st addr none =
      let st' = send_gossip st addr in
      let timeout = add_host_first_sleep config (env.sleeps st'.ticks) in
      tick (record st' {
        addr_status = insert addr ping_sent st'.addr_status;
        add_queue =
            record {
              deadline = env.instant st'.ticks + timeout;
              address = addr;
              attempts = 1;
              timeout = timeout;
            }
            ∷ st'.add_queue;
      })

  unfoldable pub add_host : Proto → SocketAddr → Proto
  add_host st addr = add_host_in st addr (lookup addr st.addr_status)

  unfoldable pub internal_messages : Proto → List SocketAddr → Proto
  internal_messages st [] = st
  internal_messages st (addr ∷ stream) = internal_messages (add_host st addr) stream
