-- ===== src/Gossip/Info.antt =====
-- src/gossip/info.rs and the packets of src/gossip/proto.rs: the peers that an agent knows, and
-- what it tells of them.
pub mod Friends
use cantal.Common.{ℕ, Bool, false, if◌then◌else◌, Option, none, some, map, List, [], ◌∷◌}
use cantal.Common.Maps.{Map}
use cantal.Gossip.MachineId.{MachineId}
use cantal.Gossip.Config.{Config, Text, SocketAddr, Sleeps}
use cantal.Gossip.Peer.{Peer, Report, contains, is_failing}

pub record Info : Type 0 where
  pub peers : Map MachineId Peer
  pub has_remote : Bool

unfoldable pub new_info : Info
new_info = record { peers = []; has_remote = false }

pub record MyInfo : Type 0 where
  pub id : MachineId
  pub addresses : List Text
  pub host : Text
  pub name : Text
  pub report : Report

pub record FriendInfo : Type 0 where
  pub id : MachineId
  pub my_primary_addr : Option Text
  pub addresses : List Text
  pub host : Option Text
  pub name : Option Text
  pub report : Option (ℕ × Report)
  pub roundtrip : Option (ℕ × ℕ)

pub data Packet : Type 0 where
  ping : Text → MyInfo → ℕ → List FriendInfo → Packet
  pong : Text → MyInfo → ℕ → ℕ → List FriendInfo → Packet

-- What the agent takes from outside. Each reading of a clock and each random choice has a number,
-- counted by the agent's state; where the peers are walked through, the clock is read for each.
pub record Env : Type 0 where
  -- Milliseconds since the epoch, `time_ms`.
  pub clock : ℕ → ℕ
  pub clock_at : ℕ → MachineId → ℕ
  -- The monotonic clock, `Instant::now`.
  pub instant : ℕ → ℕ
  -- `sample_iter`, over peers and for one address.
  pub sample_peers : ℕ → List Peer → ℕ → List Peer
  pub sample_addr : ℕ → List SocketAddr → Option SocketAddr
  pub shuffle : ℕ → List MachineId → List MachineId
  pub sleeps : ℕ → Sleeps
  -- Socket addresses as texts.
  pub parse : Text → Option SocketAddr
  pub show : SocketAddr → Text

-- The two `filter`s of `get_friends`.
unfoldable pub candidates : Env → ℕ → Config → SocketAddr → Map MachineId Peer → List Peer
candidates env t config exclude [] = []
candidates env t config exclude ((id, peer) ∷ peers) =
    let rest = candidates env t config exclude peers in
    if contains peer.addresses exclude
    then rest
    else if is_failing peer config (env.clock_at t id)
    then rest
    else peer ∷ rest

abbrev shown : Env → Option SocketAddr → Option Text
shown env none = none
shown env (some addr) = some (env.show addr)

abbrev without_source : Option (SocketAddr × ℕ × ℕ) → Option (ℕ × ℕ)
without_source none = none
without_source (some (_, ts, rtt)) = some (ts, rtt)

-- What is told of one peer.
abbrev pub friend_info : Env → Peer → FriendInfo
friend_info env f = record {
  id = f.id;
  my_primary_addr = shown env f.primary_addr;
  addresses = map env.show f.addresses;
  host = f.hostname;
  name = f.name;
  report = f.report;
  roundtrip = without_source f.last_roundtrip;
}

unfoldable pub get_friends : Env → ℕ → Info → SocketAddr → Config → List FriendInfo
get_friends env t info exclude config =
    map (friend_info env) (
      env.sample_peers t (candidates env t config exclude info.peers)
        config.num_friends_in_a_packet)
