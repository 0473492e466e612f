-- ===== src/Gossip/Public.antt =====
-- src/gossip/public.rs: what the rest of the agent asks and tells the gossip. A gossip without a
-- sender is one that is switched off.
use cantal.Common.{
  ℕ, ◌+◌, Bool, false, if◌then◌else◌, Option, none, some, map, List, [], ◌∷◌, ◌++◌, length,
}
use cantal.Common.Maps.{Map, lookup}
use cantal.Gossip.MachineId.{MachineId, id_has_eq}
use cantal.Gossip.Config.{SocketAddr}
use cantal.Gossip.Peer.{Peer, Report}
use cantal.Gossip.Info.{Info, new_info}

pub record Gossip : Type 0 where
  -- The commands that were sent, the latest last.
  pub sender : Option (List SocketAddr)
  pub info : Info

pub noop : Gossip
noop = record { sender = none; info = new_info }

abbrev send_to : Option (List SocketAddr) → SocketAddr → Option (List SocketAddr)
send_to none addr = none
send_to (some commands) addr = some (commands ++ (addr ∷ []))

unfoldable pub add_host : Gossip → SocketAddr → Gossip
add_host g addr = record g { sender = send_to g.sender addr }

abbrev reports_remote : Option (ℕ × Report) → Bool
reports_remote none = false
reports_remote (some (_, report)) = report.has_remote

abbrev count_remote : Map MachineId Peer → ℕ
count_remote [] = 0
count_remote ((id, peer) ∷ peers) =
    (if reports_remote peer.report then 1 else 0) + count_remote peers

unfoldable pub get_peer_numbers : Gossip → ℕ × ℕ
get_peer_numbers g = (length g.info.peers, count_remote g.info.peers)

unfoldable pub notify_remote : Gossip → Bool → Gossip
notify_remote g value = record g { info = record g.info { has_remote = value } }

unfoldable pub get_peers : Gossip → List Peer
get_peers g = map (λ e. e.1) g.info.peers

unfoldable pub get_peer : Gossip → MachineId → Option Peer
get_peer g name = lookup name g.info.peers

unfoldable pub get_peer_ids : Gossip → List MachineId
get_peer_ids g = map (λ e. e.0) g.info.peers
