-- ===== src/Gossip/Proto/Tests.antt =====
-- The protocol at small inputs.
use cantal.Common.{
  ℕ, zero, suc, ◌+◌, ◌*◌, ◌≤◌, ◌≡◌, ◌≢◌, refl, arith, false, inl, inr, Option, none, some, List, [],
  ◌∷◌, take, All,
}
use cantal.Common.Maps.{lookup}
use cantal.History.Key.{bytes_eq}
use cantal.Gossip.MachineId.{MachineId, good, id_has_eq}
use cantal.Gossip.Config.{Config, Text, SocketAddr}
use cantal.Gossip.Peer.{Peer, new_peer}
use cantal.Gossip.Info.{Info, MyInfo, Packet, ping, Env, new_info, get_friends}
use cantal.Gossip.Info.Friends.{TellsOf, get_friends-TellsOf}
use cantal.Gossip.Proto.{Proto, FutureHost, tick, nat_has_eq, new}
use cantal.Gossip.Proto.Hearing.{consume_gossip}
use cantal.Gossip.Proto.Timers.{retry_new_hosts, run, ping_hosts}
use cantal.Gossip.Proto.Known.{IsKnown}
use cantal.Gossip.Proto.Rounds.{run-IsKnown}
use cantal.Gossip.Proto.Hosts.{QueueIsValid}
use cantal.Gossip.Proto.Queue.{run-QueueIsValid}
use cantal.Gossip.Proto.Retry.{Retries, retry_new_hosts-Retries, retry_new_hosts-blocked}
use cantal.Gossip.Proto.Packets.{Hears, consume_gossip-foreign, consume_gossip-Hears}
use cantal.Gossip.Proto.Visits.{with_queue, visit, ping_hosts-visit}
use cantal.Gossip.Proto.Pings.{IsPinged}
use cantal.Gossip.Proto.Turns.{turns, ping_hosts-reaches}

abbrev first : List SocketAddr → Option SocketAddr
first [] = none
first (a ∷ rest) = some a

abbrev one_byte : Text → Option SocketAddr
one_byte (a ∷ []) = some a
one_byte _ = none

-- Clocks that move with each reading, and samples that are taken from the front.
abbrev env : Env
env = record {
  clock = λ t. 1000 + t;
  clock_at = λ t id. 1000 + t;
  instant = λ t. 10 * t;
  sample_peers = λ t peers n. take n peers;
  sample_addr = λ t addrs. first addrs;
  shuffle = λ t ids. ids;
  sleeps = λ t. record { around = λ m. m; around_grown = λ m. 2 * m };
  parse = one_byte;
  show = λ a. a ∷ [];
}

abbrev me : MachineId
me = good (1 ∷ [])

abbrev other : MachineId
other = good (2 ∷ [])

abbrev config : Config
config = record {
  machine_id = me;
  cluster_name = b'c' ∷ [];
  hostname = b'h' ∷ [];
  name = b'n' ∷ [];
  str_addresses = (7 ∷ []) ∷ [];
  interval = 1000;
  num_pings_to_send = 2;
  min_ping_interval = 5000;
  max_ping_interval = 60000;
  num_friends_in_a_packet = 10;
  prefail_time = 20000;
  max_roundtrip = 2000;
  fail_time = 3600000;
  stale_time = 600000;
  remove_time = 172800000;
  garbage_collector_interval = 300000;
  add_host_retry_times = 5;
  add_host_retry_min = 100;
  add_host_retry_cap = 3600000;
}

abbrev began : Proto
began = new env config new_info

abbrev other_info : MyInfo
other_info = record {
  id = other;
  addresses = (8 ∷ []) ∷ [];
  host = b'o' ∷ [];
  name = b'o' ∷ [];
  report = record { peers = 1; has_remote = false };
}

abbrev hello : Packet
hello = ping (b'c' ∷ []) other_info 990 []

abbrev stranger : Packet
stranger = ping (b'd' ∷ []) other_info 990 []

abbrev two_rounds : List (List SocketAddr × List (Packet × SocketAddr))
two_rounds = (8 ∷ 9 ∷ [], (hello, 8) ∷ []) ∷ ([], (stranger, 5) ∷ []) ∷ []

run-IsKnown_example : IsKnown config (run env config began two_rounds).info.peers
run-IsKnown_example = run-IsKnown env config two_rounds

run-QueueIsValid_example :
    QueueIsValid config
      (run env config began two_rounds).addr_status
      (run env config began two_rounds).add_queue
run-QueueIsValid_example = run-QueueIsValid env config two_rounds (omega arith)

abbrev future : SocketAddr → ℕ → FutureHost
future addr deadline = record { deadline = deadline; address = addr; attempts = 1; timeout = 100 }

-- At 20 on the clock, one host is due and another is not.
abbrev waiting : Proto
unfolding new
waiting = record began { add_queue = future 8 15 ∷ future 9 500 ∷ [] }

retry_new_hosts-Retries_example : Retries env config waiting (retry_new_hosts env config waiting)
retry_new_hosts-Retries_example = retry_new_hosts-Retries env config waiting (omega arith)

retry_new_hosts-blocked_example : retry_new_hosts env config waiting ≡ tick waiting
unfolding new
retry_new_hosts-blocked_example =
    retry_new_hosts-blocked env config waiting (future 8 15 ∷ []) [] (future 9 500) refl
      (omega arith)

consume_gossip-foreign_example : consume_gossip env config began stranger 5 ≡ tick began
consume_gossip-foreign_example =
    consume_gossip-foreign env config began stranger 5 (inl (λ e. ground arith))

consume_gossip-Hears_example :
    Hears env config (consume_gossip env config began hello 8) began other 8
consume_gossip-Hears_example =
    consume_gossip-Hears env config began hello 8 refl (λ e. ground arith)

-- Three peers wait for their turn.
abbrev queued : Proto
unfolding new
queued = record began { ping_queue = good (3 ∷ []) ∷ good (4 ∷ []) ∷ other ∷ [] }

ping_hosts-visit_example :
    ping_hosts env config queued
    ≡ with_queue
        (other ∷ [])
        (visit env config (good (3 ∷ []) ∷ good (4 ∷ []) ∷ []) (tick queued) 1002)
unfolding new
ping_hosts-visit_example = ping_hosts-visit env config queued (λ e. cc)

first_taken : (addrs : List SocketAddr) → ◌≢◌ {A = List SocketAddr} addrs [] → first addrs ≢ none
first_taken [] ne h = ne refl
first_taken (a ∷ rest) ne h = cc

-- A peer with an address waits behind two that are not known.
abbrev queued_known : Proto
unfolding new_peer
queued_known = record queued {
  info = record {
    peers = (other, record (new_peer other 900) { addresses = 8 ∷ [] }) ∷ [];
    has_remote = false;
  };
}

ping_hosts-reaches_example :
    (n : ℕ) × (n ≤ 2)
    × IsPinged env config
        (turns env config n queued_known).sent
        (1000 + (turns env config n queued_known).ticks)
        other
        (ping_hosts env config (turns env config n queued_known))
unfolding new new_peer lookup bytes_eq
ping_hosts-reaches_example =
    ping_hosts-reaches env config queued_known (good (3 ∷ []) ∷ good (4 ∷ []) ∷ []) other []
      (record (new_peer other 900) { addresses = 8 ∷ [] }) (omega arith)
      (λ t addrs ne. first_taken addrs ne) refl refl (λ t. refl) (inr (λ h. cc))

take-All : (P : Peer → Type 0) (n : ℕ) (peers : List Peer) → All P peers → All P (take n peers)
take-All P zero peers a = tt
take-All P (suc n) [] a = tt
take-All P (suc n) (p ∷ peers) a = (a.0, take-All P n peers a.1)

abbrev acquainted : Info
unfolding new_peer
acquainted = record {
  peers = (other, record (new_peer other 900) { addresses = 8 ∷ [] }) ∷ [];
  has_remote = false;
}

get_friends-TellsOf_example :
    All (TellsOf env config 0 9 acquainted.peers) (get_friends env 0 acquainted 9 config)
unfolding lookup acquainted
get_friends-TellsOf_example =
    get_friends-TellsOf env config 0 9 acquainted (λ P t peers n a. take-All P n peers a) (refl, tt)
