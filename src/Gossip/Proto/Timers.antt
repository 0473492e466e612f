-- ===== src/Gossip/Proto/Timers.antt =====
-- src/gossip/proto.rs: what the protocol does as time passes, and one round of its loop.
use cantal.Common.{
  ℕ, zero, suc, ◌+◌, ◌-◌, ◌%◌, ◌^◌, Bool, true, false, ltb, leb, not, if◌then◌else◌, min,
}
use cantal.Common.{Option, none, some, map, List, [], ◌∷◌, ◌++◌}
use cantal.Common.Maps.{Map, lookup, insert, filter_entries}
use cantal.History.Word.{word_add}
use cantal.Gossip.MachineId.{MachineId, id_has_eq}
use cantal.Gossip.Config.{Config, Text, SocketAddr, add_host_next_sleep}
use cantal.Gossip.Peer.{
  Peer, has_fresh_report, ping_primary_address, random_ping_addr, should_remove,
}
use cantal.Gossip.Info.{Packet, Env}
use cantal.Gossip.Proto.{
  Proto, FutureHost, AddrStatus, available, ping_sent, nat_has_eq, tick, put_peers, send_gossip,
  internal_messages,
}
use cantal.Gossip.Proto.Hearing.{receive_messages, update_metrics}

-- The top of the binary heap, whose order is that of the deadlines: a greatest one, and the others.
abbrev pub pop_from : FutureHost → List FutureHost → FutureHost × List FutureHost
pop_from x [] = (x, [])
pop_from x (y ∷ ys) =
    let (top, rest) = pop_from y ys in
    if ltb x.deadline top.deadline then (top, x ∷ rest) else (x, top ∷ rest)

abbrev pub pop_max : List FutureHost → Option (FutureHost × List FutureHost)
pop_max [] = none
pop_max (x ∷ xs) = some (pop_from x xs)

-- How many rounds the hosts of a queue can take at most: each is tried again until it had its
-- attempts, and is then taken out.
abbrev pub tries_left : ℕ → List FutureHost → ℕ
tries_left retry_times [] = 0
tries_left retry_times (host ∷ hosts) =
    suc (retry_times + 1 - host.attempts) + tries_left retry_times hosts

abbrev pub keys : Map MachineId Peer → List MachineId
keys peers = map (λ e. e.0) peers

module _ (env : Env) (config : Config) where
  -- The address that a peer is pinged at: none if its report is fresh.
  unfoldable pub ping_addr : Peer → ℕ → Option SocketAddr
  ping_addr peer t =
      if has_fresh_report peer config (env.clock_at t peer.id)
      then none
      else (elim peer.primary_addr [
        | none ↦ random_ping_addr peer (env.sample_addr t)
        | some addr ↦
            if ping_primary_address peer config (env.clock_at (t + 1) peer.id)
            then some addr
            else random_ping_addr peer (env.sample_addr t)
      ])

  abbrev pub probed : Peer → ℕ → SocketAddr → Peer
  probed peer tm addr = record peer {
    last_probe = some (tm, addr);
    probes_sent = word_add peer.probes_sent 1;
  }

  abbrev pub ping_known : Proto → MachineId → ℕ → Peer → Option SocketAddr → Proto
  ping_known st id tm peer none = st
  ping_known st id tm peer (some addr) =
      send_gossip env config (put_peers st (insert id (probed peer tm addr) st.info.peers)) addr

  -- One peer of `ping_hosts`, if it is not expired.
  unfoldable pub ping_host : Proto → MachineId → ℕ → Proto
  ping_host st id tm = elim (lookup id st.info.peers) [
    | none ↦ st
    | some peer ↦ ping_known (tick (tick st)) id tm peer (ping_addr peer st.ticks)
  ]

  unfoldable pub ping_some : ℕ → Proto → ℕ → Proto
  ping_some zero st tm = st
  ping_some (suc n) st tm = elim st.ping_queue [
    | [] ↦ st
    | id ∷ queue ↦ ping_some n (ping_host (record st { ping_queue = queue }) id tm) tm
  ]

  -- A new order of all peers, once each of the last one had its turn.
  abbrev pub refill : Proto → Proto
  refill st = record (tick st) { ping_queue = env.shuffle st.ticks (keys st.info.peers) }

  abbrev pub ping_in_turn : Proto → ℕ → List MachineId → Map MachineId Peer → Proto
  ping_in_turn st tm (id ∷ queue) peers = ping_some config.num_pings_to_send st tm
  ping_in_turn st tm [] [] = st
  ping_in_turn st tm [] (e ∷ peers) = ping_some config.num_pings_to_send (refill st) tm

  unfoldable pub ping_hosts : Proto → Proto
  ping_hosts st = ping_in_turn (tick st) (env.clock st.ticks) st.ping_queue st.info.peers

  abbrev pub is_available : Option AddrStatus → Bool
  is_available (some available) = true
  is_available _ = false

  -- A host that was taken from the queue, whose deadline has passed.
  unfoldable pub retry_host : Proto → FutureHost → Proto
  retry_host st host =
      if is_available (lookup host.address st.addr_status)
      then st
      else if ltb config.add_host_retry_times host.attempts
      then st
      else (let timeout = add_host_next_sleep config (env.sleeps st.ticks) host.timeout in
          let again = record host {
            timeout = timeout;
            deadline = env.instant (st.ticks + 1) + timeout;
            attempts = (host.attempts + 1) % 2 ^ 32;
          } in
          let st' =
            send_gossip env config
              (record (tick (tick st)) {
                addr_status = insert host.address ping_sent st.addr_status;
              })
              host.address in
          record st' { add_queue = again ∷ st'.add_queue })

  -- `retry_new_hosts`, at most `fuel` rounds.
  unfoldable pub retry_loop : ℕ → Proto → Proto
  retry_loop zero st = st
  retry_loop (suc fuel) st = elim (pop_max st.add_queue) [
    | none ↦ st
    | some (host, rest) ↦
        if ltb host.deadline (env.instant st.ticks)
        then retry_loop fuel (retry_host (record (tick st) { add_queue = rest }) host)
        else tick st
  ]

  unfoldable pub retry_new_hosts : Proto → Proto
  retry_new_hosts st = retry_loop (tries_left config.add_host_retry_times st.add_queue + 1) st

  -- The `filter` over the peers.
  abbrev pub keep_alive : ℕ → Map MachineId Peer → Map MachineId Peer
  keep_alive t peers =
      filter_entries (λ id peer. not (should_remove peer config (env.clock_at t id))) peers

  unfoldable pub remove_failed_nodes : Proto → Proto
  remove_failed_nodes st = tick (put_peers st (keep_alive st.ticks st.info.peers))

  abbrev pub all_addresses : Map MachineId Peer → List Text
  all_addresses [] = []
  all_addresses ((id, peer) ∷ peers) = map env.show peer.addresses ++ all_addresses peers

  unfoldable pub store_peers : Proto → Proto
  store_peers st = record st { stored = st.stored ++ (all_addresses st.info.peers ∷ []) }

  unfoldable pub garbage_collector : Proto → Proto
  garbage_collector st = update_metrics env config (store_peers (remove_failed_nodes st))

  unfoldable pub gc_if_due : Proto → Proto
  gc_if_due st =
      if leb st.next_gc (env.instant st.ticks)
      then (let st' = garbage_collector (tick st) in
          record (tick st') { next_gc = env.instant st'.ticks + config.garbage_collector_interval })
      else tick st

  unfoldable pub ping_if_due : Proto → Proto
  ping_if_due st =
      if leb st.next_ping (env.instant st.ticks)
      then (let st' = ping_hosts (tick st) in
          record (tick st') { next_ping = env.instant st'.ticks + config.interval })
      else tick st

  -- One round of the loop of `poll`, over the commands and the packets that are there.
  unfoldable pub round : Proto → List SocketAddr → List (Packet × SocketAddr) → Proto
  round st commands packets = ping_if_due (
      retry_new_hosts (
        gc_if_due (receive_messages env config (internal_messages env config st commands) packets)))

  -- `next_wakeup`.
  unfoldable pub next_wakeup : Proto → ℕ
  next_wakeup st =
      let static_next = min st.next_ping st.next_gc in
      elim (pop_max st.add_queue) [
        | none ↦ static_next
        | some (host, _) ↦ min host.deadline static_next
      ]

  -- `poll` after `poll`: rounds of its loop, each with the commands and the packets that it finds.
  unfoldable pub run : Proto → List (List SocketAddr × List (Packet × SocketAddr)) → Proto
  run st [] = st
  run st ((commands, packets) ∷ rounds) = run (round st commands packets) rounds
