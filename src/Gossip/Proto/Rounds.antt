-- ===== src/Gossip/Proto/Rounds.antt =====
-- Rounds of the protocol keep its peers as they should be.
use cantal.Common.{
  ℕ, zero, suc, ◌+◌, ◌≡◌, refl, ◌∙◌, sym, not, Bool, false, leb, ltb, Bool-cases, inl, inr,
  List-cases, Option, none, some, Option-cases, List, [], ◌∷◌,
}
use cantal.Common.Maps.{
  Map, lookup, lookup-AllEntries, lookup-filter_entries, filter_entries-Unique,
  filter_entries-AllEntries,
}
use cantal.Gossip.MachineId.{MachineId, id_eq, id_eq_iff, id_has_eq}
use cantal.Gossip.Config.{Config, SocketAddr}
use cantal.Gossip.Peer.{Peer, should_remove}
use cantal.Gossip.Info.{Packet, Env, new_info}
use cantal.Gossip.Proto.{Proto, FutureHost, tick, send_gossip, nat_has_eq, internal_messages, new}
use cantal.Gossip.Proto.Hearing.{receive_messages, update_metrics}
use cantal.Gossip.Proto.Known.{
  IsKnown, Knows, insert-IsKnown, internal_messages-info, receive_messages-Knows,
}
use cantal.Gossip.Proto.Timers.{
  ping_addr, probed, ping_known, ping_host, ping_some, refill, ping_hosts, ping_in_turn,
  is_available, retry_host, pop_max, tries_left, retry_loop, retry_new_hosts, remove_failed_nodes,
  store_peers, garbage_collector, gc_if_due, ping_if_due, round, run,
}
use mathlib.Core.Path.{subst}

module _ (env : Env) (config : Config) where
  ping_known-Knows :
      (st : Proto) (id : MachineId) (tm : ℕ) (peer : Peer) (o : Option SocketAddr)
      → Knows env config st
      → lookup id st.info.peers ≡ some peer
      → Knows env config (ping_known env config st id tm peer o)
  unfolding send_gossip
  ping_known-Knows st id tm peer none k found = k
  ping_known-Knows st id tm peer (some addr) k found =
      insert-IsKnown config st.info.peers id (probed env config peer tm addr) k
        (lookup-AllEntries (λ id peer. peer.id ≡ id) id st.info.peers peer found k.named) other
    where
      other : id_eq id config.machine_id ≡ false
      other = elim (Bool-cases (id_eq id config.machine_id)) [
        | inl e ↦
            let same : id ≡ config.machine_id = (id_eq_iff id config.machine_id).0 e in
            let missing : lookup id st.info.peers ≡ none =
              subst (λ i. lookup i st.info.peers ≡ none) (sym same) k.others in
            let impossible : none ≡ some peer = sym missing ∙ found in cc
        | inr e ↦ e
      ]

  ping_host-Knows :
      (st : Proto) (id : MachineId) (tm : ℕ)
      → Knows env config st
      → Knows env config (ping_host env config st id tm)
  unfolding ping_host
  ping_host-Knows st id tm k = elim (Option-cases (lookup id st.info.peers)) [
    | inl e ↦ rw (ping_host, e) k
    | inr (peer, e) ↦
        rw (ping_host, e)
          (ping_known-Knows (tick (tick st)) id tm peer (ping_addr env config peer st.ticks) k e)
  ]

  ping_some-Knows :
      (n : ℕ) (st : Proto) (tm : ℕ)
      → Knows env config st
      → Knows env config (ping_some env config n st tm)
  unfolding ping_some
  ping_some-Knows zero st tm k = k
  ping_some-Knows (suc n) st tm k = elim (List-cases st.ping_queue) [
    | inl e ↦ rw (ping_some, e) k
    | inr (id, queue, e) ↦
        rw (ping_some, e)
          (ping_some-Knows n (ping_host env config (record st { ping_queue = queue }) id tm) tm
            (ping_host-Knows (record st { ping_queue = queue }) id tm k))
  ]

  ping_in_turn-Knows :
      (st : Proto) (tm : ℕ) (queue : List MachineId) (peers : Map MachineId Peer)
      → Knows env config st
      → Knows env config (ping_in_turn env config st tm queue peers)
  ping_in_turn-Knows st tm (id ∷ queue) peers k = ping_some-Knows config.num_pings_to_send st tm k
  ping_in_turn-Knows st tm [] [] k = k
  ping_in_turn-Knows st tm [] (e ∷ peers) k =
      ping_some-Knows config.num_pings_to_send (refill env config st) tm k

  ping_hosts-Knows :
      (st : Proto) → Knows env config st → Knows env config (ping_hosts env config st)
  unfolding ping_hosts
  ping_hosts-Knows st k =
      ping_in_turn-Knows (tick st) (env.clock st.ticks) st.ping_queue st.info.peers k

  retry_host-info :
      (st : Proto) (host : FutureHost) → (retry_host env config st host).info ≡ st.info
  unfolding retry_host send_gossip
  retry_host-info st host =
      elim (Bool-cases (is_available env config (lookup host.address st.addr_status))) [
        | inl e ↦ rw e refl
        | inr e ↦ elim (Bool-cases (ltb config.add_host_retry_times host.attempts)) [
          | inl l ↦ rw (e, l) refl
          | inr l ↦ rw (e, l) refl
        ]
      ]

  retry_loop-info : (fuel : ℕ) (st : Proto) → (retry_loop env config fuel st).info ≡ st.info
  unfolding retry_loop
  retry_loop-info zero st = refl
  retry_loop-info (suc fuel) st = elim (Option-cases (pop_max st.add_queue)) [
    | inl e ↦ rw (retry_loop, e) refl
    | inr ((host, rest), e) ↦ elim (Bool-cases (ltb host.deadline (env.instant st.ticks))) [
      | inl l ↦
          rw (retry_loop, e, l)
            (retry_loop-info fuel
                (retry_host env config (record (tick st) { add_queue = rest }) host)
              ∙ retry_host-info (record (tick st) { add_queue = rest }) host)
      | inr l ↦ rw (retry_loop, e, l) refl
    ]
  ]

  garbage_collector-Knows :
      (st : Proto) → Knows env config st → Knows env config (garbage_collector env config st)
  unfolding garbage_collector update_metrics store_peers remove_failed_nodes
  garbage_collector-Knows st k =
      let test : MachineId → Peer → Bool =
        λ id peer. not (should_remove peer config (env.clock_at st.ticks id)) in
      record {
        unique = filter_entries-Unique test st.info.peers k.unique;
        named = filter_entries-AllEntries (λ id peer. peer.id ≡ id) test st.info.peers k.named;
        others =
            lookup-filter_entries test config.machine_id st.info.peers k.unique ∙ rw k.others refl;
      }

  gc_if_due-Knows : (st : Proto) → Knows env config st → Knows env config (gc_if_due env config st)
  unfolding gc_if_due
  gc_if_due-Knows st k = elim (Bool-cases (leb st.next_gc (env.instant st.ticks))) [
    | inl e ↦ simp e (garbage_collector-Knows (tick st) k)
    | inr e ↦ simp e k
  ]

  ping_if_due-Knows :
      (st : Proto) → Knows env config st → Knows env config (ping_if_due env config st)
  unfolding ping_if_due
  ping_if_due-Knows st k = elim (Bool-cases (leb st.next_ping (env.instant st.ticks))) [
    | inl e ↦ simp e (ping_hosts-Knows (tick st) k)
    | inr e ↦ simp e k
  ]

  round-Knows :
      (st : Proto) (commands : List SocketAddr) (packets : List (Packet × SocketAddr))
      → Knows env config st
      → Knows env config (round env config st commands packets)
  unfolding round retry_new_hosts
  round-Knows st commands packets k =
      let started = internal_messages env config st commands in
      let heard = receive_messages env config started packets in
      let cleaned = gc_if_due env config heard in
      ping_if_due-Knows (retry_new_hosts env config cleaned) (
        subst (λ i. IsKnown config i.peers)
          (sym (
            retry_loop-info (tries_left config.add_host_retry_times cleaned.add_queue + 1) cleaned))
          (gc_if_due-Knows heard (
            receive_messages-Knows env config started packets (
              subst (λ i. IsKnown config i.peers)
                (sym (internal_messages-info env config st commands)) k))))

  run-Knows :
      (st : Proto) (rounds : List (List SocketAddr × List (Packet × SocketAddr)))
      → Knows env config st
      → Knows env config (run env config st rounds)
  unfolding run
  run-Knows st [] k = k
  run-Knows st ((commands, packets) ∷ rounds) k =
      run-Knows (round env config st commands packets) rounds (round-Knows st commands packets k)

  -- From its start, however often the protocol goes round its loop, and whatever commands and
  -- packets it finds: the peers that it knows are each in one entry of the table, under their own
  -- identity, and the agent itself is never among them.
  pub run-IsKnown :
      (rounds : List (List SocketAddr × List (Packet × SocketAddr)))
      → IsKnown config (run env config (new env config new_info) rounds).info.peers
  unfolding new new_info lookup
  run-IsKnown rounds =
      run-Knows (new env config new_info) rounds (record { unique = tt; named = tt; others = refl })
