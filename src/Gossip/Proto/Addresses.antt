-- ===== src/Gossip/Proto/Addresses.antt =====
-- Pings and the removal of peers leave alone what is known of addresses, and the hosts that are
-- tried again.
use cantal.Common.{
  ℕ, zero, suc, ◌+◌, ◌≡◌, refl, ◌∙◌, leb, Bool-cases, inl, inr, Option, none, some, Option-cases,
  List-cases, List, [], ◌∷◌,
}
use cantal.Common.Maps.{Map, lookup}
use cantal.Gossip.MachineId.{MachineId, id_has_eq}
use cantal.Gossip.Config.{Config, SocketAddr}
use cantal.Gossip.Peer.{Peer}
use cantal.Gossip.Info.{Env}
use cantal.Gossip.Proto.{Proto, tick, send_gossip}
use cantal.Gossip.Proto.Hearing.{update_metrics}
use cantal.Gossip.Proto.Timers.{
  ping_addr, ping_known, ping_host, ping_some, refill, ping_in_turn, ping_hosts,
  remove_failed_nodes, store_peers, garbage_collector, gc_if_due, ping_if_due,
}

abbrev pub Kept : Proto → Proto → Type 0
Kept st' st = (st'.addr_status ≡ st.addr_status) × (st'.add_queue ≡ st.add_queue)

module _ (env : Env) (config : Config) where
  ping_known-Kept :
      (st : Proto) (id : MachineId) (tm : ℕ) (peer : Peer) (o : Option SocketAddr)
      → Kept (ping_known env config st id tm peer o) st
  unfolding send_gossip
  ping_known-Kept st id tm peer none = (refl, refl)
  ping_known-Kept st id tm peer (some addr) = (refl, refl)

  ping_host-Kept : (st : Proto) (id : MachineId) (tm : ℕ) → Kept (ping_host env config st id tm) st
  unfolding ping_host
  ping_host-Kept st id tm = elim (Option-cases (lookup id st.info.peers)) [
    | inl e ↦ rw (ping_host, e) (refl, refl)
    | inr (peer, e) ↦
        rw (ping_host, e)
          (ping_known-Kept (tick (tick st)) id tm peer (ping_addr env config peer st.ticks))
  ]

  ping_some-Kept : (n : ℕ) (st : Proto) (tm : ℕ) → Kept (ping_some env config n st tm) st
  unfolding ping_some
  ping_some-Kept zero st tm = (refl, refl)
  ping_some-Kept (suc n) st tm = elim (List-cases st.ping_queue) [
    | inl e ↦ rw (ping_some, e) (refl, refl)
    | inr (id, queue, e) ↦
        let st' = record st { ping_queue = queue } in
        let later = ping_some-Kept n (ping_host env config st' id tm) tm in
        let now = ping_host-Kept st' id tm in rw (ping_some, e) (later.0 ∙ now.0, later.1 ∙ now.1)
  ]

  ping_in_turn-Kept :
      (st : Proto) (tm : ℕ) (queue : List MachineId) (peers : Map MachineId Peer)
      → Kept (ping_in_turn env config st tm queue peers) st
  ping_in_turn-Kept st tm (id ∷ queue) peers = ping_some-Kept config.num_pings_to_send st tm
  ping_in_turn-Kept st tm [] [] = (refl, refl)
  ping_in_turn-Kept st tm [] (e ∷ peers) =
      ping_some-Kept config.num_pings_to_send (refill env config st) tm

  pub ping_if_due-Kept : (st : Proto) → Kept (ping_if_due env config st) st
  unfolding ping_if_due ping_hosts
  ping_if_due-Kept st = elim (Bool-cases (leb st.next_ping (env.instant st.ticks))) [
    | inl e ↦
        simp e (
          ping_in_turn-Kept (tick (tick st)) (env.clock (st.ticks + 1)) st.ping_queue st.info.peers)
    | inr e ↦ simp e (refl, refl)
  ]

  pub gc_if_due-Kept : (st : Proto) → Kept (gc_if_due env config st) st
  unfolding gc_if_due garbage_collector update_metrics store_peers remove_failed_nodes
  gc_if_due-Kept st = elim (Bool-cases (leb st.next_gc (env.instant st.ticks))) [
    | inl e ↦ rw e (refl, refl)
    | inr e ↦ rw e (refl, refl)
  ]
