-- ===== src/Gossip/Proto/Visits.antt =====
-- Which peers a call of `ping_hosts` handles.
use cantal.Common.{
  ℕ, zero, suc, ◌≡◌, ◌≢◌, refl, ◌∙◌, ap, inl, inr, Option, none, some, Option-cases, List, [], ◌∷◌,
  take, drop,
}
use cantal.Common.Maps.{lookup}
use cantal.Gossip.MachineId.{MachineId, id_has_eq}
use cantal.Gossip.Config.{Config, SocketAddr}
use cantal.Gossip.Peer.{Peer}
use cantal.Gossip.Info.{Env}
use cantal.Gossip.Proto.{Proto, tick, send_gossip, nat_has_eq}
use cantal.Gossip.Proto.Timers.{
  ping_addr, ping_known, ping_host, ping_some, ping_in_turn, ping_hosts,
}

-- The state with another queue of peers to ping.
abbrev pub with_queue : List MachineId → Proto → Proto
with_queue queue st = record st { ping_queue = queue }

module _ (env : Env) (config : Config) where
  -- Each of these peers is handled once, in this order.
  abbrev pub visit : List MachineId → Proto → ℕ → Proto
  visit [] st tm = st
  visit (id ∷ ids) st tm = visit ids (ping_host env config st id tm) tm

  ping_known-with_queue :
      (st : Proto) (queue : List MachineId) (id : MachineId) (tm : ℕ) (peer : Peer)
      (o : Option SocketAddr)
      → ping_known env config (with_queue queue st) id tm peer o
        ≡ with_queue queue (ping_known env config st id tm peer o)
  unfolding send_gossip
  ping_known-with_queue st queue id tm peer none = refl
  ping_known-with_queue st queue id tm peer (some addr) = refl

  ping_host-with_queue :
      (st : Proto) (queue : List MachineId) (id : MachineId) (tm : ℕ)
      → ping_host env config (with_queue queue st) id tm
        ≡ with_queue queue (ping_host env config st id tm)
  unfolding ping_host
  ping_host-with_queue st queue id tm = elim (Option-cases (lookup id st.info.peers)) [
    | inl e ↦ rw (ping_host, e) refl
    | inr (peer, e) ↦
        rw (ping_host, e)
          (ping_known-with_queue (tick (tick st)) queue id tm peer
            (ping_addr env config peer st.ticks))
  ]

  visit-with_queue :
      (ids : List MachineId) (st : Proto) (queue : List MachineId) (tm : ℕ)
      → visit ids (with_queue queue st) tm ≡ with_queue queue (visit ids st tm)
  visit-with_queue [] st queue tm = refl
  visit-with_queue (id ∷ ids) st queue tm =
      ap (λ s. visit ids s tm) (ping_host-with_queue st queue id tm)
      ∙ visit-with_queue ids (ping_host env config st id tm) queue tm

  ping_some-visit :
      (n : ℕ) (st : Proto) (queue : List MachineId) (tm : ℕ)
      → ping_some env config n (with_queue queue st) tm
        ≡ with_queue (drop n queue) (visit (take n queue) st tm)
  unfolding ping_some
  ping_some-visit zero st queue tm = refl
  ping_some-visit (suc n) st [] tm = refl
  ping_some-visit (suc n) st (id ∷ queue) tm =
      ap (λ s. ping_some env config n s tm) (ping_host-with_queue st queue id tm)
      ∙ ping_some-visit n (ping_host env config st id tm) queue tm

  -- While peers wait for their turn, a call of `ping_hosts` handles as many of them as the
  -- settings say, from the front of the queue and in its order, and leaves the others in it.
  pub ping_hosts-visit :
      (st : Proto)
      → st.ping_queue ≢ []
      → ping_hosts env config st
        ≡ with_queue
            (drop config.num_pings_to_send st.ping_queue)
            (visit (take config.num_pings_to_send st.ping_queue) (tick st) (env.clock st.ticks))
  unfolding ping_hosts
  ping_hosts-visit st ne = go st.ping_queue refl
    where
      go :
          (queue : List MachineId)
          → st.ping_queue ≡ queue
          → ping_in_turn env config (tick st) (env.clock st.ticks) queue st.info.peers
            ≡ with_queue
                (drop config.num_pings_to_send st.ping_queue)
                (visit (take config.num_pings_to_send st.ping_queue) (tick st) (env.clock st.ticks))
      go [] e = absurd (ne e)
      go (id ∷ queue) e =
          ping_some-visit config.num_pings_to_send (tick st) st.ping_queue (env.clock st.ticks)
