-- ===== src/Gossip/Proto/Turns.antt =====
-- The turns of the peers: when each of them is pinged.
use cantal.Common.{
  ℕ, zero, suc, ◌+◌, ◌≤◌, ◌<◌, ◌≡◌, ◌≢◌, ◌⊎◌, refl, ◌∙◌, sym, ap, arith, ltb, Bool-cases, inl, inr,
  none, some, List, [], ◌∷◌, ◌++◌, length, take, drop, ltb→lt, append-nil, true,
}
use mathlib.Core.Path.{subst}
use cantal.Common.Maps.{lookup}
use cantal.Gossip.MachineId.{MachineId, id_has_eq}
use cantal.Gossip.Config.{Config, SocketAddr}
use cantal.Gossip.Peer.{Peer, is_past}
use cantal.Gossip.Info.{Env, Packet}
use cantal.Gossip.Proto.{Proto, tick, nat_has_eq}
use cantal.Gossip.Proto.Timers.{ping_host, ping_hosts}
use cantal.Gossip.Proto.Pings.{Samples, Awaits, Turn, IsPinged}
use cantal.Gossip.Proto.Pinged.{IsPingedDue, ping_host-Turn, ping_host-pings, ping_host-IsPinged}
use cantal.Gossip.Proto.Visits.{with_queue, visit, ping_hosts-visit}

module _ (env : Env) (config : Config) where
  visit-append :
      (ids later : List MachineId) (st : Proto) (tm : ℕ)
      → visit env config (ids ++ later) st tm
        ≡ visit env config later (visit env config ids st tm) tm
  visit-append [] later st tm = refl
  visit-append (id ∷ ids) later st tm = visit-append ids later (ping_host env config st id tm) tm

  visit-Turn :
      (base : List (SocketAddr × Packet)) (id : MachineId) (ids : List MachineId) (st : Proto)
      (tm : ℕ)
      → Turn env config base id st
      → Turn env config base id (visit env config ids st tm)
  visit-Turn base id [] st tm turn = turn
  visit-Turn base id (id' ∷ ids) st tm turn =
      visit-Turn base id ids (ping_host env config st id' tm) tm
        (ping_host-Turn env config base id id' tm st turn)

  visit-IsPinged :
      (base : List (SocketAddr × Packet)) (id : MachineId) (tm : ℕ) (ids : List MachineId)
      (st : Proto)
      → IsPingedDue env config base tm id st
      → IsPingedDue env config base tm id (visit env config ids st tm)
  visit-IsPinged base id tm [] st p = p
  visit-IsPinged base id tm (id' ∷ ids) st p =
      visit-IsPinged base id tm ids (ping_host env config st id' tm)
        (ping_host-IsPinged env config base id id' tm st p)

  -- The first peers of a queue that holds one with fewer in front of it.
  take-reached :
      (n : ℕ) (front : List MachineId) (id : MachineId) (after : List MachineId)
      → length front < n
      → (later : List MachineId) × (take n (front ++ (id ∷ after)) ≡ front ++ (id ∷ later))
  take-reached zero front id after h = absurd (omega arith)
  take-reached (suc n) [] id after h = (take n after, refl)
  take-reached (suc n) (x ∷ front) id after h =
      let (later, e) = take-reached n front id after (omega arith) in (later, ap (◌∷◌ x) e)

  drop-front :
      (n : ℕ) (front : List MachineId) (after : List MachineId)
      → n ≤ length front
      → (drop n (front ++ after) ≡ drop n front ++ after)
        × (length (drop n front) + n ≡ length front)
  drop-front zero front after h = (refl, omega arith)
  drop-front (suc n) [] after h = absurd (omega arith)
  drop-front (suc n) (x ∷ front) after h =
      let later = drop-front n front after (omega arith) in (later.0, omega arith)

  is_waiting :
      (st : Proto) (before : List MachineId) (id : MachineId) (after : List MachineId)
      → st.ping_queue ≡ before ++ (id ∷ after)
      → st.ping_queue ≢ []
  is_waiting st [] id after e h = let impossible : id ∷ after ≡ [] = sym e ∙ h in cc
  is_waiting st (x ∷ before) id after e h =
      let impossible : x ∷ (before ++ (id ∷ after)) ≡ [] = sym e ∙ h in cc

  -- The turn of a peer with fewer in front of it than a call handles.
  ping_hosts-pings :
      (st : Proto) (front : List MachineId) (id : MachineId) (after : List MachineId)
      → Samples env config
      → st.ping_queue ≡ front ++ (id ∷ after)
      → length front < config.num_pings_to_send
      → Awaits env config id st
      → IsPinged env config st.sent (env.clock st.ticks) id (ping_hosts env config st)
  ping_hosts-pings st front id after sample e lt awaits =
      let tm : ℕ = env.clock st.ticks in
      let (later, taken) = take-reached config.num_pings_to_send front id after lt in
      let first : Turn env config st.sent id (tick st) = record {
        awaits = awaits;
        more = [];
        sent = sym (append-nil st.sent);
      } in
      let arrived = visit-Turn st.sent id front (tick st) tm first in
      let pinged =
        ping_host-pings env config st.sent id tm (visit env config front (tick st) tm) sample
          arrived in
      let whole : ping_hosts env config st
          ≡ with_queue (drop config.num_pings_to_send st.ping_queue) (
              visit env config later
                (ping_host env config (visit env config front (tick st) tm) id tm) tm) =
        ping_hosts-visit env config st (is_waiting st front id after e)
        ∙ ap
            (λ ids.
              with_queue (drop config.num_pings_to_send st.ping_queue)
                (visit env config ids (tick st) tm))
            (ap (take config.num_pings_to_send) e ∙ taken)
        ∙ ap (with_queue (drop config.num_pings_to_send st.ping_queue))
            (visit-append front (id ∷ later) (tick st) tm) in
      let after_all =
        visit-IsPinged st.sent id tm later
          (ping_host env config (visit env config front (tick st) tm) id tm) pinged in
      subst (IsPinged env config st.sent tm id) (sym whole) (requeued _ _ _ after_all.0)
    where
      requeued :
          (queue : List MachineId) (tm : ℕ) (s : Proto)
          → IsPinged env config st.sent tm id s
          → IsPinged env config st.sent tm id (with_queue queue s)
      requeued queue tm s p = record {
        peer = p.peer;
        addr = p.addr;
        known = p.known;
        last_probe = p.last_probe;
        earlier = p.earlier;
        info = p.info;
        now = p.now;
        friends = p.friends;
        later = p.later;
        sent = p.sent;
      }

  abbrev pub turns : ℕ → Proto → Proto
  turns zero st = st
  turns (suc n) st = turns n (ping_hosts env config st)

  ping_hosts-Awaits :
      (st : Proto) (id : MachineId)
      → st.ping_queue ≢ []
      → Awaits env config id st
      → Awaits env config id (ping_hosts env config st)
  ping_hosts-Awaits st id ne awaits =
      let first : Turn env config st.sent id (tick st) = record {
        awaits = awaits;
        more = [];
        sent = sym (append-nil st.sent);
      } in
      let handled =
        visit-Turn st.sent id (take config.num_pings_to_send st.ping_queue) (tick st)
          (env.clock st.ticks) first in
      subst (Awaits env config id) (sym (ping_hosts-visit env config st ne)) handled.awaits

  reaches :
      (b : ℕ) (st : Proto) (before : List MachineId) (id : MachineId) (after : List MachineId)
      → length before ≤ b
      → 0 < config.num_pings_to_send
      → Samples env config
      → st.ping_queue ≡ before ++ (id ∷ after)
      → Awaits env config id st
      → (n : ℕ) × (n ≤ length before)
        × IsPinged env config
            (turns n st).sent
            (env.clock (turns n st).ticks)
            id
            (ping_hosts env config (turns n st))
  reaches zero st before id after le pos sample e awaits =
      (0, omega arith, ping_hosts-pings st before id after sample e (omega arith) awaits)
  reaches (suc b) st before id after le pos sample e awaits =
      elim (Bool-cases (ltb (length before) config.num_pings_to_send)) [
        | inl lt ↦
            (0, omega arith, ping_hosts-pings st before id after sample e (ltb→lt _ _ lt) awaits)
        | inr ge ↦
            let num = config.num_pings_to_send in
            let cut = drop-front num before (id ∷ after) (ground arith) in
            let waits = is_waiting st before id after e in
            let left : (ping_hosts env config st).ping_queue ≡ drop num before ++ (id ∷ after) =
              ap (λ s. s.ping_queue) (ping_hosts-visit env config st waits)
              ∙ ap (drop num) e
              ∙ cut.0 in
            let (n, at_most, pinged) =
              reaches b (ping_hosts env config st) (drop num before) id after (omega (arith, cut.1))
                pos sample left (ping_hosts-Awaits st id waits awaits) in
            (suc n, omega (arith, at_most, cut.1, pos), pinged)
      ]

  -- Every peer that waits in the queue is pinged: if it is known with an address, and its report is
  -- old at every reading of the clock, then one of the next calls of `ping_hosts` sends a ping to
  -- an address and notes this address and the time of the call as the peer's last probe. It is at
  -- most as many calls away as there are peers in front of it, if a call handles any, and if
  -- sampling takes one of the addresses that there are.
  pub ping_hosts-reaches :
      (st : Proto) (before : List MachineId) (id : MachineId) (after : List MachineId) (peer : Peer)
      → 0 < config.num_pings_to_send
      → ((t : ℕ) (addrs : List SocketAddr) → addrs ≢ [] → env.sample_addr t addrs ≢ none)
      → st.ping_queue ≡ before ++ (id ∷ after)
      → lookup id st.info.peers ≡ some peer
      → ((t : ℕ) → is_past peer.report config.min_ping_interval (env.clock_at t peer.id) ≡ true)
      → (peer.primary_addr ≢ none) ⊎ (peer.addresses ≢ [])
      → (n : ℕ) × (n ≤ length before)
        × IsPinged env config
            (turns n st).sent
            (env.clock (turns n st).ticks)
            id
            (ping_hosts env config (turns n st))
  ping_hosts-reaches st before id after peer pos sample e known old address =
      reaches (length before) st before id after (omega arith) pos sample e
        (peer, known, record { old = old; address = address })
