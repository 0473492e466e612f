-- ===== src/Gossip/Proto/Pings.antt =====
-- What the turn of a peer in `ping_hosts` does.
use cantal.Common.{ℕ, ◌+◌, ◌≡◌, ◌≢◌, ◌⊎◌, refl, ap, true, false, Bool-cases, inl, inr}
use cantal.Common.{none, some, Option-cases, List, [], ◌∷◌, ◌++◌}
use cantal.Common.Maps.{lookup, insert}
use cantal.Gossip.MachineId.{MachineId, id_has_eq}
use cantal.Gossip.Config.{Config, SocketAddr}
use cantal.Gossip.Peer.{Peer, is_past, has_fresh_report, ping_primary_address, random_ping_addr}
use cantal.Gossip.Peer.Targets.{
  has_fresh_report-old, ping_primary_address-first, random_ping_addr-some,
}
use cantal.Gossip.Info.{Env, Packet, MyInfo, FriendInfo, ping}
use cantal.Gossip.Proto.{Proto, tick, send_gossip}
use cantal.Gossip.Proto.Timers.{ping_addr, probed, ping_known, ping_host}

module _ (env : Env) (config : Config) where
  -- A peer with an address, whose report is old at every reading of the clock.
  pub record IsDue (peer : Peer) : Type 0 where
    pub old : (t : ℕ) → is_past peer.report config.min_ping_interval (env.clock_at t peer.id) ≡ true
    pub address : (peer.primary_addr ≢ none) ⊎ (peer.addresses ≢ [])

  -- Sampling takes an address, if there is one.
  abbrev pub Samples : Type 0
  Samples = (t : ℕ) (addrs : List SocketAddr) → addrs ≢ [] → env.sample_addr t addrs ≢ none

  pub ping_addr-some :
      (peer : Peer) (t : ℕ)
      → Samples
      → IsDue peer
      → (addr : SocketAddr) × (ping_addr env config peer t ≡ some addr)
  unfolding ping_addr
  ping_addr-some peer t sample due = elim (Option-cases peer.primary_addr) [
    | inl no_primary ↦
        let has_address : peer.addresses ≢ [] = elim due.address [
          | inl p ↦ absurd (p no_primary)
          | inr a ↦ a
        ] in
        without_primary no_primary
          (random_ping_addr-some peer (env.sample_addr t) (sample t) (inr has_address))
    | inr (primary, p) ↦ elim (Option-cases peer.last_probe) [
      | inl first ↦ (
        primary,
        rw
            (
              ping_addr,
              stale,
              p,
              ping_primary_address-first peer config (env.clock_at (t + 1) peer.id) first,
            )
            refl,
      )
      | inr (probe, again) ↦
          let was_probed : peer.last_probe ≢ none = (λ h. cc) in
          again_probed primary p
            (random_ping_addr-some peer (env.sample_addr t) (sample t) (inl was_probed))
    ]
  ]
    where
      stale : has_fresh_report peer config (env.clock_at t peer.id) ≡ false
      stale = has_fresh_report-old peer config (env.clock_at t peer.id) (due.old t)

      without_primary :
          peer.primary_addr ≡ none
          → (addr : SocketAddr) × (random_ping_addr peer (env.sample_addr t) ≡ some addr)
          → (addr : SocketAddr) × (ping_addr env config peer t ≡ some addr)
      without_primary p (addr, e) = (addr, rw (ping_addr, stale, p) e)

      again_probed :
          (primary : SocketAddr)
          → peer.primary_addr ≡ some primary
          → (addr : SocketAddr) × (random_ping_addr peer (env.sample_addr t) ≡ some addr)
          → (addr : SocketAddr) × (ping_addr env config peer t ≡ some addr)
      again_probed primary p (addr, e) =
          elim (Bool-cases (ping_primary_address peer config (env.clock_at (t + 1) peer.id))) [
            | inl at_primary ↦ (primary, rw (ping_addr, stale, p, at_primary) refl)
            | inr elsewhere ↦ (addr, rw (ping_addr, stale, p, elsewhere) e)
          ]

  -- A peer that is due is known under an id.
  abbrev pub Awaits : MachineId → Proto → Type 0
  Awaits id st = (peer : Peer) × (lookup id st.info.peers ≡ some peer) × IsDue peer

  pub probed-IsDue :
      (peer : Peer) (tm : ℕ) (addr : SocketAddr)
      → IsDue peer
      → IsDue (probed env config peer tm addr)
  probed-IsDue peer tm addr due = record { old = due.old; address = due.address }

  -- The peer was pinged at a time, after `base` was sent: its last probe is of that time, and a
  -- ping was sent to the address of the probe.
  pub record IsPinged (base : List (SocketAddr × Packet)) (tm : ℕ) (id : MachineId) (st : Proto)
      : Type 0 where
    pub peer : Peer
    pub addr : SocketAddr
    pub known : lookup id st.info.peers ≡ some peer
    pub last_probe : peer.last_probe ≡ some (tm, addr)
    pub earlier : List (SocketAddr × Packet)
    pub info : MyInfo
    pub now : ℕ
    pub friends : List FriendInfo
    pub later : List (SocketAddr × Packet)
    pub sent :
        st.sent ≡ base ++ (earlier ++ ((addr, ping config.cluster_name info now friends) ∷ later))

  -- Before the turn of the peer; what was sent after `base` is `more`.
  pub record Turn (base : List (SocketAddr × Packet)) (id : MachineId) (st : Proto) : Type 0 where
    pub awaits : Awaits id st
    pub more : List (SocketAddr × Packet)
    pub sent : st.sent ≡ base ++ more

  -- What the turn of one peer does: nothing that matters here, or it is pinged.
  pub data Visit (st : Proto) (id : MachineId) (tm : ℕ) (st' : Proto) : Type 0 where
    passed : st'.info.peers ≡ st.info.peers → st'.sent ≡ st.sent → Visit st id tm st'
    pinged :
        (peer : Peer) (addr : SocketAddr) (info : MyInfo) (now : ℕ) (friends : List FriendInfo)
        → lookup id st.info.peers ≡ some peer
        → st'.info.peers ≡ insert id (probed env config peer tm addr) st.info.peers
        → st'.sent ≡ st.sent ++ ((addr, ping config.cluster_name info now friends) ∷ [])
        → Visit st id tm st'

  pub ping_known-Visit :
      (st : Proto) (id : MachineId) (tm : ℕ) (peer : Peer) (addr : SocketAddr)
      → lookup id st.info.peers ≡ some peer
      → ping_addr env config peer st.ticks ≡ some addr
      → (now : ℕ) × (friends : List FriendInfo) × ((ping_host env config st id tm).info.peers
          ≡ insert id (probed env config peer tm addr) st.info.peers)
        × (info : MyInfo) × ((ping_host env config st id tm).sent
            ≡ st.sent ++ ((addr, ping config.cluster_name info now friends) ∷ []))
  unfolding ping_host send_gossip
  ping_known-Visit st id tm peer addr k a =
      let turn : ping_host env config st id tm
          ≡ ping_known env config (tick (tick st)) id tm peer (some addr) =
        rw (ping_host, k, a) refl in
      (_, _, ap (λ s. s.info.peers) turn, _, ap (λ s. s.sent) turn)

  pub ping_host-Visit :
      (st : Proto) (id : MachineId) (tm : ℕ) → Visit st id tm (ping_host env config st id tm)
  unfolding ping_host
  ping_host-Visit st id tm = elim (Option-cases (lookup id st.info.peers)) [
    | inl unknown ↦
        let turn : ping_host env config st id tm ≡ st = rw (ping_host, unknown) refl in
        passed (ap (λ s. s.info.peers) turn) (ap (λ s. s.sent) turn)
    | inr (peer, k) ↦ elim (Option-cases (ping_addr env config peer st.ticks)) [
      | inl no_addr ↦
          let turn : ping_host env config st id tm ≡ tick (tick st) =
            rw (ping_host, k, no_addr) refl in
          passed (ap (λ s. s.info.peers) turn) (ap (λ s. s.sent) turn)
      | inr (addr, a) ↦
          let (now, friends, peers, info, sent) = ping_known-Visit st id tm peer addr k a in
          pinged peer addr info now friends k peers sent
    ]
  ]
