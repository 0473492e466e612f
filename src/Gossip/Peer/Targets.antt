-- ===== src/Gossip/Peer/Targets.antt =====
-- Where a peer is pinged.
use cantal.Common.{ℕ, ◌≡◌, ◌≢◌, ◌⊎◌, refl, true, false, inl, inr}
use cantal.Common.{Option, none, some, Option-cases, List, []}
use cantal.Gossip.Config.{Config, SocketAddr}
use cantal.Gossip.Peer.{
  Peer, is_past, has_fresh_report, ping_primary_address, random_ping_addr, or_else, without,
}

pub has_fresh_report-old :
    (peer : Peer) (config : Config) (now : ℕ)
    → is_past peer.report config.min_ping_interval now ≡ true
    → has_fresh_report peer config now ≡ false
unfolding has_fresh_report
has_fresh_report-old peer config now h = rw (has_fresh_report, h) refl

pub ping_primary_address-first :
    (peer : Peer) (config : Config) (now : ℕ)
    → peer.last_probe ≡ none
    → ping_primary_address peer config now ≡ true
unfolding ping_primary_address
ping_primary_address-first peer config now h = rw (ping_primary_address, h) refl

-- A peer that was pinged before, or has an address, is pinged at some address, where sampling takes
-- one of the addresses that there are.
pub random_ping_addr-some :
    (peer : Peer) (sample : List SocketAddr → Option SocketAddr)
    → ((addrs : List SocketAddr) → addrs ≢ [] → sample addrs ≢ none)
    → (peer.last_probe ≢ none) ⊎ (peer.addresses ≢ [])
    → (addr : SocketAddr) × (random_ping_addr peer sample ≡ some addr)
unfolding random_ping_addr
random_ping_addr-some peer sample takes h = elim (Option-cases peer.last_probe) [
  | inr (probe, p) ↦
      (or_else (sample (without peer.addresses probe.1)) probe.1, rw (random_ping_addr, p) refl)
  | inl p ↦ elim (Option-cases (sample peer.addresses)) [
    | inr (addr, s) ↦ (addr, rw (random_ping_addr, p) s)
    | inl s ↦ elim h [ inl probed ↦ absurd (probed p) | inr ne ↦ absurd (takes _ ne s) ]
  ]
]
