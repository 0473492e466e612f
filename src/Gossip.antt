-- ===== src/Gossip.antt =====
-- src/gossip: how a cantal agent finds its peers and keeps in touch with them.
pub mod MachineId
pub mod Config
pub mod Peer
pub mod Info
pub mod Proto
pub mod Public
