-- ===== src/History.antt =====
-- The crate cantal_history: the history of metrics that a cantal daemon keeps.
pub mod Word
pub mod DeltaBuf
pub mod Float
pub mod Samples
pub mod Key
pub mod Values
pub mod Inner
pub mod Backlog
pub mod Chunk
pub mod Merge
pub mod Tip
pub mod Timestamps
