-- ===== src/Query.antt =====
-- cantal_query: rules that select metrics and read out of their history.
pub mod Rule
pub mod Extraction
pub mod Dataset
pub mod Functions
pub mod Condition
pub mod Run
