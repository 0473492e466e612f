-- ===== src/History/Values.antt =====
-- cantal_values/src/lib.rs, `Value`: what a scan reads for one metric.
use cantal.Common.{ℕ, List}

-- A state's text is the list of its bytes.
pub data TipValue (F : Type 0) : Type 0 where
  counter : ℕ → TipValue F
  integer : ℕ → TipValue F
  float : F → TipValue F
  state : ℕ → List ℕ → TipValue F
