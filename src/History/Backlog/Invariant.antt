-- ===== src/History/Backlog/Invariant.antt =====
-- When a backlog is well formed: every metric's history lies within the timestamps.
use cantal.Common.{ℕ, ◌+◌, ◌-◌, ◌≤◌, ◌<◌, List, [], ◌∷◌, length, All}
use cantal.Common.Maps.{Map, Unique}
use cantal.History.Word.{IsWord}
use cantal.History.DeltaBuf.{DeltaBuf}
use cantal.History.DeltaBuf.Decode.{IsValid, contents}
use cantal.History.Inner.{Inner}
use cantal.History.Key.{Key, key_has_eq}
use cantal.History.Values.{TipValue}
use cantal.History.Backlog.{Backlog, Value, SnapTime}

-- A metric in a backlog of `n` timestamps at the age `age`: its newest value and all that its
-- buffer holds fall on timestamps that are there.
pub record DeltaFits (age n : ℕ) (i : Inner ℕ DeltaBuf) : Type 0 where
  pub valid : IsValid i.buf
  pub word : IsWord i.tip
  pub past : i.age ≤ age
  pub room : age - i.age + 1 + length (contents i.buf) ≤ n

pub record FloatFits {F : Type 0} (age n : ℕ) (i : Inner F (List F)) : Type 0 where
  pub past : i.age ≤ age
  pub room : age - i.age + 1 + length i.buf ≤ n

abbrev pub ValueFits : {F : Type 0} → ℕ → ℕ → Value F → Type 0
ValueFits age n (Value.counter b) = DeltaFits age n b
ValueFits age n (Value.integer b) = DeltaFits age n b
ValueFits age n (Value.float b) = FloatFits age n b

abbrev pub EntriesFit : {F : Type 0} → ℕ → ℕ → Map Key (Value F) → Type 0
EntriesFit age n values = All (λ e. ValueFits age n e.1) values

-- Newest first.
abbrev pub Descending : List SnapTime → Type 0
Descending [] = Unit
Descending (t ∷ []) = Unit
Descending (t ∷ (u ∷ ts)) = (u.0 < t.0) × Descending (u ∷ ts)

pub record BacklogIsValid {F : Type 0} (bl : Backlog F) : Type 0 where
  pub recorded : length bl.timestamps ≤ bl.age
  pub ordered : Descending bl.timestamps
  pub unique : Unique bl.values
  pub fits : EntriesFit bl.age (length bl.timestamps) bl.values

-- A value that may have a history: no state, and a word of 64 bits.
abbrev pub IsMetric : {F : Type 0} → TipValue F → Type 0
IsMetric (TipValue.counter v) = IsWord v
IsMetric (TipValue.integer v) = IsWord v
IsMetric (TipValue.float v) = Unit
IsMetric (TipValue.state ts text) = ⊥
