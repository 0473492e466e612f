-- ===== src/History/Timestamps.antt =====
-- cantal_history/src/tstamp.rs: how many of the timestamps of a peer are new, and how many are
-- confirmed. A panic of the program is `none`.
pub mod Compare
mod Tests
use cantal.Common.{ℕ, ◌+◌, ltb, ◌==◌, if◌then◌else◌, min, Option, none, some, List, [], ◌∷◌, length}
use cantal.History.Backlog.{SnapTime}

-- The loop over the new points: the index of the first that is no later than `last_ots`, and what
-- is left from there on.
unfoldable pub new_points : List ℕ → ℕ → ℕ → Option (ℕ × List ℕ)
new_points [] last_ots nidx = none
new_points (nts ∷ iter) last_ots nidx =
    if ltb last_ots nts then new_points iter last_ots (nidx + 1) else some (nidx, nts ∷ iter)

-- The loop over both: the index of the first that differs, or `whole`.
unfoldable pub first_different : List ℕ → List SnapTime → ℕ → ℕ → ℕ
first_different [] old nidx whole = whole
first_different (nts ∷ iter) [] nidx whole = whole
first_different (nts ∷ iter) ((ots, _) ∷ old) nidx whole =
    if nts == ots then first_different iter old (nidx + 1) whole else nidx

-- `old[0]` panics where there is none.
unfoldable pub compare_timestamps : List ℕ → List SnapTime → Option (ℕ × ℕ)
compare_timestamps new [] = none
compare_timestamps new (latest ∷ older) = elim (new_points new latest.0 0) [
  | none ↦ some (length new, length new)
  | some (new_pt, iter) ↦
      let old = latest ∷ older in
      some (new_pt, first_different iter old new_pt (min (length new) (new_pt + length old)))
]
