-- ===== src/History/Timestamps/Compare.antt =====
-- What `compare_timestamps` counts.
use cantal.Common.{
  ℕ, suc, ◌+◌, ◌≡◌, refl, ap, ◌∙◌, arith, min, ltb, ◌==◌, if◌then◌else◌, Bool-cases, inl, inr,
}
use cantal.Common.{none, some, List, [], ◌∷◌, length, drop}
use cantal.History.Backlog.{SnapTime}
use cantal.History.Timestamps.{new_points, first_different, compare_timestamps}

-- How many timestamps there are before the first that is no later than `last`.
abbrev pub later_count : ℕ → List ℕ → ℕ
later_count last [] = 0
later_count last (t ∷ ts) = if ltb last t then suc (later_count last ts) else 0

-- How long two lists of timestamps agree.
abbrev pub common_count : List ℕ → List SnapTime → ℕ
common_count [] old = 0
common_count (t ∷ ts) [] = 0
common_count (t ∷ ts) (u ∷ us) = if t == u.0 then suc (common_count ts us) else 0

data Split (ts : List ℕ) (last nidx : ℕ) : Type 0 where
  all_new :
      new_points ts last nidx ≡ none
      → later_count last ts ≡ length ts
      → drop (later_count last ts) ts ≡ []
      → Split ts last nidx
  from :
      new_points ts last nidx ≡ some (nidx + later_count last ts, drop (later_count last ts) ts)
      → later_count last ts + length (drop (later_count last ts) ts) ≡ length ts
      → Split ts last nidx

new_points-Split : (ts : List ℕ) (last nidx : ℕ) → Split ts last nidx
unfolding new_points
new_points-Split [] last nidx = all_new refl refl refl
new_points-Split (t ∷ ts) last nidx = elim (Bool-cases (ltb last t)) [
  | inl e ↦ elim (new_points-Split ts last (nidx + 1)) [
    | all_new n l d ↦ all_new (rw e n) (rw e (ap suc l)) (rw e d)
    | from n l ↦ from (rw e (n ∙ rw (step (later_count last ts)) refl)) (rw e (omega (arith, l)))
  ]
  | inr e ↦
      let start : nidx + 0 ≡ nidx = omega arith in from (rw (e, start) refl) (rw e (omega arith))
]
  where
    step : (n : ℕ) → nidx + 1 + n ≡ nidx + suc n
    step n = omega arith

first_different-common_count :
    (ts : List ℕ) (old : List SnapTime) (nidx whole : ℕ)
    → whole ≡ nidx + min (length ts) (length old)
    → first_different ts old nidx whole ≡ nidx + common_count ts old
unfolding first_different
first_different-common_count [] old nidx whole h = omega arith
first_different-common_count (t ∷ ts) [] nidx whole h = omega arith
first_different-common_count (t ∷ ts) (u ∷ old) nidx whole h = elim (Bool-cases (t == u.0)) [
  | inl e ↦ rw e (first_different-common_count ts old (nidx + 1) whole (omega arith) ∙ omega arith)
  | inr e ↦ rw e (omega arith)
]

-- With at least one old timestamp, the comparison counts as new the timestamps before the first
-- that is no later than the newest old one, and as valid these and those after them for as long
-- as they agree with the old ones.
pub compare_timestamps_lem :
    (new : List ℕ) (latest : SnapTime) (older : List SnapTime)
    → let n = later_count latest.0 new in
      compare_timestamps new (latest ∷ older)
      ≡ some (n, n + common_count (drop n new) (latest ∷ older))
unfolding compare_timestamps
compare_timestamps_lem new latest older = elim (new_points-Split new latest.0 0) [
  | all_new e l d ↦ rw (compare_timestamps, e, d, l) (ap (λ n. some (length new, n)) (omega arith))
  | from e l ↦
      let n : ℕ = later_count latest.0 new in
      let start : 0 + n ≡ n = omega arith in
      rw (compare_timestamps, e, start)
        (ap (λ k. some (n, k))
          (first_different-common_count (drop n new) (latest ∷ older) n
            (min (length new) (n + length (latest ∷ older))) (omega (arith, l))))
]
