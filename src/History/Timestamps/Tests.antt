-- ===== src/History/Timestamps/Tests.antt =====
-- The program's own tests of `compare_timestamps`, and its theorem at a concrete input.
use cantal.Common.{◌≡◌, [], ◌∷◌, some}
use cantal.History.Timestamps.{compare_timestamps}
use cantal.History.Timestamps.Compare.{compare_timestamps_lem}

compare_timestamps_lem_example :
    compare_timestamps (9 ∷ 8 ∷ 5 ∷ 4 ∷ 2 ∷ []) ((5, 10) ∷ (4, 10) ∷ (3, 10) ∷ []) ≡ some (2, 4)
compare_timestamps_lem_example =
    compare_timestamps_lem (9 ∷ 8 ∷ 5 ∷ 4 ∷ 2 ∷ []) (5, 10) ((4, 10) ∷ (3, 10) ∷ [])
