-- ===== src/History/Inner/Tests.antt =====
-- The theorems on `Inner` at concrete inputs.
use cantal.Common.{ℕ, ◌≡◌, refl, arith, true, List, [], ◌∷◌, replicate}
use cantal.Common.{Option, none, some}
use cantal.History.Word.{unsigned, signed}
use cantal.History.DeltaBuf.{DeltaBuf}
use cantal.History.DeltaBuf.Decode.{decode, is_valid, IsValid}
use cantal.History.Samples.{small_buffer, whole_float}
use cantal.History.Inner
use cantal.History.Inner.{Inner, delta_buf, float_buf, push_nans}
use cantal.History.Inner.Timeline.{timeline, history_list, history_list-timeline}
use cantal.History.Inner.Push.{timeline-push}
use cantal.History.Inner.Truncate.{timeline-truncate}
use cantal.History.Inner.Deque.{
  float_timeline, float_timeline-push, float_list, float_list-timeline,
}

-- 5 at scan 50, 3 at scan 49.
abbrev small : Inner ℕ DeltaBuf
small = record { tip = 5; age = 50; buf = small_buffer }

small_buffer-IsValid : IsValid small_buffer
unfolding is_valid
small_buffer-IsValid = refl

history_list-timeline_example :
    history_list small 52 ≡ none ∷ none ∷ some 5 ∷ some 3 ∷ replicate 40 none
unfolding decode
history_list-timeline_example = history_list-timeline small 52 small_buffer-IsValid (omega arith)

timeline-push_example :
    ((Inner.push (delta_buf signed) small 1000 53).1 ≡ true)
    × IsValid (Inner.push (delta_buf signed) small 1000 53).0.buf
    × (timeline (Inner.push (delta_buf signed) small 1000 53).0 54
        ≡ none ∷ some 1000 ∷ some 5 ∷ none ∷ none ∷ some 3 ∷ replicate 40 none)
unfolding decode
timeline-push_example =
    timeline-push signed small 1000 53 54 small_buffer-IsValid
      (omega arith, omega arith, omega arith) (omega arith) (omega arith)

timeline-truncate_example :
    ((Inner.truncate (delta_buf unsigned) small 40).1 ≡ true)
    × IsValid (Inner.truncate (delta_buf unsigned) small 40).0.buf
    × (timeline (Inner.truncate (delta_buf unsigned) small 40).0 51
        ≡ none ∷ some 5 ∷ some 3 ∷ replicate 8 none)
unfolding decode
timeline-truncate_example =
    timeline-truncate unsigned small 40 51 small_buffer-IsValid (omega arith) (omega arith)

-- 7 at scan 10, no number at scan 9, 6 at scan 8.
abbrev floats : Inner (Option ℕ) (List (Option ℕ))
floats = record { tip = some 7; age = 10; buf = none ∷ some 6 ∷ [] }

float_list-timeline_example :
    float_list whole_float floats 12 ≡ none ∷ none ∷ some (some 7) ∷ none ∷ some (some 6) ∷ []
float_list-timeline_example = float_list-timeline whole_float floats 12 (omega arith)

float_timeline-push_example :
    float_timeline whole_float (Inner.push (float_buf whole_float) floats (some 8) 13).0 13
    ≡ some (some 8) ∷ none ∷ none ∷ some (some 7) ∷ none ∷ some (some 6) ∷ []
float_timeline-push_example = float_timeline-push whole_float floats (some 8) 13 13 (omega arith)
