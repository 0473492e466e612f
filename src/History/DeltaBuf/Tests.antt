-- ===== src/History/DeltaBuf/Tests.antt =====
-- The runs of the program's own tests in deltabuf.rs, and the theorems at concrete inputs.
use cantal.Common.{ℕ, ◌+◌, ◌^◌, ◌≡◌, refl, arith, List, [], ◌∷◌, length, replicate}
use cantal.History.Word.{signed}
use cantal.History.Samples.{small_buffer}
use cantal.History.DeltaBuf.{DeltaBuf, Delta, positive, negative, skip}
use cantal.History.DeltaBuf.{push, push_gaps, gap_count, push_delta, push_zero, push_groups, new}
use cantal.History.DeltaBuf.{
  next, needs_refill, refill_queue, refill_loop, first_byte, take_item, deltas,
}
use cantal.History.DeltaBuf.{truncate}
use cantal.History.DeltaBuf.Decode.{decode, is_valid, IsValid, contents}
use cantal.History.DeltaBuf.Iterate.{
  Good, view, uncons, next-uncons, collect, delta_list, delta_list-contents,
}
use cantal.History.DeltaBuf.Push.{push_lem, push_count}
use cantal.History.DeltaBuf.Truncate.{truncate_lem}

-- The values of `i64_skips`, by the scans between them.
abbrev steps : DeltaBuf → List (ℕ × ℕ × ℕ) → DeltaBuf
steps buf [] = buf
steps buf ((old, new, n) ∷ more) = steps (push signed buf old new n) more

abbrev skipping : List (ℕ × ℕ × ℕ)
skipping =
    (1, 2, 1) ∷ (2, 10, 2) ∷ (10, 1000, 1) ∷ (1000, 100000, 5) ∷ (100000, 5, 1) ∷ (5, 10, 1) ∷ []

abbrev with_skips : List Delta
with_skips =
    positive 5
    ∷ negative 99995
    ∷ positive 99000
    ∷ skip
    ∷ skip
    ∷ skip
    ∷ skip
    ∷ positive 990
    ∷ positive 8
    ∷ skip
    ∷ positive 1
    ∷ []

i64_skips : delta_list (steps new skipping) ≡ with_skips
unfolding delta_list collect next needs_refill refill_queue refill_loop first_byte take_item deltas
    push push_gaps gap_count push_delta push_zero push_groups new
i64_skips = refl

abbrev three_zeros : List (ℕ × ℕ × ℕ)
three_zeros = (0, 2943, 1) ∷ (2943, 2943, 1) ∷ (2943, 2943, 1) ∷ []

i64_zero_cont_bug :
    delta_list (steps new three_zeros) ≡ positive 0 ∷ positive 0 ∷ positive 2943 ∷ []
unfolding delta_list collect next needs_refill refill_queue refill_loop first_byte take_item deltas
    push push_gaps gap_count push_delta push_zero push_groups new
i64_zero_cont_bug = refl

small_buffer-IsValid : IsValid small_buffer
unfolding is_valid
small_buffer-IsValid = refl

delta_list-contents_example : delta_list small_buffer ≡ positive 2 ∷ replicate 40 skip
unfolding decode
delta_list-contents_example = delta_list-contents small_buffer small_buffer-IsValid

next-uncons_example :
    Good (next (deltas small_buffer)).1
    × (((next (deltas small_buffer)).0, view (next (deltas small_buffer)).1)
        ≡ uncons (positive 2 ∷ replicate 40 skip))
unfolding decode is_valid deltas
next-uncons_example = next-uncons (deltas small_buffer) (refl, refl)

push_lem_example :
    IsValid (push signed small_buffer 5 1000 3)
    × (contents (push signed small_buffer 5 1000 3)
        ≡ positive 995 ∷ skip ∷ skip ∷ positive 2 ∷ replicate 40 skip)
unfolding decode
push_lem_example =
    push_lem signed small_buffer 5 1000 3 small_buffer-IsValid (omega arith) (omega arith)
      (omega arith)

push_count_example :
    IsValid (push signed small_buffer (2 ^ 63) 1000 3)
    × (length (contents (push signed small_buffer (2 ^ 63) 1000 3)) ≡ 3 + 41)
unfolding decode
push_count_example =
    push_count signed small_buffer (2 ^ 63) 1000 3 (omega arith) (omega arith) small_buffer-IsValid
      (omega arith) (omega arith)

truncate_lem_example :
    IsValid (truncate small_buffer 7).0
    × (contents (truncate small_buffer 7).0 ≡ positive 2 ∷ replicate 6 skip)
    × ((truncate small_buffer 7).1 ≡ 7)
unfolding decode
truncate_lem_example = truncate_lem small_buffer 7 small_buffer-IsValid
