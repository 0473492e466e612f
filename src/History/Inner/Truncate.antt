-- ===== src/History/Inner/Truncate.antt =====
-- `Inner::truncate` over a delta buffer, by the history that it leaves.
use cantal.Common.{ℕ, zero, suc, ◌+◌, ◌-◌, ◌≤◌, ◌<◌, ◌≡◌, refl, sym, ap, ◌∙◌, arith, true, false}
use cantal.Common.{Option, none, some, List, [], ◌∷◌, ◌++◌, length, take, replicate, le→leb, gt→leb}
use cantal.Common.{take-append_add, length-replicate}
use cantal.History.Word.{Width, word_add, word_sub}
use cantal.History.DeltaBuf.{DeltaBuf, Delta, positive, negative}
use cantal.History.DeltaBuf.Decode.{IsValid, contents}
use cantal.History.DeltaBuf.Truncate.{truncate_lem}
use cantal.History.Inner.{Inner, delta_buf, truncate}
use cantal.History.Inner.Timeline.{replay, timeline}

replay-take : (t n : ℕ) (ds : List Delta) → replay t (take n ds) ≡ take n (replay t ds)
replay-take t zero ds = refl
replay-take t (suc n) [] = refl
replay-take t (suc n) (positive x ∷ ds) =
    ap (◌∷◌ (some (word_sub t x))) (replay-take (word_sub t x) n ds)
replay-take t (suc n) (negative x ∷ ds) = ap (◌∷◌ none) (replay-take (word_add t x) n ds)
replay-take t (suc n) (Delta.skip ∷ ds) = ap (◌∷◌ none) (replay-take t n ds)

cut_at :
    (m n k : ℕ) (x : Option ℕ) (vs : List (Option ℕ))
    → k ≡ m + suc n
    → take k (replicate m none ++ (x ∷ vs)) ≡ replicate m none ++ (x ∷ take n vs)
cut_at m n k x vs e =
    let len : length (replicate {A = Option ℕ} m none) ≡ m = length-replicate m none in
    let whole : k ≡ length (replicate {A = Option ℕ} m none) + suc n = omega (arith, len) in
    rw whole (take-append_add (replicate m none) (x ∷ vs) (suc n))

-- Truncating to the scans after `trim_age` drops a metric whose newest value is not younger.
pub truncate_dropped :
    (w : Width) (i : Inner ℕ DeltaBuf) (trim_age : ℕ)
    → i.age ≤ trim_age
    → truncate (delta_buf w) i trim_age ≡ (i, false)
unfolding truncate
truncate_dropped w i trim_age k = rw (le→leb i.age trim_age k)

-- Truncating to the scans after `trim_age` keeps a metric whose newest value is younger, with a
-- valid buffer, and cuts its history, as of any scan from the newest value's on, to the scans
-- after `trim_age`.
pub timeline-truncate :
    (w : Width) (i : Inner ℕ DeltaBuf) (trim_age now : ℕ)
    → IsValid i.buf
    → trim_age < i.age
    → i.age ≤ now
    → let (i', kept) = truncate (delta_buf w) i trim_age in
      (kept ≡ true) × IsValid i'.buf × (timeline i' now ≡ take (now - trim_age) (timeline i now))
unfolding truncate
timeline-truncate w i trim_age now v k h =
    let n : ℕ = i.age - trim_age - 1 in
    let (v', e, _) = truncate_lem i.buf n v in
    let older : List (Option ℕ) = replay i.tip (contents i.buf) in
    rw (gt→leb i.age trim_age k) (
      refl,
      v',
      ap (λ ds. replicate (now - i.age) none ++ (some i.tip ∷ replay i.tip ds)) e
          ∙ ap (λ vs. replicate (now - i.age) none ++ (some i.tip ∷ vs))
              (replay-take i.tip n (contents i.buf))
          ∙ sym (cut_at (now - i.age) n (now - trim_age) (some i.tip) older (omega arith)),
    )
