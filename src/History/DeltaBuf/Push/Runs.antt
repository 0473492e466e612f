-- ===== src/History/DeltaBuf/Push/Runs.antt =====
-- The runs that `DeltaBuf::push` writes: gaps and zeros.
use cantal.Common.{ℕ, zero, suc, ◌+◌, ◌-◌, ◌%◌, ◌≤◌, ◌<◌, ◌≡◌, refl, sym, ap, ◌∙◌, min, bit_or}
use cantal.Common.{lt→ltb}
use cantal.Common.{List, [], ◌∷◌, ◌++◌, arith, replicate, replicate-add, ◌⊎◌, inl, inr}
use cantal.Common.Bits.{and_special_three, and_five, set_skip, set_zero}
use cantal.History.Word.{half}
use cantal.History.DeltaBuf.{DeltaBuf, Delta, positive, skip}
use cantal.History.DeltaBuf.{gap_count, push_gaps, push_zero}
use cantal.History.DeltaBuf.Decode.{decode, is_valid, IsValid, contents}

-- What holds of a buffer after bytes in front of it that mean `front`.
abbrev pub Extends : DeltaBuf → List Delta → DeltaBuf → Type 0
Extends new front old = (IsValid new) × (contents new ≡ front ++ contents old)

gap_byte :
    (cd : ℕ) (buf : DeltaBuf)
    → 0 < cd
    → cd ≤ 31
    → IsValid buf
    → Extends (bit_or 0x60 cd ∷ buf) (replicate cd skip) buf
unfolding decode is_valid
gap_byte cd buf h k v = rw (set_skip cd (omega arith)) (ground arith, ground arith)

push_gaps_round :
    (fuel n : ℕ) (buf : DeltaBuf)
    → 0 < n
    → n < half
    → push_gaps (suc fuel) n buf ≡ push_gaps fuel (n - min n 31) (bit_or 0x60 (min n 31) ∷ buf)
unfolding push_gaps gap_count
push_gaps_round fuel n buf h k = rw (lt→ltb n half k, lt→ltb 0 n h)

pub push_gaps-Extends :
    (fuel n : ℕ) (buf : DeltaBuf)
    → n ≤ fuel
    → n < half
    → IsValid buf
    → Extends (push_gaps fuel n buf) (replicate n skip) buf
push_gaps-Extends zero zero buf h k v = unfold push_gaps in (v, refl)
push_gaps-Extends zero (suc n) buf h k v = absurd (omega arith)
push_gaps-Extends (suc fuel) zero buf h k v = unfold push_gaps in (v, refl)
push_gaps-Extends (suc fuel) (suc n) buf h k v =
    let cd : ℕ = min (suc n) 31 in
    let (v', e') = gap_byte cd buf (omega arith) (omega arith) v in
    let (v'', e'') =
      push_gaps-Extends fuel (suc n - cd) (bit_or 0x60 cd ∷ buf) (omega arith) (omega arith) v' in
    let whole : suc n - cd + cd ≡ suc n = omega arith in
    rw (push_gaps_round fuel (suc n) buf (omega arith) k) (
      v'',
      e''
          ∙ ap (λ ds. replicate (suc n - cd) skip ++ ds) e'
          ∙ sym (replicate-add (suc n - cd) cd skip (contents buf))
          ∙ ap (λ k. replicate k skip ++ contents buf) whole,
    )

-- `push_zero` lengthens the run in front if it has room, and begins a run of one if not.
push_zero_cases :
    (b : ℕ) (buf : DeltaBuf)
    → b < 256
    → ((64 ≤ b) × (b < 95) × (push_zero (b ∷ buf) ≡ (b + 1) ∷ buf))
      ⊎ (push_zero (b ∷ buf) ≡ 65 ∷ (b ∷ buf))
unfolding push_zero
push_zero_cases b buf h = ground (arith, and_special_three b, and_five b, set_zero (b % 32 + 1))

longer_run :
    (b : ℕ) (buf : DeltaBuf)
    → 64 ≤ b
    → b < 95
    → IsValid (b ∷ buf)
    → Extends ((b + 1) ∷ buf) (positive 0 ∷ []) (b ∷ buf)
unfolding decode is_valid
longer_run b buf h k v =
    let e : b + 1 - 64 ≡ suc (b - 64) = omega arith in (ground arith, ground (arith, e))

new_run : (buf : DeltaBuf) → IsValid buf → Extends (65 ∷ buf) (positive 0 ∷ []) buf
unfolding decode is_valid
new_run buf v = (v, refl)

pub push_zero-Extends :
    (buf : DeltaBuf) → IsValid buf → Extends (push_zero buf) (positive 0 ∷ []) buf
push_zero-Extends [] v = unfold push_zero decode is_valid in (refl, refl)
push_zero-Extends (b ∷ buf) v = elim (push_zero_cases b buf (unfold is_valid in ground arith)) [
  | inl (h, k, e) ↦ rw e (longer_run b buf h k v)
  | inr e ↦ rw e (new_run (b ∷ buf) v)
]
