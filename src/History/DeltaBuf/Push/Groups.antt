-- ===== src/History/DeltaBuf/Push/Groups.antt =====
-- The bytes of one delta that `DeltaBuf::push` writes.
use cantal.Common.{ℕ, zero, suc, ◌+◌, ◌-◌, ◌*◌, ◌/◌, ◌%◌, ◌^◌, ◌<◌, ◌≡◌, refl, ap, ◌∙◌, bit_or}
use cantal.Common.{Bool, true, false, ◌==◌, lt→ltb}
use cantal.Common.{[], ◌∷◌, arith}
use cantal.Common.Bits.{and_five, and_seven, set_sign, set_plus, set_continuation}
use native.Mathlib.Nat.{pow-suc}
use cantal.History.Word.{Width, unsigned, signed, modulus, half, IsWord, shift_right}
use cantal.History.DeltaBuf.{DeltaBuf, Delta, positive, negative, sign_bit}
use cantal.History.DeltaBuf.{push_groups, push_delta}
use cantal.History.DeltaBuf.Decode.{decode, is_valid, IsValid, contents}
use cantal.History.DeltaBuf.Push.Runs.{Extends}

-- A buffer that may follow a continuation byte as well as stand alone.
abbrev pub Tail : DeltaBuf → Type 0
Tail buf = (is_valid true buf ≡ true) × (is_valid false buf ≡ true)

group_byte :
    (g d : ℕ) (buf : DeltaBuf)
    → g < 128
    → Tail buf
    → Tail ((g + 128) ∷ buf) × (decode d ((g + 128) ∷ buf) ≡ decode (d * 128 % modulus + g) buf)
unfolding decode is_valid
group_byte g d buf h (v, v') = ((ground arith, ground arith), ground arith)

push_groups_round :
    (w : Width) (fuel d : ℕ) (buf : DeltaBuf)
    → 0 < d
    → d < half
    → push_groups w (suc fuel) d buf ≡ push_groups w fuel (d / 128) ((d % 128 + 128) ∷ buf)
unfolding push_groups
push_groups_round unsigned fuel d buf h k =
    rw (lt→ltb 0 d h, and_seven d, set_continuation (d % 128) (omega arith))
push_groups_round signed fuel d buf h k = rw (
  lt→ltb half ((d + half) % modulus) (omega arith),
  lt→ltb d half k,
  and_seven d,
  set_continuation (d % 128) (omega arith),
)

push_groups_ended : (w : Width) (fuel : ℕ) (buf : DeltaBuf) → push_groups w fuel 0 buf ≡ buf
unfolding push_groups
push_groups_ended w zero buf = refl
push_groups_ended unsigned (suc fuel) buf = refl
push_groups_ended signed (suc fuel) buf = refl

-- The groups of a delta come to stand before its first byte, highest first, and are read as it.
push_groups_lem :
    (w : Width) (fuel d : ℕ) (buf : DeltaBuf)
    → d < 128 ^ fuel
    → d < half
    → Tail buf
    → IsValid (push_groups w fuel d buf) × (decode 0 (push_groups w fuel d buf) ≡ decode d buf)
push_groups_lem w fuel zero buf h k (v, v') = rw push_groups_ended (v', refl)
push_groups_lem w zero (suc n) buf h k v = absurd (omega arith)
push_groups_lem w (suc fuel) (suc n) buf h k v =
    let d : ℕ = suc n in
    let (v', e') = group_byte (d % 128) (d / 128) buf (omega arith) v in
    let (v'', e'') =
      push_groups_lem w fuel (d / 128) ((d % 128 + 128) ∷ buf) (omega (arith, pow-suc 128 fuel))
        (omega arith) v' in
    let whole : d / 128 * 128 % modulus + d % 128 ≡ d = omega arith in
    rw (push_groups_round w fuel d buf (omega arith) k)
      (v'', e'' ∙ e' ∙ ap (λ d. decode d buf) whole)

abbrev pub sign_of : Bool → ℕ
sign_of true = sign_bit
sign_of false = 0

abbrev pub delta_of : Bool → ℕ → Delta
delta_of true d = negative d
delta_of false d = positive d

pub set_sign_of : (s : Bool) (n : ℕ) → n < 32 → bit_or (sign_of s) n ≡ sign_of s + n
set_sign_of true n h = set_sign n h
set_sign_of false n h = set_plus n h ∙ omega arith

-- The first byte that `push` writes of a delta other than 0: its last one, when it is read.
pub last_byte :
    (s : Bool) (d : ℕ) (buf : DeltaBuf)
    → IsWord d
    → IsValid buf
    → Tail ((sign_of s + d % 32) ∷ buf)
      × (decode (d / 32) ((sign_of s + d % 32) ∷ buf) ≡ delta_of s d ∷ contents buf)
unfolding decode is_valid
last_byte true d buf h v =
    let whole : d / 32 * 32 % modulus + (32 + d % 32 - 32) ≡ d = omega arith in
    ((ground arith, ground arith), ground (arith, whole))
last_byte false d buf h v =
    let whole : d / 32 * 32 % modulus + (0 + d % 32) ≡ d = omega arith in
    ((ground arith, ground arith), ground (arith, whole))

pub push_delta-Extends :
    (w : Width) (s : Bool) (d : ℕ) (buf : DeltaBuf)
    → 0 < d
    → IsWord d
    → shift_right w d 5 ≡ d / 32
    → IsValid buf
    → Extends (push_delta w d (sign_of s) buf) (delta_of s d ∷ []) buf
unfolding push_delta
push_delta-Extends w s d buf h k e v =
    let (v', e') = last_byte s d buf k v in
    let (v'', e'') =
      push_groups_lem w 10 (d / 32) ((sign_of s + d % 32) ∷ buf) (omega arith) (omega arith) v' in
    let nonzero : (d == 0) ≡ false = ground arith in
    rw (nonzero, e, and_five d, set_sign_of s (d % 32) (omega arith)) (v'', e'' ∙ e')
