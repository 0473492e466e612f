-- ===== src/History/DeltaBuf/Push.antt =====
-- `DeltaBuf::push` keeps a buffer valid and puts its delta in front of those that it holds.
pub mod Runs
pub mod Groups
use cantal.Common.{ltb, length, length-append, length-replicate, ge→ltb}
use cantal.Common.Bits.{and_five}
use cantal.History.DeltaBuf.Decode.{item, decode_low, length-item_one}
use cantal.Common.{
  ℕ, zero, suc, ◌+◌, ◌-◌, ◌*◌, ◌/◌, ◌%◌, ◌^◌, ◌≤◌, ◌<◌, ◌≡◌, refl, sym, ap, ◌∙◌, min, bit_or,
}
use cantal.Common.{Bool, true, false, ◌==◌, if◌then◌else◌, lt→ltb}
use cantal.Common.{List, [], ◌∷◌, ◌++◌, arith, replicate, replicate-add, Bool-cases, ◌⊎◌, inl, inr}
use cantal.Common.Bits.{
  and_special_three, and_five, and_seven, set_skip, set_zero, set_sign, set_plus, set_continuation,
}
use native.Mathlib.Nat.{pow-suc}
use cantal.History.Word.{
  Width, unsigned, signed, modulus, half, gtb, gap, rank, Fits, IsWord, word_sub, shift_right,
}
use cantal.History.DeltaBuf.{DeltaBuf, Delta, positive, negative, skip, sign_bit}
use cantal.History.DeltaBuf.{gap_count, push_gaps, push_zero, push_groups, push_delta, push}
use cantal.History.DeltaBuf.Decode.{decode, is_valid, IsValid, contents}
use Runs.{Extends, push_gaps-Extends, push_zero-Extends}
use Groups.{sign_of, delta_of, push_delta-Extends, set_sign_of, last_byte, Tail}

-- The delta from `new` back to `old`.
abbrev pub delta_between : Width → ℕ → ℕ → Delta
delta_between w old new =
    if gtb w old new then negative (gap w old new) else positive (gap w old new)

word_sub-rank :
    (w : Width) (a b : ℕ)
    → IsWord a
    → IsWord b
    → rank w b ≤ rank w a
    → word_sub a b ≡ rank w a - rank w b
word_sub-rank unsigned a b ha hb h = omega arith
word_sub-rank signed a b ha hb h = omega arith

shift_right-div : (w : Width) (a b : ℕ) → Fits w a b → shift_right w (gap w a b) 5 ≡ gap w a b / 32
shift_right-div unsigned a b f = refl
shift_right-div signed a b f = rw (lt→ltb (gap signed a b) half f.2)

Fits-IsWord : (w : Width) (a b : ℕ) → Fits w a b → IsWord a × IsWord b × IsWord (gap w a b)
Fits-IsWord unsigned a b f = (f.0, f.1, ground arith)
Fits-IsWord signed a b f = (f.0, f.1, omega arith)

delta-Extends :
    (w : Width) (old new : ℕ) (buf : DeltaBuf)
    → Fits w old new
    → IsValid buf
    → Extends
        (if gtb w old new
          then push_delta w (word_sub old new) sign_bit buf
          else push_delta w (word_sub new old) 0 buf)
        (delta_between w old new ∷ [])
        buf
delta-Extends w old new buf f v =
    let (hold, hnew, hgap) = Fits-IsWord w old new f in
    elim (Bool-cases (gtb w old new)) [
      | inl e ↦
          rw (e, word_sub-rank w old new hold hnew (ground arith))
            (push_delta-Extends w true (rank w old - rank w new) buf (ground arith) (rw e at hgap)
              (rw e at (shift_right-div w old new f)) v)
      | inr e ↦
          rw (e, word_sub-rank w new old hnew hold (ground arith))
            (nonnegative (rank w new - rank w old) (rw e at hgap)
              (rw e at (shift_right-div w old new f)))
    ]
  where
    nonnegative :
        (d : ℕ)
        → IsWord d
        → shift_right w d 5 ≡ d / 32
        → Extends (push_delta w d 0 buf) (positive d ∷ []) buf
    nonnegative zero h e = unfold push_delta in push_zero-Extends buf v
    nonnegative (suc d) h e = push_delta-Extends w false (suc d) buf (omega arith) h e v

-- Pushing a value `new` over a valid buffer whose newest value is `old`, `n` scans later
-- (1 ≤ n ≤ 2 ^ 63), gives a valid buffer, which holds the delta from `new` back to `old`, then
-- a skip for each of the n - 1 scans that missed the metric, then what it held before. For i64 the
-- two values are to be less than 2 ^ 63 apart.
pub push_lem :
    (w : Width) (buf : DeltaBuf) (old new n : ℕ)
    → IsValid buf
    → Fits w old new
    → 0 < n
    → n ≤ half
    → IsValid (push w buf old new n)
      × (contents (push w buf old new n)
          ≡ delta_between w old new ∷ (replicate (n - 1) skip ++ contents buf))
push_lem w buf old new n v f h k =
    let (v', e') = push_gaps-Extends (n - 1) (n - 1) buf (omega arith) (omega arith) v in
    let (v'', e'') = delta-Extends w old new (push_gaps (n - 1) (n - 1) buf) f v' in
    let later : (n == 0) ≡ false = ground arith in
    unfold push in rw later (v'', e'' ∙ ap (λ ds. delta_between w old new ∷ ds) e')

-- A write at the age of the newest value leaves the buffer as it was.
pub push_zero_age : (w : Width) (buf : DeltaBuf) (old new : ℕ) → push w buf old new 0 ≡ buf
unfolding push
push_zero_age w buf old new = refl

-- An i64 delta that overflowed is negative: the loop over its groups is not entered.
push_groups_negative :
    (fuel d : ℕ) (buf : DeltaBuf) → half ≤ d → IsWord d → push_groups signed fuel d buf ≡ buf
unfolding push_groups
push_groups_negative zero d buf h k = refl
push_groups_negative (suc fuel) d buf h k = rw (ge→ltb half ((d + half) % modulus) (omega arith))

-- One delta, whatever it is.
abbrev Counts : DeltaBuf → DeltaBuf → Type 0
Counts new old = IsValid new × (length (contents new) ≡ suc (length (contents old)))

push_delta-Counts :
    (w : Width) (s : Bool) (d : ℕ) (buf : DeltaBuf)
    → IsWord d
    → IsValid buf
    → Counts (push_delta w d (sign_of s) buf) buf
push_delta-Counts w s zero buf h v =
    let (v', e) = push_zero-Extends buf v in unfold push_delta in (v', ap length e)
push_delta-Counts unsigned s (suc n) buf h v =
    let (v', e) = push_delta-Extends unsigned s (suc n) buf (omega arith) h refl v in
    (v', ap length e)
push_delta-Counts signed s (suc n) buf h v = elim (Bool-cases (ltb (suc n) half)) [
  | inl e ↦
      let (v', e') = push_delta-Extends signed s (suc n) buf (omega arith) h (rw e) v in
      (v', ap length e')
  | inr e ↦ negative_delta (ground arith)
]
  where
    first : DeltaBuf
    first = (sign_of s + suc n % 32) ∷ buf

    low : sign_of s + suc n % 32 < 64
    low = elim s as (λ s. sign_of s + suc n % 32 < 64) [ true ↦ omega arith | false ↦ omega arith ]

    item_of_first : List Delta
    item_of_first = item 0 (sign_of s + suc n % 32)

    one : length (contents first) ≡ suc (length (contents buf))
    one =
        ap length (decode_low 0 (sign_of s + suc n % 32) buf (omega (arith, low)))
        ∙ omega (
          arith,
          length-append item_of_first (contents buf),
          length-item_one 0 (sign_of s + suc n % 32) low,
        )

    negative_delta : half ≤ suc n → Counts (push_delta signed (suc n) (sign_of s) buf) buf
    negative_delta k =
        let big : half ≤ shift_right signed (suc n) 5 = rw (ge→ltb (suc n) half k) (omega arith) in
        let nonzero : (suc n == 0) ≡ false = ground arith in
        let word : IsWord (shift_right signed (suc n) 5) =
          rw (ge→ltb (suc n) half k) (omega arith) in
        unfold push_delta in
        rw
          (
            nonzero,
            and_five (suc n),
            set_sign_of s (suc n % 32) (omega arith),
            push_groups_negative 10 (shift_right signed (suc n) 5) first big word,
          )
          ((last_byte s (suc n) buf h v).0.1, one)

-- Pushing any two words `n` scans apart (1 ≤ n ≤ 2 ^ 63), overflow or not, keeps the buffer valid
-- and adds exactly `n` deltas to it.
pub push_count :
    (w : Width) (buf : DeltaBuf) (old new n : ℕ)
    → IsWord old
    → IsWord new
    → IsValid buf
    → 0 < n
    → n ≤ half
    → IsValid (push w buf old new n)
      × (length (contents (push w buf old new n)) ≡ n + length (contents buf))
push_count w buf old new n ho hn v h k =
    let (v', e') = push_gaps-Extends (n - 1) (n - 1) buf (omega arith) (omega arith) v in
    let gapped : DeltaBuf = push_gaps (n - 1) (n - 1) buf in
    let skips : length (contents gapped) ≡ n - 1 + length (contents buf) =
      ap length e'
      ∙ omega (
        arith,
        length-append (replicate (n - 1) skip) (contents buf),
        length-replicate (n - 1) skip,
      ) in
    let (v₁, e₁) = push_delta-Counts w true (word_sub old new) gapped (omega arith) v' in
    let (v₂, e₂) = push_delta-Counts w false (word_sub new old) gapped (omega arith) v' in
    let later : (n == 0) ≡ false = ground arith in
    unfold push in
    rw later (elim (Bool-cases (gtb w old new)) [
      | inl e ↦ rw e (v₁, omega (arith, e₁, skips))
      | inr e ↦ rw e (v₂, omega (arith, e₂, skips))
    ])
