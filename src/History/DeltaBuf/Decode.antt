-- ===== src/History/DeltaBuf/Decode.antt =====
-- What the bytes of a delta buffer mean, in plain arithmetic: the reference that the iterator,
-- `push` and `truncate` of cantal_history/src/deltabuf.rs are held to.
use cantal.Common.{ℕ, ◌+◌, ◌-◌, ◌*◌, ◌%◌, ◌≤◌, ◌<◌, ◌≡◌, Bool, true, false, not, ◌&&◌, ◌||◌}
use cantal.Common.{
  List, [], ◌∷◌, ◌++◌, arith, ltb, leb, ◌==◌, if◌then◌else◌, lt→ltb, ge→ltb, gt→leb,
}
use cantal.Common.{length, length-append, replicate, length-replicate}
use cantal.History.DeltaBuf.{DeltaBuf, Delta, positive, negative, skip}
use cantal.History.Word.{modulus}

-- The deltas that begin with a byte below 128, and those after it.
abbrev pub item : ℕ → ℕ → List Delta
item acc b =
    if ltb b 32
    then positive (acc * 32 % modulus + b) ∷ []
    else if ltb b 64
    then negative (acc * 32 % modulus + (b - 32)) ∷ []
    else if ltb b 96
    then replicate (b - 64) (positive 0)
    else replicate (b - 96) skip

-- `acc` is what is read of a delta whose bytes have begun.
abbrev pub next_acc : ℕ → ℕ → ℕ
next_acc acc b = if ltb b 128 then 0 else acc * 128 % modulus + b % 128

unfoldable pub decode : ℕ → List ℕ → List Delta
decode acc [] = []
decode acc (b ∷ bs) = (if ltb b 128 then item acc b else []) ++ decode (next_acc acc b) bs

-- A byte may stand where it does: a run is not empty, and does not cut a delta in two.
abbrev pub fits_in : Bool → ℕ → Bool
fits_in inside b = ltb b 256 && (ltb b 64 || leb 128 b || (not inside && not (b % 32 == 0)))

-- `inside` says that the byte before was a continuation.
unfoldable pub is_valid : Bool → List ℕ → Bool
is_valid inside [] = not inside
is_valid inside (b ∷ bs) = fits_in inside b && is_valid (leb 128 b) bs

abbrev pub IsValid : DeltaBuf → Type 0
IsValid buf = is_valid false buf ≡ true

-- The deltas that a buffer holds, newest first.
abbrev pub contents : DeltaBuf → List Delta
contents buf = decode 0 buf

pub length-item : (acc b : ℕ) → b < 128 → length (item acc b) ≤ 31
length-item acc b h =
    ground (arith, length-replicate (b - 64) (positive 0), length-replicate (b - 96) skip)

-- A byte stands for 31 deltas at most.
pub length-decode : (acc : ℕ) (bs : List ℕ) → length (decode acc bs) ≤ 31 * length bs
unfolding decode
length-decode acc [] = omega arith
length-decode acc (b ∷ bs) = ground (
  arith,
  length-append (item acc b) (decode (next_acc acc b) bs),
  length-item acc b,
  length-decode (next_acc acc b) bs,
)

pub decode_low :
    (acc b : ℕ) (bs : List ℕ) → b < 128 → decode acc (b ∷ bs) ≡ item acc b ++ decode 0 bs
unfolding decode
decode_low acc b bs h = rw (lt→ltb b 128 h)

pub decode_high :
    (acc b : ℕ) (bs : List ℕ)
    → 128 ≤ b
    → decode acc (b ∷ bs) ≡ decode (acc * 128 % modulus + b % 128) bs
unfolding decode
decode_high acc b bs h = rw (ge→ltb b 128 h)

pub is_valid_low :
    (inside : Bool) (b : ℕ) (bs : List ℕ)
    → b < 128
    → fits_in inside b ≡ true
    → is_valid inside (b ∷ bs) ≡ is_valid false bs
unfolding is_valid
is_valid_low inside b bs h f = rw (f, gt→leb 128 b h)

pub is_valid_high :
    (inside : Bool) (b : ℕ) (bs : List ℕ)
    → 128 ≤ b
    → b < 256
    → is_valid inside (b ∷ bs) ≡ is_valid true bs
unfolding is_valid
is_valid_high inside b bs h k = ground arith

pub valid_parts :
    (inside : Bool) (b : ℕ) (bs : List ℕ)
    → is_valid inside (b ∷ bs) ≡ true
    → (b < 256) × (fits_in inside b ≡ true) × (is_valid (leb 128 b) bs ≡ true)
unfolding is_valid
valid_parts inside b bs h = ground arith

pub length-item_one : (acc b : ℕ) → b < 64 → length (item acc b) ≡ 1
length-item_one acc b h = ground arith
