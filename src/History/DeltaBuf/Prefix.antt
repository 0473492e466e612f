-- ===== src/History/DeltaBuf/Prefix.antt =====
-- The cut that `DeltaBuf::truncate` makes in the bytes, as one recursion, and the deltas that stay.
use cantal.Common.{ℕ, ◌+◌, ◌-◌, ◌*◌, ◌/◌, ◌%◌, ◌≤◌, ◌<◌, ◌≡◌, refl, sym, ◌∙◌, min}
use cantal.Common.{Bool, true, false, ltb, leb, if◌then◌else◌, ge→ltb, lt→ltb, le→leb, gt→leb}
use cantal.Common.{
  List, [], ◌∷◌, append-nil, arith, replicate, length, length-append, take, take-nil, take_all,
  take-append_add, take-append_le, take-replicate, length-replicate,
}
use native.Mathlib.Decide.{dec_lt}
use cantal.History.DeltaBuf.{Delta, positive, skip}
use cantal.History.Word.{modulus}
use cantal.History.DeltaBuf.Decode.{
  length-item_one, decode_low, decode_high, is_valid_low, is_valid_high, valid_parts, item, decode,
  fits_in, is_valid,
}

-- The bytes that stay when deltas from `counter` to `limit` are to be kept, and the number of
-- deltas up to their end.
unfoldable pub cut : ℕ → ℕ → List ℕ → List ℕ × ℕ
cut limit counter [] = ([], counter)
cut limit counter (b ∷ bs) =
    let on = cut limit counter bs in
    let run = cut limit (counter + b % 32) bs in
    let one = cut limit (counter + 1) bs in
    if leb 128 b
    then (b ∷ on.0, on.1)
    else if leb 64 b
    then (if ltb (counter + b % 32) limit
        then (b ∷ run.0, run.1)
        else ((b / 32 * 32 + (limit - counter)) ∷ [], limit))
    else (if ltb (counter + 1) limit then (b ∷ one.0, one.1) else (b ∷ [], limit))

-- How a byte bears on the scan.
pub data Round (limit counter b : ℕ) : Type 0 where
  continuation : 128 ≤ b → Round limit counter b
  run : 64 ≤ b → b < 128 → counter + b % 32 < limit → Round limit counter b
  run_end : 64 ≤ b → b < 128 → limit ≤ counter + b % 32 → Round limit counter b
  one : b < 64 → counter + 1 < limit → Round limit counter b
  one_end : b < 64 → limit ≤ counter + 1 → Round limit counter b

pub byte_cases : (limit counter b : ℕ) → Round limit counter b
byte_cases limit counter b = elim (dec_lt b 128) [
  | no h ↦ continuation (omega arith)
  | yes h ↦ elim (dec_lt b 64) [
    | no k ↦ elim (dec_lt (counter + b % 32) limit) [
      | yes m ↦ run (omega arith) h m
      | no m ↦ run_end (omega arith) h (omega arith)
    ]
    | yes k ↦ elim (dec_lt (counter + 1) limit) [ yes m ↦ one k m | no m ↦ one_end k (omega arith) ]
  ]
]

abbrev pub under : ℕ → List ℕ × ℕ → List ℕ × ℕ
under b r = (b ∷ r.0, r.1)

-- `cut` in each case.
module _ (limit counter b : ℕ) (rest : List ℕ) where
  pub cut_continuation : 128 ≤ b → cut limit counter (b ∷ rest) ≡ under b (cut limit counter rest)
  unfolding cut
  cut_continuation h = ground arith

  pub cut_run :
      64 ≤ b
      → b < 128
      → counter + b % 32 < limit
      → cut limit counter (b ∷ rest) ≡ under b (cut limit (counter + b % 32) rest)
  unfolding cut
  cut_run h k m = ground arith

  pub cut_run_end :
      64 ≤ b
      → b < 128
      → limit ≤ counter + b % 32
      → cut limit counter (b ∷ rest) ≡ ((b / 32 * 32 + (limit - counter)) ∷ [], limit)
  unfolding cut
  cut_run_end h k m = ground arith

  pub cut_one :
      b < 64
      → counter + 1 < limit
      → cut limit counter (b ∷ rest) ≡ under b (cut limit (counter + 1) rest)
  unfolding cut
  cut_one h m = ground arith

  pub cut_one_end : b < 64 → limit ≤ counter + 1 → cut limit counter (b ∷ rest) ≡ (b ∷ [], limit)
  unfolding cut
  cut_one_end h m = ground arith

zeros_item : (acc n : ℕ) → n < 32 → item acc (64 + n) ≡ replicate n (positive 0)
zeros_item acc n h =
    let e : 64 + n - 64 ≡ n = omega arith in
    rw (
      ge→ltb (64 + n) 32 (omega arith),
      ge→ltb (64 + n) 64 (omega arith),
      lt→ltb (64 + n) 96 (omega arith),
      e,
    )

skips_item : (acc n : ℕ) → n < 32 → item acc (96 + n) ≡ replicate n skip
skips_item acc n h =
    let e : 96 + n - 96 ≡ n = omega arith in
    rw (
      ge→ltb (96 + n) 32 (omega arith),
      ge→ltb (96 + n) 64 (omega arith),
      ge→ltb (96 + n) 96 (omega arith),
      e,
    )

-- A byte of a run stands for as many copies of one delta as its low bits say.
run_item :
    (acc b : ℕ)
    → 64 ≤ b
    → b < 128
    → (d : Delta) × ((n : ℕ) → n < 32 → item acc (b / 32 * 32 + n) ≡ replicate n d)
run_item acc b h k = elim (dec_lt b 96) [
  | yes l ↦ (positive 0, λ n m. let e : b / 32 * 32 ≡ 64 = omega arith in rw e (zeros_item acc n m))
  | no l ↦ (skip, λ n m. let e : b / 32 * 32 ≡ 96 = omega arith in rw e (skips_item acc n m))
]

item-run :
    (acc b : ℕ)
    → 64 ≤ b
    → b < 128
    → (length (item acc b) ≡ b % 32)
      × ((n : ℕ) → n ≤ b % 32 → item acc (b / 32 * 32 + n) ≡ take n (item acc b))
item-run acc b h k =
    let (d, copies) = run_item acc b h k in
    let e : b / 32 * 32 + b % 32 ≡ b = omega arith in
    let all : item acc b ≡ replicate (b % 32) d = rw e at (copies (b % 32) (omega arith)) in
    (
      rw all (length-replicate (b % 32) d),
      λ n m. copies n (omega arith) ∙ sym (rw all (take-replicate n (b % 32) d m)),
    )

pub record Kept (limit counter acc : ℕ) (rest : List ℕ) (inside : Bool) (r : List ℕ × ℕ)
    : Type 0 where
  pub valid : is_valid inside r.0 ≡ true
  pub deltas : decode acc r.0 ≡ take (limit - counter) (decode acc rest)
  pub count : r.1 ≡ min limit (counter + length (decode acc rest))

keep_continuation :
    (limit counter acc b : ℕ) (rest : List ℕ) (inside : Bool) (r : List ℕ × ℕ)
    → 128 ≤ b
    → b < 256
    → Kept limit counter (acc * 128 % modulus + b % 128) rest true r
    → Kept limit counter acc (b ∷ rest) inside (under b r)
keep_continuation limit counter acc b rest inside r h f k = record {
  valid = is_valid_high inside b r.0 h f ∙ k.valid;
  deltas = rw (decode_high acc b r.0 h, decode_high acc b rest h) k.deltas;
  count = rw (decode_high acc b rest h) k.count;
}

-- Deltas in front of the cut.
keep_item :
    (limit counter acc b n : ℕ) (rest : List ℕ) (inside : Bool) (r : List ℕ × ℕ)
    → b < 128
    → fits_in inside b ≡ true
    → n ≡ length (item acc b)
    → counter + n < limit
    → Kept limit (counter + n) 0 rest false r
    → Kept limit counter acc (b ∷ rest) inside (under b r)
keep_item limit counter acc b n rest inside r h f e m k =
    let room : limit - counter ≡ length (item acc b) + (limit - (counter + n)) = omega arith in
    record {
      valid = is_valid_low inside b r.0 h f ∙ k.valid;
      deltas =
          rw (decode_low acc b r.0 h, decode_low acc b rest h, room, take-append_add, k.deltas)
            refl;
      count =
          rw (decode_low acc b rest h)
            (omega (arith, k.count, length-append (item acc b) (decode 0 rest)));
    }

-- The byte in which the cut falls.
keep_last :
    (limit counter acc b b' : ℕ) (rest : List ℕ) (inside : Bool)
    → b < 128
    → b' < 128
    → fits_in inside b' ≡ true
    → item acc b' ≡ take (limit - counter) (item acc b)
    → counter < limit
    → limit ≤ counter + length (item acc b)
    → Kept limit counter acc (b ∷ rest) inside (b' ∷ [], limit)
unfolding decode
keep_last limit counter acc b b' rest inside h h' f e k m = record {
  valid = is_valid_low inside b' [] h' f ∙ unfold is_valid in refl;
  deltas =
      decode_low acc b' [] h'
      ∙ append-nil (item acc b')
      ∙ e
      ∙ sym (
          rw (decode_low acc b rest h)
            (take-append_le (item acc b) (decode 0 rest) (limit - counter) (omega arith)));
  count = rw (decode_low acc b rest h) (omega (arith, length-append (item acc b) (decode 0 rest)));
}

pub cut-Kept :
    (limit counter acc : ℕ) (rest : List ℕ) (inside : Bool)
    → is_valid inside rest ≡ true
    → counter < limit
    → Kept limit counter acc rest inside (cut limit counter rest)
cut-Kept limit counter acc [] inside v h =
    unfold cut decode in
    record { valid = v; deltas = sym (take-nil (limit - counter)); count = omega arith }
cut-Kept limit counter acc (b ∷ rest) inside v h =
    let (small, fit, more) = valid_parts inside b rest v in
    elim (byte_cases limit counter b) [
      | continuation k ↦ rw (cut_continuation limit counter b rest k) (
          keep_continuation limit counter acc b rest inside (cut limit counter rest) k small (
            cut-Kept limit counter (acc * 128 % modulus + b % 128) rest true
              (rw (le→leb 128 b k) at more) h))
      | run k l m ↦ rw (cut_run limit counter b rest k l m) (
          keep_item limit counter acc b (b % 32) rest inside (cut limit (counter + b % 32) rest) l
            fit (sym (item-run acc b k l).0) m
            (cut-Kept limit (counter + b % 32) 0 rest false (rw (gt→leb 128 b l) at more) m))
      | run_end k l m ↦ rw (cut_run_end limit counter b rest k l m) (
          keep_last limit counter acc b (b / 32 * 32 + (limit - counter)) rest inside l
            (omega arith) (ground arith) ((item-run acc b k l).1 (limit - counter) (omega arith)) h
            (omega (arith, (item-run acc b k l).0)))
      | one k m ↦ rw (cut_one limit counter b rest k m) (
          keep_item limit counter acc b 1 rest inside (cut limit (counter + 1) rest) (omega arith)
            fit (sym (length-item_one acc b k)) m
            (cut-Kept limit (counter + 1) 0 rest false (rw (gt→leb 128 b (omega arith)) at more) m))
      | one_end k m ↦ rw (cut_one_end limit counter b rest k m) (
          keep_last limit counter acc b b rest inside (omega arith) (omega arith) fit
            (sym (take_all (item acc b) (limit - counter) (omega (arith, length-item_one acc b k))))
            h (omega (arith, length-item_one acc b k)))
    ]
