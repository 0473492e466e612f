-- ===== src/History/DeltaBuf/Iterate.antt =====
-- `DeltaIter` yields the deltas of a valid buffer one by one.
use cantal.Common.{
  ℕ, zero, suc, ◌+◌, ◌-◌, ◌*◌, ◌%◌, ◌^◌, ◌<◌, ◌≡◌, refl, sym, ap, ◌∙◌, bit_and, bit_or,
}
use cantal.Common.{Bool, true, false, ◌&&◌, ltb, leb, if◌then◌else◌}
use cantal.Common.{
  Option, none, some, List, [], ◌∷◌, ◌++◌, arith, replicate, length, Bool-cases, inl, inr,
}
use cantal.Common.Bits.{and_continuation, and_special, and_sign, and_special_three}
use cantal.Common.Bits.{or_five, or_seven, and_five, and_seven}
use cantal.History.Word.{modulus}
use cantal.History.DeltaBuf.{Delta, positive, negative, skip, DeltaBuf, DeltaIter}
use cantal.History.DeltaBuf.{DequeItem, empty, gaps, zeros, diff}
use cantal.History.DeltaBuf.{
  first_byte, refill_loop, refill_queue, needs_refill, take_item, next, deltas, dec_u8,
}
use cantal.History.DeltaBuf.Decode.{
  item, next_acc, decode, fits_in, is_valid, IsValid, contents, length-decode,
}

-- What is left of the item in the queue.
abbrev pub pending : DequeItem → List Delta
pending empty = []
pending (gaps n) = replicate n skip
pending (zeros n) = replicate n (positive 0)
pending (diff d) = d ∷ []

-- The deltas that an iterator has still to yield.
abbrev pub view : DeltaIter → List Delta
view it = pending it.queue ++ decode 0 it.iter

abbrev pub fresh : DequeItem → Bool
fresh empty = true
fresh (gaps n) = ltb 0 n && ltb n 32
fresh (zeros n) = ltb 0 n && ltb n 32
fresh (diff d) = true

abbrev pub Good : DeltaIter → Type 0
Good it = (is_valid false it.iter ≡ true) × (fresh it.queue ≡ true)

-- A continuation byte adds seven bits, a first byte five.
add_seven :
    (acc b : ℕ)
    → b < 256
    → bit_or (acc * 128 % modulus) (bit_and b 127) ≡ acc * 128 % modulus + b % 128
add_seven acc b h =
    let word : ℕ = acc % 2 ^ 57 in
    let e : acc * 128 % modulus ≡ word * 128 = omega arith in
    rw (e, and_seven b) (or_seven word (b % 128) (omega arith))

add_five :
    (acc b : ℕ) → b < 256 → bit_or (acc * 32 % modulus) (bit_and b 31) ≡ acc * 32 % modulus + b % 32
add_five acc b h =
    let word : ℕ = acc % 2 ^ 59 in
    let e : acc * 32 % modulus ≡ word * 32 = omega arith in
    rw (e, and_five b) (or_five word (b % 32) (omega arith))

-- The queue that a byte below 128 leaves.
item_of : ℕ → ℕ → DequeItem
item_of acc b =
    if ltb b 32
    then diff (positive (acc * 32 % modulus + b))
    else if ltb b 64
    then diff (negative (acc * 32 % modulus + (b - 32)))
    else if ltb b 96
    then zeros (b - 64)
    else gaps (b - 96)

first_byte-item_of : (acc b : ℕ) → b < 128 → first_byte b acc ≡ some (item_of acc b)
unfolding first_byte item_of
first_byte-item_of acc b h =
    ground (arith, and_special b, and_special_three b, and_sign b, and_five b, add_five acc b)

item_of-item :
    (acc b : ℕ)
    → b < 128
    → fits_in false b ≡ true
    → (pending (item_of acc b) ≡ item acc b)
      × (fresh (item_of acc b) ≡ true)
      × (needs_refill (item_of acc b) ≡ false)
unfolding item_of needs_refill
item_of-item acc b h f = ground arith

-- One round of `refill_queue`.
refill_more :
    (b acc : ℕ) (bs : List ℕ) (q : DequeItem)
    → b < 256
    → ltb b 128 ≡ false
    → refill_loop (b ∷ bs) q acc ≡ refill_loop bs q (next_acc acc b)
unfolding refill_loop
refill_more b acc bs q h e = ground (arith, and_continuation b, add_seven acc b)

refill_stop :
    (b acc : ℕ) (bs : List ℕ) (q : DequeItem)
    → b < 128
    → refill_loop (b ∷ bs) q acc ≡ record { iter = bs; queue = item_of acc b }
unfolding refill_loop
refill_stop b acc bs q h = ground (arith, and_continuation b, first_byte-item_of acc b)

record Refilled (acc : ℕ) (bs : List ℕ) (it : DeltaIter) : Type 0 where
  same : view it ≡ decode acc bs
  good : Good it
  ended : needs_refill it.queue ≡ true → view it ≡ []

valid_parts :
    (inside : Bool) (b : ℕ) (bs : List ℕ)
    → is_valid inside (b ∷ bs) ≡ true
    → (b < 256) × (fits_in false b ≡ true) × (is_valid (leb 128 b) bs ≡ true)
unfolding is_valid
valid_parts inside b bs h = ground arith

refill_lem :
    (inside : Bool) (acc : ℕ) (bs : List ℕ)
    → is_valid inside bs ≡ true
    → Refilled acc bs (refill_loop bs empty acc)
refill_lem inside acc [] h =
    unfold refill_loop decode is_valid needs_refill in
    record { same = refl; good = (refl, refl); ended = λ e. refl }
refill_lem inside acc (b ∷ bs) h =
    let (byte, fit, more) = valid_parts inside b bs h in
    elim (Bool-cases (ltb b 128)) [
      | inl low ↦
          let small : b < 128 = ground arith in
          let (same, isfresh, full) = item_of-item acc b small fit in
          rw (refill_stop b acc bs empty small) (record {
            same = unfold decode in ground (arith, same);
            good = (ground arith, isfresh);
            ended = λ e. cc;
          })
      | inr high ↦
          let r : Refilled (next_acc acc b) bs (refill_loop bs empty (next_acc acc b)) =
            refill_lem (leb 128 b) (next_acc acc b) bs more in
          rw (refill_more b acc bs empty byte high) (record {
            same = r.same ∙ sym (unfold decode in rw high);
            good = r.good;
            ended = r.ended;
          })
    ]

-- What an iterator has to yield, taken apart.
abbrev pub uncons : List Delta → Option Delta × List Delta
uncons [] = (none, [])
uncons (d ∷ ds) = (some d, ds)

-- The queue gives the head of what it holds.
take_item-uncons :
    (q : DequeItem) (rest : List Delta)
    → fresh q ≡ true
    → needs_refill q ≡ false
    → let (q', result) = take_item q in
      (fresh q' ≡ true) × ((result, pending q' ++ rest) ≡ uncons (pending q ++ rest))
unfolding take_item needs_refill
take_item-uncons empty rest h e = cc
take_item-uncons (diff d) rest h e = (refl, refl)
take_item-uncons (gaps zero) rest h e = cc
take_item-uncons (gaps (suc zero)) rest h e = (refl, refl)
take_item-uncons (gaps (suc (suc n))) rest h e =
    let less : dec_u8 (suc (suc n)) ≡ suc n = ground arith in rw less (ground arith, ground arith)
take_item-uncons (zeros zero) rest h e = cc
take_item-uncons (zeros (suc zero)) rest h e = (refl, refl)
take_item-uncons (zeros (suc (suc n))) rest h e =
    let less : dec_u8 (suc (suc n)) ≡ suc n = ground arith in rw less (ground arith, ground arith)

empty_of : (q : DequeItem) → fresh q ≡ true → needs_refill q ≡ true → q ≡ empty
unfolding needs_refill
empty_of empty h e = refl
empty_of (gaps n) h e = ground arith
empty_of (zeros n) h e = ground arith
empty_of (diff d) h e = cc

-- The second half of `next`.
abbrev serve : DeltaIter → Option Delta × DeltaIter
serve it = ((take_item it.queue).1, record it { queue = (take_item it.queue).0 })

serve-uncons :
    (it : DeltaIter)
    → Good it
    → (needs_refill it.queue ≡ true → view it ≡ [])
    → Good (serve it).1 × (((serve it).0, view (serve it).1) ≡ uncons (view it))
unfolding take_item
serve-uncons it h ended = elim (Bool-cases (needs_refill it.queue)) [
  | inl e ↦
      let q : it.queue ≡ empty = empty_of it.queue h.1 e in
      let none_left : decode 0 it.iter ≡ [] = rw q at (ended e) in rw q ((h.0, refl), rw none_left)
  | inr e ↦ let (f, u) = take_item-uncons it.queue (decode 0 it.iter) h.1 e in ((h.0, f), u)
]

-- `DeltaIter::next` on an iterator over valid bytes gives the first of the deltas that are left,
-- or `none` if there is none, and leaves the others.
pub next-uncons :
    (it : DeltaIter)
    → Good it
    → Good (next it).1 × (((next it).0, view (next it).1) ≡ uncons (view it))
unfolding next refill_queue
next-uncons it h = elim (Bool-cases (needs_refill it.queue)) [
  | inl e ↦
      let q : it.queue ≡ empty = empty_of it.queue h.1 e in
      let r : Refilled 0 it.iter (refill_loop it.iter empty 0) = refill_lem false 0 it.iter h.0 in
      rw (e, q, ← r.same) (serve-uncons (refill_loop it.iter empty 0) r.good r.ended)
  | inr e ↦ rw e (serve-uncons it h (λ f. cc))
]

-- `Iterator::collect`, at most `fuel` calls of `next`.
unfoldable pub collect : ℕ → DeltaIter → List Delta
collect zero it = []
collect (suc fuel) it = elim (next it).0 [ none ↦ [] | some d ↦ d ∷ collect fuel (next it).1 ]

-- With more fuel than there are deltas left, an iterator over valid bytes yields them all and ends.
pub collect_lem :
    (fuel : ℕ) (it : DeltaIter) → Good it → length (view it) < fuel → collect fuel it ≡ view it
unfolding collect
collect_lem zero it h f = absurd (omega arith)
collect_lem (suc fuel) it h f =
    let (good, served) = next-uncons it h in
    go (view it) refl served f (collect_lem fuel (next it).1 good)
  where
    go :
        (ds : List Delta)
        → view it ≡ ds
        → ((next it).0, view (next it).1) ≡ uncons ds
        → length ds < suc fuel
        → (length (view (next it).1) < fuel → collect fuel (next it).1 ≡ view (next it).1)
        → collect (suc fuel) it ≡ view it
    go [] e served f ih = rw (ap (λ p. p.0) served, collect, e) refl
    go (d ∷ ds) e served f ih =
        let rest : view (next it).1 ≡ ds = ap (λ p. p.1) served in
        rw (ap (λ p. p.0) served, collect, e) (ap (◌∷◌ d) (ih (rw rest (omega arith)) ∙ rest))

-- The deltas of a buffer, as `deltas().collect()` gives them.
unfoldable pub delta_list : DeltaBuf → List Delta
delta_list buf = collect (31 * length buf + 1) (deltas buf)

-- Iterating over a valid buffer ends within 31 rounds a byte, and yields what its bytes mean.
pub delta_list-contents : (buf : DeltaBuf) → IsValid buf → delta_list buf ≡ contents buf
unfolding delta_list deltas
delta_list-contents buf h =
    collect_lem (31 * length buf + 1) (deltas buf) (h, refl) (omega (arith, length-decode 0 buf))
