-- ===== src/History/DeltaBuf.antt =====
-- cantal_history/src/deltabuf.rs: a compressed sequence of the differences between successive
-- values of a metric, newest first, in a deque of bytes (a list, its front first).
pub mod Decode
pub mod Iterate
pub mod Push
pub mod Prefix
pub mod Truncate
mod Tests
use cantal.Common.{ℕ, zero, suc, ◌+◌, ◌-◌, ◌%◌, min, bit_and, bit_or}
use cantal.Common.{Bool, true, false, not, ◌&&◌, ltb, leb, ◌==◌, if◌then◌else◌}
use cantal.Common.{Option, none, some, List, [], ◌∷◌, length, get_elem?, set, take}
use cantal.History.Word.{Width, word_sub, gtb, shift_left, shift_right, half}

abbrev pub sign_bit : ℕ
sign_bit = 0b00100000

abbrev pub special_bit : ℕ
special_bit = 0b01000000

abbrev pub special_bits : ℕ
special_bits = 0b11100000

abbrev pub special_mask : ℕ
special_mask = 0b00011111

abbrev pub skip_bits : ℕ
skip_bits = 0b01100000

abbrev pub zero_bits : ℕ
zero_bits = 0b01000000

abbrev pub first_byte_shift : ℕ
first_byte_shift = 5

abbrev pub continuation_bit : ℕ
continuation_bit = 0b10000000

abbrev pub continuation_shift : ℕ
continuation_shift = 7

abbrev pub first_byte_mask : ℕ
first_byte_mask = 0b00011111

abbrev pub continuation_mask : ℕ
continuation_mask = 0b01111111

-- `DeltaBuf<T>`: its deque of bytes.
abbrev pub DeltaBuf : Type 0
DeltaBuf = List ℕ

pub data Delta : Type 0 where
  positive : ℕ → Delta
  negative : ℕ → Delta
  skip : Delta

pub data DequeItem : Type 0 where
  empty : DequeItem
  gaps : ℕ → DequeItem
  zeros : ℕ → DequeItem
  diff : Delta → DequeItem

pub record DeltaIter : Type 0 where
  pub iter : List ℕ
  pub queue : DequeItem

-- What `refill_queue` makes of a byte without the continuation bit, over what is read of the
-- delta so far. The branch of erroneous special bits leaves the queue and goes on with the loop.
abbrev pub Step : Type 0
Step = Option DequeItem

first_byte : ℕ → ℕ → Step
first_byte byte delta =
    if not (bit_and byte special_bit == 0)
    then (if bit_and byte special_bits == skip_bits
        then some (gaps (bit_and byte special_mask))
        else if bit_and byte special_bits == zero_bits
        then some (zeros (bit_and byte special_mask))
        else none)
    else (let delta' = bit_or (shift_left delta first_byte_shift) (bit_and byte first_byte_mask) in
        if not (bit_and byte sign_bit == 0)
        then some (diff (negative delta'))
        else some (diff (positive delta')))

-- The loop of `refill_queue`, over `self.iter`, `self.queue` and `delta`.
refill_loop : List ℕ → DequeItem → ℕ → DeltaIter
refill_loop [] queue delta = record { iter = []; queue = queue }
refill_loop (byte ∷ rest) queue delta =
    let more =
      refill_loop rest queue
        (bit_or (shift_left delta continuation_shift) (bit_and byte continuation_mask)) in
    let again = refill_loop rest queue delta in
    if not (bit_and byte continuation_bit == 0) then more else elim (first_byte byte delta) [
      | some item ↦ record { iter = rest; queue = item }
      | none ↦ again
    ]

pub refill_queue : DeltaIter → DeltaIter
refill_queue it = refill_loop it.iter it.queue 0

-- `Empty | Gaps(0) | Zeros(0)`.
needs_refill : DequeItem → Bool
needs_refill empty = true
needs_refill (gaps n) = n == 0
needs_refill (zeros n) = n == 0
needs_refill (diff d) = false

-- `x - 1` on a u8.
abbrev pub dec_u8 : ℕ → ℕ
dec_u8 x = (x + 255) % 256

-- The new queue and the result.
take_item : DequeItem → DequeItem × Option Delta
take_item empty = (empty, none)
take_item (diff d) = (empty, some d)
take_item (gaps x) = (if x == 1 then empty else gaps (dec_u8 x), some skip)
take_item (zeros x) = (if x == 1 then empty else zeros (dec_u8 x), some (positive 0))

-- `DeltaIter::next`.
pub next : DeltaIter → Option Delta × DeltaIter
next it =
    let it' = if needs_refill it.queue then refill_queue it else it in
    let (queue', result) = take_item it'.queue in (result, record it' { queue = queue' })

unfoldable pub new : DeltaBuf
new = []

-- `deltas`.
unfoldable pub deltas : DeltaBuf → DeltaIter
deltas buf = record { iter = buf; queue = empty }

-- `min(age_diff as i64, SPECIAL_MASK as i64) as u8`: from 2 ^ 63 on the cast is negative.
gap_count : ℕ → ℕ
gap_count age_diff = if ltb age_diff half then min age_diff special_mask else age_diff % 256

-- `while age_diff > 0`, at most `fuel` rounds.
pub push_gaps : ℕ → ℕ → DeltaBuf → DeltaBuf
push_gaps zero age_diff deque = deque
push_gaps (suc fuel) age_diff deque =
    let cd = gap_count age_diff in
    let rest = push_gaps fuel (age_diff - cd) (bit_or skip_bits cd ∷ deque) in
    if ltb 0 age_diff then rest else deque

-- A zero delta: one more in the run at the front, or a new run.
pub push_zero : DeltaBuf → DeltaBuf
push_zero [] = bit_or zero_bits 1 ∷ []
push_zero (byte ∷ deque) =
    if (bit_and byte special_bits == zero_bits) && ltb (bit_and byte special_mask) special_mask
    then bit_or (bit_and byte special_mask + 1) zero_bits ∷ deque
    else bit_or zero_bits 1 ∷ (byte ∷ deque)

-- `while delta > T::zero()`, at most `fuel` rounds.
pub push_groups : Width → ℕ → ℕ → DeltaBuf → DeltaBuf
push_groups w zero delta deque = deque
push_groups w (suc fuel) delta deque =
    let rest =
      push_groups w fuel (shift_right w delta continuation_shift)
        (bit_or (bit_and delta continuation_mask) continuation_bit ∷ deque) in
    if gtb w delta 0 then rest else deque

-- 64 bits less the first five are nine groups of seven and a part.
abbrev pub group_rounds : ℕ
group_rounds = 10

pub push_delta : Width → ℕ → ℕ → DeltaBuf → DeltaBuf
push_delta w delta sign deque =
    if delta == 0
    then push_zero deque
    else push_groups w group_rounds (shift_right w delta first_byte_shift)
        (bit_or sign (bit_and delta first_byte_mask) ∷ deque)

pub push : Width → DeltaBuf → ℕ → ℕ → ℕ → DeltaBuf
push w deque old_value new_value age_diff =
    if age_diff == 0
    then deque
    else (let deque' = push_gaps (age_diff - 1) (age_diff - 1) deque in
        if gtb w old_value new_value
        then push_delta w (word_sub old_value new_value) sign_bit deque'
        else push_delta w (word_sub new_value old_value) 0 deque')

-- `_truncate_bytes`: how many bytes to keep and by how much the count in the last one falls, or
-- the number of deltas that there are.
pub data Cut : Type 0 where
  ok : ℕ → ℕ → Cut
  err : ℕ → Cut

truncate_scan : ℕ → List ℕ → ℕ → ℕ → Cut
truncate_scan limit [] idx counter = err counter
truncate_scan limit (byte ∷ rest) idx counter =
    let cnt = bit_and byte special_mask in
    let skipped = truncate_scan limit rest (idx + 1) counter in
    let counted = truncate_scan limit rest (idx + 1) (counter + cnt) in
    let one = truncate_scan limit rest (idx + 1) (counter + 1) in
    if not (bit_and byte continuation_bit == 0)
    then skipped
    else if not (bit_and byte special_bit == 0)
    then (if counter + cnt == limit
        then ok (idx + 1) 0
        else if ltb limit (counter + cnt)
        then ok (idx + 1) ((cnt + 256 - (limit - counter) % 256) % 256)
        else counted)
    else (if leb limit (counter + 1) then ok (idx + 1) 0 else one)

pub truncate_bytes : DeltaBuf → ℕ → Cut
truncate_bytes deque limit = truncate_scan limit deque 0 0

-- `deque[limit_bytes-1] = (b & SPECIAL_BITS) | ((b & SPECIAL_MASK) - truncate_num)`.
shorten_run : DeltaBuf → ℕ → ℕ → DeltaBuf
shorten_run deque limit_bytes truncate_num = elim (get_elem? deque (limit_bytes - 1)) [
  | some b ↦
      set deque (limit_bytes - 1)
        (bit_or (bit_and b special_bits) ((bit_and b special_mask + 256 - truncate_num) % 256))
  | none ↦ deque
]

-- `while deque.len() > limit_bytes { deque.pop_back() }` keeps the first `limit_bytes`.
apply_cut : DeltaBuf → ℕ → Cut → DeltaBuf × ℕ
apply_cut deque limit (err num_current) = (deque, num_current)
apply_cut deque limit (ok limit_bytes truncate_num) = (
  take limit_bytes
      (if ltb 0 truncate_num then shorten_run deque limit_bytes truncate_num else deque),
  limit,
)

pub truncate : DeltaBuf → ℕ → DeltaBuf × ℕ
truncate deque limit =
    if limit == 0 then (new, 0) else apply_cut deque limit (truncate_bytes deque limit)

pub byte_size : DeltaBuf → ℕ
byte_size = length
