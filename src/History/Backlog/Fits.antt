-- ===== src/History/Backlog/Fits.antt =====
-- Pushing to one metric, and truncating it, keep its history within the timestamps.
use cantal.Common.{ℕ, suc, ◌+◌, ◌-◌, ◌≤◌, ◌<◌, ◌≡◌, refl, ap, arith, true, false, min}
use cantal.Common.{List, length, length-take, ge→ltb, gt→leb, le→leb}
use cantal.Common.{some}
use cantal.History.Word.{IsWord, half, Width, unsigned, signed}
use cantal.History.DeltaBuf
use cantal.History.DeltaBuf.{DeltaBuf}
use cantal.History.DeltaBuf.Decode.{contents, decode, is_valid}
use cantal.History.DeltaBuf.Push.{push_count}
use cantal.History.DeltaBuf.Truncate.{truncate_lem}
use cantal.History.Float.{Float}
use cantal.History.Inner
use cantal.History.Inner.Deque.{length-float_push}
use cantal.History.Inner.{Inner, delta_buf, float_buf, float_truncate}
use cantal.History.Values.{TipValue}
use cantal.History.Backlog.{Value, push_value, truncate_value, value_age, tip_value, new_value}
use cantal.History.Backlog.Invariant.{DeltaFits, FloatFits, ValueFits, IsMetric}

-- A scan later, with one more timestamp.
pub DeltaFits-later :
    (age n : ℕ) (i : Inner ℕ DeltaBuf) → DeltaFits age n i → DeltaFits (age + 1) (n + 1) i
DeltaFits-later age n i f = record {
  valid = f.valid;
  word = f.word;
  past = omega arith;
  room = omega arith;
}

pub ValueFits-later :
    {F : Type 0} (age n : ℕ) (v : Value F) → ValueFits age n v → ValueFits (age + 1) (n + 1) v
ValueFits-later age n (Value.counter b) f = DeltaFits-later age n b f
ValueFits-later age n (Value.integer b) f = DeltaFits-later age n b f
ValueFits-later age n (Value.float b) f = record { past = omega arith; room = omega arith }

push-DeltaFits :
    (w : Width) (age n : ℕ) (i : Inner ℕ DeltaBuf) (v : ℕ)
    → DeltaFits age n i
    → IsWord v
    → i.age < age
    → age ≤ half
    → DeltaFits age n (Inner.push (delta_buf w) i v age).0
push-DeltaFits w age n i v f hv h k =
    let (valid, count) =
      push_count w i.buf i.tip v (age - i.age) f.word hv f.valid (omega arith) (omega arith) in
    unfold Inner.push in
    rw (ge→ltb age i.age (omega arith))
      (record { valid = valid; word = hv; past = omega arith; room = omega (arith, count) })

push-FloatFits :
    (fl : Float) (age n : ℕ) (i : Inner fl.F64 (List fl.F64)) (v : fl.F64)
    → FloatFits age n i
    → i.age < age
    → FloatFits age n (Inner.push (float_buf fl) i v age).0
push-FloatFits fl age n i v f h =
    let count = length-float_push fl i.buf i.tip v (age - i.age) (omega arith) in
    unfold Inner.push in
    rw (ge→ltb age i.age (omega arith)) (record { past = omega arith; room = omega (arith, count) })

-- `Value::push` at an age after the value's, of a matching type or not.
pub push_value-ValueFits :
    (fl : Float) (age n : ℕ) (v : Value fl.F64) (new : TipValue fl.F64)
    → ValueFits age n v
    → IsMetric new
    → value_age fl v < age
    → age ≤ half
    → ValueFits age n (push_value fl v new age).0
unfolding push_value value_age
push_value-ValueFits fl age n (Value.counter b) (TipValue.counter v) f m h k =
    push-DeltaFits unsigned age n b v f m h k
push_value-ValueFits fl age n (Value.integer b) (TipValue.integer v) f m h k =
    push-DeltaFits signed age n b v f m h k
push_value-ValueFits fl age n (Value.float b) (TipValue.float v) f m h k =
    push-FloatFits fl age n b v f h
push_value-ValueFits fl age n _ _ f m h k = f

-- `Value::new`.
pub new_value-ValueFits :
    (fl : Float) (age n : ℕ) (new : TipValue fl.F64)
    → IsMetric new
    → 0 < n
    → (v : Value fl.F64) × (new_value fl new age ≡ some v) × ValueFits age n v
unfolding new_value
new_value-ValueFits fl age n (TipValue.counter v) m h = (
  _,
  refl,
  record {
    valid = unfold DeltaBuf.new is_valid in refl;
    word = m;
    past = omega arith;
    room = unfold DeltaBuf.new decode in omega arith;
  },
)
new_value-ValueFits fl age n (TipValue.integer v) m h = (
  _,
  refl,
  record {
    valid = unfold DeltaBuf.new is_valid in refl;
    word = m;
    past = omega arith;
    room = unfold DeltaBuf.new decode in omega arith;
  },
)
new_value-ValueFits fl age n (TipValue.float v) m h =
    (_, refl, record { past = omega arith; room = omega arith })
new_value-ValueFits fl age n (TipValue.state ts text) m h = absurd m

-- Truncation to the scans after `target`.
truncate-DeltaFits :
    (w : Width) (age n target : ℕ) (i : Inner ℕ DeltaBuf)
    → DeltaFits age n i
    → target < i.age
    → DeltaFits age (min n (age - target)) (Inner.truncate (delta_buf w) i target).0
truncate-DeltaFits w age n target i f h =
    let (valid, kept, _) = truncate_lem i.buf (i.age - target - 1) f.valid in
    unfold Inner.truncate in
    rw (gt→leb i.age target h) (record {
      valid = valid;
      word = f.word;
      past = f.past;
      room = omega (arith, ap length kept, length-take (i.age - target - 1) (contents i.buf));
    })

truncate-FloatFits :
    (fl : Float) (age n target : ℕ) (i : Inner fl.F64 (List fl.F64))
    → FloatFits age n i
    → target < i.age
    → FloatFits age (min n (age - target)) (Inner.truncate (float_buf fl) i target).0
truncate-FloatFits fl age n target i f h =
    let kept : i.age - target ≡ suc (i.age - target - 1) = omega arith in
    unfold Inner.truncate float_truncate in
    rw (gt→leb i.age target h) (record {
      past = f.past;
      room = rw kept (omega (arith, length-take (i.age - target - 1) i.buf));
    })

-- `Value::truncate` drops a value exactly when it is not younger than `target`; one that it keeps
-- lies within the timestamps after `target`.
pub truncate_value-dropped :
    (fl : Float) (v : Value fl.F64) (target : ℕ)
    → value_age fl v ≤ target
    → truncate_value fl v target ≡ (v, false)
unfolding truncate_value value_age Inner.truncate
truncate_value-dropped fl (Value.counter b) target h = rw (le→leb b.age target h)
truncate_value-dropped fl (Value.integer b) target h = rw (le→leb b.age target h)
truncate_value-dropped fl (Value.float b) target h = rw (le→leb b.age target h)

pub truncate_value-kept :
    (fl : Float) (v : Value fl.F64) (target : ℕ)
    → target < value_age fl v
    → ((truncate_value fl v target).1 ≡ true)
      × (value_age fl (truncate_value fl v target).0 ≡ value_age fl v)
      × (tip_value fl (truncate_value fl v target).0 ≡ tip_value fl v)
unfolding truncate_value value_age tip_value Inner.truncate
truncate_value-kept fl (Value.counter b) target h = rw (gt→leb b.age target h) (refl, refl, refl)
truncate_value-kept fl (Value.integer b) target h = rw (gt→leb b.age target h) (refl, refl, refl)
truncate_value-kept fl (Value.float b) target h = rw (gt→leb b.age target h) (refl, refl, refl)

pub truncate_value-ValueFits :
    (fl : Float) (age n target : ℕ) (v : Value fl.F64)
    → ValueFits age n v
    → target < value_age fl v
    → ValueFits age (min n (age - target)) (truncate_value fl v target).0
unfolding truncate_value value_age
truncate_value-ValueFits fl age n target (Value.counter b) f h =
    truncate-DeltaFits unsigned age n target b f h
truncate_value-ValueFits fl age n target (Value.integer b) f h =
    truncate-DeltaFits signed age n target b f h
truncate_value-ValueFits fl age n target (Value.float b) f h =
    truncate-FloatFits fl age n target b f h
