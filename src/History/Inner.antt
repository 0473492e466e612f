-- ===== src/History/Inner.antt =====
-- cantal_history/src/backlog.rs, `Inner` and the iterators over its history: the newest value of a
-- metric, the scan at which it was read, and a buffer of what was before.
pub mod Timeline
pub mod Push
pub mod Truncate
pub mod Deque
mod Tests
use cantal.Common.{
  ℕ, zero, suc, ◌+◌, ◌-◌, ◌*◌, ◌%◌, Bool, true, false, ltb, leb, ◌==◌, if◌then◌else◌,
}
use cantal.Common.{Option, none, some, List, [], ◌∷◌, length, take}
use cantal.History.Word.{Width, modulus, word_add, word_sub}
use cantal.History.DeltaBuf
use cantal.History.DeltaBuf.{DeltaBuf, DeltaIter, Delta}
use cantal.History.Float.{Float}

pub record Inner (T U : Type 0) : Type 0 where
  pub tip : T
  pub age : ℕ
  pub buf : U

-- The trait `ValueBuf<T>`.
pub record ValueBuf (T U : Type 0) : Type 0 where
  pub push : U → T → T → ℕ → U
  pub truncate : U → ℕ → U

-- `ValueBuf<T> for DeltaBuf<T>`; `saturating_sub` stops at 0.
abbrev pub delta_buf : Width → ValueBuf ℕ DeltaBuf
delta_buf w = record {
  push = DeltaBuf.push w;
  truncate = λ buf limit. (DeltaBuf.truncate buf (limit - 1)).0;
}

-- `ValueBuf<T> for VecDeque<T>`.
module _ (fl : Float) where
  open fl use {F64, nan}

  -- `for _ in 1..age_diff { push_front(nan) }`, over the rounds.
  pub push_nans : ℕ → List F64 → List F64
  push_nans zero deque = deque
  push_nans (suc n) deque = push_nans n (nan ∷ deque)

  unfoldable pub float_push : List F64 → F64 → F64 → ℕ → List F64
  float_push deque old new age_diff =
      if ltb 1 age_diff then push_nans (age_diff - 1) (old ∷ deque) else old ∷ deque

  -- `while self.len() > limit-1 { self.pop_back() }`: `limit - 1` wraps at 0, and no deque is
  -- longer than that.
  unfoldable pub float_truncate : List F64 → ℕ → List F64
  float_truncate deque zero = deque
  float_truncate deque (suc n) = take n deque

  abbrev pub float_buf : ValueBuf F64 (List F64)
  float_buf = record { push = float_push; truncate = float_truncate }

module _ {T U : Type 0} (vb : ValueBuf T U) where
  -- `Inner::push`: history that is there already is refused.
  unfoldable pub push : Inner T U → T → ℕ → Inner T U × Bool
  push i tip age =
      if ltb age i.age
      then (i, false)
      else (record { tip = tip; age = age; buf = vb.push i.buf i.tip tip (age - i.age) }, true)

  unfoldable pub truncate : Inner T U → ℕ → Inner T U × Bool
  truncate i trim_age =
      if leb i.age trim_age
      then (i, false)
      else (record i { buf = vb.truncate i.buf (i.age - trim_age) }, true)

pub data HState : Type 0 where
  skip : ℕ → HState
  tip next : HState

pub record DeltaHistory : Type 0 where
  pub state : HState
  pub iter : DeltaIter
  pub tip : ℕ

-- `x - 1` on a u64.
abbrev pub dec_u64 : ℕ → ℕ
dec_u64 x = (x + (modulus - 1)) % modulus

-- The arm `Next`: the delta leads from the tip to the value before it. After a fall of the value
-- there is no telling what was before.
apply_delta : DeltaHistory → Option Delta → Option (Option ℕ) × ℕ
apply_delta h none = (none, h.tip)
apply_delta h (some (Delta.positive x)) = (some (some (word_sub h.tip x)), word_sub h.tip x)
apply_delta h (some (Delta.negative x)) = (some none, word_add h.tip x)
apply_delta h (some Delta.skip) = (some none, h.tip)

delta_next_in : HState → DeltaHistory → Option (Option ℕ) × DeltaHistory
delta_next_in (HState.skip x) h =
    (some none, record h { state = if x == 1 then HState.tip else HState.skip (dec_u64 x) })
delta_next_in HState.tip h = (some (some h.tip), record h { state = HState.next })
delta_next_in HState.next h =
    let (delta, iter') = DeltaBuf.next h.iter in
    let (res, tip') = apply_delta h delta in
    (res, record { state = HState.next; iter = iter'; tip = tip' })

-- `DeltaHistory::next`.
pub delta_next : DeltaHistory → Option (Option ℕ) × DeltaHistory
delta_next h = delta_next_in h.state h

-- `if age_diff > 0 { Skip(age_diff) } else { Tip }`, with `saturating_sub`.
pub start : ℕ → ℕ → HState
start current_age age =
    let age_diff = current_age - age in if ltb 0 age_diff then HState.skip age_diff else HState.tip

-- `Inner::history` over a delta buffer.
pub history : Inner ℕ DeltaBuf → ℕ → DeltaHistory
history i current_age = record {
  state = start current_age i.age;
  iter = DeltaBuf.deltas i.buf;
  tip = i.tip;
}

module _ (fl : Float) where
  open fl use {F64, is_nan}

  pub record FloatHistory : Type 0 where
    pub state : HState
    pub iter : List F64
    pub tip : F64

  float_next_in : HState → FloatHistory → Option (Option F64) × FloatHistory
  float_next_in (HState.skip x) h =
      (some none, record h { state = if x == 1 then HState.tip else HState.skip (dec_u64 x) })
  float_next_in HState.tip h = (some (some h.tip), record h { state = HState.next })
  float_next_in HState.next h = elim h.iter [
    | [] ↦ (none, record h { state = HState.next })
    | x ∷ xs ↦
        (some (if is_nan x then none else some x), record h { state = HState.next; iter = xs })
  ]

  -- `FloatHistory::next`.
  pub float_next : FloatHistory → Option (Option F64) × FloatHistory
  float_next h = float_next_in h.state h

  -- `Inner::history` over a deque of floats.
  pub float_history : Inner F64 (List F64) → ℕ → FloatHistory
  float_history i current_age = record {
    state = start current_age i.age;
    iter = i.buf;
    tip = i.tip;
  }
