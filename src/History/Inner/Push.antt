-- ===== src/History/Inner/Push.antt =====
-- `Inner::push` over a delta buffer, by the history that it leaves.
use cantal.Common.{
  ℕ, zero, suc, ◌+◌, ◌-◌, ◌≤◌, ◌<◌, ◌≡◌, refl, ap, ◌∙◌, arith, true, false, if◌then◌else◌,
}
use cantal.Common.{
  Option, none, some, List, ◌∷◌, ◌++◌, replicate, lt→ltb, ge→ltb, inl, inr, Bool-cases,
}
use cantal.History.Word.{Width, unsigned, signed, half, word_add, word_sub, Fits, gap, gtb, rank}
use cantal.History.DeltaBuf.{DeltaBuf, Delta}
use cantal.History.DeltaBuf.Decode.{IsValid, contents}
use cantal.History.DeltaBuf.Push.{delta_between, push_lem}
use cantal.History.Inner.{Inner, delta_buf, push}
use cantal.History.Inner.Timeline.{replay, timeline}

-- What the history tells of the value before `new`: it is lost if the value fell.
abbrev pub before : Width → ℕ → ℕ → Option ℕ
before w old new = if gtb w old new then none else some old

back_down :
    (w : Width) (old new : ℕ)
    → Fits w old new
    → gtb w old new ≡ false
    → word_sub new (gap w old new) ≡ old
back_down unsigned old new f e = ground arith
back_down signed old new f e =
    let order : rank signed old ≤ rank signed new = ground arith in rw e (omega arith)

back_up :
    (w : Width) (old new : ℕ)
    → Fits w old new
    → gtb w old new ≡ true
    → word_add new (gap w old new) ≡ old
back_up unsigned old new f e = ground arith
back_up signed old new f e =
    let order : rank signed new < rank signed old = ground arith in rw e (omega arith)

replay-skips :
    (t n : ℕ) (ds : List Delta)
    → replay t (replicate n Delta.skip ++ ds) ≡ replicate n none ++ replay t ds
replay-skips t zero ds = refl
replay-skips t (suc n) ds = ap (◌∷◌ none) (replay-skips t n ds)

replay-delta_between :
    (w : Width) (old new : ℕ) (ds : List Delta)
    → Fits w old new
    → replay new (delta_between w old new ∷ ds) ≡ before w old new ∷ replay old ds
replay-delta_between w old new ds f = elim (Bool-cases (gtb w old new)) [
  | inl e ↦ rw (e, rw e at (back_up w old new f e))
  | inr e ↦ rw (e, rw e at (back_down w old new f e))
]

-- Pushing a value `new` read at scan `age`, later than the newest one (by at most 2 ^ 63 scans),
-- onto a metric with a valid buffer succeeds and leaves a valid buffer. The history tells of
-- `new`, then of the value before it (not told if that was greater), then of nothing for each scan
-- that missed the metric, then of what it told before. For i64 the two values are to be less
-- than 2 ^ 63 apart.
pub timeline-push :
    (w : Width) (i : Inner ℕ DeltaBuf) (new age now : ℕ)
    → IsValid i.buf
    → Fits w i.tip new
    → i.age < age
    → age ≤ i.age + half
    → let (i', done) = push (delta_buf w) i new age in
      (done ≡ true)
      × IsValid i'.buf
      × (timeline i' now
          ≡ replicate (now - age) none
            ++ (some new
                ∷ (before w i.tip new
                    ∷ (replicate (age - i.age - 1) none ++ replay i.tip (contents i.buf)))))
unfolding push
timeline-push w i new age now v f h k =
    let (v', e) = push_lem w i.buf i.tip new (age - i.age) v f (omega arith) (omega arith) in
    let ds : List Delta = replicate (age - i.age - 1) Delta.skip ++ contents i.buf in
    rw (ge→ltb age i.age (omega arith)) (
      refl,
      v',
      ap (λ vs. replicate (now - age) none ++ (some new ∷ vs))
          (ap (replay new) e
            ∙ replay-delta_between w i.tip new ds f
            ∙ ap (◌∷◌ (before w i.tip new))
                (replay-skips i.tip (age - i.age - 1) (contents i.buf))),
    )

-- A push for an earlier scan than the newest value's is refused.
pub push_old :
    (w : Width) (i : Inner ℕ DeltaBuf) (new age : ℕ)
    → age < i.age
    → push (delta_buf w) i new age ≡ (i, false)
unfolding push
push_old w i new age h = rw (lt→ltb age i.age h)
