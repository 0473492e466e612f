-- ===== src/History/Inner/Deque.antt =====
-- The deque of floats in cantal_history/src/backlog.rs (`ValueBuf<T> for VecDeque<T>`).
use cantal.Common.{
  ℕ, zero, suc, ◌+◌, ◌-◌, ◌<◌, ◌≡◌, refl, sym, ap, ◌∙◌, arith, lt→ltb, ge→ltb, ltb, ◌==◌,
  if◌then◌else◌,
}
use cantal.Common.{Option, none, some, map, Bool-cases, inl, inr}
use cantal.Common.{List, [], ◌∷◌, ◌++◌, length, replicate, length-append, length-replicate}
use cantal.History.Float.{Float}
use cantal.History.Word.{modulus}
use cantal.History.Inner.{
  Inner, push, float_buf, push_nans, float_push, FloatHistory, float_next, float_next_in,
  float_history, HState, start, dec_u64,
}

module _ (fl : Float) where
  open fl use {F64, nan, is_nan}

  replicate-snoc :
      (n : ℕ) (a : F64) (xs : List F64) → replicate n a ++ (a ∷ xs) ≡ a ∷ (replicate n a ++ xs)
  replicate-snoc zero a xs = refl
  replicate-snoc (suc n) a xs = ap (◌∷◌ a) (replicate-snoc n a xs)

  push_nans-replicate : (n : ℕ) (deque : List F64) → push_nans fl n deque ≡ replicate n nan ++ deque
  unfolding push_nans
  push_nans-replicate zero deque = refl
  push_nans-replicate (suc n) deque =
      push_nans-replicate n (nan ∷ deque) ∙ replicate-snoc n nan deque

  -- The value before goes in first, and a NaN over it for each scan that missed the metric.
  pub float_push_lem :
      (deque : List F64) (old new : F64) (n : ℕ)
      → 0 < n
      → float_push fl deque old new n ≡ replicate (n - 1) nan ++ (old ∷ deque)
  unfolding float_push
  float_push_lem deque old new zero h = absurd (omega arith)
  float_push_lem deque old new (suc zero) h = refl
  float_push_lem deque old new (suc (suc n)) h =
      rw (lt→ltb 1 (suc (suc n)) (omega arith))
        (push_nans-replicate (suc (suc n) - 1) (old ∷ deque))

  pub length-float_push :
      (deque : List F64) (old new : F64) (n : ℕ)
      → 0 < n
      → length (float_push fl deque old new n) ≡ n + length deque
  length-float_push deque old new n h = rw (float_push_lem deque old new n h) (
      omega
        (arith, length-append (replicate (n - 1) nan) (old ∷ deque), length-replicate (n - 1) nan))

  -- What a deque tells of one scan.
  abbrev pub told : F64 → Option F64
  told x = if is_nan x then none else some x

  -- The history of a float as of a scan.
  abbrev pub float_timeline : Inner F64 (List F64) → ℕ → List (Option F64)
  float_timeline i now = replicate (now - i.age) none ++ (some i.tip ∷ map told i.buf)

  -- `Iterator::collect`, at most `fuel` calls of `next`.
  unfoldable pub float_collect : ℕ → FloatHistory fl → List (Option F64)
  float_collect zero h = []
  float_collect (suc fuel) h = elim (float_next fl h).0 [
    | none ↦ []
    | some v ↦ v ∷ float_collect fuel (float_next fl h).1
  ]

  collect_next :
      (fuel : ℕ) (xs : List F64) (t : F64)
      → length xs < fuel
      → float_collect fuel (record { state = HState.next; iter = xs; tip = t }) ≡ map told xs
  unfolding float_collect float_next float_next_in
  collect_next zero xs t h = absurd (omega arith)
  collect_next (suc fuel) [] t h = refl
  collect_next (suc fuel) (x ∷ xs) t h = ap (◌∷◌ (told x)) (collect_next fuel xs t (omega arith))

  collect_tip :
      (fuel : ℕ) (xs : List F64) (t : F64)
      → length xs + 1 < fuel
      → float_collect fuel (record { state = HState.tip; iter = xs; tip = t })
        ≡ some t ∷ map told xs
  unfolding float_collect float_next float_next_in
  collect_tip zero xs t h = absurd (omega arith)
  collect_tip (suc fuel) xs t h = ap (◌∷◌ (some t)) (collect_next fuel xs t (omega arith))

  collect_skip :
      (fuel n : ℕ) (xs : List F64) (t : F64)
      → 0 < n
      → n < modulus
      → n + length xs + 1 < fuel
      → float_collect fuel (record { state = HState.skip n; iter = xs; tip = t })
        ≡ replicate n none ++ (some t ∷ map told xs)
  unfolding float_collect float_next float_next_in
  collect_skip zero n xs t h k l = absurd (omega arith)
  collect_skip (suc fuel) n xs t h k l = elim (Bool-cases (n == 1)) [
    | inl e ↦
        let one : n ≡ 1 = ground arith in
        rw (e, one) (ap (◌∷◌ none) (collect_tip fuel xs t (omega arith)))
    | inr e ↦
        let less : dec_u64 n ≡ n - 1 = ground arith in
        let more : n ≡ suc (n - 1) = ground arith in
        rw (e, less)
          (ap (◌∷◌ none)
              (collect_skip fuel (n - 1) xs t (ground arith) (omega arith) (ground arith))
            ∙ ap (λ k. replicate k none ++ (some t ∷ map told xs)) (sym more))
  ]

  -- `history(current_age).collect()`.
  unfoldable pub float_list : Inner F64 (List F64) → ℕ → List (Option F64)
  float_list i now = float_collect (now - i.age + 2 + length i.buf) (float_history fl i now)

  -- The history of a float ends, and is its timeline, at every age of the program (below 2 ^ 64).
  pub float_list-timeline :
      (i : Inner F64 (List F64)) (now : ℕ) → now < modulus → float_list i now ≡ float_timeline i now
  unfolding float_list float_history start
  float_list-timeline i now h = elim (Bool-cases (ltb 0 (now - i.age))) [
    | inl e ↦ rw e (
        collect_skip (now - i.age + 2 + length i.buf) (now - i.age) i.buf i.tip (ground arith)
          (omega arith) (omega arith))
    | inr e ↦
        let today : now - i.age ≡ 0 = ground arith in
        rw (e, today) (collect_tip (0 + 2 + length i.buf) i.buf i.tip (omega arith))
  ]

  map-told_nan :
      (n : ℕ) (xs : List F64) → map told (replicate n nan ++ xs) ≡ replicate n none ++ map told xs
  map-told_nan zero xs = refl
  map-told_nan (suc n) xs = rw fl.nan-is_nan (ap (◌∷◌ none) (map-told_nan n xs))

  -- Pushing a float read at a later scan puts the value before in its place: nothing is told for
  -- each scan that missed the metric, then the value before (if it is a number), then what was
  -- told before.
  pub float_timeline-push :
      (i : Inner F64 (List F64)) (new : F64) (age now : ℕ)
      → i.age < age
      → float_timeline (push (float_buf fl) i new age).0 now
        ≡ replicate (now - age) none
          ++ (some new ∷ (replicate (age - i.age - 1) none ++ (told i.tip ∷ map told i.buf)))
  unfolding push
  float_timeline-push i new age now h = rw (ge→ltb age i.age (omega arith)) (
      ap (λ vs. replicate (now - age) none ++ (some new ∷ vs))
        (ap (map told) (float_push_lem i.buf i.tip new (age - i.age) (omega arith))
          ∙ map-told_nan (age - i.age - 1) (i.tip ∷ i.buf)))
