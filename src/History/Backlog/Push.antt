-- ===== src/History/Backlog/Push.antt =====
-- `Backlog::push` succeeds on the metrics of a scan and keeps the backlog well formed.
use cantal.Common.{ℕ, suc, ◌+◌, ◌≤◌, ◌<◌, ◌≡◌, refl, ◌∙◌, arith, true, false}
use cantal.Common.{List, [], ◌∷◌, length, inl, inr, Bool-cases, Option-cases, All}
use cantal.Common.{Option, some}
use cantal.Common.Maps.{
  Map, lookup, insert, insert-All, lookup-All, lookup-insert, Unique, insert-Unique,
}
use cantal.History.Word.{half}
use cantal.History.Float.{Float}
use cantal.History.Key.{Key, key_eq, key_has_eq}
use cantal.History.Values.{TipValue}
use cantal.History.Backlog.{
  Backlog, Value, SnapTime, push_value, value_age, begin_value, push_metric, push_metrics, is_newer,
  push,
}
use cantal.History.Backlog.Invariant.{ValueFits, EntriesFit, Descending, BacklogIsValid, IsMetric}
use cantal.History.Backlog.Fits.{ValueFits-later, push_value-ValueFits, new_value-ValueFits}

-- What a scan hands over: its metrics, each key once.
abbrev pub IsScan : {F : Type 0} → List (Key × TipValue F) → Type 0
IsScan [] = Unit
IsScan ((k, v) ∷ iter) = IsMetric v × All (λ e. key_eq k e.0 ≡ false) iter × IsScan iter

EntriesFit-later :
    {F : Type 0} (age n : ℕ) (values : Map Key (Value F))
    → EntriesFit age n values
    → EntriesFit (age + 1) (n + 1) values
EntriesFit-later age n [] f = tt
EntriesFit-later age n ((k, v) ∷ values) f =
    (ValueFits-later age n v f.0, EntriesFit-later age n values f.1)

module _ (fl : Float) (age n : ℕ) (room : 0 < n) (bound : age ≤ half) where
  open fl use {F64}

  -- The metric of a key, if there is one, is of an earlier scan.
  abbrev Earlier : Map Key (Value F64) → Key → Type 0
  Earlier values k = (v : Value F64) → lookup k values ≡ some v → value_age fl v < age

  record Pushed (values : Map Key (Value F64)) (k : Key) (r : Option (Map Key (Value F64)))
      : Type 0 where
    after : Map Key (Value F64)
    result : r ≡ some after
    unique : Unique after
    fits : EntriesFit age n after
    others : (j : Key) → key_eq k j ≡ false → lookup j after ≡ lookup j values

  insert-Pushed :
      (values : Map Key (Value F64)) (k : Key) (v : Value F64)
      → EntriesFit age n values
      → Unique values
      → ValueFits age n v
      → Pushed values k (some (insert k v values))
  insert-Pushed values k v f u h = record {
    unique = insert-Unique k v values u;
    after = insert k v values;
    result = refl;
    fits = insert-All (ValueFits age n) k v values h f;
    others = λ j ne. lookup-insert k j v values ∙ rw ne;
  }

  begin-Pushed :
      (values : Map Key (Value F64)) (k : Key) (v : TipValue F64)
      → EntriesFit age n values
      → Unique values
      → IsMetric v
      → Pushed values k (begin_value fl values k v age)
  unfolding begin_value
  begin-Pushed values k v f u m =
      let (value, e, h) = new_value-ValueFits fl age n v m room in
      rw (begin_value, e) (insert-Pushed values k value f u h)

  push_metric-Pushed :
      (values : Map Key (Value F64)) (k : Key) (v : TipValue F64)
      → EntriesFit age n values
      → Unique values
      → IsMetric v
      → Earlier values k
      → Pushed values k (push_metric fl values k v age)
  unfolding push_metric
  push_metric-Pushed values k v f u m earlier = elim (Option-cases (lookup k values)) [
    | inl e ↦ rw (push_metric, e) (begin-Pushed values k v f u m)
    | inr (old, e) ↦
        let h : ValueFits age n (push_value fl old v age).0 =
          push_value-ValueFits fl age n old v (lookup-All (ValueFits age n) k values old e f) m
            (earlier old e) bound in
        rw (push_metric, e)
          (elim (Bool-cases (push_value fl old v age).1) [
            | inl t ↦ rw t (insert-Pushed values k (push_value fl old v age).0 f u h)
            | inr t ↦ rw t (begin-Pushed values k v f u m)
          ])
  ]

  -- The keys still to come are untouched.
  AllEarlier : Map Key (Value F64) → List (Key × TipValue F64) → Type 0
  AllEarlier values iter = All (λ e. Earlier values e.0) iter

  AllEarlier-others :
      (values after : Map Key (Value F64)) (k : Key) (iter : List (Key × TipValue F64))
      → ((j : Key) → key_eq k j ≡ false → lookup j after ≡ lookup j values)
      → All (λ e. key_eq k e.0 ≡ false) iter
      → AllEarlier values iter
      → AllEarlier after iter
  unfolding AllEarlier
  AllEarlier-others values after k [] same ne a = tt
  AllEarlier-others values after k ((j, v) ∷ iter) same ne a = (
    λ old found. a.0 old (rw (same j ne.0) at found),
    AllEarlier-others values after k iter same ne.1 a.1,
  )

  push_metrics-EntriesFit :
      (values : Map Key (Value F64)) (iter : List (Key × TipValue F64))
      → EntriesFit age n values
      → Unique values
      → IsScan iter
      → AllEarlier values iter
      → (after : Map Key (Value F64)) × (push_metrics fl values iter age ≡ some after)
        × EntriesFit age n after
        × Unique after
  unfolding push_metrics AllEarlier
  push_metrics-EntriesFit values [] f u m a = (values, refl, f, u)
  push_metrics-EntriesFit values ((k, v) ∷ iter) f u m a =
      let p : Pushed values k (push_metric fl values k v age) =
        push_metric-Pushed values k v f u m.0 a.0 in
      let (after, e, f', u') =
        push_metrics-EntriesFit p.after iter p.fits p.unique m.2
          (AllEarlier-others values p.after k iter p.others m.1 a.1) in
      (after, rw (push_metrics, p.result) e, f', u')

  all_earlier :
      (values : Map Key (Value F64)) (iter : List (Key × TipValue F64))
      → ((k : Key) → Earlier values k)
      → AllEarlier values iter
  unfolding AllEarlier
  all_earlier values [] h = tt
  all_earlier values ((k, v) ∷ iter) h = (h k, all_earlier values iter h)

value_age-le :
    (fl : Float) (age n : ℕ) (v : Value fl.F64) → ValueFits age n v → value_age fl v ≤ age
unfolding value_age
value_age-le fl age n (Value.counter b) f = f.past
value_age-le fl age n (Value.integer b) f = f.past
value_age-le fl age n (Value.float b) f = f.past

Descending-cons :
    (t : SnapTime) (ts : List SnapTime) → Descending ts → is_newer t ts ≡ true → Descending (t ∷ ts)
Descending-cons t [] d h = tt
Descending-cons t (u ∷ ts) d h = (ground arith, d)

-- Pushing a scan (no states, each key once, words of 64 bits) whose timestamp is newer than the
-- newest one does not panic, and leaves a well-formed backlog that is one scan older, with that
-- timestamp in front. The age is to stay within 2 ^ 63.
pub push-BacklogIsValid :
    (fl : Float) (bl : Backlog fl.F64) (timestamp : SnapTime) (iter : List (Key × TipValue fl.F64))
    → BacklogIsValid bl
    → IsScan iter
    → is_newer timestamp bl.timestamps ≡ true
    → bl.age + 1 ≤ half
    → (bl' : Backlog fl.F64) × (push fl bl timestamp iter ≡ some bl')
      × BacklogIsValid bl'
      × (bl'.age ≡ bl.age + 1)
      × (bl'.timestamps ≡ timestamp ∷ bl.timestamps)
unfolding push
push-BacklogIsValid fl bl timestamp iter v m newer bound =
    let n : ℕ = suc (length bl.timestamps) in
    let one_more : length bl.timestamps + 1 ≡ n = omega arith in
    let later : EntriesFit (bl.age + 1) n bl.values =
      rw one_more at (EntriesFit-later bl.age (length bl.timestamps) bl.values v.fits) in
    let (after, e, f, u) =
      push_metrics-EntriesFit fl (bl.age + 1) n (omega arith) bound bl.values iter later v.unique m
        (all_earlier fl (bl.age + 1) n (omega arith) bound bl.values iter earlier) in
    (
      record { age = bl.age + 1; timestamps = timestamp ∷ bl.timestamps; values = after },
      rw (newer, e) refl,
      record {
        recorded = omega (arith, v.recorded);
        ordered = Descending-cons timestamp bl.timestamps v.ordered newer;
        unique = u;
        fits = f;
      },
      refl,
      refl,
    )
  where
    earlier :
        (k : Key) (old : Value fl.F64)
        → lookup k bl.values ≡ some old
        → value_age fl old < bl.age + 1
    earlier k old found =
        let past : value_age fl old ≤ bl.age =
          value_age-le fl bl.age (length bl.timestamps) old
            (lookup-All (ValueFits bl.age (length bl.timestamps)) k bl.values old found v.fits) in
        omega arith
