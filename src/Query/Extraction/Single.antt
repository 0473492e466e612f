-- ===== src/Query/Extraction/Single.antt =====
-- `extract_single` on a metric of a well-formed backlog finds every timestamp that it looks up.
use cantal.Common.{ℕ, zero, suc, ◌+◌, ◌-◌, ◌≤◌, ◌<◌, ◌≡◌, refl, ap, ◌∙◌, arith, le→leb}
use cantal.Common.{
  Option, none, some, List, [], ◌∷◌, ◌++◌, length, replicate, take, get_elem?, Option-cases, inl,
  inr,
}
use cantal.Common.{length-append, length-replicate, length-map}
use cantal.Common.Maps.{lookup, lookup-All}
use cantal.History.Word.{modulus, word_sub}
use cantal.History.Float.{Float}
use cantal.History.Key.{Key, key_has_eq}
use cantal.History.Values.{TipValue}
use cantal.History.DeltaBuf.Decode.{contents}
use cantal.History.Inner.Timeline.{length-replay, history_list-timeline}
use cantal.History.Inner.Deque.{float_list-timeline, told}
use cantal.History.Backlog.{Backlog, Value, value_age}
use cantal.History.Backlog.Invariant.{BacklogIsValid, ValueFits}
use cantal.Query.Rule.{Extract, tip, diff_to_at_most, history_by_num, history_by_time}
use cantal.Query.Extraction.{
  last, known, last_known, timestamp_at, Slice, extract_tip, between, extract_diff, extract_single,
}

module _ {ℓ} {A : Type ℓ} where
  get_elem?-bound : (xs : List A) (j : ℕ) (a : A) → get_elem? xs j ≡ some a → j < length xs
  get_elem?-bound [] j a h = cc
  get_elem?-bound (x ∷ xs) zero a h = omega arith
  get_elem?-bound (x ∷ xs) (suc j) a h = omega (arith, get_elem?-bound xs j a h)

  get_elem?-inside : (xs : List A) (j : ℕ) → j < length xs → (a : A) × (get_elem? xs j ≡ some a)
  get_elem?-inside [] j h = absurd (omega arith)
  get_elem?-inside (x ∷ xs) zero h = (x, refl)
  get_elem?-inside (x ∷ xs) (suc j) h = get_elem?-inside xs j (omega arith)

  get_elem?-take :
      (n : ℕ) (xs : List A) (j : ℕ) (a : A)
      → get_elem? (take n xs) j ≡ some a
      → get_elem? xs j ≡ some a
  get_elem?-take zero xs j a h = cc
  get_elem?-take (suc n) [] j a h = cc
  get_elem?-take (suc n) (x ∷ xs) zero a h = h
  get_elem?-take (suc n) (x ∷ xs) (suc j) a h = get_elem?-take n xs j a h

module _ {ℓ} {A : Type ℓ} where
  last-known :
      (xs : List (Option A)) (i idx : ℕ) (x : A)
      → last (known i xs) ≡ some (idx, x)
      → (j : ℕ) × (idx ≡ i + j) × (get_elem? xs j ≡ some (some x))
  last-known [] i idx x h = cc
  last-known (none ∷ xs) i idx x h =
      let (j, e, g) = last-known xs (suc i) idx x h in (suc j, omega arith, g)
  last-known (some y ∷ xs) i idx x h = elim (Option-cases (last (known (suc i) xs))) [
    | inl e ↦
        let same : ◌≡◌ {A = Option (ℕ × A)} (some (i, y)) (some (idx, x)) = rw e at h in
        let pair : ◌≡◌ {A = ℕ × A} (i, y) (idx, x) = cc in
        (0, omega (arith, ap (λ p. p.0) pair), ap (λ p. some (some p.1)) pair)
    | inr (z, e) ↦
        let (j, e', g) = last-known xs (suc i) idx x (e ∙ rw e at h) in (suc j, omega arith, g)
  ]

  -- The value that is found stands in the history at the index that is found.
  last_known-found :
      (xs : List (Option A)) (n idx : ℕ) (x : A)
      → last_known xs n ≡ some (idx, x)
      → get_elem? xs idx ≡ some (some x)
  unfolding last_known
  last_known-found [] zero idx x h = cc
  last_known-found [] (suc n) idx x h = cc
  last_known-found (y ∷ xs) n idx x h =
      let (j, e, g) = last-known (take n xs) 1 idx x h in
      let later : idx ≡ suc j = omega (arith, e) in rw later (get_elem?-take n xs j (some x) g)

  -- No value is known for the scans since the newest.
  known_past :
      (m idx : ℕ) (vs : List (Option A)) (x : A)
      → get_elem? (replicate m none ++ vs) idx ≡ some (some x)
      → m ≤ idx
  known_past zero idx vs x h = omega arith
  known_past (suc m) zero vs x h = cc
  known_past (suc m) (suc idx) vs x h = omega (arith, known_past m idx vs x h)

module _ (fl : Float) where
  open fl use {F64}

  -- A slice begins at the scan of index `i`, and ends at that scan or at an older one.
  abbrev pub IsSlice : Backlog F64 → ℕ → Option (Slice fl) → Type 0
  IsSlice bl i none = Unit
  IsSlice bl i (some (value, (newer, older))) =
      (timestamp_at fl bl i ≡ some newer)
      × ((j : ℕ) × (i ≤ j) × (timestamp_at fl bl j ≡ some older))

  abbrev Sliced : Backlog F64 → ℕ → Option (Option (Slice fl)) → Type 0
  Sliced bl i o = (r : Option (Slice fl)) × (o ≡ some r) × IsSlice bl i r

  timestamp_at-inside :
      (bl : Backlog F64) (i : ℕ)
      → i < length bl.timestamps
      → (t : ℕ) × (timestamp_at fl bl i ≡ some t)
  timestamp_at-inside bl i h =
      let (t, e) = get_elem?-inside bl.timestamps i h in (t.0, rw (timestamp_at, e) refl)

  scans_ago :
      (bl : Backlog F64) (age : ℕ)
      → age ≤ bl.age
      → bl.age < modulus
      → word_sub bl.age age ≡ bl.age - age
  scans_ago bl age h k = omega arith

  extract_tip-Sliced :
      (bl : Backlog F64) (value : TipValue F64) (age : ℕ)
      → age ≤ bl.age
      → bl.age < modulus
      → bl.age - age < length bl.timestamps
      → Sliced bl (bl.age - age) (extract_tip fl bl value age)
  unfolding extract_tip
  extract_tip-Sliced bl value age h k l =
      let (t, e) = timestamp_at-inside bl (bl.age - age) l in
      (
        some (value, (t, t)),
        rw (extract_tip, scans_ago bl age h k, e) refl,
        (e, (bl.age - age, omega arith, e)),
      )

  extract_diff-Sliced :
      {A : Type 0} (bl : Backlog F64) (diff : A → TipValue F64) (age n : ℕ) (vs : List (Option A))
      → age ≤ bl.age
      → bl.age < modulus
      → bl.age - age + length vs ≤ length bl.timestamps
      → Sliced bl
          (bl.age - age)
          (extract_diff fl bl diff age (last_known (replicate (bl.age - age) none ++ vs) n))
  unfolding extract_diff between
  extract_diff-Sliced {A = A} bl diff age n vs h k l =
      elim (Option-cases (last_known (replicate (bl.age - age) none ++ vs) n)) [
        | inl e ↦ (none, rw e refl, tt)
        | inr ((idx, x), e) ↦
            let all : List (Option A) = replicate (bl.age - age) none ++ vs in
            let found : get_elem? all idx ≡ some (some x) = last_known-found all n idx x e in
            let past : bl.age - age ≤ idx = known_past (bl.age - age) idx vs x found in
            let bound : idx < length all = get_elem?-bound all idx (some x) found in
            let inside : idx < length bl.timestamps = omega (
              arith,
              length-append (replicate (bl.age - age) none) vs,
              length-replicate {A = Option A} (bl.age - age) none,
            ) in
            let (newer, en) = timestamp_at-inside bl (bl.age - age) (omega arith) in
            let (older, eo) = timestamp_at-inside bl idx inside in
            (
              some (diff x, (newer, older)),
              rw (e, scans_ago bl age h k, le→leb (bl.age - age) idx past, between, en, eo) refl,
              (en, (idx, past, eo)),
            )
      ]

  pub extract_single-fits :
      (bl : Backlog F64) (value : Value F64) (extract : Extract)
      → bl.age < modulus
      → ValueFits bl.age (length bl.timestamps) value
      → (r : Option (Slice fl)) × (extract_single fl value bl extract ≡ some r)
        × IsSlice bl (bl.age - value_age fl value) r
  unfolding extract_single value_age
  extract_single-fits bl (Value.counter b) tip h f =
      extract_tip-Sliced bl (TipValue.counter b.tip) b.age f.past h (omega (arith, f.room))
  extract_single-fits bl (Value.integer b) tip h f =
      extract_tip-Sliced bl (TipValue.integer b.tip) b.age f.past h (omega (arith, f.room))
  extract_single-fits bl (Value.float b) tip h f =
      extract_tip-Sliced bl (TipValue.float b.tip) b.age f.past h (omega (arith, f.room))
  extract_single-fits bl (Value.counter b) (diff_to_at_most n) h f =
      rw (history_list-timeline b bl.age f.valid h) (
        extract_diff-Sliced bl _ b.age n _ f.past h
          (omega (arith, f.room, length-replay b.tip (contents b.buf))))
  extract_single-fits bl (Value.integer b) (diff_to_at_most n) h f =
      rw (history_list-timeline b bl.age f.valid h) (
        extract_diff-Sliced bl _ b.age n _ f.past h
          (omega (arith, f.room, length-replay b.tip (contents b.buf))))
  extract_single-fits bl (Value.float b) (diff_to_at_most n) h f =
      rw (float_list-timeline fl b bl.age h) (
        extract_diff-Sliced bl _ b.age n _ f.past h
          (omega (arith, f.room, length-map (told fl) b.buf)))
  extract_single-fits bl (Value.counter b) (history_by_num n) h f = (none, refl, tt)
  extract_single-fits bl (Value.integer b) (history_by_num n) h f = (none, refl, tt)
  extract_single-fits bl (Value.float b) (history_by_num n) h f = (none, refl, tt)
  extract_single-fits bl (Value.counter b) (history_by_time n) h f = (none, refl, tt)
  extract_single-fits bl (Value.integer b) (history_by_time n) h f = (none, refl, tt)
  extract_single-fits bl (Value.float b) (history_by_time n) h f = (none, refl, tt)

  -- On a metric of a well-formed backlog whose age fits a word, `extract_single` does not panic,
  -- whatever is asked for. What it reads, if anything, begins at the scan of the metric's newest
  -- value and ends at that scan or at an older one, both of which are in the backlog.
  pub extract_single-IsSlice :
      (bl : Backlog F64) (k : Key) (value : Value F64) (extract : Extract)
      → BacklogIsValid bl
      → bl.age < modulus
      → lookup k bl.values ≡ some value
      → (r : Option (Slice fl)) × (extract_single fl value bl extract ≡ some r)
        × IsSlice bl (bl.age - value_age fl value) r
  extract_single-IsSlice bl k value extract v h found =
      extract_single-fits bl value extract h
        (lookup-All (ValueFits bl.age (length bl.timestamps)) k bl.values value found v.fits)
