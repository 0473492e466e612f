-- ===== src/History/Inner/Timeline.antt =====
-- What the history of a counter or an integer yields.
use cantal.Common.{
  ℕ, zero, ◌&&◌, suc, ◌+◌, ◌-◌, ◌*◌, ◌<◌, ◌≡◌, refl, ap, ◌∙◌, arith, Bool, true, ltb, ◌==◌,
  if◌then◌else◌,
}
use cantal.Common.{
  Option, none, some, List, [], ◌∷◌, ◌++◌, length, replicate, length-replicate, length-append, inl,
  inr, Bool-cases,
}
use cantal.History.Word.{modulus, word_add, word_sub}
use cantal.History.DeltaBuf.{empty, deltas, DeltaBuf, Delta, positive, negative}
use cantal.History.DeltaBuf.Decode.{IsValid, contents, length-decode}
use cantal.History.DeltaBuf.Iterate.{view, Good, uncons, next-uncons}
use cantal.History.Inner.{
  Inner, DeltaHistory, HState, skip, tip, next, delta_next, delta_next_in, dec_u64, apply_delta,
  history, start,
}

-- The values that the deltas lead back to, from a value on.
abbrev pub replay : ℕ → List Delta → List (Option ℕ)
replay t [] = []
replay t (positive x ∷ ds) = some (word_sub t x) ∷ replay (word_sub t x) ds
replay t (negative x ∷ ds) = none ∷ replay (word_add t x) ds
replay t (Delta.skip ∷ ds) = none ∷ replay t ds

-- The history of a metric as of a scan: nothing since its newest value was read, that value, and
-- what was before.
abbrev pub timeline : Inner ℕ DeltaBuf → ℕ → List (Option ℕ)
timeline i current_age =
    replicate (current_age - i.age) none ++ (some i.tip ∷ replay i.tip (contents i.buf))

-- `Iterator::collect`, at most `fuel` calls of `next`.
unfoldable pub collect : ℕ → DeltaHistory → List (Option ℕ)
collect zero h = []
collect (suc fuel) h = elim (delta_next h).0 [
  | none ↦ []
  | some v ↦ v ∷ collect fuel (delta_next h).1
]

-- What an iterator over the history has still to yield.
abbrev ahead_in : HState → ℕ → List Delta → List (Option ℕ)
ahead_in (skip n) t ds = replicate n none ++ (some t ∷ replay t ds)
ahead_in tip t ds = some t ∷ replay t ds
ahead_in next t ds = replay t ds

abbrev ahead : DeltaHistory → List (Option ℕ)
ahead h = ahead_in h.state h.tip (view h.iter)

abbrev fine : HState → Bool
fine (skip n) = ltb 0 n && ltb n modulus
fine tip = true
fine next = true

abbrev pop : List (Option ℕ) → Option (Option ℕ) × List (Option ℕ)
pop [] = (none, [])
pop (v ∷ vs) = (some v, vs)

apply_delta-pop :
    (h : DeltaHistory) (ds rest : List Delta) (o : Option Delta)
    → (o, rest) ≡ uncons ds
    → ((apply_delta h o).0, replay (apply_delta h o).1 rest) ≡ pop (replay h.tip ds)
unfolding apply_delta
apply_delta-pop h [] rest o e = rw (ap (λ p. p.0) e, ap (λ p. p.1) e)
apply_delta-pop h (positive x ∷ ds) rest o e = rw (ap (λ p. p.0) e, ap (λ p. p.1) e)
apply_delta-pop h (negative x ∷ ds) rest o e = rw (ap (λ p. p.0) e, ap (λ p. p.1) e)
apply_delta-pop h (Delta.skip ∷ ds) rest o e = rw (ap (λ p. p.0) e, ap (λ p. p.1) e)

replicate-pos : (n : ℕ) (a : Option ℕ) → 0 < n → replicate n a ≡ a ∷ replicate (n - 1) a
replicate-pos zero a h = absurd (omega arith)
replicate-pos (suc n) a h = ap (λ k. a ∷ replicate k a) (omega arith)

-- `n` is a variable here: a skip of 0 would wrap.
skip-pop :
    (n t : ℕ) (ds : List Delta)
    → fine (skip n) ≡ true
    → let s : HState = if n == 1 then tip else skip (dec_u64 n) in
      (fine s ≡ true) × ((some none, ahead_in s t ds) ≡ pop (ahead_in (skip n) t ds))
skip-pop n t ds f = elim (Bool-cases (n == 1)) [
  | inl e ↦ let one : n ≡ 1 = ground arith in rw (e, one) (refl, refl)
  | inr e ↦
      let less : dec_u64 n ≡ n - 1 = ground arith in
      rw (e, less, replicate-pos n none (ground arith)) (ground arith, refl)
]

delta_next-pop :
    (s : HState) (h : DeltaHistory)
    → fine s ≡ true
    → Good h.iter
    → let (v, h') = delta_next_in s h in
      (fine h'.state ≡ true)
      × (Good h'.iter)
      × ((v, ahead h') ≡ pop (ahead_in s h.tip (view h.iter)))
unfolding delta_next_in
delta_next-pop (skip n) h f g = let (f', e) = skip-pop n h.tip (view h.iter) f in (f', g, e)
delta_next-pop tip h f g = (refl, g, refl)
delta_next-pop next h f g =
    let (g', served) = next-uncons h.iter g in
    (refl, g', apply_delta-pop h (view h.iter) _ _ served)

collect_lem :
    (fuel : ℕ) (h : DeltaHistory)
    → fine h.state ≡ true
    → Good h.iter
    → length (ahead h) < fuel
    → collect fuel h ≡ ahead h
unfolding collect delta_next
collect_lem zero h f g l = absurd (omega arith)
collect_lem (suc fuel) h f g l =
    let (f', g', served) = delta_next-pop h.state h f g in
    go (ahead h) refl served l (collect_lem fuel (delta_next h).1 f' g')
  where
    go :
        (vs : List (Option ℕ))
        → ahead h ≡ vs
        → ((delta_next h).0, ahead (delta_next h).1) ≡ pop vs
        → length vs < suc fuel
        → (length (ahead (delta_next h).1) < fuel
            → collect fuel (delta_next h).1 ≡ ahead (delta_next h).1)
        → collect (suc fuel) h ≡ ahead h
    go [] e served l ih = rw (ap (λ p. p.0) served, collect, e) refl
    go (v ∷ vs) e served l ih =
        let rest : ahead (delta_next h).1 ≡ vs = ap (λ p. p.1) served in
        rw (ap (λ p. p.0) served, collect, e) (ap (◌∷◌ v) (ih (rw rest (omega arith)) ∙ rest))

pub length-replay : (t : ℕ) (ds : List Delta) → length (replay t ds) ≡ length ds
length-replay t [] = refl
length-replay t (positive x ∷ ds) = ap suc (length-replay (word_sub t x) ds)
length-replay t (negative x ∷ ds) = ap suc (length-replay (word_add t x) ds)
length-replay t (Delta.skip ∷ ds) = ap suc (length-replay t ds)

pub length-timeline :
    (i : Inner ℕ DeltaBuf) (now : ℕ)
    → length (timeline i now) ≡ now - i.age + 1 + length (contents i.buf)
length-timeline i now = omega (
  arith,
  length-append (replicate (now - i.age) none) (some i.tip ∷ replay i.tip (contents i.buf)),
  length-replicate {A = Option ℕ} (now - i.age) none,
  length-replay i.tip (contents i.buf),
)

-- `history(current_age).collect()`.
unfoldable pub history_list : Inner ℕ DeltaBuf → ℕ → List (Option ℕ)
history_list i now = collect (now - i.age + 2 + 31 * length i.buf) (history i now)

-- The history of a counter or an integer with a valid buffer ends, and is the timeline, for every
-- age of the program (below 2 ^ 64).
pub history_list-timeline :
    (i : Inner ℕ DeltaBuf) (now : ℕ)
    → IsValid i.buf
    → now < modulus
    → history_list i now ≡ timeline i now
unfolding history_list history start deltas
history_list-timeline i now v h = elim (Bool-cases (ltb 0 (now - i.age))) [
  | inl e ↦ rw e (
      collect_lem (now - i.age + 2 + 31 * length i.buf) (begin (skip (now - i.age))) (ground arith)
        (v, refl) enough)
  | inr e ↦
      let today : now - i.age ≡ 0 = ground arith in
      rw (e, today)
        (collect_lem (0 + 2 + 31 * length i.buf) (begin tip) refl (v, refl) (rw today at enough))
]
  where
    begin : HState → DeltaHistory
    begin s = record { state = s; iter = record { iter = i.buf; queue = empty }; tip = i.tip }

    enough : length (timeline i now) < now - i.age + 2 + 31 * length i.buf
    enough = omega (arith, length-timeline i now, length-decode 0 i.buf)
