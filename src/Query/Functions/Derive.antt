-- ===== src/Query/Functions/Derive.antt =====
-- cantal_query/src/functions/derive.rs: the rate of change of series.
use cantal.Common.{
  ℕ, zero, suc, ◌-◌, ◌≡◌, refl, sym, ap, ◌∙◌, arith, min, map, get_elem?, Option, none, some, List,
  [], ◌∷◌, length, take, take-nil,
}
use cantal.History.Word.{word_sub}
use cantal.History.Float.{Float}
use cantal.History.Chunk.{HistoryChunk}
use cantal.Query.Dataset.{Dataset, Series, incompatible, cant_derive, single_series, multi_series}

module _ (fl : Float) where
  open fl use {F64, sub, mul, div, of_u64, of_i64}

  -- `(a - b).to_f64() * 1000. / (ta - tb) as f64`.
  abbrev pub rate : {A : Type 0} → (A → A → F64) → Option A → Option A → ℕ → ℕ → Option F64
  rate change (some a) (some b) ta tb =
      some (div (mul (change a b) (of_u64 1000)) (of_u64 (word_sub ta tb)))
  rate change _ _ ta tb = none

  -- `derive_vec`: the zip of the entries with those one further.
  unfoldable pub derive_vec :
      {A : Type 0} → (A → A → F64) → List (Option A) → List ℕ → List (Option F64 × ℕ)
  derive_vec change [] timestamps = []
  derive_vec change (a ∷ []) timestamps = []
  derive_vec change (a ∷ (b ∷ vec)) [] = []
  derive_vec change (a ∷ (b ∷ vec)) (ta ∷ []) = []
  derive_vec change (a ∷ (b ∷ vec)) (ta ∷ (tb ∷ timestamps)) =
      (rate change a b ta tb, ta) ∷ derive_vec change (b ∷ vec) (tb ∷ timestamps)

  -- `unzip`.
  abbrev pub as_chunk : List (Option F64 × ℕ) → HistoryChunk F64 × List ℕ
  as_chunk points = (HistoryChunk.float (map (λ p. p.0) points), map (λ p. p.1) points)

  unfoldable pub derive_series : HistoryChunk F64 → List ℕ → HistoryChunk F64 × List ℕ
  derive_series (HistoryChunk.state x) timestamps = (HistoryChunk.state x, timestamps)
  derive_series (HistoryChunk.counter items) timestamps =
      as_chunk (derive_vec (λ a b. of_u64 (word_sub a b)) items timestamps)
  derive_series (HistoryChunk.integer items) timestamps =
      as_chunk (derive_vec (λ a b. of_i64 (word_sub a b)) items timestamps)
  derive_series (HistoryChunk.float items) timestamps =
      as_chunk (derive_vec (λ a b. sub a b) items timestamps)

  abbrev pub derive_entry : Series F64 → Series F64
  derive_entry (key, v, ts) = (key, (derive_series v ts).0, (derive_series v ts).1)

  unfoldable pub non_negative_derivative : Dataset F64 → Dataset F64
  non_negative_derivative (multi_series vec) = multi_series (map derive_entry vec)
  non_negative_derivative (single_series series) = single_series (derive_entry series)
  non_negative_derivative (Dataset.single_tip _) = incompatible cant_derive
  non_negative_derivative (Dataset.multi_tip _) = incompatible cant_derive
  non_negative_derivative (Dataset.chart _) = incompatible cant_derive
  non_negative_derivative (incompatible x) = incompatible x
  non_negative_derivative Dataset.empty = Dataset.empty

  derive_vec-times :
      {A : Type 0} (change : A → A → F64) (vec : List (Option A)) (ts : List ℕ)
      → map (λ p. p.1) (derive_vec change vec ts) ≡ take (min (length vec) (length ts) - 1) ts
  unfolding derive_vec
  derive_vec-times change [] ts =
      let nothing : 0 ≡ min 0 (length ts) - 1 = omega arith in ap (λ n. take n ts) nothing
  derive_vec-times change (a ∷ []) [] = refl
  derive_vec-times change (a ∷ []) (ta ∷ ts) =
      let nothing : 0 ≡ min 1 (suc (length ts)) - 1 = omega arith in
      ap (λ n. take n (ta ∷ ts)) nothing
  derive_vec-times change (a ∷ (b ∷ vec)) [] = sym (take-nil (min (suc (suc (length vec))) 0 - 1))
  derive_vec-times change (a ∷ (b ∷ vec)) (ta ∷ []) =
      let nothing : 0 ≡ min (suc (suc (length vec))) 1 - 1 = omega arith in
      ap (λ n. take n (ta ∷ [])) nothing
  derive_vec-times change (a ∷ (b ∷ vec)) (ta ∷ (tb ∷ ts)) =
      let one_more : suc (min (suc (length vec)) (suc (length ts)) - 1)
          ≡ min (suc (suc (length vec))) (suc (suc (length ts))) - 1 =
        omega arith in
      ap (◌∷◌ ta) (derive_vec-times change (b ∷ vec) (tb ∷ ts))
      ∙ ap (λ n. take n (ta ∷ (tb ∷ ts))) one_more

  derive_vec-point :
      {A : Type 0} (change : A → A → F64) (vec : List (Option A)) (ts : List ℕ) (i : ℕ)
      (a b : Option A) (ta tb : ℕ)
      → get_elem? vec i ≡ some a
      → get_elem? vec (suc i) ≡ some b
      → get_elem? ts i ≡ some ta
      → get_elem? ts (suc i) ≡ some tb
      → get_elem? (map (λ p. p.0) (derive_vec change vec ts)) i ≡ some (rate change a b ta tb)
  unfolding derive_vec
  derive_vec-point change [] ts i a b ta tb ea eb eta etb = cc
  derive_vec-point change (x ∷ []) ts i a b ta tb ea eb eta etb = cc
  derive_vec-point change (x ∷ (y ∷ vec)) [] i a b ta tb ea eb eta etb = cc
  derive_vec-point change (x ∷ (y ∷ vec)) (tx ∷ []) i a b ta tb ea eb eta etb = cc
  derive_vec-point change (x ∷ (y ∷ vec)) (tx ∷ (ty ∷ ts)) zero a b ta tb ea eb eta etb =
      let px : x ≡ a = cc in
      let py : y ≡ b = cc in
      let ptx : tx ≡ ta = cc in let pty : ty ≡ tb = cc in rw (px, py, ptx, pty) refl
  derive_vec-point change (x ∷ (y ∷ vec)) (tx ∷ (ty ∷ ts)) (suc i) a b ta tb ea eb eta etb =
      derive_vec-point change (y ∷ vec) (ty ∷ ts) i a b ta tb ea eb eta etb

  -- The rates of a counter or an integer stand at its own timestamps, all but the last (the last
  -- that has an entry, if there are fewer entries). Where the series has two entries in a row, the
  -- newer first, the rate at the newer is the newer value less the older (as a word, read as
  -- unsigned for a counter and as signed for an integer), times 1000, over the newer timestamp less
  -- the older, and is not known if one of the entries is not.
  pub derive_series-rates :
      (vec : List (Option ℕ)) (ts : List ℕ) (i : ℕ) (a b : Option ℕ) (ta tb : ℕ)
      → get_elem? vec i ≡ some a
      → get_elem? vec (suc i) ≡ some b
      → get_elem? ts i ≡ some ta
      → get_elem? ts (suc i) ≡ some tb
      → let n = min (length vec) (length ts) - 1 in
        (us : List (Option F64)) × (ns : List (Option F64)) × (derive_series
            (HistoryChunk.counter vec)
            ts
          ≡ (HistoryChunk.float us, take n ts))
        × (derive_series (HistoryChunk.integer vec) ts ≡ (HistoryChunk.float ns, take n ts))
        × (get_elem? us i
            ≡ some (elim a [
              | none ↦ none
              | some x ↦ elim b [
                | none ↦ none
                | some y ↦
                    some (div (mul (of_u64 (word_sub x y)) (of_u64 1000)) (of_u64 (word_sub ta tb)))
              ]
            ]))
        × (get_elem? ns i
            ≡ some (elim a [
              | none ↦ none
              | some x ↦ elim b [
                | none ↦ none
                | some y ↦
                    some (div (mul (of_i64 (word_sub x y)) (of_u64 1000)) (of_u64 (word_sub ta tb)))
              ]
            ]))
  unfolding derive_series
  derive_series-rates vec ts i a b ta tb ea eb eta etb =
      let unsigned : ℕ → ℕ → F64 = (λ x y. of_u64 (word_sub x y)) in
      let signed : ℕ → ℕ → F64 = (λ x y. of_i64 (word_sub x y)) in
      (
        map (λ p. p.0) (derive_vec unsigned vec ts),
        map (λ p. p.0) (derive_vec signed vec ts),
        ap (as_float (map (λ p. p.0) (derive_vec unsigned vec ts)))
            (derive_vec-times unsigned vec ts),
        ap (as_float (map (λ p. p.0) (derive_vec signed vec ts))) (derive_vec-times signed vec ts),
        derive_vec-point unsigned vec ts i a b ta tb ea eb eta etb ∙ by_cases unsigned a b,
        derive_vec-point signed vec ts i a b ta tb ea eb eta etb ∙ by_cases signed a b,
      )
    where
      as_float : List (Option F64) → List ℕ → HistoryChunk F64 × List ℕ
      as_float rates times = (HistoryChunk.float rates, times)

      by_cases :
          (change : ℕ → ℕ → F64) (a b : Option ℕ)
          → some (rate change a b ta tb)
            ≡ some (elim a [
              | none ↦ none
              | some x ↦ elim b [
                | none ↦ none
                | some y ↦ some (div (mul (change x y) (of_u64 1000)) (of_u64 (word_sub ta tb)))
              ]
            ])
      by_cases change none none = refl
      by_cases change none (some y) = refl
      by_cases change (some x) none = refl
      by_cases change (some x) (some y) = refl
