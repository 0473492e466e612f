-- ===== src/Carbon/Rates.antt =====
-- The difference behind a rate is read from a well-formed backlog without a panic.
use cantal.Common.{
  ℕ, ◌<◌, leb, ◌≡◌, refl, ◌∙◌, ap, Bool-cases, inl, inr, Option, none, some, Option-cases,
}
use cantal.Common.Maps.{lookup}
use cantal.History.Word.{modulus, word_sub, saturating_sub, unsigned}
use cantal.History.Float.{Float}
use cantal.History.DeltaBuf.{DeltaBuf}
use cantal.History.Key.{Key, key_has_eq}
use cantal.History.Values.{TipValue}
use cantal.History.Inner.{Inner}
use cantal.History.Inner.Timeline.{history_list}
use cantal.History.Backlog.{Backlog, Value}
use cantal.History.Backlog.Invariant.{BacklogIsValid}
use cantal.Query.Rule.{diff_to_at_most}
use cantal.Query.Extraction
use cantal.Query.Extraction.{last_known, timestamp_at, extract_single, extract_diff, Slice}
use cantal.Query.Extraction.Single.{extract_single-IsSlice}
use cantal.Carbon.{rate_between, get_rate_from_counter, get_counter_diff}

module _ (fl : Float) where
  open fl use {F64}

  -- What a slice of a counter says of its rate.
  abbrev pub as_rate : Option (Option (Slice fl)) → Option (Option (ℕ × ℕ))
  as_rate none = none
  as_rate (some none) = some none
  as_rate (some (some (TipValue.counter v, (newer, older)))) = some (some (v, word_sub newer older))
  as_rate (some (some (TipValue.integer v, times))) = some none
  as_rate (some (some (TipValue.float v, times))) = some none
  as_rate (some (some (TipValue.state ts text, times))) = some none

  rate_between-as_rate :
      (bl : Backlog F64) (v cur idx : ℕ)
      → rate_between fl bl v cur idx
        ≡ as_rate (Extraction.between fl bl (TipValue.counter v) cur idx)
  unfolding Extraction.between
  rate_between-as_rate bl v cur idx = elim (Option-cases (timestamp_at fl bl cur)) [
    | inl e ↦ rw (rate_between, Extraction.between, e) refl
    | inr (t, e) ↦ elim (Option-cases (timestamp_at fl bl idx)) [
      | inl f ↦ rw (rate_between, Extraction.between, e, f) refl
      | inr (u, f) ↦ rw (rate_between, Extraction.between, e, f) refl
    ]
  ]

  -- The difference that is sent for a counter is the one that a query for the difference over as
  -- many scans would find.
  get_counter_diff-extract_single :
      (hist : Inner ℕ DeltaBuf) (bl : Backlog F64) (num : ℕ)
      → get_counter_diff fl (Value.counter hist) bl num
        ≡ as_rate (extract_single fl (Value.counter hist) bl (diff_to_at_most num))
  unfolding get_counter_diff get_rate_from_counter extract_single extract_diff
  get_counter_diff-extract_single hist bl num =
      elim (Option-cases (last_known (history_list hist bl.age) num)) [
        | inl e ↦ rw e refl
        | inr ((idx, x), e) ↦ elim (Bool-cases (leb (word_sub bl.age hist.age) idx)) [
          | inl l ↦
              rw (e, l)
                (rate_between-as_rate bl (saturating_sub unsigned hist.tip x)
                  (word_sub bl.age hist.age) idx)
          | inr l ↦ rw (e, l) refl
        ]
      ]

  as_rate-some : (r : Option (Slice fl)) → (d : Option (ℕ × ℕ)) × (as_rate (some r) ≡ some d)
  as_rate-some none = (none, refl)
  as_rate-some (some (TipValue.counter v, (newer, older))) = (some (v, word_sub newer older), refl)
  as_rate-some (some (TipValue.integer v, times)) = (none, refl)
  as_rate-some (some (TipValue.float v, times)) = (none, refl)
  as_rate-some (some (TipValue.state ts text, times)) = (none, refl)

  -- For any counter of a well-formed backlog whose age fits a word, over any number of scans:
  -- finding the difference that is sent does not panic, and neither does a query for the
  -- difference over as many scans, which finds the same, with the milliseconds between its scans.
  pub get_counter_diff_total :
      (bl : Backlog F64) (k : Key) (hist : Inner ℕ DeltaBuf) (num : ℕ)
      → BacklogIsValid bl
      → bl.age < modulus
      → lookup k bl.values ≡ some (Value.counter hist)
      → (d : Option (ℕ × ℕ)) × (get_counter_diff fl (Value.counter hist) bl num ≡ some d)
        × (as_rate (extract_single fl (Value.counter hist) bl (diff_to_at_most num)) ≡ some d)
  get_counter_diff_total bl k hist num v small found =
      let (r, e, _) =
        extract_single-IsSlice fl bl k (Value.counter hist) (diff_to_at_most num) v small found in
      let (d, f) = as_rate-some r in
      let query = ap as_rate e ∙ f in
      (d, get_counter_diff-extract_single hist bl num ∙ query, query)
