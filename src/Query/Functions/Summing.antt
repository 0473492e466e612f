-- ===== src/Query/Functions/Summing.antt =====
-- What `sum_series` gives for counters, and when it panics.
use cantal.Common.{ℕ, ◌+◌, zero, suc, ◌≤◌, ◌<◌, ◌≡◌, refl, ap, ◌∙◌, arith, true, All}
use cantal.Common.{Option, none, some, List, [], ◌∷◌, ◌++◌, length, map, replicate}
use cantal.Common.{length-replicate}
use cantal.History.Word.{word_add}
use cantal.History.Float.{Float}
use cantal.History.Key.{Key}
use cantal.History.Chunk.{HistoryChunk}
use cantal.History.Merge.{ChunkSet, merge}
use cantal.History.Merge.Kinds.{merge-gathered, all_of, pick_counter, of_kind}
use cantal.Query.Dataset.{Series, ok}
use cantal.Query.Functions.{vec_sum_all, times_eq, all_same, sum_chunks, sum_series, finish}
use cantal.Query.Functions.Columns.{
  entry, column_sum, column_sums, column_sums_unique, vec_sum_all-Summed, vec_sum_all-short,
}

times_eq_refl : (ts : List ℕ) → times_eq ts ts ≡ true
times_eq_refl [] = refl
times_eq_refl (t ∷ ts) = ground (arith, times_eq_refl ts)

module _ (fl : Float) where
  open fl use {F64}

  -- Counters with their keys, over the same timestamps.
  abbrev pub counter_series : List ℕ → Key × List (Option ℕ) → Series F64
  counter_series ts e = (e.0, HistoryChunk.counter e.1, ts)

  same_times :
      (ts : List ℕ) (es : List (Key × List (Option ℕ)))
      → all_same (λ s. times_eq ts s.2) (map (counter_series ts) es) ≡ true
  same_times ts [] = refl
  same_times ts (e ∷ es) = rw (times_eq_refl ts) (same_times ts es)

  all_of-counters :
      (ts : List ℕ) (es : List (Key × List (Option ℕ)))
      → all_of pick_counter (map (λ s. s.1) (map (counter_series ts) es)) ≡ some (map (λ e. e.1) es)
  all_of-counters ts [] = refl
  all_of-counters ts (e ∷ es) = rw (all_of, all_of-counters ts es) refl

  sum_series-vec_sum_all :
      (ts : List ℕ) (first second : Key × List (Option ℕ)) (more : List (Key × List (Option ℕ)))
      → sum_series fl (map (counter_series ts) (first ∷ (second ∷ more)))
        ≡ finish fl HistoryChunk.counter ts (
            vec_sum_all word_add
              (replicate (length ts) none)
              (map (λ e. e.1) (first ∷ (second ∷ more))))
  unfolding sum_series
  sum_series-vec_sum_all ts first second more =
      let set : merge (map (λ s. s.1) (map (counter_series ts) (first ∷ (second ∷ more))))
          ≡ ChunkSet.counters (map (λ e. e.1) (first ∷ (second ∷ more))) =
        merge-gathered (map (λ s. s.1) (map (counter_series ts) (first ∷ (second ∷ more))))
        ∙ ap (of_kind ChunkSet.counters) (all_of-counters ts (first ∷ (second ∷ more))) in
      rw (same_times ts (second ∷ more))
        (ap (λ s. sum_chunks fl s ts) set ∙ unfold sum_chunks in refl)

  long_enough :
      (ts : List ℕ) (es : List (Key × List (Option ℕ)))
      → All (λ e. length ts ≤ length e.1) es
      → All (λ s. length (replicate {A = Option ℕ} (length ts) none) ≤ length s) (map (λ e. e.1) es)
  long_enough ts [] a = tt
  long_enough ts (e ∷ es) a =
      (omega (arith, length-replicate {A = Option ℕ} (length ts) none, a.0), long_enough ts es a.1)

  entry-nothing : (n i : ℕ) → entry (replicate {A = Option ℕ} n none) i ≡ none
  entry-nothing zero i = refl
  entry-nothing (suc n) zero = refl
  entry-nothing (suc n) (suc i) = entry-nothing n i

  sources_around :
      (before after : List (Key × List (Option ℕ))) (short : Key × List (Option ℕ))
      → map (λ e. e.1) (before ++ (short ∷ after))
        ≡ map (λ e. e.1) before ++ (short.1 ∷ map (λ e. e.1) after)
  sources_around [] after short = refl
  sources_around (e ∷ before) after short = ap (◌∷◌ e.1) (sources_around before after short)

  -- Summing two or more counters over the same timestamps, each with an entry for every timestamp,
  -- gives one series over those timestamps, whose entry for each is the sum (as a word) of the
  -- entries that are known there, or nothing if none is.
  pub sum_series-counters :
      (ts : List ℕ) (first second : Key × List (Option ℕ)) (more : List (Key × List (Option ℕ)))
      → All (λ e. length ts ≤ length e.1) (first ∷ (second ∷ more))
      → let es = first ∷ (second ∷ more) in
        sum_series fl (map (counter_series ts) es)
        ≡ some (
            ok (
              none,
              HistoryChunk.counter (column_sums word_add (length ts) 0 (map (λ e. e.1) es)),
              ts,
            ))
  sum_series-counters ts first second more a =
      let es : List (Key × List (Option ℕ)) = first ∷ (second ∷ more) in
      let cols : List (List (Option ℕ)) = map (λ e. e.1) es in
      let r = vec_sum_all-Summed word_add (replicate (length ts) none) cols (long_enough ts es a) in
      let size : length (replicate {A = Option ℕ} (length ts) none) ≡ length ts =
        length-replicate {A = Option ℕ} (length ts) none in
      let total : r.total ≡ column_sums word_add (length ts) 0 cols =
        column_sums_unique word_add r.total (length ts) 0 cols (r.size ∙ size) (λ i l.
          r.points i (omega (arith, size, l))
          ∙ ap (λ x. some (column_sum word_add x i cols)) (entry-nothing (length ts) i)
          ∙ ap (λ j. some (column_sum word_add none j cols)) (omega arith)) in
      sum_series-vec_sum_all ts first second more ∙ rw (finish, r.done, total) refl

  -- Summing two or more counters over the same timestamps panics if one of them, whichever it is,
  -- has fewer entries than there are timestamps.
  pub sum_series-short :
      (ts : List ℕ) (before : List (Key × List (Option ℕ))) (short : Key × List (Option ℕ))
      (after : List (Key × List (Option ℕ)))
      → 0 < length before + length after
      → length short.1 < length ts
      → sum_series fl (map (counter_series ts) (before ++ (short ∷ after))) ≡ none
  sum_series-short ts before short after two h =
      summed before after two
      ∙ rw
          (
            finish,
            sources_around before after short,
            vec_sum_all-short word_add (replicate (length ts) none) short.1 (map (λ e. e.1) before)
                (map (λ e. e.1) after)
                (omega (arith, length-replicate {A = Option ℕ} (length ts) none, h)),
          )
          refl
    where
      summed :
          (before after : List (Key × List (Option ℕ)))
          → 0 < length before + length after
          → sum_series fl (map (counter_series ts) (before ++ (short ∷ after)))
            ≡ finish fl HistoryChunk.counter ts (
                vec_sum_all word_add
                  (replicate (length ts) none)
                  (map (λ e. e.1) (before ++ (short ∷ after))))
      summed [] [] two = absurd (omega arith)
      summed [] (second ∷ more) two = sum_series-vec_sum_all ts short second more
      summed (first ∷ []) after two = sum_series-vec_sum_all ts first short after
      summed (first ∷ (second ∷ more)) after two =
          sum_series-vec_sum_all ts first second (more ++ (short ∷ after))
