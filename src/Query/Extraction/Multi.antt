-- ===== src/Query/Extraction/Multi.antt =====
-- `extract_multi` on a metric of a well-formed backlog: which entries of the history it reads.
use cantal.Common.{ℕ, suc, ◌+◌, ◌-◌, ◌≤◌, ◌<◌, ◌≡◌, refl, ap, ◌∙◌, arith, leb, if◌then◌else◌}
use cantal.Common.{some, List, [], ◌∷◌, length, take, map, Bool-cases, inl, inr}
use cantal.Common.Maps.{lookup, lookup-All}
use cantal.History.Word.{modulus, word_sub}
use cantal.History.Float.{Float}
use cantal.History.Key.{Key, key_has_eq}
use cantal.History.Chunk.{HistoryChunk}
use cantal.History.Inner.Timeline.{timeline, history_list-timeline}
use cantal.History.Inner.Deque.{float_timeline, float_list-timeline}
use cantal.History.Backlog.{Backlog, Value, SnapTime}
use cantal.History.Backlog.Invariant.{BacklogIsValid, ValueFits, Descending}
use cantal.Query.Rule.{history_by_num, history_by_time}
use cantal.Query.Extraction.{newest, scans_within, extract_by_time, extract_multi}

-- The scans less than `time_delta` before the time `latest`, and the first that is not.
abbrev pub recent : ℕ → ℕ → List SnapTime → List SnapTime
recent latest time_delta [] = []
recent latest time_delta (t ∷ ts) =
    if leb time_delta (latest - t.0) then t ∷ [] else t ∷ recent latest time_delta ts

module _ (fl : Float) where
  open fl use {F64}

  -- The history of a metric as of a scan, as a chunk of its newest `num` entries.
  abbrev pub chunk_of : Value F64 → ℕ → ℕ → HistoryChunk F64
  chunk_of (Value.counter x) now num = HistoryChunk.counter (take num (timeline x now))
  chunk_of (Value.integer x) now num = HistoryChunk.integer (take num (timeline x now))
  chunk_of (Value.float x) now num = HistoryChunk.float (take num (float_timeline fl x now))

  newest-chunk_of :
      (bl : Backlog F64) (value : Value F64) (num : ℕ)
      → ValueFits bl.age (length bl.timestamps) value
      → bl.age < modulus
      → newest fl value bl num
        ≡ (chunk_of value bl.age num, map (λ t. t.0) (take num bl.timestamps))
  unfolding newest
  newest-chunk_of bl (Value.counter x) num f h = rw (history_list-timeline x bl.age f.valid h) refl
  newest-chunk_of bl (Value.integer x) num f h = rw (history_list-timeline x bl.age f.valid h) refl
  newest-chunk_of bl (Value.float x) num f h = rw (float_list-timeline fl x bl.age h) refl

  -- No scan is later than `latest`.
  abbrev UpTo : ℕ → List SnapTime → Type 0
  UpTo latest [] = Unit
  UpTo latest (t ∷ ts) = (t.0 ≤ latest) × UpTo latest ts

  Descending-UpTo :
      (t : SnapTime) (ts : List SnapTime) (latest : ℕ)
      → t.0 ≤ latest
      → Descending (t ∷ ts)
      → UpTo latest (t ∷ ts)
  Descending-UpTo t [] latest h d = (h, tt)
  Descending-UpTo t (u ∷ ts) latest h d = (h, Descending-UpTo u ts latest (omega (arith, d.0)) d.1)

  -- Where the loop is at index `idx`, with all scans from there on still to look at.
  scans_within-recent :
      (ts : List SnapTime) (latest time_delta idx num : ℕ)
      → num ≡ idx + length ts
      → UpTo latest ts
      → latest < modulus
      → (n : ℕ) × (scans_within fl ts latest time_delta idx num ≡ idx + n)
        × (take n ts ≡ recent latest time_delta ts)
        × (n ≡ length (recent latest time_delta ts))
  unfolding scans_within
  scans_within-recent [] latest time_delta idx num all u h = (0, omega arith, refl, refl)
  scans_within-recent (t ∷ ts) latest time_delta idx num all u h =
      let ago : word_sub latest t.0 ≡ latest - t.0 = omega (arith, u.0) in
      let (n, e, k, l) =
        scans_within-recent ts latest time_delta (idx + 1) num (omega arith) u.1 h in
      elim (Bool-cases (leb time_delta (latest - t.0))) [
        | inl b ↦ (1, rw (ago, b) refl, rw b refl, rw b refl)
        | inr b ↦ (suc n, rw (ago, b) (e ∙ omega arith), rw b (ap (◌∷◌ t) k), rw b (ap suc l))
      ]

  -- For a metric of a well-formed backlog whose age fits a word, `HistoryByNum` gives the newest
  -- `n` entries of its history with the newest `n` timestamps.
  pub extract_multi-by_num :
      (bl : Backlog F64) (k : Key) (value : Value F64) (n : ℕ)
      → BacklogIsValid bl
      → bl.age < modulus
      → lookup k bl.values ≡ some value
      → extract_multi fl value bl (history_by_num n)
        ≡ some (chunk_of value bl.age n, map (λ t. t.0) (take n bl.timestamps))
  unfolding extract_multi
  extract_multi-by_num bl k value n v h found =
      let f : ValueFits bl.age (length bl.timestamps) value =
        lookup-All (ValueFits bl.age (length bl.timestamps)) k bl.values value found v.fits in
      ap some (newest-chunk_of bl value n f h)

  -- For a metric of a well-formed backlog whose age and newest timestamp `latest` fit a word,
  -- `HistoryByTime` gives the timestamps of the scans less than `time_delta` before the newest and
  -- of the first that is not, and as many of the newest entries of the metric's history (all of
  -- them, if it has fewer).
  pub extract_multi-by_time :
      (bl : Backlog F64) (k : Key) (value : Value F64) (time_delta : ℕ) (latest : SnapTime)
      (older : List SnapTime)
      → BacklogIsValid bl
      → bl.age < modulus
      → lookup k bl.values ≡ some value
      → bl.timestamps ≡ latest ∷ older
      → latest.0 < modulus
      → let scans = recent latest.0 time_delta (latest ∷ older) in
        extract_multi fl value bl (history_by_time time_delta)
        ≡ some (chunk_of value bl.age (length scans), map (λ t. t.0) scans)
  unfolding extract_multi extract_by_time
  extract_multi-by_time bl k value time_delta latest older v h found shape small =
      let f : ValueFits bl.age (length bl.timestamps) value =
        lookup-All (ValueFits bl.age (length bl.timestamps)) k bl.values value found v.fits in
      let u : UpTo latest.0 (latest ∷ older) =
        Descending-UpTo latest older latest.0 (omega arith) (rw shape at v.ordered) in
      let (n, e, t, l) =
        scans_within-recent (latest ∷ older) latest.0 time_delta 0 (length (latest ∷ older))
          (omega arith) u small in
      let e' : scans_within fl (latest ∷ older) latest.0 time_delta 0 (length (latest ∷ older))
          ≡ n =
        e ∙ omega arith in
      let t' : take n bl.timestamps ≡ recent latest.0 time_delta (latest ∷ older) =
        ap (take n) shape ∙ t in
      let read : newest fl value bl n ≡ (
        chunk_of value bl.age (length (recent latest.0 time_delta (latest ∷ older))),
        map (λ t. t.0) (recent latest.0 time_delta (latest ∷ older)),
      ) =
        newest-chunk_of bl value n f h ∙ rw (t', l) refl in
      ap (λ ts. extract_by_time fl value bl ts time_delta) shape ∙ rw e' (ap some read)
