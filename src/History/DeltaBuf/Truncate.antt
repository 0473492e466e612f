-- ===== src/History/DeltaBuf/Truncate.antt =====
-- `DeltaBuf::truncate` keeps the newest deltas.
use cantal.Common.{ℕ, zero, suc, ◌+◌, ◌-◌, ◌*◌, ◌/◌, ◌%◌, ◌≤◌, ◌<◌, ◌≡◌, refl, min}
use cantal.Common.{Bool, true, false, leb, ◌==◌, if◌then◌else◌, lt→ltb, le→leb, gt→leb}
use cantal.Common.{
  List, [], ◌∷◌, ◌++◌, append_assoc, arith, length, length-append, take, take-append_add,
  get_elem?-append, set-append,
}
use native.Mathlib.Decide.{dec_lt}
use cantal.Common.Bits.{and_continuation, and_special, and_special_three, and_five, or_five}
use cantal.History.DeltaBuf.{DeltaBuf}
use cantal.History.DeltaBuf.{
  ok, truncate_scan, truncate_bytes, shorten_run, apply_cut, truncate, new,
}
use cantal.History.DeltaBuf.Decode.{decode, is_valid, IsValid, contents}
use cantal.History.DeltaBuf.Prefix.{
  Kept, cut-Kept, cut, continuation, run, run_end, one, one_end, byte_cases,
}
use cantal.History.DeltaBuf.Prefix.{cut_continuation, cut_run, cut_run_end, cut_one, cut_one_end}

-- A buffer whose first bytes are scanned already.
module _ (pre : List ℕ) (b : ℕ) (rest : List ℕ) (limit : ℕ) where
  stop_whole :
      apply_cut (pre ++ (b ∷ rest)) limit (ok (length pre + 1) 0) ≡ (pre ++ (b ∷ []), limit)
  unfolding apply_cut
  stop_whole = rw take-append_add

  -- The last byte's count is lessened in place.
  shorten_run_lem :
      (m : ℕ)
      → b < 128
      → m ≤ b % 32
      → shorten_run (pre ++ (b ∷ rest)) (length pre + 1) m
        ≡ pre ++ ((b / 32 * 32 + (b % 32 - m)) ∷ rest)
  unfolding shorten_run
  shorten_run_lem m hb h =
      let at : length pre + 1 - 1 ≡ length pre = omega arith in
      let less : (b % 32 + 256 - m) % 256 ≡ b % 32 - m = omega arith in
      rw (shorten_run, at, get_elem?-append pre b rest)
        (rw (at, set-append pre b, and_special_three b (omega arith), and_five b, less)
          (rw (or_five (b / 32) (b % 32 - m) (omega arith))))

  stop_short :
      (n : ℕ)
      → b < 128
      → n < b % 32
      → apply_cut (pre ++ (b ∷ rest)) limit (ok (length pre + 1) (b % 32 - n))
        ≡ (pre ++ ((b / 32 * 32 + n) ∷ []), limit)
  unfolding apply_cut
  stop_short n hb k =
      let less : b % 32 - (b % 32 - n) ≡ n = omega arith in
      rw (lt→ltb 0 (b % 32 - n) (omega arith), shorten_run_lem (b % 32 - n) hb (omega arith))
        (rw (take-append_add, less))

  stop_run :
      (n : ℕ)
      → b < 128
      → n ≤ b % 32
      → apply_cut (pre ++ (b ∷ rest)) limit (ok (length pre + 1) (b % 32 - n))
        ≡ (pre ++ ((b / 32 * 32 + n) ∷ []), limit)
  stop_run n hb h = elim (dec_lt n (b % 32)) [
    | yes k ↦ stop_short n hb k
    | no k ↦
        let all : b % 32 - n ≡ 0 = omega arith in
        let same : b / 32 * 32 + n ≡ b = omega arith in rw (all, same) stop_whole
  ]

  -- One round of the scan.
  scan_continuation :
      (idx counter : ℕ)
      → 128 ≤ b
      → b < 256
      → truncate_scan limit (b ∷ rest) idx counter ≡ truncate_scan limit rest (idx + 1) counter
  unfolding truncate_scan
  scan_continuation idx counter h k = ground (arith, and_continuation b)

  scan_run :
      (idx counter : ℕ)
      → 64 ≤ b
      → b < 128
      → counter + b % 32 < limit
      → truncate_scan limit (b ∷ rest) idx counter
        ≡ truncate_scan limit rest (idx + 1) (counter + b % 32)
  unfolding truncate_scan
  scan_run idx counter h k more = ground (arith, and_continuation b, and_special b, and_five b)

  scan_run_end :
      (idx counter : ℕ)
      → 64 ≤ b
      → b < 128
      → counter < limit
      → limit ≤ counter + b % 32
      → truncate_scan limit (b ∷ rest) idx counter ≡ ok (idx + 1) (b % 32 - (limit - counter))
  unfolding truncate_scan
  scan_run_end idx counter h k more last =
      ground (arith, and_continuation b, and_special b, and_five b)

  scan_one :
      (idx counter : ℕ)
      → b < 64
      → truncate_scan limit (b ∷ rest) idx counter ≡ (
          if leb limit (counter + 1)
          then ok (idx + 1) 0
          else truncate_scan limit rest (idx + 1) (counter + 1))
  unfolding truncate_scan
  scan_one idx counter h = ground (arith, and_continuation b, and_special b)

abbrev Cuts : ℕ → ℕ → List ℕ → List ℕ → Type 0
Cuts limit counter pre rest =
    apply_cut (pre ++ rest) limit (truncate_scan limit rest (length pre) counter)
    ≡ (pre ++ (cut limit counter rest).0, (cut limit counter rest).1)

-- The byte in front is scanned.
Cuts-cons :
    (limit counter b : ℕ) (pre rest : List ℕ)
    → Cuts limit counter (pre ++ (b ∷ [])) rest
    → apply_cut (pre ++ (b ∷ rest)) limit (truncate_scan limit rest (length pre + 1) counter)
      ≡ (pre ++ (b ∷ (cut limit counter rest).0), (cut limit counter rest).1)
Cuts-cons limit counter b pre rest h =
    let joined : pre ++ (b ∷ []) ++ rest ≡ pre ++ (b ∷ rest) = append_assoc pre (b ∷ []) rest in
    let kept : List ℕ = (cut limit counter rest).0 in
    let joined' : pre ++ (b ∷ []) ++ kept ≡ pre ++ (b ∷ kept) = append_assoc pre (b ∷ []) kept in
    rw (length-append, joined, joined') at h

-- The scan and the cut after it, over what is left to scan.
scan-cut :
    (limit counter : ℕ) (pre rest : List ℕ) (inside : Bool)
    → is_valid inside rest ≡ true
    → counter < limit
    → Cuts limit counter pre rest
scan-cut limit counter pre [] inside v h = unfold truncate_scan apply_cut cut in refl
scan-cut limit counter pre (b ∷ rest) inside v h =
    let more : is_valid (leb 128 b) rest ≡ true = unfold is_valid in ground arith in
    let small : b < 256 = unfold is_valid in ground arith in
    let on = λ (c : ℕ) (k : c < limit).
      Cuts-cons limit c b pre rest (scan-cut limit c (pre ++ (b ∷ [])) rest (leb 128 b) more k) in
    elim (byte_cases limit counter b) [
      | continuation k ↦
          rw
            (
              scan_continuation pre b rest limit (length pre) counter k small,
              cut_continuation limit counter b rest k,
            )
            (on counter h)
      | run k l m ↦
          rw
            (
              scan_run pre b rest limit (length pre) counter k l m,
              cut_run limit counter b rest k l m,
            )
            (on (counter + b % 32) m)
      | run_end k l m ↦
          rw
            (
              scan_run_end pre b rest limit (length pre) counter k l h m,
              cut_run_end limit counter b rest k l m,
            )
            (stop_run pre b rest limit (limit - counter) l (omega arith))
      | one k m ↦
          rw
            (
              scan_one pre b rest limit (length pre) counter k,
              gt→leb limit (counter + 1) m,
              cut_one limit counter b rest k m,
            )
            (on (counter + 1) m)
      | one_end k m ↦
          rw
            (
              scan_one pre b rest limit (length pre) counter k,
              le→leb limit (counter + 1) m,
              cut_one_end limit counter b rest k m,
            )
            (stop_whole pre b rest limit)
    ]

-- `truncate` keeps the newest `limit` deltas of a valid buffer (all, if it has no more), keeps the
-- buffer valid, and returns how many there are now.
pub truncate_lem :
    (buf : DeltaBuf) (limit : ℕ)
    → IsValid buf
    → IsValid (truncate buf limit).0
      × (contents (truncate buf limit).0 ≡ take limit (contents buf))
      × ((truncate buf limit).1 ≡ min limit (length (contents buf)))
unfolding truncate new
truncate_lem buf zero v = unfold decode is_valid in (refl, refl, omega arith)
truncate_lem buf (suc n) v =
    let e : apply_cut buf (suc n) (truncate_scan (suc n) buf 0 0) ≡ cut (suc n) 0 buf =
      scan-cut (suc n) 0 [] buf false v (omega arith) in
    let k : Kept (suc n) 0 0 buf false (cut (suc n) 0 buf) =
      cut-Kept (suc n) 0 0 buf false v (omega arith) in
    let some_kept : (suc n == 0) ≡ false = ground arith in
    let whole : suc n - 0 ≡ suc n = omega arith in
    unfold truncate_bytes in
    rw (some_kept, e) (k.valid, rw whole at k.deltas, omega (arith, k.count))
