-- ===== src/History/Key/Lookup.antt =====
-- `get_with` finds in a key what `from_iter` put into it.
use cantal.Common.{
  ℕ, ◌≡◌, refl, if◌then◌else◌, Bool-cases, inl, inr, Option, none, some, List, [], ◌∷◌, ◌++◌,
  length, All,
}
use cantal.History.Key.{bytes_eq}
use cantal.History.Key.Pairs.{
  Cbor, IsCodec, Pair, write_pairs, from_iter, find_field, get_with, IsSized, skip_pairs,
  decode_key, as_bytes, validate_key, IsText,
}

-- The value of the first pair with a name.
abbrev pub first_value : List Pair → List ℕ → Option (List ℕ)
first_value [] name = none
first_value ((k, v) ∷ pairs) name = if bytes_eq k name then some v else first_value pairs name

module _ (cbor : Cbor) (law : IsCodec cbor) where
  find_field-write_pairs :
      (pairs : List Pair) (name : List ℕ)
      → All (λ p. IsText p.0 × IsText p.1) pairs
      → find_field cbor (length pairs) (write_pairs cbor pairs) name ≡ some (first_value pairs name)
  unfolding find_field write_pairs
  find_field-write_pairs [] name s = refl
  find_field-write_pairs ((k, v) ∷ pairs) name s =
      let rest : List ℕ = write_pairs cbor pairs in
      let field = law.text_law k (cbor.write_text v ++ rest) s.0.0.0 s.0.0.1 in
      let value = law.text_law v rest s.0.1.0 s.0.1.1 in
      let past = law.skip_law v rest s.0.1.0 s.0.1.1 in
      let more = find_field-write_pairs pairs name s.1 in
      elim (Bool-cases (bytes_eq k name)) [
        | inl e ↦ rw (find_field, field, e, value) refl
        | inr e ↦ rw (find_field, field, e, past) more
      ]

  skip_pairs-write_pairs :
      (pairs : List Pair)
      → All (λ p. IsText p.0 × IsText p.1) pairs
      → skip_pairs cbor (length pairs) (write_pairs cbor pairs) ≡ some []
  unfolding skip_pairs write_pairs
  skip_pairs-write_pairs [] s = refl
  skip_pairs-write_pairs ((k, v) ∷ pairs) s =
      let rest : List ℕ = write_pairs cbor pairs in
      rw
        (
          skip_pairs,
          law.text_law k (cbor.write_text v ++ rest) s.0.0.0 s.0.0.1,
          law.text_law v rest s.0.1.0 s.0.1.1,
        )
        (skip_pairs-write_pairs pairs s.1)

-- With a CBOR library whose decoder reads what its encoder wrote within the decoder's default
-- limits, looking a name up in the key of at most 1000 pairs, of UTF-8 texts of at most 5242880
-- bytes, does not panic, and gives the value of the first pair with that name.
pub get_with-from_iter :
    (cbor : Cbor) (pairs : List Pair) (name : List ℕ)
    → IsCodec cbor
    → IsSized pairs
    → get_with cbor (from_iter cbor pairs) name ≡ some (first_value pairs name)
unfolding get_with from_iter
get_with-from_iter cbor [] name law s = refl
get_with-from_iter cbor (pair ∷ pairs) name law s =
    let all : List Pair = pair ∷ pairs in
    let object = law.object_law (length all) (write_pairs cbor all) s.count in
    rw (get_with, object) (find_field-write_pairs cbor law all name s.texts)

-- With a CBOR library whose decoder reads what its encoder wrote within the decoder's default
-- limits, the bytes that are sent for the key of at most 1000 pairs, of UTF-8 texts of at most
-- 5242880 bytes, are accepted and read back as that key.
pub decode_key-as_bytes :
    (cbor : Cbor) (pairs : List Pair)
    → IsCodec cbor
    → IsSized pairs
    → decode_key cbor (as_bytes (from_iter cbor pairs)) ≡ some (from_iter cbor pairs)
unfolding decode_key as_bytes from_iter validate_key
decode_key-as_bytes cbor [] law s = refl
decode_key-as_bytes cbor (pair ∷ pairs) law s =
    let all : List Pair = pair ∷ pairs in
    go (cbor.write_object (length all) ++ write_pairs cbor all)
      (law.object_law (length all) (write_pairs cbor all) s.count)
      (skip_pairs-write_pairs cbor law all s.texts)
  where
    go :
        (val : List ℕ)
        → cbor.read_object val ≡ some (length (pair ∷ pairs), write_pairs cbor (pair ∷ pairs))
        → skip_pairs cbor (length (pair ∷ pairs)) (write_pairs cbor (pair ∷ pairs)) ≡ some []
        → decode_key cbor val ≡ some (some val)
    go [] object skipped = let none_read = law.empty_law in cc
    go (b ∷ val) object skipped = rw (validate_key, object, skipped) refl
