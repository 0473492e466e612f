-- ===== src/Query/Condition/Meaning.antt =====
-- What a condition says of the pairs of a key.
use cantal.Common.{
  ℕ, ◌≡◌, refl, Bool, true, false, ◌&&◌, ◌||◌, Bool-cases, inl, inr, Option, none, some, List,
}
use mathlib.Core.Bool.{not}
use cantal.History.Key.{bytes_eq}
use cantal.History.Key.Pairs.{Cbor, IsCodec, Pair, IsSized, from_iter}
use cantal.History.Key.Lookup.{first_value, get_with-from_iter}
use cantal.Query.Condition.{
  Regexes, Condition, eq, not_eq, regex_like, and, or, negation, has, matches, test_or_false,
  field_is_some,
}

abbrev pub is_known : Option (List ℕ) → Bool
is_known none = false
is_known (some _) = true

-- Whether a name has a value that passes a test.
abbrev pub passes : (List ℕ → Bool) → Option (List ℕ) → Bool
passes test none = false
passes test (some x) = test x

abbrev pub holds : (re : Regexes) → Condition re.Regex → List Pair → Bool
holds re (eq name value) pairs = passes (λ x. bytes_eq x value) (first_value pairs name)
holds re (not_eq name value) pairs = passes (λ x. not (bytes_eq x value)) (first_value pairs name)
holds re (regex_like name regex) pairs = passes (λ x. re.is_match regex x) (first_value pairs name)
holds re (and a b) pairs = holds re a pairs && holds re b pairs
holds re (or a b) pairs = holds re a pairs || holds re b pairs
holds re (negation x) pairs = not (holds re x pairs)
holds re (has name) pairs = is_known (first_value pairs name)

test-passes :
    (test : List ℕ → Bool) (o : Option (List ℕ))
    → test_or_false test (some o) ≡ some (passes test o)
test-passes test none = refl
test-passes test (some x) = refl

-- With a CBOR library whose decoder reads what its encoder wrote within the decoder's default
-- limits, matching a condition against the key of at most 1000 pairs, of UTF-8 texts of at most
-- 5242880 bytes, does not panic, and gives what the condition says of the pairs: `and`, `or` and
-- `not` are those of logic, `has` asks for the name, and the other tests ask for the name and for
-- their relation between its value and theirs.
pub matches-holds :
    (cbor : Cbor) (re : Regexes) (c : Condition re.Regex) (pairs : List Pair)
    → IsCodec cbor
    → IsSized pairs
    → matches cbor re c (from_iter cbor pairs) ≡ some (holds re c pairs)
unfolding matches
matches-holds cbor re (eq name value) pairs law s =
    rw (get_with-from_iter cbor pairs name law s)
      (test-passes (λ x. bytes_eq x value) (first_value pairs name))
matches-holds cbor re (not_eq name value) pairs law s =
    rw (get_with-from_iter cbor pairs name law s)
      (test-passes (λ x. not (bytes_eq x value)) (first_value pairs name))
matches-holds cbor re (regex_like name regex) pairs law s =
    rw (get_with-from_iter cbor pairs name law s)
      (test-passes (λ x. re.is_match regex x) (first_value pairs name))
matches-holds cbor re (and a b) pairs law s =
    let left = matches-holds cbor re a pairs law s in
    let right = matches-holds cbor re b pairs law s in
    elim (Bool-cases (holds re a pairs)) [
      | inl e ↦ rw (matches, left, e) right
      | inr e ↦ rw (matches, left, e) refl
    ]
matches-holds cbor re (or a b) pairs law s =
    let left = matches-holds cbor re a pairs law s in
    let right = matches-holds cbor re b pairs law s in
    elim (Bool-cases (holds re a pairs)) [
      | inl e ↦ rw (matches, left, e) refl
      | inr e ↦ rw (matches, left, e) right
    ]
matches-holds cbor re (negation x) pairs law s =
    rw (matches, matches-holds cbor re x pairs law s) refl
matches-holds cbor re (has name) pairs law s =
    rw (get_with-from_iter cbor pairs name law s) (known (first_value pairs name))
  where
    known : (o : Option (List ℕ)) → field_is_some (some o) ≡ some (is_known o)
    known none = refl
    known (some x) = refl
