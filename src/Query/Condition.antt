-- ===== src/Query/Condition.antt =====
-- cantal_query/src/condition.rs: which keys a query is about. A panic of the program is `none`.
pub mod Meaning
mod Tests
use cantal.Common.{ℕ, Bool, true, false, Option, none, some, List}
use mathlib.Core.Bool.{not}
use cantal.History.Key.{Key, bytes_eq}
use cantal.History.Key.Pairs.{Cbor, get_with}

-- The regex library: a compiled expression, and whether it matches a text.
pub record Regexes : Type 1 where
  pub Regex : Type 0
  pub is_match : Regex → List ℕ → Bool

pub data Condition (R : Type 0) : Type 0 where
  eq : List ℕ → List ℕ → Condition R
  not_eq : List ℕ → List ℕ → Condition R
  regex_like : List ℕ → R → Condition R
  and : Condition R → Condition R → Condition R
  or : Condition R → Condition R → Condition R
  negation : Condition R → Condition R
  has : List ℕ → Condition R

-- `get_with(name, test).unwrap_or(false)`.
abbrev pub test_or_false : (List ℕ → Bool) → Option (Option (List ℕ)) → Option Bool
test_or_false test none = none
test_or_false test (some none) = some false
test_or_false test (some (some x)) = some (test x)

-- `get_with(name, |_| ()).is_some()`.
abbrev pub field_is_some : Option (Option (List ℕ)) → Option Bool
field_is_some none = none
field_is_some (some none) = some false
field_is_some (some (some _)) = some true

module _ (cbor : Cbor) (re : Regexes) where
  open re use {Regex, is_match}

  -- `matches`; the second operand of `&&` and of `||` is tried only if it decides.
  unfoldable pub matches : Condition Regex → Key → Option Bool
  matches (eq name value) key = test_or_false (λ x. bytes_eq x value) (get_with cbor key name)
  matches (not_eq name value) key =
      test_or_false (λ x. not (bytes_eq x value)) (get_with cbor key name)
  matches (regex_like name regex) key =
      test_or_false (λ x. is_match regex x) (get_with cbor key name)
  matches (and a b) key = elim (matches a key) [
    | none ↦ none
    | some true ↦ matches b key
    | some false ↦ some false
  ]
  matches (or a b) key = elim (matches a key) [
    | none ↦ none
    | some true ↦ some true
    | some false ↦ matches b key
  ]
  matches (negation x) key = elim (matches x key) [ none ↦ none | some b ↦ some (not b) ]
  matches (has name) key = field_is_some (get_with cbor key name)
