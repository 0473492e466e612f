-- ===== src/History/Key/Sample.antt =====
-- A codec and a key that the tests share.
use cantal.Common.{
  ℕ, zero, suc, ◌≡◌, refl, arith, ap, Option, none, some, List, [], ◌∷◌, ◌++◌, length,
}
use cantal.Common.Utf8.{is_utf8}
use cantal.History.Key.Pairs.{Cbor, IsCodec, Pair, IsSized}

-- A codec that writes numbers as they are, and a length before each text.
abbrev read_number : List ℕ → Option (ℕ × List ℕ)
read_number [] = none
read_number (n ∷ d) = some (n, d)

abbrev split : ℕ → List ℕ → List ℕ × List ℕ
split zero d = ([], d)
split (suc n) [] = ([], [])
split (suc n) (x ∷ d) = (x ∷ (split n d).0, (split n d).1)

abbrev read_counted : List ℕ → Option (List ℕ × List ℕ)
read_counted [] = none
read_counted (n ∷ d) = some (split n d)

abbrev skip_counted : List ℕ → Option (List ℕ)
skip_counted [] = none
skip_counted (n ∷ d) = some (split n d).1

abbrev pub counted : Cbor
counted = record {
  write_object = λ n. n ∷ [];
  write_text = λ s. length s ∷ s;
  read_object = read_number;
  read_text = read_counted;
  read_skip = skip_counted;
}

split-append : (s rest : List ℕ) → split (length s) (s ++ rest) ≡ (s, rest)
split-append [] rest = refl
split-append (x ∷ s) rest = ap (λ p. (x ∷ p.0, p.1)) (split-append s rest)

pub counted-IsCodec : IsCodec counted
counted-IsCodec = record {
  empty_law = refl;
  object_law = λ n rest h. refl;
  text_law = λ s rest u h. ap some (split-append s rest);
  skip_law = λ s rest u h. ap (λ p. some p.1) (split-append s rest);
}

abbrev pub two_pairs : List Pair
two_pairs = (1 ∷ 2 ∷ [], 3 ∷ []) ∷ (4 ∷ [], 5 ∷ 6 ∷ []) ∷ []

pub two_pairs-IsSized : IsSized two_pairs
unfolding is_utf8
two_pairs-IsSized = record {
  count = omega arith;
  texts = (
    ((refl, omega arith), (refl, omega arith)),
    (((refl, omega arith), (refl, omega arith)), tt),
  );
}
