-- ===== src/History/Key.antt =====
-- cantal_history/src/lib.rs, `Key`: the encoded pairs of a key, or nothing for the empty key.
pub mod Pairs
pub mod Lookup
pub mod Sample
mod Tests
use cantal.Common.{
  ℕ, ◌≡◌, refl, ◌↔◌, Bool, true, false, ◌&&◌, Option, none, some, List, [], ◌∷◌, arith, ◌==◌,
}
use cantal.Common.Maps.{Eq}

abbrev pub Key : Type 0
Key = Option (List ℕ)

unfoldable pub bytes_eq : List ℕ → List ℕ → Bool
bytes_eq [] [] = true
bytes_eq (a ∷ xs) (b ∷ ys) = a == b && bytes_eq xs ys
bytes_eq _ _ = false

pub bytes_eq_iff : (a b : List ℕ) → (bytes_eq a b ≡ true) ↔ (a ≡ b)
unfolding bytes_eq
bytes_eq_iff [] [] = (λ h. refl, λ h. refl)
bytes_eq_iff [] (b ∷ ys) = (λ h. cc, λ h. cc)
bytes_eq_iff (a ∷ xs) [] = (λ h. cc, λ h. cc)
bytes_eq_iff (a ∷ xs) (b ∷ ys) = ground (arith, bytes_eq_iff xs ys)

-- The derived `PartialEq`.
unfoldable pub key_eq : Key → Key → Bool
unfolding bytes_eq
key_eq none none = true
key_eq (some a) (some b) = bytes_eq a b
key_eq _ _ = false

pub key_eq_iff : (a b : Key) → (key_eq a b ≡ true) ↔ (a ≡ b)
unfolding key_eq
key_eq_iff none none = (λ h. refl, λ h. refl)
key_eq_iff none (some b) = (λ h. cc, λ h. cc)
key_eq_iff (some a) none = (λ h. cc, λ h. cc)
key_eq_iff (some a) (some b) = ground (arith, bytes_eq_iff a b)

instance abbrev pub key_has_eq : Eq Key
key_has_eq = record { eq = key_eq; eq_iff = key_eq_iff }
