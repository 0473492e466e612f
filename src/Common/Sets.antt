-- ===== src/Common/Sets.antt =====
-- Sets of numbers as lists.
use Prim.Native.Nat.{ℕ}
use cantal.Common.Tests.{◌==◌, ==_iff, if◌then◌else◌, Bool-cases}
use mathlib.Core.Path.{◌≡◌, refl, sym}
use mathlib.Core.Logic.{inl, inr}
use mathlib.Core.Bool.{Bool, false, not, ◌&&◌, ◌||◌}
use mathlib.Core.List.{List, [], ◌∷◌}
use native.Mathlib.Omega.{arith}

unfoldable pub has : ℕ → List ℕ → Bool
has x [] = false
has x (y ∷ ys) = y == x || has x ys

unfoldable pub add : ℕ → List ℕ → List ℕ
add x xs = if has x xs then xs else x ∷ xs

unfoldable pub remove : ℕ → List ℕ → List ℕ
remove x [] = []
remove x (y ∷ ys) = let rest = remove x ys in if y == x then rest else y ∷ rest

pub has-add : (x y : ℕ) (xs : List ℕ) → has y (add x xs) ≡ (x == y || has y xs)
unfolding add has
has-add x y xs = elim (Bool-cases (has x xs)) [
  | inl old ↦ elim (Bool-cases (x == y)) [
    | inl e ↦ let same : x ≡ y = (==_iff x y).0 e in rw (old, e) (rw (sym same) old)
    | inr e ↦ rw (old, e) refl
  ]
  | inr new ↦ rw new refl
]

pub has-remove : (x y : ℕ) (xs : List ℕ) → has y (remove x xs) ≡ (not (x == y) && has y xs)
unfolding remove has
has-remove x y [] = ground arith
has-remove x y (z ∷ zs) = ground (arith, has-remove x y zs)

-- Each member once.
abbrev pub NoDup : List ℕ → Type 0
NoDup [] = Unit {0}
NoDup (x ∷ xs) = (has x xs ≡ false) × NoDup xs

pub add-NoDup : (x : ℕ) (xs : List ℕ) → NoDup xs → NoDup (add x xs)
unfolding add
add-NoDup x xs d = elim (Bool-cases (has x xs)) [ inl old ↦ rw old d | inr new ↦ rw new (new, d) ]

pub remove-NoDup : (x : ℕ) (xs : List ℕ) → NoDup xs → NoDup (remove x xs)
unfolding remove
remove-NoDup x [] d = tt
remove-NoDup x (y ∷ ys) d = elim (Bool-cases (y == x)) [
  | inl e ↦ rw e (remove-NoDup x ys d.1)
  | inr e ↦ rw e (ground (arith, has-remove x y ys), remove-NoDup x ys d.1)
]
