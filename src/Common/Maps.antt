-- ===== src/Common/Maps.antt =====
-- A hash map as an association list, each key at most once. The order of the entries stands for
-- the order in which the hash map is walked, which the program does not rely on.
use cantal.Common.Tests.{if◌then◌else◌, Bool-cases}
use cantal.Common.Lists.{All}
use mathlib.Core.Path.{◌≡◌, refl, ap, subst, ◌∙◌}
use mathlib.Core.Logic.{◌↔◌, inl, inr}
use mathlib.Core.Bool.{Bool, true, false}
use mathlib.Core.Option.{Option, none, some}
use mathlib.Core.List.{List, [], ◌∷◌}
use native.Mathlib.Omega.{arith}

pub record Eq {ℓ} (A : Type ℓ) : Type ℓ where
  pub eq : A → A → Bool
  pub eq_iff : (a b : A) → (eq a b ≡ true) ↔ (a ≡ b)

abbrev pub Map {ℓ κ} : Type ℓ → Type κ → Type (ℓ ⊔ κ)
Map K V = List (K × V)

module _ {ℓ κ} {K : Type ℓ} {V : Type κ} ⦃e : Eq K⦄ where
  unfoldable pub lookup : K → Map K V → Option V
  lookup k [] = none
  lookup k ((j, v) ∷ m) = if e.eq j k then some v else lookup k m

  unfoldable pub insert : K → V → Map K V → Map K V
  insert k v [] = (k, v) ∷ []
  insert k v ((j, w) ∷ m) = if e.eq j k then (k, v) ∷ m else (j, w) ∷ insert k v m

  pub insert-All :
      (P : V → Type κ) (k : K) (v : V) (m : Map K V)
      → P v
      → All (λ e. P e.1) m
      → All (λ e. P e.1) (insert k v m)
  unfolding insert
  insert-All P k v [] h a = (h, tt)
  insert-All P k v ((j, w) ∷ m) h a = elim (Bool-cases (e.eq j k)) [
    | inl t ↦ rw t (h, a.1)
    | inr f ↦ rw f (a.0, insert-All P k v m h a.1)
  ]

  pub lookup-All :
      (P : V → Type κ) (k : K) (m : Map K V) (v : V)
      → lookup k m ≡ some v
      → All (λ e. P e.1) m
      → P v
  unfolding lookup
  lookup-All P k [] v h a = cc
  lookup-All P k ((j, w) ∷ m) v h a = elim (Bool-cases (e.eq j k)) [
    | inl t ↦
        let found : ◌≡◌ {A = Option V} (some w) (some v) = rw t at h in
        let same : w ≡ v = cc in subst P same a.0
    | inr f ↦ lookup-All P k m v (rw f at h) a.1
  ]

  abbrev pub AllEntries : (K → V → Type κ) → Map K V → Type κ
  AllEntries P m = All (λ e. P e.0 e.1) m

  pub insert-AllEntries :
      (P : K → V → Type κ) (k : K) (v : V) (m : Map K V)
      → P k v
      → AllEntries P m
      → AllEntries P (insert k v m)
  unfolding insert
  insert-AllEntries P k v [] h a = (h, tt)
  insert-AllEntries P k v ((j, w) ∷ m) h a = elim (Bool-cases (e.eq j k)) [
    | inl t ↦ rw t (h, a.1)
    | inr f ↦ rw f (a.0, insert-AllEntries P k v m h a.1)
  ]

  pub lookup-AllEntries :
      (P : K → V → Type κ) (k : K) (m : Map K V) (v : V)
      → lookup k m ≡ some v
      → AllEntries P m
      → P k v
  unfolding lookup
  lookup-AllEntries P k [] v h a = cc
  lookup-AllEntries P k ((j, w) ∷ m) v h a = elim (Bool-cases (e.eq j k)) [
    | inl t ↦
        let found : ◌≡◌ {A = Option V} (some w) (some v) = rw t at h in
        let same : w ≡ v = cc in
        let key : j ≡ k = (e.eq_iff j k).0 t in subst (P k) same (subst (λ i. P i w) key a.0)
    | inr f ↦ lookup-AllEntries P k m v (rw f at h) a.1
  ]

  pub lookup-insert :
      (k j : K) (v : V) (m : Map K V)
      → lookup j (insert k v m) ≡ (if e.eq k j then some v else lookup j m)
  unfolding lookup insert
  lookup-insert k j v [] = refl
  lookup-insert k j v ((i, w) ∷ m) =
      ground (arith, e.eq_iff k j, e.eq_iff i k, e.eq_iff i j, lookup-insert k j v m)

  -- Each key at most once.
  abbrev pub Unique : Map K V → Type κ
  Unique [] = Unit {κ}
  Unique ((k, v) ∷ m) = (lookup k m ≡ none) × Unique m

  pub insert-Unique : (k : K) (v : V) (m : Map K V) → Unique m → Unique (insert k v m)
  unfolding insert
  insert-Unique k v [] u = (unfold lookup in refl, tt)
  insert-Unique k v ((j, w) ∷ m) u = elim (Bool-cases (e.eq j k)) [
    | inl t ↦
        let same : j ≡ k = (e.eq_iff j k).0 t in rw t (subst (λ i. lookup i m ≡ none) same u.0, u.1)
    | inr f ↦
        let other : e.eq k j ≡ false = ground (arith, e.eq_iff k j, e.eq_iff j k) in
        rw f (lookup-insert k j v m ∙ rw other u.0, insert-Unique k v m u.1)
  ]

  -- `into_iter().filter(..).collect()`.
  unfoldable pub filter_entries : (K → V → Bool) → Map K V → Map K V
  filter_entries test [] = []
  filter_entries test ((k, v) ∷ m) =
      let rest = filter_entries test m in if test k v then (k, v) ∷ rest else rest

  -- An entry, if it passes.
  abbrev pub passed : (K → V → Bool) → K → Option V → Option V
  passed test k none = none
  passed test k (some v) = if test k v then some v else none

  pub lookup-filter_entries :
      (test : K → V → Bool) (k : K) (m : Map K V)
      → Unique m
      → lookup k (filter_entries test m) ≡ passed test k (lookup k m)
  unfolding filter_entries lookup
  lookup-filter_entries test k [] u = refl
  lookup-filter_entries test k ((j, v) ∷ m) u =
      let rest = lookup-filter_entries test k m u.1 in
      elim (Bool-cases (e.eq j k)) [
        | inl t ↦
            let same : j ≡ k = (e.eq_iff j k).0 t in
            let no_other : lookup k m ≡ none = subst (λ i. lookup i m ≡ none) same u.0 in
            let test_same : test j v ≡ test k v = ap (λ i. test i v) same in
            elim (Bool-cases (test k v)) [
              | inl p ↦ rw (test_same, p, t, p) refl
              | inr p ↦ rw (test_same, p, t, p) (rest ∙ rw no_other refl)
            ]
        | inr f ↦ elim (Bool-cases (test j v)) [ inl p ↦ rw (p, f) rest | inr p ↦ rw (p, f) rest ]
      ]

  pub filter_entries-Unique :
      (test : K → V → Bool) (m : Map K V) → Unique m → Unique (filter_entries test m)
  unfolding filter_entries
  filter_entries-Unique test [] u = tt
  filter_entries-Unique test ((j, v) ∷ m) u =
      let rest = filter_entries-Unique test m u.1 in
      let gone : lookup j (filter_entries test m) ≡ none =
        lookup-filter_entries test j m u.1 ∙ rw u.0 refl in
      elim (Bool-cases (test j v)) [ inl p ↦ rw p (gone, rest) | inr p ↦ rw p rest ]

  pub filter_entries-AllEntries :
      (P : K → V → Type κ) (test : K → V → Bool) (m : Map K V)
      → AllEntries P m
      → AllEntries P (filter_entries test m)
  unfolding filter_entries
  filter_entries-AllEntries P test [] a = tt
  filter_entries-AllEntries P test ((j, v) ∷ m) a =
      let rest = filter_entries-AllEntries P test m a.1 in
      elim (Bool-cases (test j v)) [ inl p ↦ rw p (a.0, rest) | inr p ↦ rw p rest ]

  unfoldable pub erase : K → Map K V → Map K V
  erase k [] = []
  erase k ((j, v) ∷ m) = let rest = erase k m in if e.eq j k then rest else (j, v) ∷ rest

  pub lookup-erase :
      (k j : K) (m : Map K V) → lookup j (erase k m) ≡ (if e.eq k j then none else lookup j m)
  unfolding erase lookup
  lookup-erase k j [] = ground arith
  lookup-erase k j ((i, v) ∷ m) =
      ground (arith, e.eq_iff k j, e.eq_iff i k, e.eq_iff i j, lookup-erase k j m)

  pub erase-Unique : (k : K) (m : Map K V) → Unique m → Unique (erase k m)
  unfolding erase
  erase-Unique k [] u = tt
  erase-Unique k ((j, v) ∷ m) u = elim (Bool-cases (e.eq j k)) [
    | inl t ↦ rw t (erase-Unique k m u.1)
    | inr f ↦
        let other : e.eq k j ≡ false = ground (arith, e.eq_iff k j, e.eq_iff j k) in
        rw f (lookup-erase k j m ∙ rw other u.0, erase-Unique k m u.1)
  ]
