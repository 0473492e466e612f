-- ===== src/Incoming/Dropping.antt =====
-- A connection that is gone leaves all kinds of subscriptions.
use cantal.Common.{◌≡◌, refl, sym, true, Bool-cases, inl, inr, none, some, List, [], ◌∷◌}
use cantal.Common.Maps.{Map, lookup, Unique}
use cantal.Common.Sets.{remove}
use cantal.Incoming.{
  ConnId, Subscription, subscription_eq, subscription_eq_iff, subscription_has_eq, members,
  is_empty, retain,
}
use mathlib.Core.Path.{subst}

is_empty-nil : (xs : List ConnId) → is_empty xs ≡ true → xs ≡ []
is_empty-nil [] h = refl
is_empty-nil (x ∷ xs) h = cc

retain-absent :
    (c : ConnId) (t : Subscription) (m : Map Subscription (List ConnId))
    → lookup t m ≡ none
    → lookup t (retain c m) ≡ none
unfolding retain lookup
retain-absent c t [] h = refl
retain-absent c t ((s, conns) ∷ m) h = elim (Bool-cases (subscription_eq s t)) [
  | inl e ↦ let impossible : some conns ≡ none = rw e at h in cc
  | inr e ↦
      let later = retain-absent c t m (rw e at h) in
      elim (Bool-cases (is_empty (remove c conns))) [ inl z ↦ rw z later | inr z ↦ rw (z, e) later ]
]

pub retain-Unique :
    (c : ConnId) (m : Map Subscription (List ConnId)) → Unique m → Unique (retain c m)
unfolding retain
retain-Unique c [] u = tt
retain-Unique c ((s, conns) ∷ m) u = elim (Bool-cases (is_empty (remove c conns))) [
  | inl z ↦ rw z (retain-Unique c m u.1)
  | inr z ↦ rw z (retain-absent c s m u.0, retain-Unique c m u.1)
]

pub retain-members :
    (c : ConnId) (t : Subscription) (m : Map Subscription (List ConnId))
    → Unique m
    → members t (retain c m) ≡ remove c (members t m)
unfolding retain lookup remove
retain-members c t [] u = refl
retain-members c t ((s, conns) ∷ m) u = elim (Bool-cases (subscription_eq s t)) [
  | inl e ↦
      let same : s ≡ t = (subscription_eq_iff s t).0 e in
      let alone : lookup t (retain c m) ≡ none =
        retain-absent c t m (subst (λ i. lookup i m ≡ none) same u.0) in
      elim (Bool-cases (is_empty (remove c conns))) [
        | inl z ↦ rw (z, e, alone) (sym (is_empty-nil _ z))
        | inr z ↦ rw (z, e) refl
      ]
  | inr e ↦
      let later = retain-members c t m u.1 in
      elim (Bool-cases (is_empty (remove c conns))) [
        | inl z ↦ rw (z, e) later
        | inr z ↦ rw (z, e) later
      ]
]
