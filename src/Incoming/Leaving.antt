-- ===== src/Incoming/Leaving.antt =====
-- A connection that takes back a request, or that leaves a kind of subscription.
use cantal.Common.{
  ◌≡◌, refl, sym, Bool, true, false, ◌||◌, if◌then◌else◌, Bool-cases, inl, inr, Option, none, some,
  List, [], ◌∷◌,
}
use cantal.Common.Maps.{
  Map, lookup, insert, erase, lookup-insert, lookup-erase, Unique, insert-Unique, erase-Unique,
}
use cantal.Common.Sets.{remove}
use cantal.Incoming.{
  Text, text_has_eq, ConnId, Subscription, subscription_eq, subscription_eq_iff,
  subscription_has_eq, Requests, or_empty, members, requests, contains_key, is_empty,
  conn_unsubscribe_id, leave, leave_in,
}
use mathlib.Core.Path.{subst}

pub or_empty-insert {ℓ} :
    {A : Type ℓ} (s t : Subscription) (v : List A) (m : Map Subscription (List A))
    → or_empty (lookup t (insert s v m))
      ≡ (if subscription_eq s t then v else or_empty (lookup t m))
or_empty-insert s t v m = elim (Bool-cases (subscription_eq s t)) [
  | inl e ↦ rw (lookup-insert s t v m) (rw e refl)
  | inr e ↦ rw (lookup-insert s t v m) (rw e refl)
]

or_empty-erase {ℓ} :
    {A : Type ℓ} (s t : Subscription) (m : Map Subscription (List A))
    → or_empty (lookup t (erase s m)) ≡ (if subscription_eq s t then [] else or_empty (lookup t m))
or_empty-erase s t m = elim (Bool-cases (subscription_eq s t)) [
  | inl e ↦ rw (lookup-erase s t m) (rw e refl)
  | inr e ↦ rw (lookup-erase s t m) (rw e refl)
]

-- Whether a kind is the one that was given back.
abbrev pub given : Option Subscription → Subscription → Bool
given none t = false
given (some k) t = subscription_eq k t

contains_key-is_empty :
    (id : Text) (items : Requests) → contains_key id items ≡ true → is_empty items ≡ false
unfolding lookup
contains_key-is_empty id [] h = cc
contains_key-is_empty id (e ∷ items) h = refl

-- A kind that has no entry is neither changed nor given back.
conn_unsubscribe_id-absent :
    (id : Text) (t : Subscription) (m : Map Subscription Requests)
    → lookup t m ≡ none
    → (lookup t (conn_unsubscribe_id id m).0 ≡ none)
      × (given (conn_unsubscribe_id id m).1 t ≡ false)
unfolding conn_unsubscribe_id lookup
conn_unsubscribe_id-absent id t [] h = (refl, refl)
conn_unsubscribe_id-absent id t ((k, v) ∷ m) h = elim (Bool-cases (subscription_eq k t)) [
  | inl e ↦ let impossible : some v ≡ none = rw e at h in cc
  | inr e ↦
      let none_left : lookup t m ≡ none = rw e at h in
      elim (Bool-cases (contains_key id v)) [
        | inl c ↦ rw c (
          rw e none_left,
          elim (Bool-cases (is_empty (erase id v))) [ inl z ↦ rw z e | inr z ↦ rw z refl ],
        )
        | inr c ↦
            let later = conn_unsubscribe_id-absent id t m none_left in rw c (rw e later.0, later.1)
      ]
]

pub conn_unsubscribe_id-Unique :
    (id : Text) (m : Map Subscription Requests) → Unique m → Unique (conn_unsubscribe_id id m).0
unfolding conn_unsubscribe_id
conn_unsubscribe_id-Unique id [] u = tt
conn_unsubscribe_id-Unique id ((k, v) ∷ m) u = elim (Bool-cases (contains_key id v)) [
  | inl c ↦ rw c u
  | inr c ↦ rw c ((conn_unsubscribe_id-absent id k m u.0).0, conn_unsubscribe_id-Unique id m u.1)
]

-- A kind has no requests left if it is given back, or had none.
pub conn_unsubscribe_id-is_empty :
    (id : Text) (t : Subscription) (m : Map Subscription Requests)
    → Unique m
    → is_empty (requests t (conn_unsubscribe_id id m).0)
      ≡ (given (conn_unsubscribe_id id m).1 t || is_empty (requests t m))
unfolding conn_unsubscribe_id lookup
conn_unsubscribe_id-is_empty id t [] u = refl
conn_unsubscribe_id-is_empty id t ((k, v) ∷ m) u = elim (Bool-cases (contains_key id v)) [
  | inl c ↦ elim (Bool-cases (subscription_eq k t)) [
    | inl e ↦ elim (Bool-cases (is_empty (erase id v))) [
      | inl z ↦ rw (c, e, z, e) refl
      | inr z ↦ rw (c, e, z) (sym (contains_key-is_empty id v c))
    ]
    | inr e ↦ elim (Bool-cases (is_empty (erase id v))) [
      | inl z ↦ rw (c, e, z, e) refl
      | inr z ↦ rw (c, e, z) refl
    ]
  ]
  | inr c ↦ elim (Bool-cases (subscription_eq k t)) [
    | inl e ↦
        let same : k ≡ t = (subscription_eq_iff k t).0 e in
        let gone : given (conn_unsubscribe_id id m).1 t ≡ false =
          (conn_unsubscribe_id-absent id t m (subst (λ i. lookup i m ≡ none) same u.0)).1 in
        rw (c, e, gone) refl
    | inr e ↦ rw (c, e) (conn_unsubscribe_id-is_empty id t m u.1)
  ]
]

leave_in-members :
    (c : ConnId) (s t : Subscription) (subs : Map Subscription (List ConnId))
    (o : Option (List ConnId))
    → lookup s subs ≡ o
    → members t (leave_in c s subs o)
      ≡ (if subscription_eq s t then remove c (members t subs) else members t subs)
unfolding remove
leave_in-members c s t subs none e = elim (Bool-cases (subscription_eq s t)) [
  | inl f ↦
      let same : s ≡ t = (subscription_eq_iff s t).0 f in
      let missing : lookup t subs ≡ none = subst (λ i. lookup i subs ≡ none) same e in
      rw (f, missing) refl
  | inr f ↦ rw f refl
]
leave_in-members c s t subs (some conns) e = elim (Bool-cases (subscription_eq s t)) [
  | inl f ↦
      let same : s ≡ t = (subscription_eq_iff s t).0 f in
      let found : lookup t subs ≡ some conns = subst (λ i. lookup i subs ≡ some conns) same e in
      elim (Bool-cases (is_empty (remove c conns))) [
        | inl z ↦ rw (z, or_empty-erase s t subs, f, found) (sym (empty _ z))
        | inr z ↦ rw (z, or_empty-insert s t (remove c conns) subs, f, found) refl
      ]
  | inr f ↦ elim (Bool-cases (is_empty (remove c conns))) [
    | inl z ↦ rw (z, or_empty-erase s t subs, f) refl
    | inr z ↦ rw (z, or_empty-insert s t (remove c conns) subs, f) refl
  ]
]
  where
    empty : (xs : List ConnId) → is_empty xs ≡ true → xs ≡ []
    empty [] h = refl
    empty (x ∷ xs) h = cc

pub leave-members :
    (c : ConnId) (o : Option Subscription) (t : Subscription)
    (subs : Map Subscription (List ConnId))
    → members t (leave c o subs) ≡ (if given o t then remove c (members t subs) else members t subs)
leave-members c none t subs = refl
leave-members c (some s) t subs = leave_in-members c s t subs (lookup s subs) refl

pub leave-Unique :
    (c : ConnId) (o : Option Subscription) (subs : Map Subscription (List ConnId))
    → Unique subs
    → Unique (leave c o subs)
leave-Unique c none subs u = u
leave-Unique c (some s) subs u = go (lookup s subs)
  where
    go : (o : Option (List ConnId)) → Unique (leave_in c s subs o)
    go none = u
    go (some conns) = elim (Bool-cases (is_empty (remove c conns))) [
      | inl z ↦ rw z (erase-Unique s subs u)
      | inr z ↦ rw z (insert-Unique s (remove c conns) subs u)
    ]
