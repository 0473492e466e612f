-- ===== src/Incoming/Tables.antt =====
-- The two tables agree: a connection is told of a kind of subscription if it has requests for it.
use cantal.Common.{
  ℕ, zero, suc, ◌+◌, ◌<◌, ◌%◌, ◌^◌, ◌==◌, ==_iff, ◌≡◌, refl, ◌∙◌, sym, ap, arith, Bool, true, false,
  not, ◌||◌, ◌&&◌, Bool-cases, inl, inr, List, [], ◌∷◌, length,
}
use cantal.Common.Maps.{Map, lookup, insert, Unique, insert-Unique}
use cantal.Common.Sets.{has, add, has-add, has-remove, NoDup, add-NoDup, remove-NoDup}
use cantal.Incoming.{
  Text, text_has_eq, ConnId, Subscription, subscription_eq, subscription_eq_iff,
  subscription_has_eq, Input, Requests, Incoming, empty_connection, put, free_id, connected,
  members, requests, subscribe, is_empty, conn_unsubscribe_id, leave, unsubscribe_id, drop_token,
}
use cantal.Incoming.Leaving.{
  or_empty-insert, given, conn_unsubscribe_id-Unique, conn_unsubscribe_id-is_empty, leave-members,
  leave-Unique,
}
use cantal.Incoming.Dropping.{retain-Unique, retain-members}
use mathlib.Core.Path.{subst}

pub record Tables (inc : Incoming) : Type 0 where
  pub unique : Unique inc.subscriptions
  pub conn_unique : (c : ConnId) → Unique (inc.conn c).subscriptions
  pub below : (c : ConnId) → has c inc.connections ≡ true → c < inc.next_id
  pub listed :
      (s : Subscription) (c : ConnId)
      → has c (members s inc.subscriptions) ≡ true
      → has c inc.connections ≡ true
  pub distinct : (s : Subscription) → NoDup (members s inc.subscriptions)
  pub agrees :
      (s : Subscription) (c : ConnId)
      → has c inc.connections ≡ true
      → has c (members s inc.subscriptions) ≡ not (is_empty (requests s (inc.conn c).subscriptions))

insert-is_empty : (id : Text) (input : Input) (m : Requests) → is_empty (insert id input m) ≡ false
unfolding insert
insert-is_empty id input [] = refl
insert-is_empty id input ((j, w) ∷ m) = elim (Bool-cases (text_has_eq.eq j id)) [
  | inl e ↦ rw e refl
  | inr e ↦ rw e refl
]

-- Whether another connection, or the same one, is a member of a kind after one was put into a set.
module _ (c j : ConnId) (s k : Subscription) (subs : Map Subscription (List ConnId))
    (set : List ConnId) where
  has-other :
      has j set ≡ has j (members s subs)
      → has j (members k (insert s set subs)) ≡ has j (members k subs)
  has-other same = elim (Bool-cases (subscription_eq s k)) [
    | inl e ↦
        rw (or_empty-insert s k set subs, e)
          (same ∙ ap (λ i. has j (members i subs)) ((subscription_eq_iff s k).0 e))
    | inr e ↦ rw (or_empty-insert s k set subs, e) refl
  ]

  has-set : subscription_eq s k ≡ true → has j (members k (insert s set subs)) ≡ has j set
  has-set e = rw (or_empty-insert s k set subs, e) refl

  has-set_other :
      subscription_eq s k ≡ false → has j (members k (insert s set subs)) ≡ has j (members k subs)
  has-set_other e = rw (or_empty-insert s k set subs, e) refl

pub subscribe-Tables :
    (inc : Incoming) (c : ConnId) (s : Subscription) (id : Text) (input : Input)
    → Tables inc
    → has c inc.connections ≡ true
    → Tables (subscribe inc c s id input)
unfolding subscribe
subscribe-Tables inc c s id input t live =
    let conn = inc.conn c in
    let items = insert id input (requests s conn.subscriptions) in
    let set = add c (members s inc.subscriptions) in
    record {
      unique = insert-Unique s set inc.subscriptions t.unique;
      conn_unique = λ j. elim (Bool-cases (c == j)) [
        | inl e ↦ rw e (insert-Unique s items conn.subscriptions (t.conn_unique c))
        | inr e ↦ rw e (t.conn_unique j)
      ];
      below = t.below;
      listed = λ k j h. elim (Bool-cases (c == j)) [
        | inl e ↦ subst (λ i. has i inc.connections ≡ true) ((==_iff c j).0 e) live
        | inr e ↦
            let same : has j set ≡ has j (members s inc.subscriptions) =
              has-add c j (members s inc.subscriptions) ∙ rw e refl in
            t.listed k j (sym (has-other c j s k inc.subscriptions set same) ∙ h)
      ];
      distinct = λ k. elim (Bool-cases (subscription_eq s k)) [
        | inl e ↦ rw (or_empty-insert s k set inc.subscriptions, e) (add-NoDup c _ (t.distinct s))
        | inr e ↦ rw (or_empty-insert s k set inc.subscriptions, e) (t.distinct k)
      ];
      agrees = λ k j h. elim (Bool-cases (c == j)) [
        | inl e ↦
            let same : c ≡ j = (==_iff c j).0 e in
            elim (Bool-cases (subscription_eq s k)) [
              | inl f ↦
                  let now : has j set ≡ true =
                    has-add c j (members s inc.subscriptions) ∙ rw e refl in
                  rw e (
                    has-set c j s k inc.subscriptions set f
                    ∙ now
                    ∙ rw (or_empty-insert s k items conn.subscriptions, f)
                        (rw (insert-is_empty id input (requests s conn.subscriptions)) refl))
              | inr f ↦ rw e (
                  has-set_other c j s k inc.subscriptions set f
                  ∙ ap (λ i. has i (members k inc.subscriptions)) (sym same)
                  ∙ t.agrees k c live
                  ∙ rw (or_empty-insert s k items conn.subscriptions, f) refl)
            ]
        | inr e ↦
            let same : has j set ≡ has j (members s inc.subscriptions) =
              has-add c j (members s inc.subscriptions) ∙ rw e refl in
            rw e (has-other c j s k inc.subscriptions set same ∙ t.agrees k j h)
      ];
    }

and_right : (a b : Bool) → (a && b) ≡ true → b ≡ true
and_right a b h = ground arith

pub unsubscribe_id-Tables :
    (inc : Incoming) (c : ConnId) (id : Text) → Tables inc → Tables (unsubscribe_id inc c id)
unfolding unsubscribe_id
unsubscribe_id-Tables inc c id t =
    let subs = (inc.conn c).subscriptions in
    let left = conn_unsubscribe_id id subs in
    record {
      unique = leave-Unique c left.1 inc.subscriptions t.unique;
      conn_unique = λ j. elim (Bool-cases (c == j)) [
        | inl e ↦ rw e (conn_unsubscribe_id-Unique id subs (t.conn_unique c))
        | inr e ↦ rw e (t.conn_unique j)
      ];
      below = t.below;
      listed = λ k j h. t.listed k j (and_right _ _ (sym (unsubscribed k j) ∙ h));
      distinct = λ k. elim (Bool-cases (given left.1 k)) [
        | inl e ↦
            rw (leave-members c left.1 k inc.subscriptions, e) (remove-NoDup c _ (t.distinct k))
        | inr e ↦ rw (leave-members c left.1 k inc.subscriptions, e) (t.distinct k)
      ];
      agrees = λ k j h. elim (Bool-cases (c == j)) [
        | inl e ↦
            let same : c ≡ j = (==_iff c j).0 e in
            let was : has j (members k inc.subscriptions) ≡ not (is_empty (requests k subs)) =
              ap (λ i. has i (members k inc.subscriptions)) (sym same)
              ∙ t.agrees k c (subst (λ i. has i inc.connections ≡ true) (sym same) h) in
            rw e (
              unsubscribed k j
              ∙ rw (e, was, conn_unsubscribe_id-is_empty id k subs (t.conn_unique c))
                  (de_morgan (given left.1 k) _))
        | inr e ↦ rw e (unsubscribed k j ∙ rw (e, t.agrees k j h) (other (given left.1 k) _))
      ];
    }
  where
    unsubscribed :
        (k : Subscription) (j : ConnId)
        → has j (
            members k
              (leave c (conn_unsubscribe_id id (inc.conn c).subscriptions).1 inc.subscriptions))
          ≡ (not (given (conn_unsubscribe_id id (inc.conn c).subscriptions).1 k && c == j)
              && has j (members k inc.subscriptions))
    unsubscribed k j =
        let found = (conn_unsubscribe_id id (inc.conn c).subscriptions).1 in
        elim (Bool-cases (given found k)) [
          | inl e ↦ rw (leave-members c found k inc.subscriptions, e) (has-remove c j _)
          | inr e ↦ rw (leave-members c found k inc.subscriptions, e) refl
        ]

    de_morgan : (g b : Bool) → (not (g && true) && not b) ≡ not (g || b)
    de_morgan g b = ground arith

    other : (g b : Bool) → (not (g && false) && b) ≡ b
    other g b = ground arith

pub drop_token-Tables : (inc : Incoming) (c : ConnId) → Tables inc → Tables (drop_token inc c)
unfolding drop_token
drop_token-Tables inc c t = record {
  unique = retain-Unique c inc.subscriptions t.unique;
  conn_unique = t.conn_unique;
  below = λ j h. t.below j (and_right _ _ (sym (has-remove c j inc.connections) ∙ h));
  listed = λ k j h.
      let was : (not (c == j) && has j (members k inc.subscriptions)) ≡ true =
        sym (has-remove c j _)
        ∙ sym (ap (has j) (retain-members c k inc.subscriptions t.unique))
        ∙ h in
      let still : has j inc.connections ≡ true = t.listed k j (and_right (not (c == j)) _ was) in
      has-remove c j inc.connections ∙ ground arith;
  distinct =
      λ k. rw (retain-members c k inc.subscriptions t.unique) (remove-NoDup c _ (t.distinct k));
  agrees = λ k j h.
      let live : (not (c == j) && has j inc.connections) ≡ true = sym (has-remove c j _) ∙ h in
      ap (has j) (retain-members c k inc.subscriptions t.unique)
      ∙ has-remove c j _
      ∙ ground (arith, t.agrees k j (and_right (not (c == j)) (has j inc.connections) live));
}

free_id-free :
    (fuel id : ℕ) (connections : List ConnId)
    → has id connections ≡ false
    → free_id fuel id connections ≡ (id, (id + 1) % 2 ^ 64)
unfolding free_id
free_id-free zero id connections h = refl
free_id-free (suc fuel) id connections h = rw h refl

pub connected-Tables :
    (inc : Incoming) → Tables inc → inc.next_id + 1 < 2 ^ 64 → Tables (connected inc)
unfolding connected lookup
connected-Tables inc t small =
    let id = inc.next_id in
    let new_id : has id inc.connections ≡ false = ground (arith, t.below id) in
    let with_id : ConnId × ℕ → Incoming = λ p. record (put p.0 empty_connection inc) {
      connections = add p.0 inc.connections;
      next_id = p.1;
    } in
    let wraps : (id + 1) % 2 ^ 64 ≡ id + 1 = omega arith in
    let parts : free_id (length inc.connections) id inc.connections ≡ (id, id + 1) =
      free_id-free (length inc.connections) id inc.connections new_id ∙ ap (λ n. (id, n)) wraps in
    let step : connected inc ≡ with_id (id, id + 1) = ap with_id parts in
    subst Tables (sym step) (record {
      unique = t.unique;
      conn_unique =
          λ j. elim (Bool-cases (id == j)) [ inl e ↦ rw e tt | inr e ↦ rw e (t.conn_unique j) ];
      below = λ j h. ground (arith, t.below j, has-add id j inc.connections);
      listed = λ k j h. has-add id j inc.connections ∙ ground (arith, t.listed k j h);
      distinct = t.distinct;
      agrees = λ k j h. elim (Bool-cases (id == j)) [
        | inl e ↦ rw e (ground (arith, t.listed k j, (==_iff id j).0 e))
        | inr e ↦ rw e (t.agrees k j (ground (arith, has-add id j inc.connections)))
      ];
    })
