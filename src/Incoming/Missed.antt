-- ===== src/Incoming/Missed.antt =====
-- A request that is kept under two kinds of subscription.
use cantal.Common.{◌==◌, ==_iff, ◌≡◌, ◌≢◌, refl, true, Bool-cases, inl, inr, ◌∷◌}
use cantal.Common.Maps.{Map, lookup}
use cantal.Incoming.{
  Text, ConnId, Subscription, subscription_eq, subscription_eq_iff, subscription_has_eq, Requests,
  Incoming, requests, contains_key, conn_unsubscribe_id, unsubscribe_id,
}

-- If a client subscribed under one name to two kinds, and then stops it, it stays subscribed to
-- the kind that is not the first to be walked through.
pub unsubscribe_id-misses :
    (inc : Incoming) (c : ConnId) (id : Text) (k j : Subscription) (v : Requests)
    (rest : Map Subscription Requests)
    → (inc.conn c).subscriptions ≡ (k, v) ∷ rest
    → contains_key id v ≡ true
    → k ≢ j
    → contains_key id (requests j rest) ≡ true
    → contains_key id (requests j ((unsubscribe_id inc c id).conn c).subscriptions) ≡ true
unfolding unsubscribe_id conn_unsubscribe_id lookup
unsubscribe_id-misses inc c id k j v rest e first ne second =
    elim (Bool-cases (subscription_eq k j)) [
      | inl same ↦ absurd (ne ((subscription_eq_iff k j).0 same))
      | inr other ↦
          let self : (c == c) ≡ true = (==_iff c c).1 refl in
          rw (self, e) (rw (first, other) second)
    ]
