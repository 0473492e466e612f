-- ===== src/Incoming/Delivery.antt =====
-- What the clients are told, and the ways that the connections go.
use cantal.Common.{
  ◌==◌, ==_iff, ◌≡◌, refl, ◌∙◌, sym, ap, true, false, not, if◌then◌else◌, Bool-cases, inl, inr,
  List, [], ◌∷◌, ◌++◌, append-nil,
}
use cantal.Common.Sets.{has, NoDup}
use cantal.Incoming.{
  ConnId, Subscription, subscription_has_eq, OutputMessage, Requests, Connection, Incoming, put,
  members, requests, is_empty, Respond, answers, tell, tell_all, trigger,
}
use cantal.Incoming.Channel.{trigger_all}
use cantal.Incoming.Tables.{Tables}
use mathlib.Core.Path.{subst}

-- A connection with the answers to its requests of a kind sent to it.
abbrev pub told : Respond → Subscription → Connection → Connection
told respond s conn = record conn {
  tx = conn.tx ++ answers respond (requests s conn.subscriptions);
}

tell_all-conn :
    (respond : Respond) (s : Subscription) (inc : Incoming) (conns : List ConnId) (c : ConnId)
    → NoDup conns
    → (tell_all respond s inc conns).conn c
      ≡ (if has c conns then told respond s (inc.conn c) else inc.conn c)
unfolding tell_all has
tell_all-conn respond s inc [] c d = refl
tell_all-conn respond s inc (b ∷ conns) c d =
    let later = tell_all-conn respond s (tell respond s inc b) conns c d.1 in
    elim (Bool-cases (b == c)) [
      | inl e ↦
          let same : b ≡ c = (==_iff b c).0 e in
          let alone : has c conns ≡ false = subst (λ i. has i conns ≡ false) same d.0 in
          later ∙ rw (alone, e) (ap (λ i. told respond s (inc.conn i)) same)
      | inr e ↦ later ∙ rw e refl
    ]

-- A trigger tells every connection that is there the answers to all its requests of the kind, and
-- so it changes nothing for one that has no such request.
pub trigger-told :
    (respond : Respond) (inc : Incoming) (s : Subscription) (c : ConnId)
    → Tables inc
    → has c inc.connections ≡ true
    → (trigger respond inc s).conn c ≡ told respond s (inc.conn c)
unfolding trigger
trigger-told respond inc s c t live =
    let all = tell_all-conn respond s inc (members s inc.subscriptions) c (t.distinct s) in
    elim (Bool-cases (has c (members s inc.subscriptions))) [
      | inl e ↦ all ∙ rw e refl
      | inr e ↦
          let none_left : not (is_empty (requests s (inc.conn c).subscriptions)) ≡ false =
            sym (t.agrees s c live) ∙ e in
          let nothing : requests s (inc.conn c).subscriptions ≡ [] = nil _ none_left in
          all ∙ rw (e, nothing) (ap (λ m. record (inc.conn c) { tx = m }) (sym (append-nil _)))
    ]
  where
    nil : (items : Requests) → not (is_empty items) ≡ false → items ≡ []
    nil [] h = refl
    nil (x ∷ items) h = cc

pub put_tx-Tables :
    (inc : Incoming) (c : ConnId) (sent : List OutputMessage)
    → Tables inc
    → Tables (put c (record (inc.conn c) { tx = sent }) inc)
put_tx-Tables inc c sent t = record {
  unique = t.unique;
  conn_unique = λ j. elim (Bool-cases (c == j)) [
    | inl e ↦ rw e (t.conn_unique c)
    | inr e ↦ rw e (t.conn_unique j)
  ];
  below = t.below;
  listed = t.listed;
  distinct = t.distinct;
  agrees = λ k j h. elim (Bool-cases (c == j)) [
    | inl e ↦
        let same : j ≡ c = sym ((==_iff c j).0 e) in
        rw e
          (t.agrees k j h ∙ ap (λ i. not (is_empty (requests k (inc.conn i).subscriptions))) same)
    | inr e ↦ rw e (t.agrees k j h)
  ];
}

tell_all-Tables :
    (respond : Respond) (s : Subscription) (inc : Incoming) (conns : List ConnId)
    → Tables inc
    → Tables (tell_all respond s inc conns)
unfolding tell_all
tell_all-Tables respond s inc [] t = t
tell_all-Tables respond s inc (c ∷ conns) t =
    tell_all-Tables respond s (tell respond s inc c) conns (put_tx-Tables inc c _ t)

pub trigger_all-Tables :
    (respond : Respond) (inc : Incoming) (buf : List Subscription)
    → Tables inc
    → Tables (trigger_all respond inc buf)
unfolding trigger_all trigger
trigger_all-Tables respond inc [] t = t
trigger_all-Tables respond inc (s ∷ buf) t =
    trigger_all-Tables respond (trigger respond inc s) buf
      (tell_all-Tables respond s inc (members s inc.subscriptions) t)
