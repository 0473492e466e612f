-- ===== src/Incoming/Runs.antt =====
-- The ways that the connections go, and that the two tables agree on all of them.
use cantal.Common.{
  ◌+◌, ◌<◌, ◌^◌, ◌≡◌, refl, true, Bool-cases, inl, inr, Option, none, some, Option-cases, List, [],
  ◌∷◌,
}
use cantal.Common.Maps.{lookup}
use cantal.Common.Sets.{has}
use cantal.Incoming.{
  Text, ConnId, Subscription, subscription_has_eq, Input, Incoming, new, connected, subscribe,
  Respond, drop_token,
}
use cantal.Incoming.Channel.{deliver, gather, insert}
use cantal.Incoming.Dispatcher.{
  Parser, Frame, binary, text, close, other_frame, InputMessage, connection_init, start, stop,
  Outcome, handled, invalid_frame, panicked, Definition, subscribe_all, start_doc, start_query,
  on_message, on_frame, has_subscription, kinds, subscription_to_query, on_text,
}
use cantal.Incoming.Tables.{
  Tables, subscribe-Tables, unsubscribe_id-Tables, drop_token-Tables, connected-Tables,
}
use cantal.Incoming.Delivery.{put_tx-Tables, trigger_all-Tables}
use mathlib.Core.Path.{subst}

subscribe_all-Tables :
    (inc : Incoming) (c : ConnId) (id : Text) (input : Input) (subs : List Subscription)
    → Tables inc
    → has c inc.connections ≡ true
    → Tables (subscribe_all inc c id input subs)
unfolding subscribe_all subscribe
subscribe_all-Tables inc c id input [] t live = t
subscribe_all-Tables inc c id input (s ∷ subs) t live =
    subscribe_all-Tables (subscribe inc c s id input) c id input subs
      (subscribe-Tables inc c s id input t live) live

start_doc-Tables :
    (parser : Parser) (respond : Respond) (inc : Incoming) (c : ConnId) (id : Text)
    (payload : Input) (doc : List Definition)
    → Tables inc
    → has c inc.connections ≡ true
    → Tables (start_doc parser respond inc c id payload doc)
unfolding start_doc
start_doc-Tables parser respond inc c id payload doc t live =
    elim (Bool-cases (has_subscription doc)) [
      | inl e ↦
          let input = record payload { query = parser.show (subscription_to_query doc) } in
          let inc' = subscribe_all inc c id input (kinds doc) in
          rw e (put_tx-Tables inc' c _ (subscribe_all-Tables inc c id input (kinds doc) t live))
      | inr e ↦ rw e (put_tx-Tables inc c _ t)
    ]

-- What was handled leaves tables that agree.
abbrev IsFine : Outcome → Type 0
IsFine (handled inc) = Tables inc
IsFine invalid_frame = Unit {0}
IsFine panicked = Unit {0}

on_message-IsFine :
    (parser : Parser) (respond : Respond) (inc : Incoming) (c : ConnId) (m : InputMessage)
    → Tables inc
    → has c inc.connections ≡ true
    → IsFine (on_message parser respond inc c m)
unfolding on_message start_query
on_message-IsFine parser respond inc c connection_init t live = put_tx-Tables inc c _ t
on_message-IsFine parser respond inc c (start payload id) t live =
    elim (Option-cases (parser.parse_query payload.query)) [
      | inl e ↦ rw (start_query, e) tt
      | inr (doc, e) ↦
          rw (start_query, e) (start_doc-Tables parser respond inc c id payload doc t live)
    ]
on_message-IsFine parser respond inc c (stop id) t live = unsubscribe_id-Tables inc c id t

on_frame-IsFine :
    (parser : Parser) (respond : Respond) (inc : Incoming) (c : ConnId) (f : Frame)
    → Tables inc
    → has c inc.connections ≡ true
    → IsFine (on_frame parser respond inc c f)
unfolding on_frame
on_frame-IsFine parser respond inc c (binary b) t live = t
on_frame-IsFine parser respond inc c close t live = t
on_frame-IsFine parser respond inc c other_frame t live = t
on_frame-IsFine parser respond inc c (text txt) t live = go (parser.message txt)
  where
    go : (o : Option InputMessage) → IsFine (on_text parser respond inc c o)
    go none = tt
    go (some m) = on_message-IsFine parser respond inc c m t live

-- One thing that happens: a client connects, while the counter of connections has not come round,
-- sends a frame that is handled or that makes its connection fail, or goes; or those who
-- follow something are told of it. Only clients that are connected send frames.
pub data Step (parser : Parser) (inc : Incoming) : Incoming → Type 0 where
  connects : inc.next_id + 1 < 2 ^ 64 → Step parser inc (connected inc)
  sends :
      {inc' : Incoming} (respond : Respond) (c : ConnId) (f : Frame)
      → has c inc.connections ≡ true
      → on_frame parser respond inc c f ≡ handled inc'
      → Step parser inc inc'
  fails :
      (respond : Respond) (c : ConnId) (f : Frame)
      → has c inc.connections ≡ true
      → on_frame parser respond inc c f ≡ invalid_frame
      → Step parser inc (drop_token inc c)
  goes : (c : ConnId) → Step parser inc (drop_token inc c)
  tells :
      (respond : Respond) (first : Subscription) (more : List Subscription)
      → Step parser inc (deliver respond inc first more)

-- What can be reached from the start.
pub data Reach (parser : Parser) : Incoming → Type 0 where
  at_start : Reach parser new
  next : {inc inc' : Incoming} → Reach parser inc → Step parser inc inc' → Reach parser inc'

Step-Tables :
    {parser : Parser} {inc inc' : Incoming} → Step parser inc inc' → Tables inc → Tables inc'
unfolding deliver
Step-Tables {inc = inc} (connects small) t = connected-Tables inc t small
Step-Tables {parser} {inc} (sends respond c f live h) t =
    subst IsFine h (on_frame-IsFine parser respond inc c f t live)
Step-Tables {inc = inc} (fails respond c f live h) t = drop_token-Tables inc c t
Step-Tables {inc = inc} (goes c) t = drop_token-Tables inc c t
Step-Tables {inc = inc} (tells respond first more) t =
    trigger_all-Tables respond inc (gather (insert [] first) more) t

-- Whatever the clients send, and however they come and go, while the counter of connections has
-- not come round: each connection that is there is in the set of a kind of subscription exactly
-- if it has a request of that kind, each set has it once, and those that are gone are in no set.
pub Reach-Tables : (parser : Parser) (inc : Incoming) → Reach parser inc → Tables inc
unfolding new lookup has
Reach-Tables parser inc at_start = record {
  unique = tt;
  conn_unique = λ c. tt;
  below = λ c h. cc;
  listed = λ s c h. cc;
  distinct = λ s. tt;
  agrees = λ s c h. refl;
}
Reach-Tables parser inc (next r s) = Step-Tables s (Reach-Tables parser _ r)
