-- ===== src/Incoming/Tests.antt =====
-- Small runs of two clients.
use cantal.Common.{◌≡◌, refl, arith, true, some, List, [], ◌∷◌}
use cantal.Common.Maps.{lookup, insert}
use cantal.Common.Sets.{has, add}
use cantal.History.Key.{bytes_eq}
use cantal.Incoming.{
  status, peers, Input, Incoming, new, connected, subscribe, free_id, requests, Requests,
  contains_key, trigger, unsubscribe_id, Respond,
}
use cantal.Incoming.Dispatcher.{
  Parser, text, start, field, Definition, subscription_op, on_frame, on_message, start_query,
  start_doc, subscribe_all, has_subscription,
}
use cantal.Incoming.Tables.{Tables}
use cantal.Incoming.Delivery.{told, trigger-told}
use cantal.Incoming.Runs.{Step, Reach, Reach-Tables}
use cantal.Incoming.Missed.{unsubscribe_id-misses}

abbrev query : Input
query = record { query = b'q' ∷ []; rest = [] }

abbrev respond : Respond
respond input = input.query

-- Every message is a subscription to the status and to the peers, named 1.
abbrev both : List Definition
both =
    subscription_op (record {
      selection_set =
          field (b's' ∷ b't' ∷ b'a' ∷ b't' ∷ b'u' ∷ b's' ∷ [])
          ∷ field (b'p' ∷ b'e' ∷ b'e' ∷ b'r' ∷ b's' ∷ [])
          ∷ [];
      params = [];
    })
    ∷ []

abbrev parser : Parser
parser = record {
  message = λ txt. some (start query (1 ∷ []));
  parse_query = λ txt. some both;
  show = λ doc. b's' ∷ [];
}

-- One client, which follows the status and the peers.
abbrev following : Incoming
following = start_doc parser respond (connected new) 0 (1 ∷ []) query both

Reach-following : Reach parser following
unfolding new connected free_id has add on_frame on_message start_query
Reach-following =
    Reach.next (Reach.next Reach.at_start (Step.connects (omega arith)))
      (Step.sends respond 0 (text []) refl refl)

Reach-Tables_example : Tables following
Reach-Tables_example = Reach-Tables parser following Reach-following

trigger-told_example :
    (trigger respond following peers).conn 0 ≡ told respond peers (following.conn 0)
unfolding new connected free_id has add start_doc has_subscription subscribe_all subscribe bytes_eq
trigger-told_example = trigger-told respond following peers 0 Reach-Tables_example refl

abbrev items : Requests
items = (1 ∷ [], record { query = b's' ∷ []; rest = [] }) ∷ []

-- The request is still there under the other kind.
unsubscribe_id-misses_example :
    contains_key
      (1 ∷ [])
      (requests peers ((unsubscribe_id following 0 (1 ∷ [])).conn 0).subscriptions)
    ≡ true
unfolding new connected free_id has add start_doc has_subscription subscribe_all subscribe insert
    lookup bytes_eq
unsubscribe_id-misses_example =
    unsubscribe_id-misses following 0 (1 ∷ []) status peers items ((peers, items) ∷ []) refl refl
      (λ e. cc) refl
