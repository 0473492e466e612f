-- ===== src/Incoming.antt =====
-- src/incoming/mod.rs: the web clients of the agent, and what each of them wants to be told of.
pub mod Channel
pub mod Leaving
pub mod Tables
pub mod Dropping
pub mod Delivery
pub mod Runs
pub mod Missed
pub mod Dispatcher
mod Tests
use cantal.Common.{
  refl, ℕ, zero, suc, ◌+◌, ◌%◌, ◌^◌, ◌==◌, ==_iff, ◌↔◌, ◌≡◌, arith, Bool, true, false,
  if◌then◌else◌, Option, none, some, map, List, [], ◌∷◌, ◌++◌, length,
}
use cantal.Common.Maps.{Map, Eq, lookup, insert, erase}
use cantal.Common.Sets.{has, add, remove}
use cantal.History.Key.{bytes_eq, bytes_eq_iff}

abbrev pub Text : Type 0
Text = List ℕ

instance abbrev pub text_has_eq : Eq Text
text_has_eq = record { eq = bytes_eq; eq_iff = bytes_eq_iff }

-- The number of a connection, a machine word.
abbrev pub ConnId : Type 0
ConnId = ℕ

pub data Subscription : Type 0 where
  status peers scan : Subscription

-- The derived `PartialEq`.
abbrev pub subscription_eq : Subscription → Subscription → Bool
subscription_eq status status = true
subscription_eq peers peers = true
subscription_eq scan scan = true
subscription_eq _ _ = false

pub subscription_eq_iff : (a b : Subscription) → (subscription_eq a b ≡ true) ↔ (a ≡ b)
subscription_eq_iff status status = (λ h. refl, λ h. refl)
subscription_eq_iff status peers = (λ h. cc, λ h. cc)
subscription_eq_iff status scan = (λ h. cc, λ h. cc)
subscription_eq_iff peers status = (λ h. cc, λ h. cc)
subscription_eq_iff peers peers = (λ h. refl, λ h. refl)
subscription_eq_iff peers scan = (λ h. cc, λ h. cc)
subscription_eq_iff scan status = (λ h. cc, λ h. cc)
subscription_eq_iff scan peers = (λ h. cc, λ h. cc)
subscription_eq_iff scan scan = (λ h. refl, λ h. refl)

instance abbrev pub subscription_has_eq : Eq Subscription
subscription_has_eq = record { eq = subscription_eq; eq_iff = subscription_eq_iff }

-- `graphql::Input`: a query, and the rest, of which nothing is read here.
pub record Input : Type 0 where
  pub query : Text
  pub rest : Text

-- What is sent to a client. A payload stands for the text that the GraphQL library makes of it.
pub data OutputMessage : Type 0 where
  connection_ack : OutputMessage
  reply : Text → Text → OutputMessage

-- For each kind of subscription, the requests of that kind with their queries.
abbrev pub Requests : Type 0
Requests = Map Text Input

-- A connection, which all who have it share: what was sent, the latest last, and its requests.
pub record Connection : Type 0 where
  pub tx : List OutputMessage
  pub subscriptions : Map Subscription Requests

pub record Incoming : Type 0 where
  pub connections : List ConnId
  pub subscriptions : Map Subscription (List ConnId)
  -- The shared connections by their number.
  pub conn : ConnId → Connection
  -- `CONNECTION_ID`.
  pub next_id : ℕ

abbrev pub empty_connection : Connection
empty_connection = record { tx = []; subscriptions = [] }

-- `Incoming::new`, when no connection was made yet.
unfoldable pub new : Incoming
new = record { connections = []; subscriptions = []; conn = λ c. empty_connection; next_id = 0 }

abbrev pub put : ConnId → Connection → Incoming → Incoming
put c conn inc = record inc { conn = λ j. if c == j then conn else inc.conn j }

-- The loop over `fetch_add`, at most `fuel` rounds: the next number that no connection has, and
-- the counter after it.
unfoldable pub free_id : ℕ → ℕ → List ConnId → ConnId × ℕ
free_id zero id connections = (id, (id + 1) % 2 ^ 64)
free_id (suc fuel) id connections =
    let again = free_id fuel ((id + 1) % 2 ^ 64) connections in
    if has id connections then again else (id, (id + 1) % 2 ^ 64)

unfoldable pub connected : Incoming → Incoming
connected inc =
    let (id, next_id) = free_id (length inc.connections) inc.next_id inc.connections in
    let inc' = put id empty_connection inc in
    record inc' { connections = add id inc.connections; next_id = next_id }

-- Where no entry stands for an empty one.
abbrev pub or_empty {ℓ} : {A : Type ℓ} → Option (List A) → List A
or_empty none = []
or_empty (some xs) = xs

abbrev pub members : Subscription → Map Subscription (List ConnId) → List ConnId
members s subs = or_empty (lookup s subs)

abbrev pub requests : Subscription → Map Subscription Requests → Requests
requests s subs = or_empty (lookup s subs)

unfoldable pub subscribe : Incoming → ConnId → Subscription → Text → Input → Incoming
subscribe inc c s id input =
    let conn = inc.conn c in
    let items = insert id input (requests s conn.subscriptions) in
    record (put c (record conn { subscriptions = insert s items conn.subscriptions }) inc) {
      subscriptions = insert s (add c (members s inc.subscriptions)) inc.subscriptions;
    }

abbrev pub contains_key : Text → Requests → Bool
contains_key id items = elim (lookup id items) [ some _ ↦ true | none ↦ false ]

abbrev pub is_empty {ℓ} : {A : Type ℓ} → List A → Bool
is_empty [] = true
is_empty (x ∷ xs) = false

-- `Connection::unsubscribe_id`: the request is taken from the first kind that has it. A kind that
-- has no request any more is given back.
unfoldable pub conn_unsubscribe_id :
    Text → Map Subscription Requests → Map Subscription Requests × Option Subscription
conn_unsubscribe_id id [] = ([], none)
conn_unsubscribe_id id ((k, v) ∷ subs) =
    let left = erase id v in
    let (others, found) = conn_unsubscribe_id id subs in
    if contains_key id v
    then ((k, left) ∷ subs, if is_empty left then some k else none)
    else ((k, v) ∷ others, found)

-- A connection leaves a kind of subscription, which goes when nobody is left.
abbrev pub leave_in :
    ConnId
    → Subscription
    → Map Subscription (List ConnId)
    → Option (List ConnId)
    → Map Subscription (List ConnId)
leave_in c s subs none = subs
leave_in c s subs (some conns) =
    let left = remove c conns in if is_empty left then erase s subs else insert s left subs

abbrev pub leave :
    ConnId → Option Subscription → Map Subscription (List ConnId) → Map Subscription (List ConnId)
leave c none subs = subs
leave c (some s) subs = leave_in c s subs (lookup s subs)

unfoldable pub unsubscribe_id : Incoming → ConnId → Text → Incoming
unsubscribe_id inc c id =
    let conn = inc.conn c in
    let (subs, subscription) = conn_unsubscribe_id id conn.subscriptions in
    record (put c (record conn { subscriptions = subs }) inc) {
      subscriptions = leave c subscription inc.subscriptions;
    }

-- What the GraphQL library answers, in the context of the moment.
abbrev pub Respond : Type 0
Respond = Input → Text

abbrev pub answers : Respond → Requests → List OutputMessage
answers respond items = map (λ e. reply e.0 (respond e.1)) items

-- A connection is sent the answers to its requests of a kind.
abbrev pub tell : Respond → Subscription → Incoming → ConnId → Incoming
tell respond s inc c =
    let conn = inc.conn c in
    put c (record conn { tx = conn.tx ++ answers respond (requests s conn.subscriptions) }) inc

unfoldable pub tell_all : Respond → Subscription → Incoming → List ConnId → Incoming
tell_all respond s inc [] = inc
tell_all respond s inc (c ∷ conns) = tell_all respond s (tell respond s inc c) conns

unfoldable pub trigger : Respond → Incoming → Subscription → Incoming
trigger respond inc s = tell_all respond s inc (members s inc.subscriptions)

-- The `retain` over the kinds of subscriptions.
unfoldable pub retain : ConnId → Map Subscription (List ConnId) → Map Subscription (List ConnId)
retain c [] = []
retain c ((s, conns) ∷ subs) =
    let left = remove c conns in
    let rest = retain c subs in if is_empty left then rest else (s, left) ∷ rest

-- `Token::drop`: the connection is gone.
unfoldable pub drop_token : Incoming → ConnId → Incoming
drop_token inc c = record inc {
  connections = remove c inc.connections;
  subscriptions = retain c inc.subscriptions;
}
