-- ===== src/Incoming/Dispatcher.antt =====
-- src/incoming/dispatcher.rs: what a client asks for.
use cantal.Common.{Bool, true, false, if◌then◌else◌, Option, none, some, map, List, [], ◌∷◌, ◌++◌}
use cantal.History.Key.{bytes_eq}
use cantal.Incoming.{
  Text, ConnId, Subscription, status, peers, scan, Input, OutputMessage, connection_ack, reply,
  Incoming, put, subscribe, unsubscribe_id, Respond,
}

-- What is read of a document of the GraphQL library: the fields that a subscription selects. The
-- rest of an operation or of a selection is kept as a text.
pub data Selection : Type 0 where
  field : Text → Selection
  other_selection : Text → Selection

pub record Operation : Type 0 where
  pub selection_set : List Selection
  pub params : Text

pub data Definition : Type 0 where
  subscription_op : Operation → Definition
  query_op : Operation → Definition
  other_definition : Text → Definition

pub data InputMessage : Type 0 where
  connection_init : InputMessage
  start : Input → Text → InputMessage
  stop : Text → InputMessage

pub data Frame : Type 0 where
  binary text : Text → Frame
  close other_frame : Frame

-- The libraries that read messages and documents.
pub record Parser : Type 0 where
  pub message : Text → Option InputMessage
  pub parse_query : Text → Option (List Definition)
  pub show : List Definition → Text

-- A frame was handled, or the connection fails, or the code panics.
pub data Outcome : Type 0 where
  handled : Incoming → Outcome
  invalid_frame : Outcome
  panicked : Outcome

abbrev pub as_query : Definition → Definition
as_query (subscription_op op) = query_op op
as_query (query_op op) = query_op op
as_query (other_definition d) = other_definition d

unfoldable pub subscription_to_query : List Definition → List Definition
subscription_to_query doc = map as_query doc

unfoldable pub has_subscription : List Definition → Bool
has_subscription [] = false
has_subscription (subscription_op op ∷ doc) = true
has_subscription (d ∷ doc) = has_subscription doc

-- The kind of subscription that a selected field stands for.
abbrev pub kind_of : Text → Option Subscription
kind_of name =
    if bytes_eq name (b's' ∷ b't' ∷ b'a' ∷ b't' ∷ b'u' ∷ b's' ∷ [])
    then some status
    else if bytes_eq name (b'l' ∷ b'o' ∷ b'c' ∷ b'a' ∷ b'l' ∷ [])
    then some scan
    else if bytes_eq name (b'p' ∷ b'e' ∷ b'e' ∷ b'r' ∷ b's' ∷ [])
    then some peers
    else none

abbrev pub kinds_of : List Selection → List Subscription
kinds_of [] = []
kinds_of (other_selection s ∷ items) = kinds_of items
kinds_of (field name ∷ items) =
    let rest = kinds_of items in elim (kind_of name) [ some s ↦ s ∷ rest | none ↦ rest ]

abbrev pub kinds : List Definition → List Subscription
kinds [] = []
kinds (subscription_op op ∷ doc) = kinds_of op.selection_set ++ kinds doc
kinds (query_op op ∷ doc) = kinds doc
kinds (other_definition d ∷ doc) = kinds doc

unfoldable pub subscribe_all : Incoming → ConnId → Text → Input → List Subscription → Incoming
subscribe_all inc c id input [] = inc
subscribe_all inc c id input (s ∷ subs) = subscribe_all (subscribe inc c s id input) c id input subs

abbrev pub send : Incoming → ConnId → OutputMessage → Incoming
send inc c message =
    let conn = inc.conn c in put c (record conn { tx = conn.tx ++ (message ∷ []) }) inc

module _ (parser : Parser) (respond : Respond) where
  -- `start_query` on a document that could be read.
  unfoldable pub start_doc : Incoming → ConnId → Text → Input → List Definition → Incoming
  start_doc inc c id payload doc =
      if has_subscription doc
      then (let input = record payload { query = parser.show (subscription_to_query doc) } in
          send (subscribe_all inc c id input (kinds doc)) c (reply id (respond input)))
      else send inc c (reply id (respond payload))

  unfoldable pub start_query : Incoming → ConnId → Text → Input → Outcome
  start_query inc c id payload = elim (parser.parse_query payload.query) [
    | none ↦ panicked
    | some doc ↦ handled (start_doc inc c id payload doc)
  ]

  unfoldable pub on_message : Incoming → ConnId → InputMessage → Outcome
  on_message inc c connection_init = handled (send inc c connection_ack)
  on_message inc c (start payload id) = start_query inc c id payload
  on_message inc c (stop id) = handled (unsubscribe_id inc c id)

  abbrev pub on_text : Incoming → ConnId → Option InputMessage → Outcome
  on_text inc c none = invalid_frame
  on_text inc c (some value) = on_message inc c value

  -- `Dispatcher::frame`.
  unfoldable pub on_frame : Incoming → ConnId → Frame → Outcome
  on_frame inc c (binary b) = handled inc
  on_frame inc c (text txt) = on_text inc c (parser.message txt)
  on_frame inc c close = handled inc
  on_frame inc c other_frame = handled inc
