-- ===== src/Incoming/Channel.antt =====
-- src/incoming/channel.rs: triggers that come close together are gathered, and each kind of
-- subscription is then triggered once.
use cantal.Common.{Bool, false, ◌||◌, if◌then◌else◌, List, [], ◌∷◌}
use cantal.Incoming.{Subscription, status, scan, subscription_eq, Incoming, Respond, trigger}

abbrev pub includes : Subscription → List Subscription → Bool
includes s [] = false
includes s (t ∷ set) = subscription_eq t s || includes s set

-- `HashSet::insert`.
unfoldable pub add_kind : Subscription → List Subscription → List Subscription
add_kind s set = if includes s set then set else s ∷ set

-- A scan changes the status too.
unfoldable pub insert : List Subscription → Subscription → List Subscription
insert triggered scan = add_kind scan (add_kind status triggered)
insert triggered s = add_kind s triggered

-- One round of the loop of `Receiver::start`: what was sent until it looked, the first one first.
unfoldable pub gather : List Subscription → List Subscription → List Subscription
gather buf [] = buf
gather buf (s ∷ more) = gather (insert buf s) more

unfoldable pub trigger_all : Respond → Incoming → List Subscription → Incoming
trigger_all respond inc [] = inc
trigger_all respond inc (s ∷ buf) = trigger_all respond (trigger respond inc s) buf

unfoldable pub deliver : Respond → Incoming → Subscription → List Subscription → Incoming
deliver respond inc first more = trigger_all respond inc (gather (insert [] first) more)
