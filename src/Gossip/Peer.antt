-- ===== src/Gossip/Peer.antt =====
-- src/gossip/peer.rs: what an agent knows of one peer. The clock that a method reads is its
-- argument `now`. Times are u64, and sums of them wrap.
pub mod Reports
pub mod Targets
use cantal.Common.{
  ℕ, ltb, not, ◌==◌, Bool, true, false, if◌then◌else◌, ◌||◌, Option, none, some, List, [], ◌∷◌,
  ◌++◌,
}
use cantal.History.Word.{word_add}
use cantal.History.Key.{bytes_eq}
use cantal.Gossip.MachineId.{MachineId}
use cantal.Gossip.Config.{Config, Text, SocketAddr}

pub record Report : Type 0 where
  pub peers : ℕ
  pub has_remote : Bool

pub record Peer : Type 0 where
  pub id : MachineId
  pub known_since : ℕ
  pub primary_addr : Option SocketAddr
  -- A set.
  pub addresses : List SocketAddr
  pub hostname : Option Text
  pub name : Option Text
  pub last_probe : Option (ℕ × SocketAddr)
  pub probes_sent : ℕ
  pub pings_received : ℕ
  pub pongs_received : ℕ
  pub last_roundtrip : Option (SocketAddr × ℕ × ℕ)
  pub random_peer_roundtrip : Option (SocketAddr × ℕ × ℕ)
  pub report : Option (ℕ × Report)
  pub last_report_direct : Option ℕ

unfoldable pub new_peer : MachineId → ℕ → Peer
new_peer id now = record {
  id = id;
  known_since = now;
  primary_addr = none;
  addresses = [];
  hostname = none;
  name = none;
  last_probe = none;
  probes_sent = 0;
  pings_received = 0;
  pongs_received = 0;
  last_roundtrip = none;
  random_peer_roundtrip = none;
  report = none;
  last_report_direct = none;
}

abbrev pub contains : List SocketAddr → SocketAddr → Bool
contains [] addr = false
contains (a ∷ addrs) addr = (a == addr) || contains addrs addr

-- `HashSet::extend`.
abbrev pub extend : List SocketAddr → List SocketAddr → List SocketAddr
extend set [] = set
extend set (addr ∷ addrs) =
    if contains set addr then extend set addrs else extend (set ++ (addr ∷ [])) addrs

pub apply_addresses : Peer → List SocketAddr → Bool → Peer
apply_addresses p addrs direct = record p {
  addresses = if direct then extend [] addrs else extend p.addresses addrs;
}

-- Only a newer report is applied, or a first one.
abbrev pub overwrites : Option (ℕ × Report) → Option (ℕ × Report) → Bool
overwrites (some (ots, _)) (some (nts, _)) = ltb ots nts
overwrites none (some _) = true
overwrites _ none = false

abbrev pub time_of : Option (ℕ × Report) → Option ℕ
time_of none = none
time_of (some (ts, _)) = some ts

unfoldable pub apply_report : Peer → Option (ℕ × Report) → Bool → Peer
apply_report p src direct =
    if overwrites p.report src
    then record p {
      last_report_direct = if direct then time_of src else p.last_report_direct;
      report = src;
    }
    else p

-- Whether a name from the network replaces the one that is known.
abbrev pub renames : Option Text → Option Text → Bool → Bool
renames none (some _) direct = true
renames (some x) (some y) direct = if bytes_eq x y then false else direct
renames _ none direct = false

unfoldable pub apply_hostname : Peer → Option Text → Bool → Peer
apply_hostname p hostname direct =
    if renames p.hostname hostname direct then record p { hostname = hostname } else p

unfoldable pub apply_node_name : Peer → Option Text → Bool → Peer
apply_node_name p name direct = if renames p.name name direct then record p { name = name } else p

-- A roundtrip that a friend measured is kept if it is newer than the one from another friend.
abbrev pub newer_roundtrip :
    Option (SocketAddr × ℕ × ℕ) → ℕ × ℕ → SocketAddr → Option (SocketAddr × ℕ × ℕ)
newer_roundtrip none rtt source = some (source, rtt.0, rtt.1)
newer_roundtrip (some (s, tm, r)) rtt source =
    if ltb tm rtt.0 then some (source, rtt.0, rtt.1) else some (s, tm, r)

pub apply_roundtrip : Peer → ℕ × ℕ → SocketAddr → Bool → Peer
apply_roundtrip p rtt source direct =
    if direct
    then record p { last_roundtrip = some (source, rtt.0, rtt.1) }
    else record p { random_peer_roundtrip = newer_roundtrip p.random_peer_roundtrip rtt source }

-- `Some((ts, _)) if ts + time < now`, and so for other pairs.
abbrev pub is_past {ℓ} : {A : Type ℓ} → Option (ℕ × A) → ℕ → ℕ → Bool
is_past none time now = true
is_past (some (ts, _)) time now = ltb (word_add ts time) now

pub has_fresh_report : Peer → Config → ℕ → Bool
has_fresh_report p config now =
    if is_past p.report config.min_ping_interval now
    then false
    else not (is_past p.last_probe config.max_ping_interval now)

abbrev recent_report : Option ℕ → ℕ → ℕ → Bool
recent_report none time now = false
recent_report (some ts) time now = ltb now (word_add ts time)

abbrev awaited : Option (ℕ × SocketAddr) → ℕ → ℕ → Bool
awaited none time now = true
awaited (some (ts, _)) time now = ltb now (word_add ts time)

pub ping_primary_address : Peer → Config → ℕ → Bool
ping_primary_address p config now =
    if awaited p.last_probe config.max_roundtrip now
    then true
    else recent_report p.last_report_direct config.prefail_time now

abbrev pub without : List SocketAddr → SocketAddr → List SocketAddr
without [] addr = []
without (a ∷ addrs) addr = if a == addr then without addrs addr else a ∷ without addrs addr

abbrev or_else : Option SocketAddr → SocketAddr → SocketAddr
or_else none addr = addr
or_else (some a) addr = a

-- `sample` takes one address of a list at random, if there is one: `sample_iter(rng, iter, 1)`.
abbrev random_ping_from :
    Option (ℕ × SocketAddr)
    → List SocketAddr
    → (List SocketAddr → Option SocketAddr)
    → Option SocketAddr
random_ping_from (some (_, addr)) addresses sample =
    some (or_else (sample (without addresses addr)) addr)
random_ping_from none addresses sample = sample addresses

pub random_ping_addr : Peer → (List SocketAddr → Option SocketAddr) → Option SocketAddr
random_ping_addr p sample = random_ping_from p.last_probe p.addresses sample

-- Whether a peer was not heard of for a time: since its report, or since it is known.
abbrev pub unheard : Peer → ℕ → ℕ → Bool
unheard p time now = silent p.report
  where
    silent : Option (ℕ × Report) → Bool
    silent none = ltb (word_add p.known_since time) now
    silent (some (ts, _)) = ltb (word_add ts time) now

pub is_failing : Peer → Config → ℕ → Bool
is_failing p config now = unheard p config.fail_time now

pub is_stale : Peer → Config → ℕ → Bool
is_stale p config now = unheard p config.stale_time now

pub should_remove : Peer → Config → ℕ → Bool
should_remove p config now = unheard p config.remove_time now
