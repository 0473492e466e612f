-- ===== src/Gossip/Peer/Reports.antt =====
-- What the methods of a peer keep: its identity, its address, and the newest report.
use cantal.Common.{
  ℕ, ◌≡◌, refl, ap, ge→ltb, ◌∙◌, arith, Bool, true, false, ltb, if◌then◌else◌, max, Bool-cases, inl,
  inr, Option, none, some, List,
}
use cantal.Gossip.Config.{Text, SocketAddr}
use cantal.Gossip.Peer.{
  Peer, Report, apply_addresses, apply_report, overwrites, time_of, apply_hostname, renames,
  apply_node_name, apply_roundtrip,
}

-- The same peer, at the same address.
pub record IsSame (p q : Peer) : Type 0 where
  pub id : p.id ≡ q.id
  pub primary : p.primary_addr ≡ q.primary_addr

pub IsSame-trans : (p q r : Peer) → IsSame p q → IsSame q r → IsSame p r
IsSame-trans p q r a b = record { id = a.id ∙ b.id; primary = a.primary ∙ b.primary }

pub apply_addresses-IsSame :
    (p : Peer) (addrs : List SocketAddr) (direct : Bool) → IsSame (apply_addresses p addrs direct) p
unfolding apply_addresses
apply_addresses-IsSame p addrs direct = record { id = refl; primary = refl }

pub apply_report-IsSame :
    (p : Peer) (src : Option (ℕ × Report)) (direct : Bool) → IsSame (apply_report p src direct) p
unfolding apply_report
apply_report-IsSame p src direct = elim (Bool-cases (overwrites p.report src)) [
  | inl e ↦ rw e (record { id = refl; primary = refl })
  | inr e ↦ rw e (record { id = refl; primary = refl })
]

pub apply_hostname-IsSame :
    (p : Peer) (hostname : Option Text) (direct : Bool)
    → IsSame (apply_hostname p hostname direct) p
unfolding apply_hostname
apply_hostname-IsSame p hostname direct = elim (Bool-cases (renames p.hostname hostname direct)) [
  | inl e ↦ rw e (record { id = refl; primary = refl })
  | inr e ↦ rw e (record { id = refl; primary = refl })
]

pub apply_node_name-IsSame :
    (p : Peer) (name : Option Text) (direct : Bool) → IsSame (apply_node_name p name direct) p
unfolding apply_node_name
apply_node_name-IsSame p name direct = elim (Bool-cases (renames p.name name direct)) [
  | inl e ↦ rw e (record { id = refl; primary = refl })
  | inr e ↦ rw e (record { id = refl; primary = refl })
]

pub apply_roundtrip-IsSame :
    (p : Peer) (rtt : ℕ × ℕ) (source : SocketAddr) (direct : Bool)
    → IsSame (apply_roundtrip p rtt source direct) p
unfolding apply_roundtrip
apply_roundtrip-IsSame p rtt source true = record { id = refl; primary = refl }
apply_roundtrip-IsSame p rtt source false = record { id = refl; primary = refl }

-- The later of two times.
abbrev pub latest : Option ℕ → Option ℕ → Option ℕ
latest none b = b
latest (some a) none = some a
latest (some a) (some b) = some (max a b)

time_of-overwrites :
    (old src : Option (ℕ × Report))
    → time_of (if overwrites old src then src else old) ≡ latest (time_of old) (time_of src)
time_of-overwrites none none = refl
time_of-overwrites none (some (nts, s)) = refl
time_of-overwrites (some (ots, r)) none = refl
time_of-overwrites (some (ots, r)) (some (nts, s)) = elim (Bool-cases (ltb ots nts)) [
  | inl e ↦ let m : nts ≡ max ots nts = ground arith in rw e (ap some m)
  | inr e ↦ let m : ots ≡ max ots nts = ground arith in rw e (ap some m)
]

overwrites_self : (src : Option (ℕ × Report)) → overwrites src src ≡ false
overwrites_self none = refl
overwrites_self (some (ts, r)) = ge→ltb ts ts (omega arith)

-- Applying a report leaves the later of the two times, so that a peer's report never gets older,
-- whoever sends it. An indirect one never changes the time of the last direct report, and
-- applying the same report again changes nothing.
pub apply_report-latest :
    (p : Peer) (src : Option (ℕ × Report)) (direct : Bool)
    → (time_of (apply_report p src direct).report ≡ latest (time_of p.report) (time_of src))
      × ((apply_report p src false).last_report_direct ≡ p.last_report_direct)
      × (apply_report (apply_report p src direct) src direct ≡ apply_report p src direct)
unfolding apply_report
apply_report-latest p src direct =
    let newest = time_of-overwrites p.report src in
    elim (Bool-cases (overwrites p.report src)) [
      | inl e ↦ rw e (rw e at newest, refl, rw (overwrites_self src) refl)
      | inr e ↦ rw e (rw e at newest, refl, rw e refl)
    ]
