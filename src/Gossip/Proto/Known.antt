-- ===== src/Gossip/Proto/Known.antt =====
-- The peers that the protocol knows: each under its own identity, once, and never the agent itself.
use cantal.Common.{
  ℕ, ◌≡◌, refl, ◌∙◌, Bool, true, false, leb, Bool-cases, inl, inr, Option, none, some, Option-cases,
  List, [], ◌∷◌, ◌&&◌,
}
use cantal.Common.Maps.{
  Map, lookup, insert, Unique, insert-Unique, AllEntries, insert-AllEntries, lookup-AllEntries,
  lookup-insert,
}
use cantal.History.Key.{bytes_eq}
use cantal.Gossip.MachineId.{MachineId, id_eq, id_has_eq}
use cantal.Gossip.Config.{Config, SocketAddr, Text}
use cantal.Gossip.Peer.{
  Peer, new_peer, apply_addresses, apply_report, apply_hostname, apply_node_name,
}
use cantal.Gossip.Peer.Reports.{
  IsSame, IsSame-trans, apply_addresses-IsSame, apply_report-IsSame, apply_hostname-IsSame,
  apply_node_name-IsSame, apply_roundtrip-IsSame,
}
use cantal.Gossip.Info.{MyInfo, FriendInfo, Packet, ping, pong, Env}
use cantal.Gossip.Proto.{
  Proto, available, ping_sent, tick, put_peers, send_gossip, AddrStatus, nat_has_eq, add_host,
  add_host_in, internal_messages,
}
use cantal.Gossip.Proto.Hearing.{
  entry, parse_all, hear_ping, hear_pong, sane_roundtrip, hear, hear_of, friend_roundtrip,
  introduce, parse_some, send_to_some, apply_friend, apply_friends, update_metrics, is_foreign,
  updated, consume_gossip, receive_messages,
}

pub record IsKnown (config : Config) (peers : Map MachineId Peer) : Type 0 where
  pub unique : Unique peers
  pub named : AllEntries (λ id peer. peer.id ≡ id) peers
  pub others : lookup config.machine_id peers ≡ none

pub insert-IsKnown :
    (config : Config) (peers : Map MachineId Peer) (id : MachineId) (peer : Peer)
    → IsKnown config peers
    → peer.id ≡ id
    → id_eq id config.machine_id ≡ false
    → IsKnown config (insert id peer peers)
insert-IsKnown config peers id peer k h ne = record {
  unique = insert-Unique id peer peers k.unique;
  named = insert-AllEntries (λ id peer. peer.id ≡ id) id peer peers h k.named;
  others = lookup-insert id config.machine_id peer peers ∙ rw ne k.others;
}

module _ (env : Env) (config : Config) where
  pub entry-id :
      (st : Proto) (id : MachineId)
      → IsKnown config st.info.peers
      → (entry env config st id).id ≡ id
  unfolding new_peer
  entry-id st id k = elim (Option-cases (lookup id st.info.peers)) [
    | inl e ↦ rw (entry, e) refl
    | inr (peer, e) ↦
        rw (entry, e) (lookup-AllEntries (λ id peer. peer.id ≡ id) id st.info.peers peer e k.named)
  ]

  pub hear_ping-id :
      (peer : Peer) (pinfo : MyInfo) (tm : ℕ) (addr : SocketAddr)
      → (hear_ping env config peer pinfo tm addr).id ≡ peer.id
  unfolding hear_ping
  hear_ping-id peer pinfo tm addr =
      let p1 = apply_addresses peer (parse_all env config pinfo.addresses) true in
      let p2 = apply_report p1 (some (tm, pinfo.report)) true in
      let p3 = apply_hostname p2 (some pinfo.host) true in
      (apply_node_name-IsSame p3 (some pinfo.name) true).id
      ∙ (apply_hostname-IsSame p2 (some pinfo.host) true).id
      ∙ (apply_report-IsSame p1 (some (tm, pinfo.report)) true).id
      ∙ (apply_addresses-IsSame peer (parse_all env config pinfo.addresses) true).id

  sane_roundtrip-id :
      (peer : Peer) (tm ping_time peer_time : ℕ) (addr : SocketAddr)
      → (sane_roundtrip env config peer tm ping_time peer_time addr).id ≡ peer.id
  sane_roundtrip-id peer tm ping_time peer_time addr =
      elim (Bool-cases (leb ping_time tm && leb ping_time peer_time)) [
        | inl e ↦ rw (sane_roundtrip, e) (apply_roundtrip-IsSame peer _ addr true).id
        | inr e ↦ rw (sane_roundtrip, e) refl
      ]

  pub hear_pong-id :
      (peer : Peer) (pinfo : MyInfo) (tm ping_time peer_time : ℕ) (addr : SocketAddr)
      → (hear_pong env config peer pinfo tm ping_time peer_time addr).id ≡ peer.id
  unfolding hear_pong
  hear_pong-id peer pinfo tm ping_time peer_time addr =
      (apply_node_name-IsSame _ (some pinfo.name) true).id
      ∙ (apply_hostname-IsSame _ (some pinfo.host) true).id
      ∙ sane_roundtrip-id _ tm ping_time peer_time addr
      ∙ (apply_report-IsSame _ (some (tm, pinfo.report)) true).id
      ∙ (apply_addresses-IsSame peer (parse_all env config pinfo.addresses) true).id

  pub hear_of-IsSame :
      (peer : Peer) (friend : FriendInfo) (source : SocketAddr)
      → IsSame (hear_of env config peer friend source) peer
  unfolding hear_of
  hear_of-IsSame peer friend source =
      let p1 = apply_addresses peer (parse_all env config friend.addresses) false in
      let p2 = apply_report p1 friend.report false in
      let p3 = apply_hostname p2 friend.host false in
      let p4 = apply_node_name p3 friend.name false in
      IsSame-trans _ p4 peer (rtt p4 friend.roundtrip) (
        IsSame-trans p4 p3 peer (apply_node_name-IsSame p3 friend.name false) (
          IsSame-trans p3 p2 peer (apply_hostname-IsSame p2 friend.host false) (
            IsSame-trans p2 p1 peer (apply_report-IsSame p1 friend.report false)
              (apply_addresses-IsSame peer (parse_all env config friend.addresses) false))))
    where
      rtt : (p : Peer) (o : Option (ℕ × ℕ)) → IsSame (friend_roundtrip env config p o source) p
      rtt p none = record { id = refl; primary = refl }
      rtt p (some r) = apply_roundtrip-IsSame p r source false

  introduce-id :
      (peer : Peer) (known : Option SocketAddr) (text : Option Text) (now : ℕ)
      → (introduce env config peer known text now).0.id ≡ peer.id
  unfolding introduce
  introduce-id peer (some _) text now = refl
  introduce-id peer none text now = elim (Option-cases (parse_some env config text)) [
    | inl e ↦ rw (introduce, e) refl
    | inr (addr, e) ↦ rw (introduce, e) refl
  ]

  send_to_some-info :
      (st : Proto) (o : Option SocketAddr) → (send_to_some env config st o).info ≡ st.info
  unfolding send_gossip
  send_to_some-info st none = refl
  send_to_some-info st (some addr) = refl

  -- The peers of a state are as they should be.
  abbrev pub Knows : Proto → Type 0
  Knows st = IsKnown config st.info.peers

  apply_friend-Knows :
      (st : Proto) (friend : FriendInfo) (source : SocketAddr)
      → Knows st
      → Knows (apply_friend env config st friend source)
  unfolding apply_friend
  apply_friend-Knows st friend source k = elim (Bool-cases (id_eq friend.id config.machine_id)) [
    | inl e ↦ rw e k
    | inr e ↦
        let heard = hear_of env config (entry env config st friend.id) friend source in
        let met =
          introduce env config heard heard.primary_addr friend.my_primary_addr
            (env.clock st.ticks) in
        let same : met.0.id ≡ friend.id =
          introduce-id heard heard.primary_addr friend.my_primary_addr (env.clock st.ticks)
          ∙ (hear_of-IsSame (entry env config st friend.id) friend source).id
          ∙ entry-id st friend.id k in
        rw (e, send_to_some-info (tick (put_peers st (insert friend.id met.0 st.info.peers))) met.1)
          (insert-IsKnown config st.info.peers friend.id met.0 k same e)
  ]

  pub apply_friends-Knows :
      (st : Proto) (friends : List FriendInfo) (source : SocketAddr)
      → Knows st
      → Knows (apply_friends env config st friends source)
  unfolding apply_friends
  apply_friends-Knows st [] source k = k
  apply_friends-Knows st (friend ∷ friends) source k =
      apply_friends-Knows (apply_friend env config st friend source) friends source
        (apply_friend-Knows st friend source k)

  pub updated-info : (update : Bool) (st : Proto) → (updated env config update st).info ≡ st.info
  unfolding update_metrics
  updated-info true st = refl
  updated-info false st = refl

  pub not-is_foreign :
      (cluster : Text) (pinfo : MyInfo)
      → is_foreign env config cluster pinfo ≡ false
      → id_eq pinfo.id config.machine_id ≡ false
  not-is_foreign cluster pinfo h = elim (Bool-cases (bytes_eq cluster config.cluster_name)) [
    | inl e ↦ rw (is_foreign, e) at h
    | inr e ↦ let impossible : true ≡ false = rw (is_foreign, e) at h in cc
  ]

  pub consume_gossip-Knows :
      (st : Proto) (packet : Packet) (addr : SocketAddr)
      → Knows st
      → Knows (consume_gossip env config st packet addr)
  unfolding consume_gossip send_gossip
  consume_gossip-Knows st (ping cluster pinfo now friends) addr k =
      elim (Bool-cases (is_foreign env config cluster pinfo)) [
        | inl e ↦ rw e k
        | inr e ↦
            let peer =
              hear_ping env config (entry env config st pinfo.id) pinfo (env.clock st.ticks) addr in
            let same : peer.id ≡ pinfo.id =
              hear_ping-id (entry env config st pinfo.id) pinfo (env.clock st.ticks) addr
              ∙ entry-id st pinfo.id k in
            rw (e, updated-info _ _)
              (apply_friends-Knows (hear env config st addr pinfo.id peer) friends addr (
                insert-IsKnown config st.info.peers pinfo.id peer k same
                  (not-is_foreign cluster pinfo e)))
      ]
  consume_gossip-Knows st (pong cluster pinfo ping_time peer_time friends) addr k =
      elim (Bool-cases (is_foreign env config cluster pinfo)) [
        | inl e ↦ rw e k
        | inr e ↦
            let peer =
              hear_pong env config (entry env config st pinfo.id) pinfo (env.clock st.ticks)
                ping_time peer_time addr in
            let same : peer.id ≡ pinfo.id =
              hear_pong-id (entry env config st pinfo.id) pinfo (env.clock st.ticks) ping_time
                peer_time addr
              ∙ entry-id st pinfo.id k in
            rw (e, updated-info _ _)
              (apply_friends-Knows (hear env config st addr pinfo.id peer) friends addr (
                insert-IsKnown config st.info.peers pinfo.id peer k same
                  (not-is_foreign cluster pinfo e)))
      ]

  pub receive_messages-Knows :
      (st : Proto) (packets : List (Packet × SocketAddr))
      → Knows st
      → Knows (receive_messages env config st packets)
  unfolding receive_messages
  receive_messages-Knows st [] k = k
  receive_messages-Knows st ((packet, addr) ∷ more) k =
      receive_messages-Knows (consume_gossip env config st packet addr) more
        (consume_gossip-Knows st packet addr k)

  add_host-info : (st : Proto) (addr : SocketAddr) → (add_host env config st addr).info ≡ st.info
  unfolding add_host send_gossip
  add_host-info st addr = go (lookup addr st.addr_status)
    where
      go : (o : Option AddrStatus) → (add_host_in env config st addr o).info ≡ st.info
      go (some available) = refl
      go (some ping_sent) = refl
      go none = refl

  pub internal_messages-info :
      (st : Proto) (stream : List SocketAddr)
      → (internal_messages env config st stream).info ≡ st.info
  unfolding internal_messages
  internal_messages-info st [] = refl
  internal_messages-info st (addr ∷ stream) =
      internal_messages-info (add_host env config st addr) stream ∙ add_host-info st addr
