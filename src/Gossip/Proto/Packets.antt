-- ===== src/Gossip/Proto/Packets.antt =====
-- What a packet changes: nothing if it is foreign, and else its sender is known where it sent from.
use cantal.Common.{
  ℕ, ◌+◌, ◌≡◌, ◌≢◌, ◌⊎◌, refl, ◌∙◌, ap, Bool, true, false, Bool-cases, inl, inr, Option, none, some,
  List, [], ◌∷◌, arith,
}
use cantal.Common.Maps.{lookup, insert, lookup-insert, Map}
use cantal.History.Key.{bytes_eq_iff}
use cantal.Gossip.MachineId.{MachineId, id_eq, id_eq_iff, id_has_eq}
use cantal.Gossip.Config.{Config, SocketAddr, Text}
use cantal.Gossip.Peer.{Peer}
use cantal.Gossip.Info.{MyInfo, FriendInfo, Packet, ping, pong, Env}
use cantal.Gossip.Proto.{Proto, available, tick, put_peers, send_gossip, nat_has_eq}
use cantal.Gossip.Proto.Hearing.{
  entry, hear_ping, hear_pong, hear, hear_of, introduce, send_to_some, apply_friend, apply_friends,
  update_metrics, is_foreign, is_new, updated, consume_gossip,
}
use cantal.Gossip.Proto.Known.{hear_of-IsSame}

-- The cluster that a packet names, and what it says of its sender.
abbrev pub cluster_of : Packet → Text
cluster_of (ping cluster me now friends) = cluster
cluster_of (pong cluster me ping_time peer_time friends) = cluster

abbrev pub me_of : Packet → MyInfo
me_of (ping cluster me now friends) = me
me_of (pong cluster me ping_time peer_time friends) = me

-- The peer is known, with this address as the one to reach it at.
abbrev pub IsAt : Map MachineId Peer → MachineId → SocketAddr → Type 0
IsAt peers id addr = (peer : Peer) × (lookup id peers ≡ some peer) × (peer.primary_addr ≡ some addr)

insert-IsAt :
    (peers : Map MachineId Peer) (j id : MachineId) (p : Peer) (addr : SocketAddr)
    → IsAt peers id addr
    → (id_eq j id ≡ true → p.primary_addr ≡ some addr)
    → IsAt (insert j p peers) id addr
insert-IsAt peers j id p addr (peer, found, at) h = elim (Bool-cases (id_eq j id)) [
  | inl e ↦ (p, lookup-insert j id p peers ∙ rw e refl, h e)
  | inr e ↦ (peer, lookup-insert j id p peers ∙ rw e found, at)
]

module _ (env : Env) (config : Config) where
  is_foreign_iff :
      (cluster : Text) (me : MyInfo)
      → (cluster ≢ config.cluster_name) ⊎ (me.id ≡ config.machine_id)
      → is_foreign env config cluster me ≡ true
  is_foreign_iff cluster me h =
      ground (arith, bytes_eq_iff cluster config.cluster_name, id_eq_iff me.id config.machine_id)

  is_foreign-false :
      (cluster : Text) (me : MyInfo)
      → cluster ≡ config.cluster_name
      → me.id ≢ config.machine_id
      → is_foreign env config cluster me ≡ false
  is_foreign-false cluster me h ne =
      ground (arith, bytes_eq_iff cluster config.cluster_name, id_eq_iff me.id config.machine_id)

  -- A packet of another cluster, or one that bears the agent's own identity, changes nothing and
  -- is not answered, whether it is a ping or a pong.
  pub consume_gossip-foreign :
      (st : Proto) (packet : Packet) (addr : SocketAddr)
      → (cluster_of packet ≢ config.cluster_name) ⊎ ((me_of packet).id ≡ config.machine_id)
      → consume_gossip env config st packet addr ≡ tick st
  unfolding consume_gossip
  consume_gossip-foreign st (ping cluster me now friends) addr h =
      rw (is_foreign_iff cluster me h) refl
  consume_gossip-foreign st (pong cluster me ping_time peer_time friends) addr h =
      rw (is_foreign_iff cluster me h) refl

  introduce-primary :
      (peer : Peer) (known : Option SocketAddr) (text : Option Text) (now addr : ℕ)
      → known ≡ some addr
      → peer.primary_addr ≡ some addr
      → (introduce env config peer known text now).0.primary_addr ≡ some addr
  unfolding introduce
  introduce-primary peer none text now addr e at = cc
  introduce-primary peer (some x) text now addr e at = at

  send_to_some-info :
      (st : Proto) (o : Option SocketAddr) → (send_to_some env config st o).info ≡ st.info
  unfolding send_gossip
  send_to_some-info st none = refl
  send_to_some-info st (some addr) = refl

  apply_friend-IsAt :
      (st : Proto) (friend : FriendInfo) (source : SocketAddr) (id : MachineId) (addr : SocketAddr)
      → IsAt st.info.peers id addr
      → IsAt (apply_friend env config st friend source).info.peers id addr
  unfolding apply_friend
  apply_friend-IsAt st friend source id addr known =
      elim (Bool-cases (id_eq friend.id config.machine_id)) [
        | inl own ↦ rw own known
        | inr other ↦
            let was = entry env config st friend.id in
            let heard = hear_of env config was friend source in
            let met =
              introduce env config heard heard.primary_addr friend.my_primary_addr
                (env.clock st.ticks) in
            rw
              (
                other,
                send_to_some-info (tick (put_peers st (insert friend.id met.0 st.info.peers)))
                    met.1,
              )
              (insert-IsAt st.info.peers friend.id id met.0 addr known (λ e.
                introduce-primary heard heard.primary_addr friend.my_primary_addr
                  (env.clock st.ticks) addr (kept e) (kept e)))
      ]
    where
      kept :
          id_eq friend.id id ≡ true
          → (hear_of env config (entry env config st friend.id) friend source).primary_addr
            ≡ some addr
      kept e =
          let same : friend.id ≡ id = (id_eq_iff friend.id id).0 e in
          let found : lookup friend.id st.info.peers ≡ some known.0 = rw same known.1 in
          let was : entry env config st friend.id ≡ known.0 = rw (entry, found) refl in
          (hear_of-IsSame env config (entry env config st friend.id) friend source).primary
          ∙ ap (λ p. p.primary_addr) was
          ∙ known.2

  apply_friends-IsAt :
      (st : Proto) (friends : List FriendInfo) (source : SocketAddr) (id : MachineId)
      (addr : SocketAddr)
      → IsAt st.info.peers id addr
      → IsAt (apply_friends env config st friends source).info.peers id addr
  unfolding apply_friends
  apply_friends-IsAt st [] source id addr known = known
  apply_friends-IsAt st (friend ∷ friends) source id addr known =
      apply_friends-IsAt (apply_friend env config st friend source) friends source id addr
        (apply_friend-IsAt st friend source id addr known)

  -- What is known of addresses, how often was triggered, and the hosts to try again.
  abbrev pub Rest : Proto → Proto → Type 0
  Rest st' st =
      (st'.addr_status ≡ st.addr_status)
      × (st'.triggers ≡ st.triggers)
      × (st'.add_queue ≡ st.add_queue)

  send_to_some-Rest : (st : Proto) (o : Option SocketAddr) → Rest (send_to_some env config st o) st
  unfolding send_gossip
  send_to_some-Rest st none = (refl, refl, refl)
  send_to_some-Rest st (some addr) = (refl, refl, refl)

  apply_friend-Rest :
      (st : Proto) (friend : FriendInfo) (source : SocketAddr)
      → Rest (apply_friend env config st friend source) st
  unfolding apply_friend
  apply_friend-Rest st friend source = elim (Bool-cases (id_eq friend.id config.machine_id)) [
    | inl own ↦ rw own (refl, refl, refl)
    | inr other ↦ rw other (send_to_some-Rest _ _)
  ]

  pub apply_friends-Rest :
      (st : Proto) (friends : List FriendInfo) (source : SocketAddr)
      → Rest (apply_friends env config st friends source) st
  unfolding apply_friends
  apply_friends-Rest st [] source = (refl, refl, refl)
  apply_friends-Rest st (friend ∷ friends) source =
      let later = apply_friends-Rest (apply_friend env config st friend source) friends source in
      let now = apply_friend-Rest st friend source in
      (later.0 ∙ now.0, later.1 ∙ now.1, later.2 ∙ now.2)

  -- A peer was heard: it is known at the address that it sent from, this address is available,
  -- and those who follow the peers are told once.
  pub record Hears (st' st : Proto) (id : MachineId) (addr : SocketAddr) : Type 0 where
    pub known : IsAt st'.info.peers id addr
    pub reached : lookup addr st'.addr_status ≡ some available
    pub told : st'.triggers ≡ st.triggers + 1

  updated-Hears :
      (update : Bool) (st1 st : Proto) (id : MachineId) (addr : SocketAddr)
      → IsAt st1.info.peers id addr
      → lookup addr st1.addr_status ≡ some available
      → st1.triggers ≡ st.triggers
      → Hears (updated env config update st1) st id addr
  unfolding update_metrics
  updated-Hears true st1 st id addr known reached same = record {
    known = known;
    reached = reached;
    told = ap (λ t. t + 1) same;
  }
  updated-Hears false st1 st id addr known reached same = record {
    known = known;
    reached = reached;
    told = ap (λ t. t + 1) same;
  }

  -- The sender is put into the table with its address, and what friends tell does not move it.
  hear-known :
      (st : Proto) (friends : List FriendInfo) (addr : SocketAddr) (id : MachineId) (peer : Peer)
      → peer.primary_addr ≡ some addr
      → IsAt
          (apply_friends env config (hear env config st addr id peer) friends addr).info.peers
          id
          addr
  unfolding apply_friends
  hear-known st friends addr id peer at =
      apply_friends-IsAt (hear env config st addr id peer) friends addr id addr
        (peer, lookup-insert id id peer st.info.peers ∙ rw ((id_eq_iff id id).1 refl) refl, at)

  hear-reached :
      (st : Proto) (friends : List FriendInfo) (addr : SocketAddr) (id : MachineId) (peer : Peer)
      → lookup addr
          (apply_friends env config (hear env config st addr id peer) friends addr).addr_status
        ≡ some available
  hear-reached st friends addr id peer =
      ap (lookup addr) (apply_friends-Rest (hear env config st addr id peer) friends addr).0
      ∙ lookup-insert addr addr available st.addr_status
      ∙ rw ((nat_has_eq.eq_iff addr addr).1 refl) refl

  -- Any other packet, a ping or a pong, is heard: then its sender is known at the address that it
  -- came from, whatever the friends in the packet say of it, that address is available, and those
  -- who follow the peers are told once.
  pub consume_gossip-Hears :
      (st : Proto) (packet : Packet) (addr : SocketAddr)
      → cluster_of packet ≡ config.cluster_name
      → (me_of packet).id ≢ config.machine_id
      → Hears (consume_gossip env config st packet addr) st (me_of packet).id addr
  unfolding consume_gossip hear_ping hear_pong
  consume_gossip-Hears st (ping cluster me now friends) addr h ne =
      let peer = hear_ping env config (entry env config st me.id) me (env.clock st.ticks) addr in
      rw (is_foreign-false cluster me h ne) (
        updated-Hears (is_new env config st me.id) _ st me.id addr
          (hear-known st friends addr me.id peer refl) (hear-reached st friends addr me.id peer)
          (apply_friends-Rest (hear env config st addr me.id peer) friends addr).1)
  consume_gossip-Hears st (pong cluster me ping_time peer_time friends) addr h ne =
      let peer =
        hear_pong env config (entry env config st me.id) me (env.clock st.ticks) ping_time peer_time
          addr in
      rw (is_foreign-false cluster me h ne) (
        updated-Hears (is_new env config st me.id) _ st me.id addr
          (hear-known st friends addr me.id peer refl) (hear-reached st friends addr me.id peer)
          (apply_friends-Rest (hear env config st addr me.id peer) friends addr).1)
