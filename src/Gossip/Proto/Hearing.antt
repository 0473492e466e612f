-- ===== src/Gossip/Proto/Hearing.antt =====
-- src/gossip/proto.rs: what the protocol does with the packets that it receives.
use cantal.Common.{ℕ, ◌+◌, ◌-◌, Bool, true, false, leb, ◌&&◌, if◌then◌else◌}
use cantal.Common.{Option, none, some, List, [], ◌∷◌, length}
use cantal.Common.Maps.{Map, lookup, insert}
use cantal.History.Word.{word_add}
use cantal.History.Key.{bytes_eq}
use cantal.Gossip.MachineId.{MachineId, id_eq, id_has_eq}
use cantal.Gossip.Config.{Config, Text, SocketAddr}
use cantal.Gossip.Peer.{
  Peer, new_peer, apply_addresses, apply_report, apply_hostname, apply_node_name, apply_roundtrip,
  is_stale,
}
use cantal.Gossip.Info.{MyInfo, FriendInfo, Packet, ping, pong, Env, get_friends}
use cantal.Gossip.Proto.{Proto, available, nat_has_eq, tick, put_peers, my_info, send, send_gossip}

module _ (env : Env) (config : Config) where
  -- `info.peers.entry(id).or_insert_with(Peer::new)`.
  abbrev pub entry : Proto → MachineId → Peer
  entry st id = elim (lookup id st.info.peers) [
    | some peer ↦ peer
    | none ↦ new_peer id (env.clock_at st.ticks id)
  ]

  -- The addresses of a packet that are well formed.
  abbrev pub parse_all : List Text → List SocketAddr
  parse_all [] = []
  parse_all (text ∷ texts) = elim (env.parse text) [
    | some addr ↦ addr ∷ parse_all texts
    | none ↦ parse_all texts
  ]

  -- What the sender of a `Ping` tells of itself, received at `tm` from `addr`.
  unfoldable pub hear_ping : Peer → MyInfo → ℕ → SocketAddr → Peer
  hear_ping peer pinfo tm addr =
      let p1 = apply_addresses peer (parse_all pinfo.addresses) true in
      let p2 = apply_report p1 (some (tm, pinfo.report)) true in
      let p3 = apply_hostname p2 (some pinfo.host) true in
      let p4 = apply_node_name p3 (some pinfo.name) true in
      record p4 { pings_received = word_add p4.pings_received 1; primary_addr = some addr }

  abbrev pub sane_roundtrip : Peer → ℕ → ℕ → ℕ → SocketAddr → Peer
  sane_roundtrip peer tm ping_time peer_time addr =
      if leb ping_time tm && leb ping_time peer_time
      then apply_roundtrip peer (tm, tm - ping_time) addr true
      else peer

  unfoldable pub hear_pong : Peer → MyInfo → ℕ → ℕ → ℕ → SocketAddr → Peer
  hear_pong peer pinfo tm ping_time peer_time addr =
      let p1 = apply_addresses peer (parse_all pinfo.addresses) true in
      let p2 = apply_report p1 (some (tm, pinfo.report)) true in
      let p3 = record p2 { pongs_received = word_add p2.pongs_received 1 } in
      let p4 = sane_roundtrip p3 tm ping_time peer_time addr in
      let p5 = apply_hostname p4 (some pinfo.host) true in
      let p6 = apply_node_name p5 (some pinfo.name) true in record p6 { primary_addr = some addr }

  -- The state with what was heard of a peer that sent from `addr`.
  abbrev pub hear : Proto → SocketAddr → MachineId → Peer → Proto
  hear st addr id peer = record (tick (put_peers st (insert id peer st.info.peers))) {
    addr_status = insert addr available st.addr_status;
  }

  abbrev pub friend_roundtrip : Peer → Option (ℕ × ℕ) → SocketAddr → Peer
  friend_roundtrip peer none source = peer
  friend_roundtrip peer (some rtt) source = apply_roundtrip peer rtt source false

  -- What a friend tells of a peer.
  unfoldable pub hear_of : Peer → FriendInfo → SocketAddr → Peer
  hear_of peer friend source =
      let p1 = apply_addresses peer (parse_all friend.addresses) false in
      let p2 = apply_report p1 friend.report false in
      let p3 = apply_hostname p2 friend.host false in
      let p4 = apply_node_name p3 friend.name false in friend_roundtrip p4 friend.roundtrip source

  abbrev pub parse_some : Option Text → Option SocketAddr
  parse_some none = none
  parse_some (some text) = env.parse text

  -- A peer without an address gets the one from the friend, and is probed there.
  unfoldable pub introduce : Peer → Option SocketAddr → Option Text → ℕ → Peer × Option SocketAddr
  introduce peer (some _) text now = (peer, none)
  introduce peer none text now = elim (parse_some text) [
    | none ↦ (peer, none)
    | some addr ↦ (
      record peer {
        primary_addr = some addr;
        last_probe = some (now, addr);
        probes_sent = word_add peer.probes_sent 1;
      },
      some addr,
    )
  ]

  abbrev pub send_to_some : Proto → Option SocketAddr → Proto
  send_to_some st none = st
  send_to_some st (some addr) = send_gossip env config st addr

  -- One round of `apply_friends`.
  unfoldable pub apply_friend : Proto → FriendInfo → SocketAddr → Proto
  apply_friend st friend source =
      if id_eq friend.id config.machine_id
      then st
      else (let heard = hear_of (entry st friend.id) friend source in
          let (peer, sendto_addr) =
            introduce heard heard.primary_addr friend.my_primary_addr (env.clock st.ticks) in
          send_to_some (tick (put_peers st (insert friend.id peer st.info.peers))) sendto_addr)

  unfoldable pub apply_friends : Proto → List FriendInfo → SocketAddr → Proto
  apply_friends st [] source = st
  apply_friends st (friend ∷ friends) source =
      apply_friends (apply_friend st friend source) friends source

  abbrev pub count_stale : ℕ → Map MachineId Peer → ℕ
  count_stale t [] = 0
  count_stale t ((id, peer) ∷ peers) =
      (if is_stale peer config (env.clock_at t id) then 1 else 0) + count_stale t peers

  unfoldable pub update_metrics : Proto → Proto
  update_metrics st = record (tick st) {
    num_peers = length st.info.peers;
    num_stale = count_stale st.ticks st.info.peers;
  }

  abbrev pub is_new : Proto → MachineId → Bool
  is_new st id = elim (lookup id st.info.peers) [ some _ ↦ false | none ↦ true ]

  -- The end of `consume_gossip`.
  abbrev pub updated : Bool → Proto → Proto
  updated update st =
      let st' = if update then update_metrics st else st in
      record st' { triggers = st'.triggers + 1 }

  -- Packets of other clusters and one's own are dropped.
  abbrev pub is_foreign : Text → MyInfo → Bool
  is_foreign cluster pinfo =
      if bytes_eq cluster config.cluster_name then id_eq pinfo.id config.machine_id else true

  unfoldable pub consume_gossip : Proto → Packet → SocketAddr → Proto
  consume_gossip st (ping cluster pinfo now friends) addr =
      if is_foreign cluster pinfo
      then tick st
      else (let tm = env.clock st.ticks in
          let st1 = hear st addr pinfo.id (hear_ping (entry st pinfo.id) pinfo tm addr) in
          let st2 = apply_friends st1 friends addr in
          let st3 = send env config st2 addr (
            pong cluster (my_info env config st2.info) now tm
              (get_friends env st2.ticks st2.info addr config)) in
          updated (is_new st pinfo.id) st3)
  consume_gossip st (pong cluster pinfo ping_time peer_time friends) addr =
      if is_foreign cluster pinfo
      then tick st
      else (let tm = env.clock st.ticks in
          let peer = hear_pong (entry st pinfo.id) pinfo tm ping_time peer_time addr in
          let st1 = hear st addr pinfo.id peer in
          updated (is_new st pinfo.id) (apply_friends st1 friends addr))

  -- `receive_messages`, over the packets that could be read.
  unfoldable pub receive_messages : Proto → List (Packet × SocketAddr) → Proto
  receive_messages st [] = st
  receive_messages st ((packet, addr) ∷ more) =
      receive_messages (consume_gossip st packet addr) more
