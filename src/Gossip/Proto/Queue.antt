-- ===== src/Gossip/Proto/Queue.antt =====
-- The hosts that are tried again: each once, and each of an address whose status is kept.
use cantal.Common.{
  ℕ, zero, suc, ◌+◌, ◌^◌, ◌<◌, ◌≡◌, ◌≢◌, refl, sym, Bool, true, false, ltb, Bool-cases, inl, inr,
  Option, none, some, Option-cases, List, [], ◌∷◌, arith,
}
use cantal.Common.Maps.{lookup, insert, lookup-insert}
use cantal.Gossip.Config.{Config, SocketAddr}
use cantal.Gossip.Info.{Env, Packet, ping, pong, new_info}
use cantal.Gossip.Proto.{
  Proto, FutureHost, AddrStatus, available, ping_sent, tick, send_gossip, nat_has_eq, add_host,
  add_host_in, internal_messages, new,
}
use cantal.Gossip.Proto.Hearing.{
  hear, entry, hear_ping, hear_pong, updated, update_metrics, is_foreign, is_new, consume_gossip,
  receive_messages,
}
use cantal.Gossip.Proto.Timers.{
  is_available, retry_host, pop_max, retry_loop, retry_new_hosts, run, round, gc_if_due,
  ping_if_due, tries_left,
}
use cantal.Gossip.Proto.Packets.{apply_friends-Rest}
use cantal.Gossip.Proto.Addresses.{Kept, gc_if_due-Kept, ping_if_due-Kept}
use mathlib.Core.Path.{subst}
use cantal.Gossip.Proto.Hosts.{
  QueueIsValid, pop_max-QueueIsValid, status-ne-none, insert-Tracked, untracked-Elsewhere,
}

module _ (env : Env) (config : Config) where
  abbrev Holds : Proto → Type 0
  Holds st = QueueIsValid config st.addr_status st.add_queue

  add_host_in-Holds :
      (st : Proto) (addr : SocketAddr) (o : Option AddrStatus)
      → lookup addr st.addr_status ≡ o
      → Holds st
      → Holds (add_host_in env config st addr o)
  unfolding send_gossip
  add_host_in-Holds st addr (some available) e v = v
  add_host_in-Holds st addr (some ping_sent) e v = v
  add_host_in-Holds st addr none e v =
      let known : lookup addr (insert addr ping_sent st.addr_status) ≢ none =
        (λ h. ground (arith, lookup-insert addr addr ping_sent st.addr_status)) in
      record {
        tracked = (
          (known, omega arith),
          insert-Tracked config st.addr_status addr ping_sent st.add_queue v.tracked,
        );
        distinct =
            (untracked-Elsewhere config st.addr_status addr st.add_queue e v.tracked, v.distinct);
      }

  internal_messages-Holds :
      (st : Proto) (stream : List SocketAddr)
      → Holds st
      → Holds (internal_messages env config st stream)
  unfolding internal_messages add_host
  internal_messages-Holds st [] v = v
  internal_messages-Holds st (addr ∷ stream) v =
      internal_messages-Holds (add_host env config st addr) stream
        (add_host_in-Holds st addr (lookup addr st.addr_status) refl v)

  insert-Holds :
      (st : Proto) (addr : SocketAddr) (s : AddrStatus)
      → Holds st
      → QueueIsValid config (insert addr s st.addr_status) st.add_queue
  insert-Holds st addr s v = record {
    tracked = insert-Tracked config st.addr_status addr s st.add_queue v.tracked;
    distinct = v.distinct;
  }

  -- A host that is taken out and put back has had one more attempt.
  retry_host-Holds :
      (st : Proto) (host : FutureHost)
      → config.add_host_retry_times + 1 < 2 ^ 32
      → QueueIsValid config st.addr_status (host ∷ st.add_queue)
      → Holds (retry_host env config st host)
  unfolding retry_host send_gossip
  retry_host-Holds st host small v =
      let rest : Holds st = record { tracked = v.tracked.1; distinct = v.distinct.1 } in
      elim (Bool-cases (is_available env config (lookup host.address st.addr_status))) [
        | inl e ↦ rw e rest
        | inr e ↦ elim (Bool-cases (ltb config.add_host_retry_times host.attempts)) [
          | inl l ↦ rw (e, l) rest
          | inr l ↦
              let status = insert host.address ping_sent st.addr_status in
              rw (e, l)
                (record {
                  tracked = (
                    (
                      status-ne-none st.addr_status host.address host.address ping_sent
                          v.tracked.0.0,
                      ground arith,
                    ),
                    insert-Tracked config st.addr_status host.address ping_sent st.add_queue
                        v.tracked.1,
                  );
                  distinct = v.distinct;
                })
        ]
      ]

  retry_loop-Holds :
      (fuel : ℕ) (st : Proto)
      → config.add_host_retry_times + 1 < 2 ^ 32
      → Holds st
      → Holds (retry_loop env config fuel st)
  unfolding retry_loop
  retry_loop-Holds zero st small v = v
  retry_loop-Holds (suc fuel) st small v = elim (Option-cases (pop_max st.add_queue)) [
    | inl e ↦ rw (retry_loop, e) v
    | inr ((host, rest), e) ↦ elim (Bool-cases (ltb host.deadline (env.instant st.ticks))) [
      | inl l ↦
          let st' = record (tick st) { add_queue = rest } in
          rw (retry_loop, e, l)
            (retry_loop-Holds fuel (retry_host env config st' host) small (
              retry_host-Holds st' host small
                (pop_max-QueueIsValid config st.addr_status st.add_queue host rest e v)))
      | inr l ↦ rw (retry_loop, e, l) v
    ]
  ]

  Kept-Holds : (st' st : Proto) → Kept st' st → Holds st → Holds st'
  Kept-Holds st' st k v =
      subst (λ s. QueueIsValid config s st'.add_queue) (sym k.0)
        (subst (QueueIsValid config st.addr_status) (sym k.1) v)

  updated-Kept : (update : Bool) (st : Proto) → Kept (updated env config update st) st
  unfolding update_metrics
  updated-Kept true st = (refl, refl)
  updated-Kept false st = (refl, refl)

  -- After a peer was heard, and what its friends tell.
  heard-Holds :
      (update : Bool) (st st' : Proto) (addr : SocketAddr)
      → Holds st
      → st'.addr_status ≡ insert addr available st.addr_status
      → st'.add_queue ≡ st.add_queue
      → Holds (updated env config update st')
  heard-Holds update st st' addr v e q =
      Kept-Holds (updated env config update st') st' (updated-Kept update st') (
        subst (λ s. QueueIsValid config s st'.add_queue) (sym e)
          (subst (QueueIsValid config (insert addr available st.addr_status)) (sym q)
            (insert-Holds st addr available v)))

  consume_gossip-Holds :
      (st : Proto) (packet : Packet) (addr : SocketAddr)
      → Holds st
      → Holds (consume_gossip env config st packet addr)
  unfolding consume_gossip
  consume_gossip-Holds st (ping cluster me now friends) addr v =
      elim (Bool-cases (is_foreign env config cluster me)) [
        | inl e ↦ rw e v
        | inr e ↦
            let peer =
              hear_ping env config (entry env config st me.id) me (env.clock st.ticks) addr in
            let told =
              apply_friends-Rest env config (hear env config st addr me.id peer) friends addr in
            rw e (heard-Holds (is_new env config st me.id) st _ addr v told.0 told.2)
      ]
  consume_gossip-Holds st (pong cluster me ping_time peer_time friends) addr v =
      elim (Bool-cases (is_foreign env config cluster me)) [
        | inl e ↦ rw e v
        | inr e ↦
            let peer =
              hear_pong env config (entry env config st me.id) me (env.clock st.ticks) ping_time
                peer_time addr in
            let told =
              apply_friends-Rest env config (hear env config st addr me.id peer) friends addr in
            rw e (heard-Holds (is_new env config st me.id) st _ addr v told.0 told.2)
      ]

  receive_messages-Holds :
      (st : Proto) (packets : List (Packet × SocketAddr))
      → Holds st
      → Holds (receive_messages env config st packets)
  unfolding receive_messages
  receive_messages-Holds st [] v = v
  receive_messages-Holds st ((packet, addr) ∷ more) v =
      receive_messages-Holds (consume_gossip env config st packet addr) more
        (consume_gossip-Holds st packet addr v)

  round-Holds :
      (st : Proto) (commands : List SocketAddr) (packets : List (Packet × SocketAddr))
      → config.add_host_retry_times + 1 < 2 ^ 32
      → Holds st
      → Holds (round env config st commands packets)
  unfolding round retry_new_hosts
  round-Holds st commands packets small v =
      let heard = receive_messages env config (internal_messages env config st commands) packets in
      let cleaned = gc_if_due env config heard in
      let fuel = tries_left config.add_host_retry_times cleaned.add_queue + 1 in
      let retried = retry_loop env config fuel cleaned in
      Kept-Holds (ping_if_due env config retried) retried (ping_if_due-Kept env config retried) (
        retry_loop-Holds fuel cleaned small (
          Kept-Holds cleaned heard (gc_if_due-Kept env config heard) (
            receive_messages-Holds (internal_messages env config st commands) packets
              (internal_messages-Holds st commands v))))

  run-Holds :
      (st : Proto) (rounds : List (List SocketAddr × List (Packet × SocketAddr)))
      → config.add_host_retry_times + 1 < 2 ^ 32
      → Holds st
      → Holds (run env config st rounds)
  unfolding run
  run-Holds st [] small v = v
  run-Holds st ((commands, packets) ∷ rounds) small v =
      run-Holds (round env config st commands packets) rounds small
        (round-Holds st commands packets small v)

  -- From its start, however often the protocol goes round its loop, and whatever commands and
  -- packets it finds: each host that waits to be tried again is in the queue once, its address has
  -- a status, and it had no more attempts than one first one and the retries, provided that one
  -- more than the number of retries still is a u32.
  pub run-QueueIsValid :
      (rounds : List (List SocketAddr × List (Packet × SocketAddr)))
      → config.add_host_retry_times + 1 < 2 ^ 32
      → QueueIsValid config
          (run env config (new env config new_info) rounds).addr_status
          (run env config (new env config new_info) rounds).add_queue
  unfolding new
  run-QueueIsValid rounds small =
      run-Holds (new env config new_info) rounds small (record { tracked = tt; distinct = tt })
