-- ===== src/Gossip/Proto/Pinged.antt =====
-- A peer that is due is pinged in its turn, and the turns of others leave it so.
use cantal.Common.{ℕ, ◌≡◌, refl, ◌∙◌, sym, ap, true, false, Bool-cases, inl, inr}
use cantal.Common.{Option, some, List, [], ◌∷◌, ◌++◌, append_assoc}
use mathlib.Core.Path.{subst}
use cantal.Common.Maps.{lookup, insert, lookup-insert}
use cantal.Gossip.MachineId.{MachineId, id_eq, id_eq_iff, id_has_eq}
use cantal.Gossip.Config.{Config, SocketAddr}
use cantal.Gossip.Peer.{Peer}
use cantal.Gossip.Info.{Env, Packet, ping}
use cantal.Gossip.Proto.{Proto}
use cantal.Gossip.Proto.Timers.{probed, ping_host}
use cantal.Gossip.Proto.Pings.{
  IsDue, Samples, ping_addr-some, probed-IsDue, Turn, IsPinged, Visit, passed, pinged,
  ping_known-Visit, ping_host-Visit,
}

module _ (env : Env) (config : Config) where
  lookup-probed :
      (id id' : MachineId) (p : Peer) (st st' : Proto)
      → st'.info.peers ≡ insert id' p st.info.peers
      → id_eq id' id ≡ false
      → lookup id st'.info.peers ≡ lookup id st.info.peers
  lookup-probed id id' p st st' e other =
      ap (lookup id) e ∙ lookup-insert id' id p st.info.peers ∙ rw other refl

  lookup-itself :
      (id id' : MachineId) (p : Peer) (st st' : Proto)
      → st'.info.peers ≡ insert id' p st.info.peers
      → id_eq id' id ≡ true
      → lookup id st'.info.peers ≡ some p
  lookup-itself id id' p st st' e same =
      ap (lookup id) e ∙ lookup-insert id' id p st.info.peers ∙ rw same refl

  Visit-Turn :
      (base : List (SocketAddr × Packet)) (id id' : MachineId) (tm : ℕ) (st st' : Proto)
      → Visit env config st id' tm st'
      → Turn env config base id st
      → Turn env config base id st'
  Visit-Turn base id id' tm st st' (passed peers sent) turn =
      let (peer, known, due) = turn.awaits in
      record {
        awaits = (peer, ap (lookup id) peers ∙ known, due);
        more = turn.more;
        sent = sent ∙ turn.sent;
      }
  Visit-Turn base id id' tm st st' (pinged p addr info now friends k peers sent) turn =
      let (peer, known, due) = turn.awaits in
      record {
        awaits = elim (Bool-cases (id_eq id' id)) [
          | inr other ↦ (peer, lookup-probed id id' _ st st' peers other ∙ known, due)
          | inl same ↦
              let key : id' ≡ id = (id_eq_iff id' id).0 same in
              let found : ◌≡◌ {A = Option Peer} (some p) (some peer) =
                sym k ∙ ap (λ i. lookup i st.info.peers) key ∙ known in
              let it : p ≡ peer = cc in
              (
                probed env config p tm addr,
                lookup-itself id id' _ st st' peers same,
                probed-IsDue env config p tm addr (subst (IsDue env config) (sym it) due),
              )
        ];
        more = turn.more ++ ((addr, ping config.cluster_name info now friends) ∷ []);
        sent =
            sent
            ∙ ap (λ s. s ++ ((addr, ping config.cluster_name info now friends) ∷ [])) turn.sent
            ∙ append_assoc base turn.more ((addr, ping config.cluster_name info now friends) ∷ []);
      }

  pub ping_host-Turn :
      (base : List (SocketAddr × Packet)) (id id' : MachineId) (tm : ℕ) (st : Proto)
      → Turn env config base id st
      → Turn env config base id (ping_host env config st id' tm)
  ping_host-Turn base id id' tm st turn =
      Visit-Turn base id id' tm st (ping_host env config st id' tm)
        (ping_host-Visit env config st id' tm) turn

  -- A peer that was pinged, and would be pinged again.
  abbrev pub IsPingedDue : List (SocketAddr × Packet) → ℕ → MachineId → Proto → Type 0
  IsPingedDue base tm id st = (p : IsPinged env config base tm id st) × IsDue env config p.peer

  pub ping_host-pings :
      (base : List (SocketAddr × Packet)) (id : MachineId) (tm : ℕ) (st : Proto)
      → Samples env config
      → Turn env config base id st
      → IsPingedDue base tm id (ping_host env config st id tm)
  ping_host-pings base id tm st sample turn =
      let (peer, known, due) = turn.awaits in
      let (addr, a) = ping_addr-some env config peer st.ticks sample due in
      let (now, friends, peers, info, sent) =
        ping_known-Visit env config st id tm peer addr known a in
      let new : List (SocketAddr × Packet) =
        (addr, ping config.cluster_name info now friends) ∷ [] in
      (
        record {
          peer = probed env config peer tm addr;
          addr = addr;
          known =
              lookup-itself id id _ st (ping_host env config st id tm) peers
                ((id_eq_iff id id).1 refl);
          last_probe = refl;
          earlier = turn.more;
          info = info;
          now = now;
          friends = friends;
          later = [];
          sent = sent ∙ ap (λ s. s ++ new) turn.sent ∙ append_assoc base turn.more new;
        },
        probed-IsDue env config peer tm addr due,
      )

  Visit-IsPinged :
      (base : List (SocketAddr × Packet)) (id id' : MachineId) (tm : ℕ) (st st' : Proto)
      → Visit env config st id' tm st'
      → IsPingedDue base tm id st
      → IsPingedDue base tm id st'
  Visit-IsPinged base id id' tm st st' (passed peers sent) (p, due) = (
    record {
      peer = p.peer;
      addr = p.addr;
      known = ap (lookup id) peers ∙ p.known;
      last_probe = p.last_probe;
      earlier = p.earlier;
      info = p.info;
      now = p.now;
      friends = p.friends;
      later = p.later;
      sent = sent ∙ p.sent;
    },
    due,
  )
  Visit-IsPinged base id id' tm st st' (pinged q addr info now friends k peers sent) (p, due) =
      let new : List (SocketAddr × Packet) =
        (addr, ping config.cluster_name info now friends) ∷ [] in
      let before : List (SocketAddr × Packet) =
        p.earlier ++ ((p.addr, ping config.cluster_name p.info p.now p.friends) ∷ p.later) in
      let joined : st'.sent ≡ base ++ (before ++ new) =
        sent ∙ ap (λ s. s ++ new) p.sent ∙ append_assoc base before new in
      elim (Bool-cases (id_eq id' id)) [
        | inr other ↦ (
          record {
            peer = p.peer;
            addr = p.addr;
            known = lookup-probed id id' _ st st' peers other ∙ p.known;
            last_probe = p.last_probe;
            earlier = p.earlier;
            info = p.info;
            now = p.now;
            friends = p.friends;
            later = p.later ++ new;
            sent = joined ∙ ap (λ s. base ++ s) (append_assoc p.earlier _ new);
          },
          due,
        )
        | inl same ↦
            let key : id' ≡ id = (id_eq_iff id' id).0 same in
            let found : ◌≡◌ {A = Option Peer} (some q) (some p.peer) =
              sym k ∙ ap (λ i. lookup i st.info.peers) key ∙ p.known in
            let it : q ≡ p.peer = cc in
            (
              record {
                peer = probed env config q tm addr;
                addr = addr;
                known = lookup-itself id id' _ st st' peers same;
                last_probe = refl;
                earlier = before;
                info = info;
                now = now;
                friends = friends;
                later = [];
                sent = joined;
              },
              probed-IsDue env config q tm addr (subst (IsDue env config) (sym it) due),
            )
      ]

  pub ping_host-IsPinged :
      (base : List (SocketAddr × Packet)) (id id' : MachineId) (tm : ℕ) (st : Proto)
      → IsPingedDue base tm id st
      → IsPingedDue base tm id (ping_host env config st id' tm)
  ping_host-IsPinged base id id' tm st p =
      Visit-IsPinged base id id' tm st (ping_host env config st id' tm)
        (ping_host-Visit env config st id' tm) p
