-- ===== src/Gossip/Info/Friends.antt =====
-- Which peers an agent tells of.
use cantal.Common.{
  ℕ, ◌≡◌, refl, ◌∙◌, sym, false, Bool-cases, inl, inr, none, some, map, List, [], ◌∷◌, All,
}
use cantal.Common.Maps.{Map, lookup, Unique}
use cantal.Gossip.MachineId.{MachineId, id_eq, id_eq_iff, id_has_eq}
use cantal.Gossip.Config.{Config, SocketAddr}
use cantal.Gossip.Peer.{Peer, contains, is_failing}
use cantal.Gossip.Info.{Info, FriendInfo, Env, candidates, friend_info, get_friends}

-- What `sample_iter` is relied on for: it takes its samples from what it is given.
abbrev pub Samples : Env → Type 1
Samples env =
    (P : Peer → Type 0) (t : ℕ) (peers : List Peer) (n : ℕ)
    → All P peers
    → All P (env.sample_peers t peers n)

module _ (env : Env) (config : Config) (t : ℕ) (exclude : SocketAddr) where
  -- A peer of the table that is not failing and does not have the address that is left out.
  abbrev pub Candidate : Map MachineId Peer → Peer → Type 0
  Candidate peers peer =
      (id : MachineId) × (lookup id peers ≡ some peer)
      × (contains peer.addresses exclude ≡ false)
      × (is_failing peer config (env.clock_at t id) ≡ false)

  later :
      (id : MachineId) (p : Peer) (peers : Map MachineId Peer)
      → lookup id peers ≡ none
      → (ps : List Peer) → All (Candidate peers) ps
      → All (Candidate ((id, p) ∷ peers)) ps
  unfolding lookup
  later id p peers fresh [] a = tt
  later id p peers fresh (q ∷ ps) ((j, found, c, f), a) =
      ((j, elsewhere, c, f), later id p peers fresh ps a)
    where
      elsewhere : lookup j ((id, p) ∷ peers) ≡ some q
      elsewhere = elim (Bool-cases (id_eq id j)) [
        | inl e ↦
            let missing : lookup j peers ≡ none = rw ((id_eq_iff id j).0 e) at fresh in
            let impossible : none ≡ some q = sym missing ∙ found in cc
        | inr e ↦ rw e found
      ]

  candidates-Candidate :
      (peers : Map MachineId Peer)
      → Unique peers
      → All (Candidate peers) (candidates env t config exclude peers)
  unfolding candidates lookup
  candidates-Candidate [] u = tt
  candidates-Candidate ((id, p) ∷ peers) u =
      let others =
        later id p peers u.0 (candidates env t config exclude peers)
          (candidates-Candidate peers u.1) in
      elim (Bool-cases (contains p.addresses exclude)) [
        | inl c ↦ rw c others
        | inr c ↦ elim (Bool-cases (is_failing p config (env.clock_at t id))) [
          | inl f ↦ rw (c, f) others
          | inr f ↦ rw (c, f) ((id, rw ((id_eq_iff id id).1 refl) refl, c, f), others)
        ]
      ]

  -- One of the packet's friends stands for a candidate.
  abbrev pub TellsOf : Map MachineId Peer → FriendInfo → Type 0
  TellsOf peers friend = (peer : Peer) × (friend ≡ friend_info env peer) × Candidate peers peer

  tells :
      (peers : Map MachineId Peer) (ps : List Peer)
      → All (Candidate peers) ps
      → All (TellsOf peers) (map (friend_info env) ps)
  tells peers [] a = tt
  tells peers (p ∷ ps) a = ((p, refl, a.0), tells peers ps a.1)

  -- What an agent tells of its peers is what it knows of peers in its table, each of which is not
  -- failing and does not have the address that is told, provided that each peer is in the table
  -- once and that the samples are taken from what is given.
  pub get_friends-TellsOf :
      (info : Info)
      → Samples env
      → Unique info.peers
      → All (TellsOf info.peers) (get_friends env t info exclude config)
  unfolding get_friends
  get_friends-TellsOf info samples u =
      tells info.peers
        (env.sample_peers t (candidates env t config exclude info.peers)
          config.num_friends_in_a_packet)
        (samples (Candidate info.peers) t (candidates env t config exclude info.peers)
          config.num_friends_in_a_packet (candidates-Candidate info.peers u))
