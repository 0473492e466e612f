-- ===== src/Gossip/Proto/Hosts.antt =====
-- When the queue of hosts to try again is well formed, and what keeps it so.
use cantal.Common.{
  ◌+◌, ◌≤◌, ◌≡◌, ◌≢◌, ◌∙◌, sym, ap, ltb, Bool-cases, inl, inr, none, some, List, [], ◌∷◌, All,
  arith,
}
use cantal.Common.Maps.{Map, lookup, insert, lookup-insert}
use cantal.Gossip.Config.{Config, SocketAddr}
use cantal.Gossip.Proto.{FutureHost, AddrStatus, nat_has_eq}
use cantal.Gossip.Proto.Timers.{pop_max, pop_from}
use cantal.Gossip.Proto.Retry.{pop_from-All}
use mathlib.Core.Path.{subst}

abbrev pub Elsewhere : SocketAddr → List FutureHost → Type 0
Elsewhere addr queue = All (λ host. host.address ≢ addr) queue

abbrev pub Distinct : List FutureHost → Type 0
Distinct [] = Unit {0}
Distinct (host ∷ hosts) = Elsewhere host.address hosts × Distinct hosts

abbrev pub Tracked : Config → Map SocketAddr AddrStatus → FutureHost → Type 0
Tracked config status host =
    (lookup host.address status ≢ none) × (host.attempts ≤ config.add_host_retry_times + 1)

-- Each host of the queue is there once, its address has a status, and it had no more attempts
-- than one first one and the retries.
pub record QueueIsValid (config : Config) (status : Map SocketAddr AddrStatus)
    (queue : List FutureHost) : Type 0 where
  pub tracked : All (Tracked config status) queue
  pub distinct : Distinct queue

pub pop_from-Distinct :
    (x : FutureHost) (xs : List FutureHost)
    → Distinct (x ∷ xs)
    → Distinct ((pop_from x xs).0 ∷ (pop_from x xs).1)
pop_from-Distinct x [] d = d
pop_from-Distinct x (y ∷ ys) d =
    let later = pop_from-Distinct y ys d.1 in
    let apart = pop_from-All (λ host. host.address ≢ x.address) y ys d.0.0 d.0.1 in
    elim (Bool-cases (ltb x.deadline (pop_from y ys).0.deadline)) [
      | inl e ↦ rw e (((λ h. apart.0 (sym h)), later.0), (apart.1, later.1))
      | inr e ↦ rw e ((apart.0, apart.1), later)
    ]

pub pop_max-QueueIsValid :
    (config : Config) (status : Map SocketAddr AddrStatus) (queue : List FutureHost)
    (host : FutureHost) (rest : List FutureHost)
    → pop_max queue ≡ some (host, rest)
    → QueueIsValid config status queue
    → QueueIsValid config status (host ∷ rest)
pop_max-QueueIsValid config status [] host rest e v = cc
pop_max-QueueIsValid config status (x ∷ xs) host rest e v =
    let parts : pop_from x xs ≡ (host, rest) = cc in
    let both = pop_from-All (Tracked config status) x xs v.tracked.0 v.tracked.1 in
    subst (λ p. QueueIsValid config status (p.0 ∷ p.1)) parts
      (record { tracked = both; distinct = pop_from-Distinct x xs v.distinct })

pub status-ne-none :
    (status : Map SocketAddr AddrStatus) (addr a : SocketAddr) (s : AddrStatus)
    → lookup a status ≢ none
    → lookup a (insert addr s status) ≢ none
status-ne-none status addr a s h e = ground (arith, lookup-insert addr a s status)

pub insert-Tracked :
    (config : Config) (status : Map SocketAddr AddrStatus) (addr : SocketAddr) (s : AddrStatus)
    (queue : List FutureHost)
    → All (Tracked config status) queue
    → All (Tracked config (insert addr s status)) queue
insert-Tracked config status addr s [] t = tt
insert-Tracked config status addr s (host ∷ queue) t = (
  (status-ne-none status addr host.address s t.0.0, t.0.1),
  insert-Tracked config status addr s queue t.1,
)

-- A host that has no status is not in the queue.
pub untracked-Elsewhere :
    (config : Config) (status : Map SocketAddr AddrStatus) (addr : SocketAddr)
    (queue : List FutureHost)
    → lookup addr status ≡ none
    → All (Tracked config status) queue
    → Elsewhere addr queue
untracked-Elsewhere config status addr [] e t = tt
untracked-Elsewhere config status addr (host ∷ queue) e t = (
  (λ same. t.0.0 (ap (λ a. lookup a status) same ∙ e)),
  untracked-Elsewhere config status addr queue e t.1,
)
