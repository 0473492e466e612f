-- ===== src/Gossip/Proto/Retry.antt =====
-- The loop that tries new hosts again, `retry_new_hosts`.
use cantal.Common.{
  ℕ, zero, suc, ◌+◌, ◌^◌, ◌≤◌, ◌<◌, ◌≡◌, refl, ◌∙◌, ap, true, false, ltb, Bool-cases, inl, inr,
  none, some, Option-cases, List, [], ◌∷◌, ◌++◌, All, arith, ge→ltb,
}
use cantal.Common.Maps.{lookup}
use cantal.Gossip.Config.{Config}
use cantal.Gossip.Info.{Env}
use cantal.Gossip.Proto.{Proto, FutureHost, tick, send_gossip, nat_has_eq}
use cantal.Gossip.Proto.Timers.{
  is_available, retry_host, pop_max, pop_from, tries_left, retry_loop, retry_new_hosts,
}

pub pop_from-All {ℓ} :
    (P : FutureHost → Type ℓ) (x : FutureHost) (xs : List FutureHost)
    → P x
    → All P xs
    → P (pop_from x xs).0 × All P (pop_from x xs).1
pop_from-All P x [] h a = (h, tt)
pop_from-All P x (y ∷ ys) h a =
    let later = pop_from-All P y ys a.0 a.1 in
    elim (Bool-cases (ltb x.deadline (pop_from y ys).0.deadline)) [
      | inl e ↦ rw e (later.0, (h, later.1))
      | inr e ↦ rw e (h, later)
    ]

-- The top of the heap has a latest deadline.
pop_from-le :
    (x : FutureHost) (xs : List FutureHost) (d : ℕ)
    → (pop_from x xs).0.deadline ≤ d
    → All (λ host. host.deadline ≤ d) (x ∷ xs)
pop_from-le x [] d h = (h, tt)
pop_from-le x (y ∷ ys) d h =
    let order : (x.deadline ≤ d) × ((pop_from y ys).0.deadline ≤ d) = ground arith in
    (order.0, pop_from-le y ys d order.1)

tries_left-pop_from :
    (r : ℕ) (x : FutureHost) (xs : List FutureHost)
    → tries_left r (x ∷ xs) ≡ tries_left r ((pop_from x xs).0 ∷ (pop_from x xs).1)
tries_left-pop_from r x [] = refl
tries_left-pop_from r x (y ∷ ys) =
    let later = tries_left-pop_from r y ys in
    elim (Bool-cases (ltb x.deadline (pop_from y ys).0.deadline)) [
      | inl e ↦ rw e (omega arith)
      | inr e ↦ rw e (omega arith)
    ]

tries_left-pop_max :
    (r : ℕ) (xs : List FutureHost) (top : FutureHost) (rest : List FutureHost)
    → pop_max xs ≡ some (top, rest)
    → tries_left r xs ≡ tries_left r (top ∷ rest)
tries_left-pop_max r [] top rest e = cc
tries_left-pop_max r (x ∷ xs) top rest e =
    let parts : pop_from x xs ≡ (top, rest) = cc in
    tries_left-pop_from r x xs ∙ ap (λ p. tries_left r (p.0 ∷ p.1)) parts

All-middle {ℓ κ} :
    {A : Type ℓ} (P : A → Type κ) (xs : List A) (y : A) (ys : List A) → All P (xs ++ (y ∷ ys)) → P y
All-middle P [] y ys a = a.0
All-middle P (x ∷ xs) y ys a = All-middle P xs y ys a.1

pop_max-append :
    (before after : List FutureHost) (host : FutureHost)
    → (top : FutureHost) × (rest : List FutureHost) × (pop_max (before ++ (host ∷ after))
        ≡ some (top, rest))
      × (host.deadline ≤ top.deadline)
pop_max-append [] after host = (
  (pop_from host after).0,
  (pop_from host after).1,
  refl,
  (pop_from-le host after _ (omega arith)).0,
)
pop_max-append (x ∷ xs) after host =
    let all = xs ++ (host ∷ after) in
    (
      (pop_from x all).0,
      (pop_from x all).1,
      refl,
      All-middle (λ h. h.deadline ≤ (pop_from x all).0.deadline) (x ∷ xs) host after
          (pop_from-le x all (pop_from x all).0.deadline (omega arith)),
    )

module _ (env : Env) (config : Config) where
  -- What the loop does: it ends when no host waits or when the top of the heap has to wait, and
  -- else it handles that host.
  pub data Retries : Proto → Proto → Type 0 where
    empty : {st : Proto} → pop_max st.add_queue ≡ none → Retries st st
    waits :
        {st : Proto} (host : FutureHost) (rest : List FutureHost)
        → pop_max st.add_queue ≡ some (host, rest)
        → ltb host.deadline (env.instant st.ticks) ≡ false
        → Retries st (tick st)
    again :
        {st st' : Proto} (host : FutureHost) (rest : List FutureHost)
        → pop_max st.add_queue ≡ some (host, rest)
        → ltb host.deadline (env.instant st.ticks) ≡ true
        → Retries (retry_host env config (record (tick st) { add_queue = rest }) host) st'
        → Retries st st'

  -- Handling a host takes away one of the rounds that are left.
  retry_host-tries_left :
      (st : Proto) (host : FutureHost)
      → config.add_host_retry_times + 1 < 2 ^ 32
      → tries_left config.add_host_retry_times (retry_host env config st host).add_queue
        < tries_left config.add_host_retry_times (host ∷ st.add_queue)
  unfolding retry_host send_gossip
  retry_host-tries_left st host small =
      elim (Bool-cases (is_available env config (lookup host.address st.addr_status))) [
        | inl e ↦ rw e (omega arith)
        | inr e ↦ elim (Bool-cases (ltb config.add_host_retry_times host.attempts)) [
          | inl l ↦ rw (e, l) (omega arith)
          | inr l ↦ rw (e, l) (ground arith)
        ]
      ]

  retry_loop-Retries :
      (fuel : ℕ) (st : Proto)
      → config.add_host_retry_times + 1 < 2 ^ 32
      → tries_left config.add_host_retry_times st.add_queue < fuel
      → Retries st (retry_loop env config fuel st)
  unfolding retry_loop
  retry_loop-Retries zero st small enough = absurd (omega arith)
  retry_loop-Retries (suc fuel) st small enough = elim (Option-cases (pop_max st.add_queue)) [
    | inl e ↦ rw (retry_loop, e) (Retries.empty e)
    | inr ((host, rest), e) ↦ elim (Bool-cases (ltb host.deadline (env.instant st.ticks))) [
      | inr l ↦ rw (retry_loop, e, l) (Retries.waits host rest e l)
      | inl l ↦
          let st' = record (tick st) { add_queue = rest } in
          rw (retry_loop, e, l)
            (Retries.again host rest e l (
              retry_loop-Retries fuel (retry_host env config st' host) small (
                omega (
                  arith,
                  retry_host-tries_left st' host small,
                  tries_left-pop_max config.add_host_retry_times st.add_queue host rest e,
                ))))
    ]
  ]

  -- Trying new hosts again ends: its loop, which has no bound of its own, comes to its end within
  -- the rounds that the model gives it, provided that one more than the number of retries still
  -- is a u32.
  pub retry_new_hosts-Retries :
      (st : Proto)
      → config.add_host_retry_times + 1 < 2 ^ 32
      → Retries st (retry_new_hosts env config st)
  unfolding retry_new_hosts
  retry_new_hosts-Retries st small =
      retry_loop-Retries (tries_left config.add_host_retry_times st.add_queue + 1) st small
        (omega arith)

  -- While any host of the queue has to wait, no host of the queue is tried again, whether its time
  -- has come or not: the call changes nothing, but for the reading of the clock.
  pub retry_new_hosts-blocked :
      (st : Proto) (before after : List FutureHost) (host : FutureHost)
      → st.add_queue ≡ before ++ (host ∷ after)
      → env.instant st.ticks ≤ host.deadline
      → retry_new_hosts env config st ≡ tick st
  unfolding retry_new_hosts retry_loop
  retry_new_hosts-blocked st before after host queue later =
      let fuel = tries_left config.add_host_retry_times st.add_queue in
      let some_fuel : fuel + 1 ≡ suc fuel = omega arith in
      let (top, rest, popped, le) = pop_max-append before after host in
      let found : pop_max st.add_queue ≡ some (top, rest) = ap pop_max queue ∙ popped in
      let waits : ltb top.deadline (env.instant st.ticks) ≡ false =
        ge→ltb top.deadline (env.instant st.ticks) (omega arith) in
      rw some_fuel (rw (retry_loop, found) (rw waits refl))
