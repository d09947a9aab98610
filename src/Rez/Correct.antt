-- ===== src/Rez/Correct.antt =====
-- About the bookkeeping of a pool of internal/rez/mercy.go: its free handles and who holds each.
use btrdb_server.Base.{
  Bool-cases, ◌⊎◌, All, ℕ, zero, suc, ◌+◌, ◌-◌, ◌≤◌, ◌<◌, ◌≡◌, refl, Bool, true, ◌&&◌, Option, none,
  some, List, [], ◌∷◌, ◌++◌, All, ltb, leb, ◌==◌, if◌then◌else◌, length, arith, Option-cases, inl,
  inr, if_both,
}
use btrdb_server.Rez.{
  Resource, ResourcePool, create_resource_pool, make_more, adjust_tuning, live, clean_queue,
  take_first, Obtained, got, depleted, queued, enqueue, obtain, winner, destroy, put_back, Released,
  destroyed, handed_to, pooled, release,
}
use btrdb_server.Rez.Queue.{IsFirstLive, Found, winner-Found}
use btrdb_server.Rez.Handles.{
  free, one_if, held, IdsFrom, free-append, IdsFrom-append, TookFirst, take_first-TookFirst,
  held-le, destroy-GivenUp, put_back-GivenUp,
}

abbrev pub IsPool : ResourcePool → Type 0
IsPool p = (p.available ≡ free p.pool) × IdsFrom 0 p.next p.pool

abbrev IsPoolAfter {ℓ} : {A : Type ℓ} → A × ResourcePool → Type 0
IsPoolAfter (a, p) = IsPool p

-- What may happen to a pool. Only a handle that is out is released.
pub data Step : ResourcePool → ResourcePool → Type 0 where
  adjusting : (p : ResourcePool) (desired maxq : ℕ) → Step p (adjust_tuning desired maxq p)
  obtaining :
      (p : ResourcePool) (expired : ℕ → Bool) (canfail : Bool) (ctx : ℕ)
      → Step p (obtain expired canfail ctx p).1
  releasing :
      (p : ResourcePool) (expired : ℕ → Bool) (i : ℕ)
      → held i p.pool ≡ 1
      → Step p (release expired i p).1
  cleaning : (p : ResourcePool) (expired : ℕ → Bool) → Step p (clean_queue expired p)

pub data IsReachable : ResourcePool → Type 0 where
  created : IsReachable create_resource_pool
  next : {p q : ResourcePool} → IsReachable p → Step p q → IsReachable q

make_more-IsPool : (k : ℕ) (p : ResourcePool) → IsPool p → IsPool (make_more k p)
unfolding make_more
make_more-IsPool zero p h = h
make_more-IsPool (suc k) p (a, s) = make_more-IsPool k _ (
  omega (arith, free-append p.pool (record { id = p.next; available = true })),
  IdsFrom-append 0 p.next p.pool _ s refl,
)

enqueue-IsPool :
    (expired : ℕ → Bool) (canfail : Bool) (ctx : ℕ) (p : ResourcePool)
    → IsPool p
    → IsPool (enqueue expired canfail ctx p).1
unfolding enqueue
enqueue-IsPool expired canfail ctx p h =
    if_both IsPoolAfter
      (canfail
        && leb p.maxq
            (length (if leb p.maxq (length p.queue) then live expired p.queue else p.queue)))
      (λ e. h) (λ e. h)

-- What obtain does, given what take_first found.
abbrev after_take :
    (ℕ → Bool) → Bool → ℕ → ResourcePool → Option (ℕ × List Resource) → Obtained × ResourcePool
after_take expired canfail ctx p none = enqueue expired canfail ctx p
after_take expired canfail ctx p (some (i, pool')) =
    (got i, record p { available = p.available - 1; pool = pool' })

-- What a client gets, and the pool after it.
abbrev pub Served : (ℕ → Bool) → Bool → ℕ → ResourcePool → Obtained × ResourcePool → Type 0
Served expired canfail ctx p (got i, p') =
    (held i p.pool ≡ 0)
    × ((j : ℕ) → held j p'.pool ≡ held j p.pool + one_if (i == j))
    × (p'.queue ≡ p.queue)
Served expired canfail ctx p (depleted, p') =
    (p.available ≡ 0)
    × (p'.pool ≡ p.pool)
    × (canfail ≡ true)
    × (p.maxq ≤ length p'.queue)
    × (p'.queue ≡ live expired p.queue)
Served expired canfail ctx p (queued, p') =
    (p.available ≡ 0)
    × (p'.pool ≡ p.pool)
    × (waiting : List ℕ) × ((waiting ≡ p.queue) ⊎ (waiting ≡ live expired p.queue))
    × (p'.queue ≡ waiting ++ ctx ∷ [])

taken-IsPool :
    (expired : ℕ → Bool) (canfail : Bool) (ctx : ℕ) (p : ResourcePool)
    (res : Option (ℕ × List Resource))
    → IsPool p
    → TookFirst p.pool res
    → IsPool (after_take expired canfail ctx p res).1
taken-IsPool expired canfail ctx p none h t = enqueue-IsPool expired canfail ctx p h
taken-IsPool expired canfail ctx p (some (i, pool')) h (f, s, c) = (omega arith, s 0 p.next h.1)

obtain-after_take :
    (expired : ℕ → Bool) (canfail : Bool) (ctx : ℕ) (p : ResourcePool)
    → obtain expired canfail ctx p ≡ (
        if ltb 0 p.available
        then after_take expired canfail ctx p (take_first p.pool)
        else enqueue expired canfail ctx p)
unfolding obtain
obtain-after_take expired canfail ctx p = elim (Option-cases (take_first p.pool)) [
  | inl e ↦ rw e refl
  | inr (t, e) ↦ rw e refl
]

obtain-IsPool :
    (expired : ℕ → Bool) (canfail : Bool) (ctx : ℕ) (p : ResourcePool)
    → IsPool p
    → IsPool (obtain expired canfail ctx p).1
obtain-IsPool expired canfail ctx p h = rw obtain-after_take (
    if_both IsPoolAfter (ltb 0 p.available)
      (λ e. taken-IsPool expired canfail ctx p (take_first p.pool) h (take_first-TookFirst p.pool))
      (λ e. enqueue-IsPool expired canfail ctx p h))

enqueue-Served :
    (expired : ℕ → Bool) (canfail : Bool) (ctx : ℕ) (p : ResourcePool)
    → p.available ≡ 0
    → Served expired canfail ctx p (enqueue expired canfail ctx p)
unfolding enqueue
enqueue-Served expired canfail ctx p z = elim (Bool-cases (leb p.maxq (length p.queue))) [
  | inl f ↦ rw f (
      if_both (Served expired canfail ctx p) (canfail && leb p.maxq (length (live expired p.queue)))
        (λ e. (z, refl, ground arith, ground arith, refl))
        (λ e. (z, refl, live expired p.queue, inr refl, refl)))
  | inr f ↦ rw f (
      if_both (Served expired canfail ctx p) (canfail && leb p.maxq (length p.queue))
        (λ e. absurd (ground (arith, e, f))) (λ e. (z, refl, p.queue, inl refl, refl)))
]

taken-Served :
    (expired : ℕ → Bool) (canfail : Bool) (ctx : ℕ) (p : ResourcePool)
    (res : Option (ℕ × List Resource))
    → IsPool p
    → TookFirst p.pool res
    → Served expired canfail ctx p (after_take expired canfail ctx p res)
taken-Served expired canfail ctx p none h t = enqueue-Served expired canfail ctx p (omega arith)
taken-Served expired canfail ctx p (some (i, pool')) h (f, s, c) =
    (ground (arith, held-le i 0 p.next pool' (s 0 p.next h.1), c i), c, refl)

-- Where a released handle is after it, and what is left of the queue.
abbrev pub Passed : (ℕ → Bool) → ℕ → ResourcePool → Released × ResourcePool → Type 0
Passed expired i p (destroyed, p') =
    (p.desired < length p.pool)
    × (p'.queue ≡ p.queue)
    × (free p'.pool ≡ free p.pool)
    × ((j : ℕ) → held j p'.pool + one_if (i == j) ≡ held j p.pool)
Passed expired i p (handed_to c, p') =
    (length p.pool ≤ p.desired) × IsFirstLive expired c p'.queue p.queue × (p'.pool ≡ p.pool)
Passed expired i p (pooled, p') =
    (length p.pool ≤ p.desired)
    × All (λ d. expired d ≡ true) p.queue
    × (p'.queue ≡ [])
    × (free p'.pool ≡ free p.pool + 1)
    × ((j : ℕ) → held j p'.pool + one_if (i == j) ≡ held j p.pool)

abbrev after_winner : ℕ → ResourcePool → Option (ℕ × List ℕ) → Released × ResourcePool
after_winner i p (some (c, rest)) = (handed_to c, record p { queue = rest })
after_winner i p none =
    (pooled, record p { pool = put_back i p.pool; queue = []; available = p.available + 1 })

release-after_winner :
    (expired : ℕ → Bool) (i : ℕ) (p : ResourcePool)
    → release expired i p ≡ (
        if ltb p.desired (length p.pool)
        then (destroyed, record p { pool = destroy i p.pool })
        else after_winner i p (winner expired p.queue))
unfolding release
release-after_winner expired i p = elim (Option-cases (winner expired p.queue)) [
  | inl e ↦ rw e refl
  | inr (t, e) ↦ rw e refl
]

module _ (expired : ℕ → Bool) (i : ℕ) (p : ResourcePool) (h : IsPool p)
    (k : held i p.pool ≡ 1) where
  winner-IsPool : (res : Option (ℕ × List ℕ)) → IsPoolAfter (after_winner i p res)
  winner-IsPool none =
      let (f, s, c) = put_back-GivenUp i 0 p.next p.pool h.1 k in (omega arith, s 0 p.next h.1)
  winner-IsPool (some (c, rest)) = h

  winner-Passed :
      (res : Option (ℕ × List ℕ))
      → length p.pool ≤ p.desired
      → Found expired p.queue res
      → Passed expired i p (after_winner i p res)
  winner-Passed none d f =
      let (g, s, c) = put_back-GivenUp i 0 p.next p.pool h.1 k in (d, f, refl, g, c)
  winner-Passed (some (c, rest)) d f = (d, f, refl)

  release-IsPool : IsPoolAfter (release expired i p)
  release-IsPool =
      let (f, s, c) = destroy-GivenUp i 0 p.next p.pool h.1 k in
      rw release-after_winner (
        if_both IsPoolAfter (ltb p.desired (length p.pool)) (λ e. (omega arith, s 0 p.next h.1))
          (λ e. winner-IsPool (winner expired p.queue)))

  release-Passed : Passed expired i p (release expired i p)
  release-Passed =
      let (f, s, c) = destroy-GivenUp i 0 p.next p.pool h.1 k in
      rw release-after_winner (
        if_both (Passed expired i p) (ltb p.desired (length p.pool))
          (λ e. (ground arith, refl, omega arith, c))
          (λ e.
            winner-Passed (winner expired p.queue) (ground arith) (winner-Found expired p.queue)))

Step-IsPool : {p q : ResourcePool} → Step p q → IsPool p → IsPool q
unfolding adjust_tuning clean_queue
Step-IsPool (adjusting p desired maxq) h = make_more-IsPool (desired - length p.pool) _ h
Step-IsPool (obtaining p expired canfail ctx) h = obtain-IsPool expired canfail ctx p h
Step-IsPool (releasing p expired i k) h = release-IsPool expired i p h k
Step-IsPool (cleaning p expired) h = h

-- In every pool that AdjustTuning, Obtain, Release and the cleaning of the queue can lead to, in any order,
-- where only a handle that is out is released, `available` is the number of free handles and no two
-- handles have the same number.
pub IsReachable-IsPool : {p : ResourcePool} → IsReachable p → IsPool p
IsReachable-IsPool created = (refl, omega arith)
IsReachable-IsPool (next r s) = Step-IsPool s (IsReachable-IsPool r)

-- Obtain on a reachable pool: a handle that it returns was not out before, is out once afterwards, no other
-- handle changes hands, and the queue stays. It sheds the request or lets it wait only if no handle is free, and
-- changes no handle then. It sheds it only if the request may fail and the requests in the queue without an
-- error are at least `maxq`; only those stay then. A request that waits is at the end of the queue, behind the
-- requests that were there or those of them that have no error.
pub obtain_lem :
    (expired : ℕ → Bool) (canfail : Bool) (ctx : ℕ) (p : ResourcePool)
    → IsReachable p
    → Served expired canfail ctx p (obtain expired canfail ctx p)
obtain_lem expired canfail ctx p r =
    let h = IsReachable-IsPool r in
    rw obtain-after_take (
      if_both (Served expired canfail ctx p) (ltb 0 p.available)
        (λ e.
          taken-Served expired canfail ctx p (take_first p.pool) h (take_first-TookFirst p.pool))
        (λ e. enqueue-Served expired canfail ctx p (ground arith)))

-- Release on a reachable pool of a handle that is out once: it is destroyed exactly if there are more handles
-- than desired, and then the queue stays. Otherwise it goes to the first queued request whose context has
-- no error, and the queue is what stands behind that request; if every queued request has an error, the
-- queue is emptied and the handle is free again. No other handle changes hands.
pub release_lem :
    (expired : ℕ → Bool) (i : ℕ) (p : ResourcePool)
    → IsReachable p
    → held i p.pool ≡ 1
    → Passed expired i p (release expired i p)
release_lem expired i p r k = release-Passed expired i p (IsReachable-IsPool r) k
