-- ===== src/Rez.antt =====
-- internal/rez/mercy.go: a pool of resource handles with a queue of requests. Metrics, spans, stacks and
-- the clock have no part in it. A context is a number, and which contexts have an error is a parameter of
-- each operation, as that may change between any two. Each operation holds the mutex of the pool.
pub mod Handles
pub mod Queue
pub mod Correct
use btrdb_server.Base.{
  ℕ, zero, suc, ◌+◌, ◌-◌, Bool, true, false, ◌&&◌, Option, none, some, List, [], ◌∷◌, ◌++◌, ltb,
  leb, ◌==◌, if◌then◌else◌, ◌>>=◌, length,
}

-- A handle, with a number in place of its address.
pub record Resource : Type 0 where
  pub id : ℕ
  pub available : Bool

-- `next` is a number that no handle of the pool has had yet.
pub record ResourcePool : Type 0 where
  pub maxq : ℕ
  pub desired : ℕ
  pub available : ℕ
  pub pool : List Resource
  pub queue : List ℕ
  pub next : ℕ

abbrev pub default_max_queue : ℕ
default_max_queue = 100

-- CreateResourcePool
abbrev pub create_resource_pool : ResourcePool
create_resource_pool = record {
  maxq = default_max_queue;
  desired = 0;
  available = 0;
  pool = [];
  queue = [];
  next = 0;
}

-- One round of the loop of AdjustTuning.
unfoldable pub make_more : ℕ → ResourcePool → ResourcePool
make_more zero p = p
make_more (suc k) p =
    let newr : Resource = record { id = p.next; available = true } in
    make_more k
      (record p { available = p.available + 1; pool = p.pool ++ newr ∷ []; next = p.next + 1 })

unfoldable pub adjust_tuning : ℕ → ℕ → ResourcePool → ResourcePool
adjust_tuning desired maxq p =
    make_more (desired - length p.pool) (record p { maxq = maxq; desired = desired })

-- lockHeldCleanQueue
unfoldable pub live : (ℕ → Bool) → List ℕ → List ℕ
live expired [] = []
live expired (c ∷ cs) = let rest = live expired cs in if expired c then rest else c ∷ rest

unfoldable pub clean_queue : (ℕ → Bool) → ResourcePool → ResourcePool
clean_queue expired p = record p { queue = live expired p.queue }

-- The first handle that is available is taken.
unfoldable pub take_first : List Resource → Option (ℕ × List Resource)
take_first [] = none
take_first (r ∷ rs) =
    let rest = take_first rs in
    if r.available
    then some (r.id, record r { available = false } ∷ rs)
    else (rest >>= λ t. some (t.0, r ∷ t.1))

-- What Obtain does under the mutex: it returns a handle, fails with ResourceDepleted, or waits.
pub data Obtained : Type 0 where
  got : ℕ → Obtained
  depleted : Obtained
  queued : Obtained

-- Before it fails it cleans the queue.
unfoldable pub enqueue : (ℕ → Bool) → Bool → ℕ → ResourcePool → Obtained × ResourcePool
enqueue expired canfail ctx p =
    let queue' = if leb p.maxq (length p.queue) then live expired p.queue else p.queue in
    if canfail && leb p.maxq (length queue')
    then (depleted, record p { queue = queue' })
    else (queued, record p { queue = queue' ++ ctx ∷ [] })

unfoldable pub obtain : (ℕ → Bool) → Bool → ℕ → ResourcePool → Obtained × ResourcePool
obtain expired canfail ctx p =
    if ltb 0 p.available
    then (elim (take_first p.pool) [
      | some (i, pool') ↦ (got i, record p { available = p.available - 1; pool = pool' })
      | none ↦ enqueue expired canfail ctx p
    ])
    else enqueue expired canfail ctx p

-- RezManager.get, which passes true in place of its own canfail.
unfoldable pub get : (ℕ → Bool) → Bool → ℕ → ResourcePool → Obtained × ResourcePool
get expired canfail ctx p = obtain expired true ctx p

-- The loop of Release over the queue: the first live request, and what is behind it.
unfoldable pub winner : (ℕ → Bool) → List ℕ → Option (ℕ × List ℕ)
winner expired [] = none
winner expired (c ∷ cs) = let rest = winner expired cs in if expired c then rest else some (c, cs)

-- lockHeldDestroy
unfoldable pub destroy : ℕ → List Resource → List Resource
destroy i [] = []
destroy i (r ∷ rs) = let rest = destroy i rs in if r.id == i then rest else r ∷ rest

-- r.available = true
unfoldable pub put_back : ℕ → List Resource → List Resource
put_back i [] = []
put_back i (r ∷ rs) = if r.id == i then record r { available = true } ∷ rs else r ∷ put_back i rs

-- Where the released handle went.
pub data Released : Type 0 where
  destroyed : Released
  handed_to : ℕ → Released
  pooled : Released

unfoldable pub release : (ℕ → Bool) → ℕ → ResourcePool → Released × ResourcePool
release expired i p =
    if ltb p.desired (length p.pool)
    then (destroyed, record p { pool = destroy i p.pool })
    else (elim (winner expired p.queue) [
      | some (c, rest) ↦ (handed_to c, record p { queue = rest })
      | none ↦
          (pooled, record p { pool = put_back i p.pool; queue = []; available = p.available + 1 })
    ])
