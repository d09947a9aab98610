-- ===== src/Tests/Pool.antt =====
-- A pool of two handles.
use btrdb_server.Base.{[], ◌∷◌, ◌==◌, ℕ, ◌≡◌, refl, Bool, true, false}
use btrdb_server.Rez.{
  enqueue, winner, handed_to, ResourcePool, create_resource_pool, adjust_tuning, obtain, release,
  make_more, take_first,
}
use btrdb_server.Rez.Handles.{held}
use btrdb_server.Rez.Correct.{
  IsPool, adjusting, obtaining, IsReachable, created, next, Served, Passed, IsReachable-IsPool,
  obtain_lem, release_lem,
}

abbrev none_expired : ℕ → Bool
none_expired ctx = false

abbrev two_handles : ResourcePool
two_handles = adjust_tuning 2 5 create_resource_pool

abbrev one_out : ResourcePool
one_out = (obtain none_expired true 40 two_handles).1

two_handles-IsReachable : IsReachable two_handles
two_handles-IsReachable = next created (adjusting create_resource_pool 2 5)

one_out-IsReachable : IsReachable one_out
one_out-IsReachable = next two_handles-IsReachable (obtaining two_handles none_expired true 40)

IsReachable-IsPool_example : IsPool one_out
IsReachable-IsPool_example = IsReachable-IsPool one_out-IsReachable

obtain_lem_example : Served none_expired true 41 one_out (obtain none_expired true 41 one_out)
obtain_lem_example = obtain_lem none_expired true 41 one_out one_out-IsReachable

-- Both handles are out, and two requests wait, the first of them in vain.
abbrev both_out : ResourcePool
both_out = (obtain none_expired true 41 one_out).1

abbrev one_waits : ResourcePool
one_waits = (obtain none_expired true 42 both_out).1

abbrev two_wait : ResourcePool
two_wait = (obtain none_expired true 43 one_waits).1

two_wait-IsReachable : IsReachable two_wait
two_wait-IsReachable =
    next
      (next (next one_out-IsReachable (obtaining one_out none_expired true 41))
        (obtaining both_out none_expired true 42))
      (obtaining one_waits none_expired true 43)

abbrev first_expired : ℕ → Bool
first_expired ctx = ctx == 42

two_wait_run :
    (two_wait.queue ≡ 42 ∷ 43 ∷ [])
    × (held 0 two_wait.pool ≡ 1)
    × ((release first_expired 0 two_wait).0 ≡ handed_to 43)
unfolding obtain adjust_tuning make_more take_first enqueue release winner
two_wait_run = (refl, refl, refl)

release_lem_example : Passed first_expired 0 two_wait (release first_expired 0 two_wait)
release_lem_example = release_lem first_expired 0 two_wait two_wait-IsReachable two_wait_run.1
