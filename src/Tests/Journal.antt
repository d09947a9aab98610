-- ===== src/Tests/Journal.antt =====
-- The journal of a node on Ceph.
use btrdb_server.Base.{ℕ, ◌≤◌, ◌<◌, ◌≡◌, ◌≢◌, refl, true, some, List, [], ◌∷◌, arith}
use btrdb_server.Cluster.{union, MashRange}
use btrdb_server.Journal.Freed.{
  pop_ready, add_freed_checkpoint_to_list, release_disjoint_checkpoint, push, FreeList,
  new_free_list, release_each,
}
use btrdb_server.Journal.Freed.Least.{times, release_each-least}
use btrdb_server.Journal.Objects.{Object, deleted, release_journal_entries}
use btrdb_server.Journal.Objects
use btrdb_server.Journal.Objects.Release.{Fates, release_journal_entries-Fates}
use btrdb_server.Journal.Objects.Zero.{mark_each, mark_each-ne-deleted}
use btrdb_server.Journal.Written.{
  process_pending, mark_cp_range_written, take_fitting, Provider, WriteBackRequest, new_provider,
  insert, write_existing_buffer, complete, is_written, inserts, writes, completes, IsReachable,
  start, next,
}
use btrdb_server.Journal.Written.Durable.{IsReachable-stored, IsReachable-is_written}

-- Checkpoints 1, 2, 3 and 5, in another order.
abbrev released : List ℕ
released = 3 ∷ 1 ∷ 5 ∷ 2 ∷ []

release_each_run : (release_each released new_free_list).can_free_cp ≡ 4
unfolding release_each release_disjoint_checkpoint pop_ready add_freed_checkpoint_to_list push
    new_free_list
release_each_run = refl

release_each-least_example :
    (1 ≤ (release_each released new_free_list).can_free_cp)
    × ((c : ℕ)
        → 1 ≤ c
        → c < (release_each released new_free_list).can_free_cp
        → times c released ≡ 1)
    × (times (release_each released new_free_list).can_free_cp released ≡ 0)
release_each-least_example =
    release_each-least released (omega arith, (omega arith, (omega arith, (omega arith, tt))))
      (λ c. ground arith)

abbrev two_freed : FreeList
two_freed = record { can_free_cp = 3; max_free_cp = 2; freelist = [] }

two_freed_run : release_each (2 ∷ 1 ∷ []) new_free_list ≡ two_freed
unfolding release_each release_disjoint_checkpoint pop_ready add_freed_checkpoint_to_list push
    new_free_list
two_freed_run = refl

abbrev range : ℕ → ℕ → MashRange
range s e = record { start = s; end = e }

abbrev newest : Object
newest = record {
  starting_checkpoint = 50;
  checkpoints = 50 ∷ [];
  range = range 0 100;
  relrange = range 0 0 ∷ [];
}

abbrev middle : Object
middle = record {
  starting_checkpoint = 30;
  checkpoints = 30 ∷ 45 ∷ [];
  range = range 0 100;
  relrange = range 0 0 ∷ [];
}

-- Its hashes below 60 were released before.
abbrev oldest : Object
oldest = record {
  starting_checkpoint = 10;
  checkpoints = 10 ∷ 29 ∷ [];
  range = range 0 100;
  relrange = range 0 60 ∷ [];
}

release_journal_entries_run :
    release_journal_entries 40 (range 50 100) (newest ∷ middle ∷ oldest ∷ [])
    ≡ some (newest ∷ middle ∷ [])
unfolding release_journal_entries Objects.release_before Objects.put_marked Objects.mark_or_delete
    Objects.collapse Objects.finding_changes Objects.absorb union Objects.must_delete
release_journal_entries_run = refl

release_journal_entries-Fates_example :
    (ns : List Object) × (release_journal_entries 40 (range 50 100) (newest ∷ middle ∷ oldest ∷ [])
      ≡ some (newest ∷ ns))
    × Fates 40 (range 50 100) (middle ∷ oldest ∷ []) ns
release_journal_entries-Fates_example =
    release_journal_entries-Fates 40 (range 50 100) newest (middle ∷ oldest ∷ []) (omega arith)
      (ground arith)

mark_each-ne-deleted_example :
    mark_each
      (range 100 200)
      (Objects.begin_new_object 7 (range 100 200)).relrange
      (range 100 150 ∷ range 150 200 ∷ [])
    ≢ deleted
mark_each-ne-deleted_example =
    mark_each-ne-deleted 7 (range 100 200) (range 100 150 ∷ range 150 200 ∷ []) (omega arith)
      (omega arith, (omega arith, tt))

abbrev wrote : ℕ → ℕ → List ℕ → WriteBackRequest
wrote s e rs = record { range = record { start = s; end = e }; records = rs }

-- Records 1 and 2 in one write-back, record 3 in a second one.
abbrev two_writes : Provider
two_writes =
    write_existing_buffer (insert (write_existing_buffer (insert (insert new_provider).1).1)).1

-- The second write-back is done first.
abbrev second_done : Provider
second_done = complete (wrote 3 4 (3 ∷ [])) (wrote 1 3 (1 ∷ 2 ∷ []) ∷ []) two_writes

abbrev both_done : Provider
both_done = complete (wrote 1 3 (1 ∷ 2 ∷ [])) [] second_done

two_writes_run : two_writes.writebacks ≡ wrote 1 3 (1 ∷ 2 ∷ []) ∷ wrote 3 4 (3 ∷ []) ∷ []
unfolding write_existing_buffer insert new_provider
two_writes_run = refl

second_done_run :
    (second_done.writebacks ≡ wrote 1 3 (1 ∷ 2 ∷ []) ∷ []) × (second_done.written_cp ≡ 0)
unfolding write_existing_buffer complete mark_cp_range_written process_pending take_fitting insert
    new_provider
second_done_run = (refl, refl)

both_done_run : (both_done.writebacks ≡ []) × (both_done.stored ≡ 3 ∷ 1 ∷ 2 ∷ [])
unfolding write_existing_buffer complete mark_cp_range_written insert new_provider
both_done_run = (refl, refl)

both_done_written : is_written 3 both_done ≡ true
unfolding is_written complete mark_cp_range_written process_pending take_fitting
    write_existing_buffer insert new_provider
both_done_written = refl

one_record-IsReachable : IsReachable (insert new_provider).1
one_record-IsReachable = next start (inserts new_provider)

two_writes-IsReachable : IsReachable two_writes
two_writes-IsReachable =
    next (next (next (next one_record-IsReachable (inserts _)) (writes _)) (inserts _)) (writes _)

both_done-IsReachable : IsReachable both_done
both_done-IsReachable =
    next
      (next two_writes-IsReachable
        (completes (wrote 3 4 (3 ∷ [])) (wrote 1 3 (1 ∷ 2 ∷ []) ∷ []) [] two_writes two_writes_run))
      (completes (wrote 1 3 (1 ∷ 2 ∷ [])) [] [] second_done second_done_run.0)

IsReachable-stored_example : times 3 both_done.stored ≡ 1
IsReachable-stored_example =
    IsReachable-stored both_done-IsReachable 3 (omega arith) both_done_written

third_is_handed_out : 3 < both_done.next_write_cp
unfolding write_existing_buffer complete mark_cp_range_written insert new_provider
third_is_handed_out = omega arith

IsReachable-is_written_example : is_written 3 both_done ≡ true
IsReachable-is_written_example =
    IsReachable-is_written both_done-IsReachable both_done_run.0 3 third_is_handed_out
