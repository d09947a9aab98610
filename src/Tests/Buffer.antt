-- ===== src/Tests/Buffer.antt =====
-- A stream's buffer.
use btrdb_server.Base.{
  Bool, false, Option, none, ◌*◌, inr, ℕ, ◌+◌, ◌≤◌, ◌≡◌, refl, true, some, List, [], ◌∷◌, arith,
  All,
}
use btrdb_server.Qtree.Node.{Rec}
use btrdb_server.Qtree.Tally.{tally}
use btrdb_server.Qtree.Leaf.Sorted.{SortedFrom, in_range}
use btrdb_server.Cluster.{MashRange, union, super_set_of}
use btrdb_server.Pqm.Recovery.{
  is_ok, Run, opened, inserts, flushes, Recovered, recover_lem, recover-skipped,
}
use btrdb_server.Pqm.{
  write_primary, partial_commit, release_all, insert_map, Stream, Calls, insert, flush, recover,
  to_insert,
}
use btrdb_server.Pqm.Durable.{visible, IsSynced, Added, insert_lem, flush_lem}
use btrdb_server.Pqm.Merge.{merge_query_values_stream, merge_nearest_value}
use btrdb_server.Pqm.Merge.Correct.{merge_query_values_stream_lem}
use btrdb_server.Pqm.Merge.Nearest.{
  IsAnswer, Holds, IsNotNearer, option_list, merge_nearest_value_lem,
}

abbrev at : ℕ → ℕ → Rec ℕ
at t v = record { time = t; val = v }

abbrev entry : Stream ℕ
entry = record {
  uuid = 6;
  major_version = 4;
  buffer = at 20 1 ∷ at 25 2 ∷ [];
  checkpoints = 7 ∷ [];
  stored = at 3 0 ∷ [];
  stored_version = 4;
  journal =
      record {
        uuid = 6;
        checkpoint = 2;
        major_version = 3;
        micro_version = 1;
        records = at 3 0 ∷ [];
      }
      ∷ record {
        uuid = 9;
        checkpoint = 3;
        major_version = 4;
        micro_version = 1;
        records = at 4 1 ∷ [];
      }
      ∷ record {
        uuid = 6;
        checkpoint = 7;
        major_version = 4;
        micro_version = 2;
        records = at 20 1 ∷ at 25 2 ∷ [];
      }
      ∷ [];
  next_checkpoint = 8;
}

entry-IsSynced : IsSynced entry
entry-IsSynced = (refl, refl, (omega arith, (omega arith, tt)))

abbrev all_well : Calls
all_well = record {
  active = record { start = 0; end = 100 };
  proposed = record { start = 50; end = 200 };
  write_ok = true;
  journal_ok = true;
  wait_ok = true;
  released = 10;
}

insert_lem_example : Added (at 30 9 ∷ []) entry (insert all_well (at 30 9 ∷ []) entry)
insert_lem_example = insert_lem all_well (at 30 9 ∷ []) entry entry-IsSynced (omega arith)

flush_lem_example : Added [] entry (flush all_well entry)
flush_lem_example = flush_lem all_well entry entry-IsSynced (omega arith)

-- The second insert fails, and so does the flush.
abbrev one_more : Stream ℕ
one_more = (insert all_well (at 30 9 ∷ []) entry).1

abbrev none_more : Stream ℕ
none_more = (insert (record all_well { journal_ok = false }) (at 31 9 ∷ []) one_more).1

abbrev last : Stream ℕ
last = (flush (record all_well { write_ok = false }) none_more).1

last_run :
    (one_more.checkpoints ≡ 7 ∷ 8 ∷ [])
    × (none_more.checkpoints ≡ 7 ∷ 8 ∷ [])
    × (last.uuid ≡ 6)
    × (last.stored_version ≡ 4)
unfolding insert flush write_primary partial_commit release_all union
last_run = (refl, refl, refl, refl)

abbrev history : List (List (Rec ℕ) × Bool)
history =
    (
      at 31 9 ∷ [],
      is_ok (insert (record all_well { journal_ok = false }) (at 31 9 ∷ []) one_more).0,
    )
    ∷ (at 30 9 ∷ [], is_ok (insert all_well (at 30 9 ∷ []) entry).0)
    ∷ []

last-Run : Run entry history last
last-Run =
    flushes
      (inserts (inserts opened all_well (at 30 9 ∷ []) (omega arith))
        (record all_well { journal_ok = false }) (at 31 9 ∷ []) (rw last_run.0 (omega arith)))
      (record all_well { write_ok = false }) (rw last_run.1 (omega arith))

abbrev murmur : ℕ → ℕ
murmur u = u * 10

abbrev rng : MashRange
rng = record { start = 50; end = 70 }

abbrev stream_major_version : ℕ → Option ℕ
stream_major_version u = some 4

last_in_range : super_set_of rng (murmur last.uuid) ≡ true
unfolding super_set_of
last_in_range = rw last_run.2 refl

recover_lem_example :
    Recovered (visible entry) history (recover murmur rng stream_major_version last)
recover_lem_example =
    recover_lem murmur rng stream_major_version entry-IsSynced last-Run last_in_range
      (rw last_run.3 refl)

recover_run :
    recover murmur rng stream_major_version last ≡ at 3 0 ∷ at 20 1 ∷ at 25 2 ∷ at 30 9 ∷ []
unfolding insert flush write_primary partial_commit release_all union recover to_insert insert_map
    super_set_of
recover_run = refl

recover-skipped_example : recover murmur rng (λ u. none) entry ≡ entry.stored
recover-skipped_example = recover-skipped murmur rng (λ u. none) entry (inr refl)

abbrev parent : List (Rec ℕ)
parent = at 3 0 ∷ at 22 5 ∷ []

abbrev nearby : List (Rec ℕ)
nearby = at 20 1 ∷ at 25 2 ∷ []

nearby-SortedFrom : SortedFrom 0 (in_range 1 24 nearby)
unfolding in_range
nearby-SortedFrom = omega arith

merge_query_values_stream_lem_example :
    SortedFrom 0 (merge_query_values_stream 1 24 parent nearby)
    × ((φ : Rec ℕ → ℕ)
        → tally φ (merge_query_values_stream 1 24 parent nearby)
          ≡ tally φ parent + tally φ (in_range 1 24 nearby))
merge_query_values_stream_lem_example =
    merge_query_values_stream_lem 1 24 parent nearby (omega arith) nearby-SortedFrom

abbrev IsEarly : Rec ℕ → Type 0
IsEarly r = r.time ≤ 30

merge_nearest_value_lem_example :
    IsAnswer true 24 (merge_nearest_value true 24 (some (at 3 0)) nearby)
    × Holds IsEarly (merge_nearest_value true 24 (some (at 3 0)) nearby)
    × All
        (IsNotNearer true 24 (merge_nearest_value true 24 (some (at 3 0)) nearby))
        (option_list (some (at 3 0)))
    × All (IsNotNearer true 24 (merge_nearest_value true 24 (some (at 3 0)) nearby)) nearby
merge_nearest_value_lem_example =
    merge_nearest_value_lem true 24 (some (at 3 0)) nearby IsEarly refl (omega arith)
      (omega arith, (omega arith, tt))
