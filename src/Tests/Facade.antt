-- ===== src/Tests/Facade.antt =====
-- The guards of the server facade and the changed ranges.
use btrdb_server.Base.{
  ℕ, ◌+◌, ◌-◌, ◌*◌, ◌/◌, ◌^◌, ◌≤◌, ◌<◌, ◌≡◌, refl, Bool, true, false, none, some, List, [], ◌∷◌,
  arith, ◌==◌,
}
use btrdb_server.Qtree.Node.{Rec, Node, core, nil, hole, child}
use btrdb_server.Qtree.Insert.{any_rejected}
use btrdb_server.Qtree.Changed.{
  extend, send, maxchild, extend_by, bucket_range, find_changed_since, tree_changed_since,
}
use btrdb_server.Qtree.Changed.Extend.{changed_at}
use btrdb_server.Qtree.Changed.Generations.{HasGenerations}
use btrdb_server.Qtree.Changed.Covered.{tree_changed_since-covered}
use btrdb_server.Merger.Ranges.{intersects, intersect, merge_changed_ranges, ChangedRange}
use btrdb_server.Merger.Ranges.Correct.{covered}
use btrdb_server.Quasar.{minimum_time, maximum_time}
use btrdb_server.Quasar.Guards.{
  to_tree, check_range, rem64, check_record, runs, panics, query_window, check_records,
}
use btrdb_server.Quasar.Guards.Accepts.{is_bad, HasTimes, check_records-any_rejected}
use btrdb_server.Quasar.Guards.Windows.{query_window-runs}
use btrdb_server.Quasar.Changes.{
  coalesce, get_changed_ranges, range_of, put_range, query_changed_ranges,
}
use btrdb_server.Qtree.Window.{arbitrary_start_time, child_end_time, child_start_time}
use btrdb_server.Base.Word.{add64, sub64}

abbrev changed : ℕ → ℕ → ChangedRange
changed s e = record { start = s; end = e }

-- Bucket 0 of the root was emptied in version 15; in its bucket 1 two buckets that do not touch were.
abbrev inner : Node ℕ
inner = core (record { start = 4096; pw = 6; gen = 15 }) (hole 15 (hole 11 (hole 15 nil)))

abbrev root : Node ℕ
root =
    core (record { start = 0; pw = 12; gen = 15 })
      (hole 15 (child (record { count = 0; min = 0; mean = 0; max = 0 }) 15 inner nil))

-- The inner node sends its first range before the root sends the range in front of it.
tree_changed_since_run :
    tree_changed_since 12 0 (some root)
    ≡ some (changed 4096 4160 ∷ changed 0 4096 ∷ changed 4224 4288 ∷ [])
unfolding tree_changed_since find_changed_since maxchild send extend_by extend bucket_range
    child_start_time arbitrary_start_time child_end_time
tree_changed_since_run = refl

root-HasGenerations : HasGenerations root
unfolding HasGenerations maxchild
root-HasGenerations = (omega arith, (refl, (omega arith, tt), tt))

tree_changed_since-covered_example :
    (out : List ChangedRange) × (tree_changed_since 12 0 (some root) ≡ some out)
    × ((t : ℕ) → covered t out ≡ changed_at 12 0 t 0 root)
tree_changed_since-covered_example =
    tree_changed_since-covered 12 0 root root-HasGenerations (omega arith)

abbrev from_tree : List ChangedRange
from_tree = changed 0 64 ∷ changed 64 128 ∷ changed 256 320 ∷ []

abbrev buffered : List (Rec ℕ)
buffered =
    record { time = 300; val = 1 }
    ∷ record { time = 1000; val = 2 }
    ∷ record { time = 1010; val = 3 }
    ∷ []

query_changed_ranges_run :
    query_changed_ranges 10 6 from_tree buffered
    ≡ some (changed 0 128 ∷ changed 256 320 ∷ changed 960 1024 ∷ [])
unfolding query_changed_ranges merge_changed_ranges coalesce get_changed_ranges put_range range_of
    intersects add64 intersect
query_changed_ranges_run = refl

-- Time 0 of the clock.
abbrev epoch : ℕ
epoch = 2 ^ 63

query_window_run : query_window true true epoch (epoch + 105) 10 0 ≡ runs epoch (epoch + 100)
unfolding query_window check_range sub64 rem64
query_window_run = refl

query_window-runs_example :
    (0 < 10)
    × (epoch ≡ epoch)
    × (epoch + 100 ≡ epoch + (epoch + 105 - epoch) / 10 * 10)
    × (epoch + 100 ≤ epoch + 105)
    × (epoch + 105 < epoch + 100 + 10)
    × (epoch < epoch + 100)
    × (minimum_time ≤ epoch)
    × (epoch + 100 < maximum_time)
query_window-runs_example =
    query_window-runs true true epoch (epoch + 105) 10 0 epoch (epoch + 100) (omega arith)
      (omega arith) (omega arith) query_window_run

no_width : query_window true true epoch (epoch + 105) 0 0 ≡ panics
unfolding query_window
no_width = refl

-- 7 stands for an undefined value, 8 for an infinite one.
abbrev is_nan : ℕ → Bool
is_nan v = v == 7

abbrev is_inf : ℕ → Bool
is_inf v = v == 8

abbrev good : List (Rec ℕ)
good = record { time = epoch; val = 1 } ∷ record { time = minimum_time; val = 2 } ∷ []

good_run : check_records is_nan is_inf good ≡ none
unfolding check_records check_record
good_run = refl

check_records-any_rejected_example :
    (ts : List (Rec ℕ)) × (to_tree is_nan is_inf good ≡ some ts)
    × (any_rejected (is_bad is_nan is_inf) ts ≡ false)
    × HasTimes ts good
check_records-any_rejected_example = check_records-any_rejected is_nan is_inf good good_run
