-- ===== src/Tests/Tree.antt =====
-- The tree: values are numbers in place of floats, and sorting is by insertion.
use btrdb_server.Base.{
  Bool, false, ℕ, true, ◌+◌, ◌*◌, ◌/◌, ◌^◌, ◌≡◌, refl, none, some, List, [], ◌∷◌, ltb, arith,
}
use btrdb_server.Qtree.Node.{Rec, Header, Stats, Node, leaf, core, hole, child, contents}
use btrdb_server.Qtree.Window.{root_pw, child_pw, clamp_bucket, end_time, maximum_time}
use btrdb_server.Qtree.Leaf.{merge, read_leaf, keep_outside}
use btrdb_server.Qtree.Leaf.Sorted.{
  SortedFrom, Below, From, SortedFrom-merge, Below-merge, in_range,
}
use btrdb_server.Qtree.Shape.{IsNode}
use btrdb_server.Qtree.Read.{read, first_bucket, last_bucket}
use btrdb_server.Qtree.Stats.{Floats}
use btrdb_server.Qtree.Tally.{tally, tally-merge, SameRecords, Sorter}
use btrdb_server.Qtree.Insert.{any_rejected, is_rejected, insert_values, new_core_node, holes}
use btrdb_server.Qtree.Insert.Entries.{new_core_node-IsNode}
use btrdb_server.Qtree.Insert.Leaves.{Inserted}
use btrdb_server.Qtree.Insert.Crowded.{DroppedIf}
use btrdb_server.Qtree.Insert.Total.{root_fuel, insert_values_lem}
use btrdb_server.Qtree.Contract.{read_lem, read-insert_values}
use btrdb_server.Qtree.Delete.{delete}
use btrdb_server.Qtree.Delete.Entries.{Deleted, IsFilled}
use btrdb_server.Qtree.Delete.Correct.{delete_lem}
use btrdb_server.Qtree.Nearest.{find_nearest_value, no_such_point}
use btrdb_server.Qtree.Nearest.First.{find_nearest_value-first_bucket}

abbrev naturals : Floats ℕ
naturals = record {
  zero = 0;
  add = λ a b. a + b;
  mul = λ a b. a * b;
  div = λ a b. a / b;
  lt = ltb;
  of_uint = λ n. n;
}

abbrev insertion_sort : List (Rec ℕ) → List (Rec ℕ)
insertion_sort [] = []
insertion_sort (r ∷ rs) = merge (r ∷ []) (insertion_sort rs)

sort-same : (rs : List (Rec ℕ)) → SameRecords (insertion_sort rs) rs
sort-same [] φ = refl
sort-same (r ∷ rs) φ = omega (arith, tally-merge φ (r ∷ []) (insertion_sort rs), sort-same rs φ)

sort-Below : (hi : ℕ) (rs : List (Rec ℕ)) → Below hi rs → Below hi (insertion_sort rs)
sort-Below hi [] p = tt
sort-Below hi (r ∷ rs) (p, ps) =
    Below-merge hi (r ∷ []) (insertion_sort rs) (p, tt) (sort-Below hi rs ps)

sort-SortedFrom : (lo : ℕ) (rs : List (Rec ℕ)) → From lo rs → SortedFrom lo (insertion_sort rs)
sort-SortedFrom lo [] h = tt
sort-SortedFrom lo (r ∷ rs) (h, hs) =
    SortedFrom-merge lo (r ∷ []) (insertion_sort rs) (h, tt) (sort-SortedFrom lo rs hs)

abbrev sorter : Sorter ℕ
sorter = record {
  sort = insertion_sort;
  sort_same = sort-same;
  sort_window = λ lo hi rs p b. (sort-SortedFrom lo rs p, sort-Below hi rs b);
}

abbrev at : ℕ → ℕ → Rec ℕ
at t v = record { time = t; val = v }

abbrev empty_root : Node ℕ
empty_root = new_core_node 1 0 root_pw

empty_root-IsNode : IsNode root_pw 0 maximum_time empty_root
empty_root-IsNode =
    new_core_node-IsNode ℕ 1 root_pw 0 maximum_time (0, refl) (omega arith) (omega arith)

abbrev three : List (Rec ℕ)
three = at 9 90 ∷ at 5 50 ∷ at (2 ^ 57) 10 ∷ []

-- A node of point width 6 with two leaves.
abbrev header_at : ℕ → ℕ → Header
header_at start pw = record { start = start; pw = pw; gen = 1 }

abbrev some_stats : Stats ℕ
some_stats = record { count = 2; min = 0; mean = 0; max = 0 }

abbrev two_leaves : Node ℕ
two_leaves = core (header_at 0 6) (
    child some_stats 1 (leaf (header_at 0 0) (at 3 30 ∷ at 7 70 ∷ []))
      (child some_stats 1 (leaf (header_at 64 0) (at 64 1 ∷ at 100 2 ∷ [])) (holes 62)))

two_leaves-IsNode : IsNode 6 0 4096 two_leaves
unfolding holes child_pw
two_leaves-IsNode = omega arith

two_leaves-IsFilled : IsFilled two_leaves
unfolding holes
two_leaves-IsFilled = omega arith

-- A value that stands for Inf or NaN.
abbrev is_large : ℕ → Bool
is_large v = ltb 1000 v

none_rejected : any_rejected is_large three ≡ false
unfolding any_rejected is_rejected
none_rejected = refl

insert_values_lem_example :
    Inserted root_pw 0 maximum_time empty_root three
      (insert_values naturals insertion_sort 2 is_large root_fuel empty_root three)
insert_values_lem_example =
    insert_values_lem naturals sorter 2 is_large empty_root three empty_root-IsNode none_rejected
      (omega arith)

read-insert_values_example :
    (n' : Node ℕ) × (d : List (Rec ℕ)) × (sent : List (Rec ℕ)) × (insert_values naturals
        insertion_sort 2 is_large root_fuel empty_root three
      ≡ some (n', d))
    × (read 6 100 n' ≡ some sent)
    × ((φ : Rec ℕ → ℕ)
        → tally φ sent + tally φ (in_range 6 100 d)
          ≡ tally φ (in_range 6 100 (contents empty_root)) + tally φ (in_range 6 100 three))
    × DroppedIf d (λ φ. tally φ (contents empty_root) + tally φ three)
read-insert_values_example =
    read-insert_values naturals sorter 2 is_large empty_root three 6 100 empty_root-IsNode
      none_rejected (omega arith) (omega arith) (omega arith)

read_lem_example :
    (read 4 90 two_leaves ≡ some (in_range 4 90 (contents two_leaves)))
    × SortedFrom 0 (in_range 4 90 (contents two_leaves))
read_lem_example =
    read_lem two_leaves 6 0 4096 4 90 two_leaves-IsNode (omega arith) (omega arith) (omega arith)

delete_lem_example :
    Deleted 6 0 4096 (keep_outside 4 90 (contents two_leaves)) (delete naturals 2 4 90 two_leaves)
delete_lem_example =
    delete_lem naturals 2 4 90 two_leaves 6 0 4096 two_leaves-IsNode two_leaves-IsFilled

find_nearest_value-first_bucket_example :
    (find_nearest_value 2000 true
        (core (header_at 0 6) (child some_stats 1 (leaf (header_at 0 0) (at 3 30 ∷ [])) (holes 63)))
      ≡ find_nearest_value 2000 true (core (header_at 0 6) (hole 0 (holes 63))))
    × (find_nearest_value 2000 true (
          core
            (header_at 0 6)
            (child some_stats 1 (leaf (header_at 0 0) (at 3 30 ∷ [])) (holes 63)))
        ≡ no_such_point)
find_nearest_value-first_bucket_example =
    find_nearest_value-first_bucket (header_at 0 6) some_stats 1 0 2000
      (leaf (header_at 0 0) (at 3 30 ∷ [])) (holes 63) 63

-- Runs.
read-two_leaves : read 4 90 two_leaves ≡ some (at 7 70 ∷ at 64 1 ∷ [])
unfolding read first_bucket last_bucket clamp_bucket end_time read_leaf holes
read-two_leaves = refl

delete-two_leaves : delete naturals 2 0 4096 two_leaves ≡ some none
unfolding delete end_time
delete-two_leaves = refl
