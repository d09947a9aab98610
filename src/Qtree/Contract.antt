-- ===== src/Qtree/Contract.antt =====
-- What a stream's tree promises its clients: ReadStandardValuesCI and InsertValues together.
use btrdb_server.Base.{Bool, false, ℕ, ◌+◌, ◌≤◌, ◌<◌, ◌≡◌, some, List, arith, length}
use btrdb_server.Qtree.Node.{Rec, Node, contents}
use btrdb_server.Qtree.Window.{root_pw, maximum_time}
use btrdb_server.Qtree.Leaf.Sorted.{SortedFrom, in_range, SortedFrom-in_range}
use btrdb_server.Qtree.Shape.{IsNode}
use btrdb_server.Qtree.Shape.Contents.{contents-SortedFrom}
use btrdb_server.Qtree.Read.{read}
use btrdb_server.Qtree.Read.Correct.{read-in_range}
use btrdb_server.Qtree.Stats.{Floats}
use btrdb_server.Qtree.Tally.{tally, only_in, tally-in_range, Sorter}
use btrdb_server.Qtree.Insert.{any_rejected, insert_values}
use btrdb_server.Qtree.Insert.Crowded.{DroppedIf}
use btrdb_server.Qtree.Insert.Total.{root_fuel, insert_values_lem}

-- A query for [start, end) on a well-formed node whose window it meets, with start < end, does not
-- panic and sends exactly the node's records in that range, in the order of the tree, and their times
-- ascend.
pub read_lem :
    {V : Type 0} (n : Node V) (pw lo hi start end : ℕ)
    → IsNode pw lo hi n
    → start < end
    → start < hi
    → lo ≤ end
    → (read start end n ≡ some (in_range start end (contents n)))
      × SortedFrom lo (in_range start end (contents n))
read_lem n pw lo hi start end w p q r = (
  read-in_range n pw lo hi start end w p q r,
  SortedFrom-in_range start end lo (contents n) (contents-SortedFrom n pw lo hi w),
)

-- After InsertValues of at least one record on a well-formed root, none with a bad value or a time at
-- MaximumTime or behind it, a query for a nonempty range that starts below MaximumTime succeeds on the new
-- root, and what it sends together with the truncated records in the range is what was there in the range
-- before together with the inserted records in the range, each record as often. Records are truncated
-- only if more than VSIZE, old and new together, lie in a window of at most 64 ns.
pub read-insert_values :
    {V : Type 0} (F : Floats V) (S : Sorter V) (gen : ℕ) (is_bad : V → Bool) (n : Node V)
    (rs : List (Rec V)) (start end : ℕ)
    → IsNode root_pw 0 maximum_time n
    → any_rejected is_bad rs ≡ false
    → 1 ≤ length rs
    → start < end
    → start < maximum_time
    → (n' : Node V) × (d : List (Rec V)) × (sent : List (Rec V)) × (insert_values F S.sort gen
          is_bad root_fuel n rs
        ≡ some (n', d))
      × (read start end n' ≡ some sent)
      × ((φ : Rec V → ℕ)
          → tally φ sent + tally φ (in_range start end d)
            ≡ tally φ (in_range start end (contents n)) + tally φ (in_range start end rs))
      × DroppedIf d (λ φ. tally φ (contents n) + tally φ rs)
read-insert_values F S gen is_bad n rs start end w h k p q =
    let (n', d, e, w', t, l) = insert_values_lem F S gen is_bad n rs w h k in
    (
      n',
      d,
      in_range start end (contents n'),
      e,
      read-in_range n' root_pw 0 maximum_time start end w' p q (omega arith),
      λ φ. omega (
        arith,
        t (only_in start end φ),
        tally-in_range φ start end (contents n'),
        tally-in_range φ start end d,
        tally-in_range φ start end (contents n),
        tally-in_range φ start end rs,
      ),
      l,
    )
