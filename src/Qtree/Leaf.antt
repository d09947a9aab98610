-- ===== src/Qtree/Leaf.antt =====
-- The operations of qtree/qtree.go on the records of a leaf: vector_block.Time and Value up to Len.
-- `none` is a panic.
pub mod Sorted
use btrdb_server.Base.{
  ℕ, ◌+◌, ◌&&◌, ◌||◌, Option, none, some, List, [], ◌∷◌, ltb, leb, ◌==◌, if◌then◌else◌, length,
}
use btrdb_server.Bstore.Consts.{vsize}
use btrdb_server.Qtree.Node.{Rec}

module _ {V : Type 0} where
  -- The leaf case of ReadStandardValuesCI: from the first time >= start up to the first time >= end.
  unfoldable pub read_leaf : ℕ → ℕ → List (Rec V) → List (Rec V)
  read_leaf start end [] = []
  read_leaf start end (r ∷ rs) =
      let rest = read_leaf start end rs in
      if leb start r.time then (if ltb r.time end then r ∷ rest else []) else rest

  -- The loop of MergeIntoVector over curtimes and r. A new record goes before an old one only if its
  -- time is smaller; where one side has run out the other is dumped.
  unfoldable pub merge : List (Rec V) → List (Rec V) → List (Rec V)
  merge [] new = new
  merge (v ∷ old) [] = v ∷ old
  merge (v ∷ old) (r ∷ new) =
      let before = merge (v ∷ old) new in
      let after = merge old (r ∷ new) in if ltb r.time v.time then r ∷ before else v ∷ after

  -- Writing behind the array is an index out of range, and an empty insert into records panics.
  unfoldable pub merge_into_vector : List (Rec V) → List (Rec V) → Option (List (Rec V))
  merge_into_vector old new =
      if ltb vsize (length old + length new)
      then none
      else if length old == 0
      then some new
      else if length new == 0
      then none
      else some (merge old new)

  -- The loop of the leaf case of DeleteRange: the records outside [start, end) move up.
  unfoldable pub keep_outside : ℕ → ℕ → List (Rec V) → List (Rec V)
  keep_outside start end [] = []
  keep_outside start end (r ∷ rs) =
      let rest = keep_outside start end rs in
      if ltb r.time start || leb end r.time then r ∷ rest else rest

  -- The loop of the leaf case of FindNearestValue: the first record at or behind `time`, or, if
  -- backwards, the last one before it.
  unfoldable pub nearest_forwards : ℕ → List (Rec V) → Option (Rec V)
  nearest_forwards time [] = none
  nearest_forwards time (r ∷ rs) =
      let rest = nearest_forwards time rs in if leb time r.time then some r else rest

  unfoldable pub nearest_backwards : ℕ → Option (Rec V) → List (Rec V) → Option (Rec V)
  nearest_backwards time found [] = found
  nearest_backwards time found (r ∷ rs) =
      let rest = nearest_backwards time (some r) rs in if leb time r.time then found else rest
