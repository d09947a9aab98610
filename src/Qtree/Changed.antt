-- ===== src/Qtree/Changed.antt =====
-- FindChangedSince of qtree/qtree.go: the ranges that changed after a version. What a call sends to rchan is a
-- list, beside the range that it returns, which is `none` where that is not valid. An error sent to echan ends
-- the query, so that the whole is `none`. The context is not cancelled and every block loads.
pub mod Extend
pub mod Generations
pub mod Covered
use btrdb_server.Base.{
  ℕ, zero, suc, ◌+◌, Bool, true, false, Option, none, some, List, [], ◌∷◌, ◌++◌, ltb, leb, ◌==◌,
  if◌then◌else◌, ◌>>=◌,
}
use btrdb_server.Qtree.Node.{Header, Node, Slots, leaf, core, nil, hole, child}
use btrdb_server.Qtree.Window.{width, maximum_time, child_start_time, child_end_time}
use btrdb_server.Merger.Ranges.{ChangedRange}

abbrev pub Sent : Type 0
Sent = List ChangedRange × Option ChangedRange

-- The largest of CGeneration.
unfoldable pub maxchild : {V : Type 0} → ℕ → Slots V → ℕ
maxchild max nil = max
maxchild max (hole g sl) = maxchild (if ltb max g then g else max) sl
maxchild max (child st g n sl) = maxchild (if ltb max g then g else max) sl

-- What becomes of cr when the next range is r: it is extended, or sent.
unfoldable pub extend : Option ChangedRange → ChangedRange → Sent
extend none r = ([], some r)
extend (some cr) r =
    if r.start == cr.end then ([], some (record cr { end = r.end })) else (cr ∷ [], some r)

unfoldable pub bucket_range : Header → ℕ → ChangedRange
bucket_range h k = record { start = child_start_time h k; end = child_end_time h k }

-- The range that a child returned, and then the loop from the new cr on.
unfoldable pub extend_by : Option ChangedRange → Option ChangedRange → Sent
extend_by cr none = ([], cr)
extend_by cr (some r) = extend cr r

-- In front of what the rest of the loop sends.
unfoldable pub send : List ChangedRange → Option Sent → Option Sent
send sent rest = rest >>= λ t. some (sent ++ t.0, t.1)

unfoldable mutual
  -- parent_pw is the point width of the node's parent, which gives EndTime of a leaf.
  pub find_changed_since : {V : Type 0} → ℕ → ℕ → ℕ → Node V → Option Sent
  find_changed_since gen resolution parent_pw (leaf h rs) =
      if leb h.gen gen
      then none
      else some ([], some (record { start = h.start; end = h.start + width parent_pw }))
  find_changed_since gen resolution parent_pw (core h sl) =
      let found = scan_changed gen resolution h 0 none sl in
      if ltb h.gen gen then none else if ltb h.gen (maxchild 0 sl) then none else found

  -- The loop over the children from bucket k on, with cr.
  pub scan_changed : {V : Type 0} → ℕ → ℕ → Header → ℕ → Option ChangedRange → Slots V → Option Sent
  scan_changed gen resolution h k cr nil = some ([], cr)
  scan_changed gen resolution h k cr (hole g sl) =
      let (sent, cr') = extend cr (bucket_range h k) in
      if ltb gen g
      then send sent (scan_changed gen resolution h (suc k) cr' sl)
      else scan_changed gen resolution h (suc k) cr sl
  scan_changed gen resolution h k cr (child st g n sl) =
      let (sent, cr') = extend cr (bucket_range h k) in
      let whole = send sent (scan_changed gen resolution h (suc k) cr' sl) in
      let inside = find_changed_since gen resolution h.pw n >>= λ t.
      send (t.0 ++ (extend_by cr t.1).0)
        (scan_changed gen resolution h (suc k) (extend_by cr t.1).1 sl) in
      let skipped = scan_changed gen resolution h (suc k) cr sl in
      if ltb gen g then if leb h.pw resolution then whole else inside else skipped

-- FindChangedSince of the tree: all that is sent. A tree that was never written has no root.
unfoldable pub tree_changed_since :
    {V : Type 0} → ℕ → ℕ → Option (Node V) → Option (List ChangedRange)
tree_changed_since gen resolution none = some (record { start = 0; end = maximum_time } ∷ [])
tree_changed_since gen resolution (some root) = find_changed_since gen resolution 0 root >>= λ t.
    some (elim (t.1) [ none ↦ t.0 | some cr ↦ t.0 ++ cr ∷ [] ])
