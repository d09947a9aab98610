-- ===== src/Qtree/Nearest.antt =====
-- FindNearestValue of qtree/qtree.go. The scan for two children and the search in them are one pass: the
-- second child that the code notes is the next live one behind the first, in the order of the scan, and it is
-- searched only if the first has no such point. A child is live if its entry's Count is not 0. The context
-- is not cancelled and every block loads.
pub mod First
use btrdb_server.Base.{
  ℕ, zero, suc, Bool, true, false, ◌||◌, Option, none, some, List, [], ◌∷◌, ltb, leb, ◌==◌,
  if◌then◌else◌,
}
use btrdb_server.Qtree.Node.{Rec, Header, Node, Slots, leaf, core, nil, hole, child}
use btrdb_server.Qtree.Window.{child_start_time, child_end_time}
use btrdb_server.Qtree.Leaf.{nearest_forwards, nearest_backwards}

-- A panic is that of a leaf with no record.
pub data Nearest (V : Type 0) : Type 0 where
  found : Rec V → Nearest V
  no_such_point : Nearest V
  panicked : Nearest V

-- Where a backwards scan stands: no child yet, one that has no such point, or done.
pub data Scan (V : Type 0) : Type 0 where
  nothing : Scan V
  searched : Scan V
  done : Nearest V → Scan V

unfoldable pub answer : {V : Type 0} → Option (Rec V) → Nearest V
answer none = no_such_point
answer (some r) = found r

-- The result of the first child, or of the second if the first has no such point.
unfoldable pub or_second : {V : Type 0} → Nearest V → Nearest V → Nearest V
or_second (found r) second = found r
or_second no_such_point second = second
or_second panicked second = panicked

unfoldable pub first_result : {V : Type 0} → Nearest V → Scan V
first_result (found r) = done (found r)
first_result no_such_point = searched
first_result panicked = done panicked

unfoldable pub scan_result : {V : Type 0} → Scan V → Nearest V
scan_result nothing = no_such_point
scan_result searched = no_such_point
scan_result (done r) = r

-- The entry of bucket i in the backwards scan, of which `scan` is the state after the buckets above it, and
-- `at` the search in the child. The loop's condition is i > 0.
unfoldable pub scan_entry : {V : Type 0} → Header → ℕ → ℕ → Bool → Scan V → Nearest V → Scan V
scan_entry h time i is_live (done r) at = done r
scan_entry h time i is_live searched at =
    if ltb 0 i then if is_live then done at else searched else searched
scan_entry h time i is_live nothing at =
    if ltb 0 i
    then if is_live
      then if ltb (child_start_time h i) time then first_result at else nothing
      else nothing
    else nothing

unfoldable mutual
  pub find_nearest_value : {V : Type 0} → ℕ → Bool → Node V → Nearest V
  find_nearest_value time backwards (leaf h []) = panicked
  find_nearest_value time true (leaf h (r ∷ rs)) = answer (nearest_backwards time none (r ∷ rs))
  find_nearest_value time false (leaf h (r ∷ rs)) = answer (nearest_forwards time (r ∷ rs))
  find_nearest_value time true (core h sl) = scan_result (scan_backwards h time 0 sl)
  find_nearest_value time false (core h sl) = scan_forwards h time 0 sl

  pub scan_forwards : {V : Type 0} → Header → ℕ → ℕ → Slots V → Nearest V
  scan_forwards h time i nil = no_such_point
  scan_forwards h time i (hole g sl) = scan_forwards h time (suc i) sl
  scan_forwards h time i (child st g n sl) =
      let at = find_nearest_value time false n in
      let second = next_forwards time sl in
      let rest = scan_forwards h time (suc i) sl in
      if st.count == 0
      then rest
      else if ltb time (child_end_time h i)
      then or_second at second
      else rest

  pub next_forwards : {V : Type 0} → ℕ → Slots V → Nearest V
  next_forwards time nil = no_such_point
  next_forwards time (hole g sl) = next_forwards time sl
  next_forwards time (child st g n sl) =
      let at = find_nearest_value time false n in
      let rest = next_forwards time sl in if st.count == 0 then rest else at

  pub scan_backwards : {V : Type 0} → Header → ℕ → ℕ → Slots V → Scan V
  scan_backwards h time i nil = nothing
  scan_backwards h time i (hole g sl) = scan_backwards h time (suc i) sl
  scan_backwards h time i (child st g n sl) =
      scan_entry h time i (if st.count == 0 then false else true) (scan_backwards h time (suc i) sl)
        (find_nearest_value time true n)
