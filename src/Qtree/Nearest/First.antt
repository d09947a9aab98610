-- ===== src/Qtree/Nearest/First.antt =====
-- About FindNearestValue of qtree/qtree.go at the first bucket of a node.
use btrdb_server.Base.{ℕ, zero, suc, ◌≡◌, refl, ap, ◌∙◌, Bool, true, false, ◌==◌, if◌then◌else◌}
use btrdb_server.Qtree.Node.{Header, Stats, Node, Slots, core, hole, child}
use btrdb_server.Qtree.Insert.{holes}
use btrdb_server.Qtree.Nearest.{
  Nearest, no_such_point, Scan, nothing, searched, done, scan_entry, scan_result,
  find_nearest_value, scan_backwards,
}

scan_entry-zero :
    {V : Type 0} (h : Header) (time : ℕ) (l : Bool) (s : Scan V) (at : Nearest V)
    → scan_entry h time 0 l s at ≡ s
unfolding scan_entry
scan_entry-zero h time l nothing at = refl
scan_entry-zero h time l searched at = refl
scan_entry-zero h time l (done r) at = refl

scan_backwards-holes :
    {V : Type 0} (h : Header) (time i k : ℕ) → scan_backwards {V = V} h time i (holes k) ≡ nothing
unfolding find_nearest_value holes
scan_backwards-holes h time i zero = refl
scan_backwards-holes h time i (suc k) = scan_backwards-holes h time (suc i) k

-- Backwards, a core node answers as if its first bucket were empty, whatever that bucket holds. So a core
-- node with no other child has no such point, also where the requested time is behind all its records.
pub find_nearest_value-first_bucket :
    {V : Type 0} (h : Header) (st : Stats V) (g g' time : ℕ) (n : Node V) (sl : Slots V) (k : ℕ)
    → (find_nearest_value time true (core h (child st g n sl))
        ≡ find_nearest_value time true (core h (hole g' sl)))
      × (find_nearest_value time true (core h (child st g n (holes k))) ≡ no_such_point)
unfolding find_nearest_value holes scan_result
find_nearest_value-first_bucket h st g g' time n sl k = (
  ap scan_result (
      scan_entry-zero h time (if st.count == 0 then false else true) (scan_backwards h time 1 sl)
        (find_nearest_value time true n)),
  ap scan_result (
        scan_entry-zero h time (if st.count == 0 then false else true)
          (scan_backwards h time 1 (holes k)) (find_nearest_value time true n))
      ∙ ap scan_result (scan_backwards-holes h time 1 k),
)
