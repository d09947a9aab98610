-- ===== src/Qtree/Stats.antt =====
-- qtree/operators.go: the statistics of a node, which SetChild stores in the parent's entry.
-- Go's float64 and its operations are a parameter.
use btrdb_server.Base.{ℕ, Bool, Option, none, some, List, [], ◌∷◌, ◌==◌, if◌then◌else◌, length}
use btrdb_server.Base.Word.{add64}
use btrdb_server.Qtree.Node.{Rec, Node, Slots, leaf, core, nil, hole, child}
use btrdb_server.Qtree.Node

-- float64: 0, +, *, /, < and the conversion from uint64.
pub record Floats (V : Type 0) : Type 0 where
  pub zero : V
  pub add : V → V → V
  pub mul : V → V → V
  pub div : V → V → V
  pub lt : V → V → Bool
  pub of_uint : ℕ → V

module _ {V : Type 0} (F : Floats V) where
  -- total += Value[i]
  unfoldable pub sum_values : V → List (Rec V) → V
  sum_values total [] = total
  sum_values total (r ∷ rs) = sum_values (F.add total r.val) rs

  -- The entries with Count 0 are passed over.
  unfoldable pub sum_counts : ℕ → Slots V → ℕ
  sum_counts cnt nil = cnt
  sum_counts cnt (hole g sl) = sum_counts cnt sl
  sum_counts cnt (child st g n sl) =
      sum_counts (if st.count == 0 then cnt else add64 cnt st.count) sl

  unfoldable pub sum_means : V → Slots V → V
  sum_means total nil = total
  sum_means total (hole g sl) = sum_means total sl
  sum_means total (child st g n sl) =
      sum_means (if st.count == 0 then total else F.add total (F.mul st.mean (F.of_uint st.count)))
        sl

  unfoldable pub op_count_mean : Node V → ℕ × V
  op_count_mean (leaf h rs) = (length rs, F.div (sum_values F.zero rs) (F.of_uint (length rs)))
  op_count_mean (core h sl) =
      let cnt = sum_counts 0 sl in (cnt, F.div (sum_means F.zero sl) (F.of_uint cnt))

  -- OpMin and OpMax over a leaf: `before x y` is x < y for the minimum, x > y for the maximum.
  unfoldable pub best_value : (V → V → Bool) → V → List (Rec V) → V
  best_value before best [] = best
  best_value before best (r ∷ rs) = best_value before (if before r.val best then r.val else best) rs

  -- The same over the entries of a core node; `none` is minset == false.
  unfoldable pub better : (V → V → Bool) → Option V → V → Option V
  better before none v = some v
  better before (some best) v = if before v best then some v else some best

  unfoldable pub best_entry : (V → V → Bool) → (Node.Stats V → V) → Option V → Slots V → Option V
  best_entry before field best nil = best
  best_entry before field best (hole g sl) = best_entry before field best sl
  best_entry before field best (child st g n sl) =
      best_entry before field (if st.count == 0 then best else better before best (field st)) sl

  unfoldable pub or_zero : Option V → V
  or_zero none = F.zero
  or_zero (some v) = v

  -- A leaf with no record has the 0 of a new array at Value[0].
  unfoldable pub first_value : List (Rec V) → V
  first_value [] = F.zero
  first_value (r ∷ rs) = r.val

  abbrev pub gt : V → V → Bool
  gt a b = F.lt b a

  unfoldable pub op_min : Node V → V
  op_min (leaf h rs) = best_value F.lt (first_value rs) rs
  op_min (core h sl) = or_zero (best_entry F.lt (λ st. st.min) none sl)

  unfoldable pub op_max : Node V → V
  op_max (leaf h rs) = best_value gt (first_value rs) rs
  op_max (core h sl) = or_zero (best_entry gt (λ st. st.max) none sl)

  unfoldable pub stats_of : Node V → Node.Stats V
  stats_of n = record {
    count = (op_count_mean n).0;
    min = op_min n;
    mean = (op_count_mean n).1;
    max = op_max n;
  }
