-- ===== src/Qtree/Insert.antt =====
-- InsertValues of qtree/qtree.go with what it calls: wchild, SetChild, MergeIntoVector, ConvertToCore,
-- AssertNewUpPatch, NewCoreNode and NewVectorNode. The tree is a value, so the copies that
-- AssertNewUpPatch makes of the path to the root are the new nodes, with the generation of the write.
-- The result holds the new node and the records that were truncated, which the code logs. `none` is a
-- panic, or that the fuel ran out.
pub mod Entries
pub mod Crowded
pub mod Groups
pub mod Leaves
pub mod Children
pub mod Total
use btrdb_server.Base.{
  ℕ, zero, suc, ◌+◌, ◌-◌, ◌*◌, Bool, true, false, not, ◌&&◌, ◌||◌, Option, none, some, List, [],
  ◌∷◌, ◌++◌, ltb, leb, ◌==◌, if◌then◌else◌, length, take, drop, ◌>>=◌,
}
use btrdb_server.Bstore.Consts.{kfactor, vsize}
use btrdb_server.Qtree.Node
use btrdb_server.Qtree.Node.{Rec, Header, Node, Slots, leaf, core, nil, hole, child}
use btrdb_server.Qtree.Window.{
  maximum_time, clamp_time, clamp_bucket, child_pw, child_start_time, end_time,
}
use btrdb_server.Qtree.Leaf.{merge_into_vector}
use btrdb_server.Qtree.Stats.{Floats, stats_of}

module _ {V : Type 0} where
  -- A new block's KFACTOR entries.
  unfoldable pub holes : ℕ → Slots V
  holes zero = nil
  holes (suc k) = hole 0 (holes k)

  unfoldable pub new_core_node : ℕ → ℕ → ℕ → Node V
  new_core_node gen start pw =
      core (record { start = clamp_time start pw; pw = pw; gen = gen }) (holes kfactor)

  unfoldable pub new_vector_node : ℕ → ℕ → ℕ → Node V
  new_vector_node gen start pw =
      leaf (record { start = clamp_time start pw; pw = pw; gen = gen }) []

  unfoldable pub child_at : ℕ → Slots V → Option (Node V)
  child_at i nil = none
  child_at zero (hole g sl) = none
  child_at zero (child st g n sl) = some n
  child_at (suc i) (hole g sl) = child_at i sl
  child_at (suc i) (child st g n sl) = child_at i sl

  -- The child, or a new one where there is none.
  unfoldable pub wchild : ℕ → Header → ℕ → Bool → Slots V → Node V
  wchild gen h i is_vector sl = elim (child_at i sl) [
    | some n ↦ n
    | none ↦
        if is_vector
        then new_vector_node gen (child_start_time h i) (child_pw h.pw)
        else new_core_node gen (child_start_time h i) (child_pw h.pw)
  ]

  -- The entry of SetChild with a child.
  unfoldable pub put_child : ℕ → Node.Stats V → ℕ → Node V → Slots V → Slots V
  put_child i st gen n nil = nil
  put_child zero st gen n (hole g sl) = child st gen n sl
  put_child zero st gen n (child st' g n' sl) = child st gen n sl
  put_child (suc i) st gen n (hole g sl) = hole g (put_child i st gen n sl)
  put_child (suc i) st gen n (child st' g n' sl) = child st' g n' (put_child i st gen n sl)

  -- The runs of records that fall into one bucket: records[lidx:idx] with lbuckt.
  unfoldable pub run_groups : Header → ℕ → List (Rec V) → List (Rec V) → List (ℕ × List (Rec V))
  run_groups h lbuckt group [] = (lbuckt, group) ∷ []
  run_groups h lbuckt group (r ∷ rs) =
      let same = run_groups h lbuckt (group ++ r ∷ []) rs in
      let next = (lbuckt, group) ∷ run_groups h (clamp_bucket h r.time) (r ∷ []) rs in
      if clamp_bucket h r.time == lbuckt then same else next

  -- records[len(records)-1]
  unfoldable pub last_time : ℕ → List (Rec V) → ℕ
  last_time t [] = t
  last_time t (r ∷ rs) = last_time r.time rs

  -- childisleaf
  unfoldable pub child_is_leaf : Header → List (Rec V) → Bool
  child_is_leaf h group = ltb (length group) vsize || child_pw h.pw == 0

  -- What a truncated insert keeps and drops: records[:truncidx], if truncidx > 0.
  unfoldable pub truncate : List (Rec V) → List (Rec V) → List (Rec V) × List (Rec V)
  truncate old new =
      if ltb vsize (length old + length new)
      then (take (vsize - length old) new, drop (vsize - length old) new)
      else (new, [])

  -- A leaf without conversion. With truncidx <= 0 the node is returned as it is.
  unfoldable pub insert_leaf :
      ℕ → Header → List (Rec V) → List (Rec V) → Option (Node V × List (Rec V))
  insert_leaf gen h old new =
      let (kept, dropped) = truncate old new in
      if ltb vsize (length old + length new) && leb vsize (length old)
      then some (leaf h old, new)
      else (do rs ← merge_into_vector old kept; some (leaf (record h { gen = gen }) rs, dropped))

  -- A value or time that InsertValues of the tree panics on; is_bad is IsInf or IsNaN of the value. A time
  -- below MinimumTime has no distance from it: Quasar.Guards.to_tree tests that, where times are signed.
  unfoldable pub is_rejected : (V → Bool) → Rec V → Bool
  is_rejected is_bad r = is_bad r.val || leb maximum_time r.time

  unfoldable pub any_rejected : (V → Bool) → List (Rec V) → Bool
  any_rejected is_bad [] = false
  any_rejected is_bad (r ∷ rs) = is_rejected is_bad r || any_rejected is_bad rs

module _ {V : Type 0} (F : Floats V) (sort : List (Rec V) → List (Rec V)) (gen : ℕ) where
  -- One flush: newchild, err := n.wchild(...).InsertValues(...); n.SetChild(lbuckt, newchild)
  unfoldable pub insert_group :
      (Node V → List (Rec V) → Option (Node V × List (Rec V)))
      → Header
      → ℕ × List (Rec V)
      → Slots V
      → Option (Slots V × List (Rec V))
  insert_group ins h (b, group) sl = do
    (n, dropped) ← ins (wchild gen h b (child_is_leaf h group) sl) group
    some (put_child b (stats_of F n) gen n sl, dropped)

  unfoldable pub insert_groups :
      (Node V → List (Rec V) → Option (Node V × List (Rec V)))
      → Header
      → List (ℕ × List (Rec V))
      → Slots V
      → Option (Slots V × List (Rec V))
  insert_groups ins h [] sl = some (sl, [])
  insert_groups ins h (bg ∷ rest) sl = do
    (sl', dropped) ← insert_group ins h bg sl
    (sl'', more) ← insert_groups ins h rest sl'
    some (sl'', dropped ++ more)

  -- The core case, with its window panics. The records are not empty.
  unfoldable pub insert_core :
      (Node V → List (Rec V) → Option (Node V × List (Rec V)))
      → Header
      → Slots V
      → List (Rec V)
      → Option (Node V × List (Rec V))
  insert_core ins h sl [] = none
  insert_core ins h sl (r ∷ rs) =
      if ltb r.time h.start || (leb (end_time h) (last_time r.time rs) || h.pw == 0)
      then none
      else (do
        (sl', dropped) ← insert_groups ins h (run_groups h (clamp_bucket h r.time) (r ∷ []) rs) sl
        some (core (record h { gen = gen }) sl', dropped))

  unfoldable pub insert : ℕ → Node V → List (Rec V) → Option (Node V × List (Rec V))
  insert zero n rs = none
  insert (suc fuel) (core h sl) rs = insert_core (insert fuel) h sl rs
  insert (suc fuel) (leaf h old) rs =
      let converted = insert fuel (new_core_node gen h.start h.pw) (sort (old ++ rs)) in
      if ltb vsize (length old + length rs) && ltb 0 h.pw
      then converted
      else insert_leaf gen h old rs

  -- InsertValues of the tree: the new root, and what was truncated.
  unfoldable pub insert_values :
      (V → Bool) → ℕ → Node V → List (Rec V) → Option (Node V × List (Rec V))
  insert_values is_bad fuel root records =
      if any_rejected is_bad records || length records == 0
      then none
      else insert fuel root (sort records)
