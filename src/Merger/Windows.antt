-- ===== src/Merger/Windows.antt =====
-- mergeStatisticalWindowChannels of merger.go, which merges the windows of the tree (parent) with those of
-- the buffer (pqbuffer). Its panic, for a time that is neither smaller, greater nor equal, is not reachable
-- in the model, where the order of times is total.
pub mod Correct
use btrdb_server.Base.{ℕ, Bool, Option, none, some, List, [], ◌∷◌, ltb, ◌==◌, if◌then◌else◌}
use btrdb_server.Base.Word.{add64}
use btrdb_server.Qtree.Stats.{Floats}

pub record StatRecord (V : Type 0) : Type 0 where
  pub time : ℕ
  pub count : ℕ
  pub min : V
  pub mean : V
  pub max : V

module _ {V : Type 0} (F : Floats V) where
  -- if v.Count == 0 { v.Max = pv.Max; v.Min = pv.Min }
  unfoldable pub or_parent : StatRecord V → StatRecord V → StatRecord V
  or_parent v pv = if v.count == 0 then record v { max = pv.max; min = pv.min } else v

  -- Two windows of the same time, v from the buffer.
  unfoldable pub combine : StatRecord V → StatRecord V → StatRecord V
  combine v pv =
      let w = or_parent v pv in
      record {
        time = v.time;
        count = add64 v.count pv.count;
        min = if F.lt pv.min w.min then pv.min else w.min;
        mean =
            F.div (F.add (F.mul v.mean (F.of_uint v.count)) (F.mul pv.mean (F.of_uint pv.count)))
              (F.of_uint (add64 v.count pv.count));
        max = if F.lt w.max pv.max then pv.max else w.max;
      }

  unfoldable pub merge_windows : List (StatRecord V) → List (StatRecord V) → List (StatRecord V)
  merge_windows [] pqbuffer = pqbuffer
  merge_windows (pv ∷ parent) [] = pv ∷ merge_windows parent []
  merge_windows (pv ∷ parent) (v ∷ pqbuffer) =
      let parent_first = merge_windows parent (v ∷ pqbuffer) in
      let pq_first = merge_windows (pv ∷ parent) pqbuffer in
      let merged = merge_windows parent pqbuffer in
      if ltb pv.time v.time
      then pv ∷ parent_first
      else if ltb v.time pv.time
      then v ∷ pq_first
      else combine v pv ∷ merged
