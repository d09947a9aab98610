-- ===== src/Pqm/Merge.antt =====
-- MergeNearestValue and MergeQueryValuesStream of pqm.go: a stream's answer with the records of its buffer.
-- The parent sends no error on its error channel.
pub mod Correct
pub mod Nearest
use btrdb_server.Base.{
  ℕ, Bool, true, false, ◌||◌, ◌&&◌, not, Option, none, some, List, [], ◌∷◌, ltb, leb, if◌then◌else◌,
}
use btrdb_server.Qtree.Node.{Rec}

module _ {V : Type 0} where
  -- The test of the loop: chosen `none` is nochosen.
  unfoldable pub is_nearer : Bool → ℕ → Option (Rec V) → Rec V → Bool
  is_nearer true time none r = ltb r.time time
  is_nearer true time (some c) r = ltb c.time r.time && ltb r.time time
  is_nearer false time none r = leb time r.time
  is_nearer false time (some c) r = ltb r.time c.time && leb time r.time

  -- The loop over the buffer. It starts with the tree's answer, `none` for NoSuchPoint, which it also ends with.
  unfoldable pub merge_nearest_value : Bool → ℕ → Option (Rec V) → List (Rec V) → Option (Rec V)
  merge_nearest_value backwards time chosen [] = chosen
  merge_nearest_value backwards time chosen (r ∷ rs) =
      merge_nearest_value backwards time
        (if is_nearer backwards time chosen r then some r else chosen) rs

  -- actualcontents
  unfoldable pub actual_contents : ℕ → ℕ → List (Rec V) → List (Rec V)
  actual_contents start end [] = []
  actual_contents start end (c ∷ cs) =
      let rest = actual_contents start end cs in
      if ltb c.time start || leb end c.time then rest else c ∷ rest

  -- What is sent: the buffer's records up to one that is not ahead of the parent's next one, that one,
  -- and so on; when the parent has finished, the rest of the buffer.
  unfoldable pub emit_ahead : Rec V → List (Rec V) → (List (Rec V) → List (Rec V)) → List (Rec V)
  emit_ahead v [] next = v ∷ next []
  emit_ahead v (c ∷ cs) next =
      let rest = emit_ahead v cs next in if ltb c.time v.time then c ∷ rest else v ∷ next (c ∷ cs)

  unfoldable pub merge_query_values : List (Rec V) → List (Rec V) → List (Rec V)
  merge_query_values [] contents = contents
  merge_query_values (v ∷ parent) contents = emit_ahead v contents (merge_query_values parent)

  unfoldable pub merge_query_values_stream : ℕ → ℕ → List (Rec V) → List (Rec V) → List (Rec V)
  merge_query_values_stream start end parent buffer =
      merge_query_values parent (actual_contents start end buffer)
