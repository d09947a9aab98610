-- ===== src/Pqm/Merge/Correct.antt =====
-- What the merged answers hold.
use btrdb_server.Base.{ℕ, ◌+◌, ◌≤◌, ◌≡◌, refl, List, [], ◌∷◌, ltb, arith, if_both}
use btrdb_server.Qtree.Node.{Rec}
use btrdb_server.Qtree.Leaf.Sorted.{SortedFrom, in_range}
use btrdb_server.Qtree.Tally.{tally}
use btrdb_server.Pqm.Merge.{
  actual_contents, emit_ahead, merge_query_values, merge_query_values_stream,
}

module _ {V : Type 0} where
  actual_contents-in_range :
      (start end : ℕ) (rs : List (Rec V)) → actual_contents start end rs ≡ in_range start end rs
  unfolding actual_contents in_range
  actual_contents-in_range start end [] = refl
  actual_contents-in_range start end (r ∷ rs) =
      ground (arith, actual_contents-in_range start end rs)

  tally-emit_ahead :
      (φ : Rec V → ℕ) (v : Rec V) (k : ℕ) (cs : List (Rec V)) (next : List (Rec V) → List (Rec V))
      → ((ds : List (Rec V)) → tally φ (next ds) ≡ k + tally φ ds)
      → tally φ (emit_ahead v cs next) ≡ φ v + k + tally φ cs
  unfolding emit_ahead
  tally-emit_ahead φ v k [] next h = omega (arith, h [])
  tally-emit_ahead φ v k (c ∷ cs) next h =
      ground (arith, tally-emit_ahead φ v k cs next h, h (c ∷ cs))

  tally-merge :
      (φ : Rec V → ℕ) (ps cs : List (Rec V))
      → tally φ (merge_query_values ps cs) ≡ tally φ ps + tally φ cs
  unfolding merge_query_values
  tally-merge φ [] cs = omega arith
  tally-merge φ (v ∷ ps) cs =
      omega (arith, tally-emit_ahead φ v (tally φ ps) cs (merge_query_values ps) (tally-merge φ ps))

  SortedFrom-emit_ahead :
      (lo : ℕ) (v : Rec V) (cs : List (Rec V)) (next : List (Rec V) → List (Rec V))
      → ((ds : List (Rec V)) → SortedFrom v.time ds → SortedFrom v.time (next ds))
      → lo ≤ v.time
      → SortedFrom lo cs
      → SortedFrom lo (emit_ahead v cs next)
  unfolding emit_ahead
  SortedFrom-emit_ahead lo v [] next h p s = (p, h [] tt)
  SortedFrom-emit_ahead lo v (c ∷ cs) next h p s =
      if_both (SortedFrom lo) (ltb c.time v.time)
        (λ e. (s.0, SortedFrom-emit_ahead c.time v cs next h (ground arith) s.1))
        (λ e. (p, h (c ∷ cs) (ground arith, s.1)))

  SortedFrom-merge :
      (lo : ℕ) (ps cs : List (Rec V))
      → SortedFrom lo ps
      → SortedFrom lo cs
      → SortedFrom lo (merge_query_values ps cs)
  unfolding merge_query_values
  SortedFrom-merge lo [] cs p c = c
  SortedFrom-merge lo (v ∷ ps) cs p c =
      SortedFrom-emit_ahead lo v cs (merge_query_values ps)
        (λ ds s. SortedFrom-merge v.time ps ds p.1 s) p.0 c

  -- The merged stream holds the parent's records and those of the buffer in [start, end), each as often, and
  -- its times ascend if those of the parent and those of the buffer in the range do.
  pub merge_query_values_stream_lem :
      (start end : ℕ) (parent buffer : List (Rec V))
      → SortedFrom 0 parent
      → SortedFrom 0 (in_range start end buffer)
      → SortedFrom 0 (merge_query_values_stream start end parent buffer)
        × ((φ : Rec V → ℕ)
            → tally φ (merge_query_values_stream start end parent buffer)
              ≡ tally φ parent + tally φ (in_range start end buffer))
  unfolding merge_query_values_stream
  merge_query_values_stream_lem start end parent buffer p b = rw actual_contents-in_range (
    SortedFrom-merge 0 parent (in_range start end buffer) p b,
    λ φ. tally-merge φ parent (in_range start end buffer),
  )
