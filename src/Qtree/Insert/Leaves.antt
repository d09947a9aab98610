-- ===== src/Qtree/Insert/Leaves.antt =====
-- An insert into a leaf that is not converted.
use native.Mathlib.Decide.{dec_lt}
use btrdb_server.Base.{
  ℕ, zero, suc, ◌+◌, ◌-◌, ◌≤◌, ◌<◌, ◌≡◌, refl, inl, inr, Option, some, List, [], ◌∷◌, arith, length,
  take, drop, length-take,
}
use btrdb_server.Bstore.Consts.{vsize}
use btrdb_server.Qtree.Node.{Rec, Header, Node, leaf, contents}
use btrdb_server.Qtree.Leaf.{merge, merge_into_vector}
use btrdb_server.Qtree.Leaf.Sorted.{SortedFrom, Below, SortedFrom-merge, Below-merge}
use btrdb_server.Qtree.Tally.{tally, tally-merge, tally-take-drop, length-tally}
use btrdb_server.Qtree.Shape.{IsNode}
use btrdb_server.Qtree.Insert.{truncate, insert_leaf}
use btrdb_server.Qtree.Insert.Crowded.{Crowded, DroppedIf, tally-only_in}

-- The insert of `rs` into `n` succeeds, and the node and the truncated records that it returns have
-- the window's shape and hold what was there and what was inserted. Records are truncated only if more
-- than VSIZE lie in a window of 64 ns.
abbrev pub Inserted :
    {V : Type 0} → ℕ → ℕ → ℕ → Node V → List (Rec V) → Option (Node V × List (Rec V)) → Type 0
Inserted {V} pw lo hi n rs result =
    (n' : Node V) × (d : List (Rec V)) × (result ≡ some (n', d))
    × IsNode pw lo hi n'
    × ((φ : Rec V → ℕ) → tally φ (contents n') + tally φ d ≡ tally φ (contents n) + tally φ rs)
    × DroppedIf d (λ φ. tally φ (contents n) + tally φ rs)

module _ {V : Type 0} where
  SortedFrom-take : (k lo : ℕ) (rs : List (Rec V)) → SortedFrom lo rs → SortedFrom lo (take k rs)
  SortedFrom-take zero lo rs s = tt
  SortedFrom-take (suc k) lo [] s = tt
  SortedFrom-take (suc k) lo (r ∷ rs) s = (s.0, SortedFrom-take k r.time rs s.1)

  Below-take : (k hi : ℕ) (rs : List (Rec V)) → Below hi rs → Below hi (take k rs)
  Below-take zero hi rs b = tt
  Below-take (suc k) hi [] b = tt
  Below-take (suc k) hi (r ∷ rs) b = (b.0, Below-take k hi rs b.1)

  length-merge : (old new : List (Rec V)) → length (merge old new) ≡ length old + length new
  length-merge old new = omega (
    arith,
    length-tally (merge old new),
    length-tally old,
    length-tally new,
    tally-merge (λ r. 1) old new,
  )

  -- Within the array, and with something to insert, MergeIntoVector merges.
  merge_into_vector_lem :
      (old new : List (Rec V))
      → length old + length new ≤ vsize
      → 1 ≤ length new
      → merge_into_vector old new ≡ some (merge old new)
  unfolding merge_into_vector
  merge_into_vector_lem [] new h k = unfold merge in ground arith
  merge_into_vector_lem (r ∷ old) new h k = ground arith

  merged-Inserted :
      (gen pw lo hi : ℕ) (h : Header) (old kept new d : List (Rec V))
      → IsNode pw lo hi (leaf h old)
      → SortedFrom lo kept
      → Below hi kept
      → length old + length kept ≤ vsize
      → ((φ : Rec V → ℕ) → tally φ kept + tally φ d ≡ tally φ new)
      → DroppedIf d (λ φ. tally φ old + tally φ new)
      → Inserted pw lo hi
          (leaf h old)
          new
          (some (leaf (record h { gen = gen }) (merge old kept), d))
  unfolding contents
  merged-Inserted gen pw lo hi h old kept new d w s b l t c = (
    leaf (record h { gen = gen }) (merge old kept),
    d,
    refl,
    (
      w.0,
      w.1,
      SortedFrom-merge lo old kept w.2 s,
      Below-merge hi old kept w.3 b,
      rw length-merge l,
    ),
    λ φ. omega (arith, tally-merge φ old kept, t φ),
    c,
  )

  leaf_fits :
      (gen : ℕ) (h : Header) (old new : List (Rec V))
      → length old + length new ≤ vsize
      → 1 ≤ length new
      → insert_leaf gen h old new ≡ some (leaf (record h { gen = gen }) (merge old new), [])
  unfolding insert_leaf truncate
  leaf_fits gen h old new p k = ground (arith, merge_into_vector_lem old new)

  leaf_cut :
      (gen : ℕ) (h : Header) (old new : List (Rec V))
      → vsize < length old + length new
      → length old < vsize
      → insert_leaf gen h old new
        ≡ some (
          leaf (record h { gen = gen }) (merge old (take (vsize - length old) new)),
          drop (vsize - length old) new,
        )
  unfolding insert_leaf truncate
  leaf_cut gen h old new p q = ground (
    arith,
    merge_into_vector_lem old (take (vsize - length old) new),
    length-take (vsize - length old) new,
  )

  leaf_full :
      (gen : ℕ) (h : Header) (old new : List (Rec V))
      → vsize < length old + length new
      → vsize ≤ length old
      → insert_leaf gen h old new ≡ some (leaf h old, new)
  unfolding insert_leaf truncate
  leaf_full gen h old new p q = ground arith

  pub insert_leaf-Inserted :
      (gen pw lo hi : ℕ) (h : Header) (old new : List (Rec V))
      → IsNode pw lo hi (leaf h old)
      → SortedFrom lo new
      → Below hi new
      → 1 ≤ length new
      → (vsize < length old + length new → hi ≤ lo + 64)
      → Inserted pw lo hi (leaf h old) new (insert_leaf gen h old new)
  unfolding contents
  insert_leaf-Inserted gen pw lo hi h old new w s b k narrow =
      elim (dec_lt vsize (length old + length new)) [
        | no p ↦
            let fits : length old + length new ≤ vsize = omega arith in
            rw (leaf_fits gen h old new fits k) (
              merged-Inserted gen pw lo hi h old new new [] w s b fits (λ φ. omega arith)
                (inl refl))
        | yes p ↦ elim (dec_lt (length old) vsize) [
          | yes q ↦ rw (leaf_cut gen h old new p q) (
              merged-Inserted gen pw lo hi h old (take (vsize - length old) new) new
                (drop (vsize - length old) new) w (SortedFrom-take (vsize - length old) lo new s)
                (Below-take (vsize - length old) hi new b)
                (omega (arith, length-take (vsize - length old) new))
                (λ φ. tally-take-drop φ (vsize - length old) new) (inr (crowded p)))
          | no q ↦
              rw (leaf_full gen h old new p (omega arith))
                (leaf h old, new, refl, w, λ φ. refl, inr (crowded p))
        ]
      ]
    where
      crowded : vsize < length old + length new → Crowded (λ φ. tally φ old + tally φ new)
      crowded p = (
        lo,
        hi,
        narrow p,
        omega (
          arith,
          tally-only_in lo lo hi old (omega arith) w.2 w.3,
          tally-only_in lo lo hi new (omega arith) s b,
        ),
      )
