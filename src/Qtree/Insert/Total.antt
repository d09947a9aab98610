-- ===== src/Qtree/Insert/Total.antt =====
-- About InsertValues of qtree/qtree.go: the fuel of its recursion and its outcome.
use mathlib.Core.Path.{subst, subst₂}
use btrdb_server.Base.{
  ℕ, zero, suc, ◌+◌, ◌*◌, ◌≤◌, ◌≡◌, sym, List, [], ◌∷◌, ◌++◌, arith, length, false, ltb, ◌&&◌,
  if_both, Bool,
}
use btrdb_server.Bstore.Consts.{vsize}
use btrdb_server.Qtree.Node.{Rec, Header, Node, Slots, leaf, core, contents}
use btrdb_server.Qtree.Window.{root_pw, maximum_time}
use btrdb_server.Qtree.Leaf.Sorted.{SortedFrom, Below, From, From-append, SortedFrom-From}
use btrdb_server.Qtree.Stats.{Floats}
use btrdb_server.Qtree.Tally.{tally, tally-append, length-tally, Sorter}
use btrdb_server.Qtree.Shape.{IsNode}
use btrdb_server.Qtree.Shape.Contents.{Below-append}
use btrdb_server.Qtree.Insert.{
  any_rejected, is_rejected, insert_values, insert, insert_core, new_core_node,
}
use btrdb_server.Qtree.Insert.Entries.{Aligned, Spans, new_core_node-IsNode, tally-new_core_node}
use btrdb_server.Qtree.Insert.Crowded.{DroppedIf-mono}
use btrdb_server.Qtree.Insert.Children.{rounds-le, Works, insert_core-Inserted}
use btrdb_server.Qtree.Insert.Leaves.{Inserted, insert_leaf-Inserted}

-- Two rounds for each point width from the root's down, and two for the leaf at the bottom.
abbrev pub root_fuel : ℕ
root_fuel = 2 * root_pw + 2

module _ {V : Type 0} (F : Floats V) (S : Sorter V) (gen : ℕ) where
  core-Inserted :
      (fuel : ℕ)
      → Works fuel (insert F S.sort gen fuel)
      → (h : Header) (sl : Slots V) (pw lo hi : ℕ) (rs : List (Rec V)) → 2 * h.pw ≤ fuel
      → IsNode pw lo hi (core h sl)
      → Aligned pw lo
      → SortedFrom lo rs
      → Below hi rs
      → 1 ≤ length rs
      → Inserted pw lo hi
          (core h sl)
          rs
          (insert_core F S.sort gen (insert F S.sort gen fuel) h sl rs)
  core-Inserted fuel works h sl pw lo hi rs enough w a s b k =
      subst
        (λ q.
          Inserted q lo hi (core h sl) rs
            (insert_core F S.sort gen (insert F S.sort gen fuel) h sl rs))
        w.1
        (insert_core-Inserted F S.sort gen fuel (insert F S.sort gen fuel) works h
          (subst₂ Aligned (sym w.1) (sym w.0) a) (omega arith) enough lo hi sl rs
          (subst (λ q. IsNode q lo hi (core h sl)) (sym w.1) w) s b k)

  -- A leaf that overflows becomes a core node, into which all records go, sorted.
  converted-Inserted :
      (fuel : ℕ)
      → Works fuel (insert F S.sort gen fuel)
      → (h : Header) (old : List (Rec V)) (pw lo hi : ℕ) (rs : List (Rec V)) → 2 * h.pw + 1 ≤ fuel
      → 1 ≤ h.pw
      → IsNode pw lo hi (leaf h old)
      → Aligned pw lo
      → Spans pw lo hi
      → SortedFrom lo rs
      → Below hi rs
      → 1 ≤ length rs
      → Inserted pw lo hi
          (leaf h old)
          rs
          (insert F S.sort gen fuel (new_core_node gen h.start h.pw) (S.sort (old ++ rs)))
  unfolding contents
  converted-Inserted fuel works h old pw lo hi rs enough p w a sp s b k =
      let (s', b') =
        S.sort_window lo hi (old ++ rs)
          (From-append lo old rs (SortedFrom-From lo lo old (omega arith) w.2)
            (SortedFrom-From lo lo rs (omega arith) s))
          (Below-append hi old rs w.3 b) in
      let w' : IsNode pw lo hi (new_core_node gen h.start h.pw) =
        subst₂ (λ t q. IsNode {V = V} pw lo hi (new_core_node gen t q)) (sym w.0) (sym w.1)
          (new_core_node-IsNode V gen pw lo hi a (omega arith) (sp.0 (omega arith))) in
      let (n', d, e, kept, t, l) =
        works (new_core_node gen h.start h.pw) pw lo hi (S.sort (old ++ rs))
          (unfold new_core_node in enough) w' a sp s' b'
          (omega (
            arith,
            length-tally (S.sort (old ++ rs)),
            S.sort_same (old ++ rs) (λ r. 1),
            tally-append (λ r. 1) old rs,
            length-tally rs,
          )) in
      (
        n',
        d,
        e,
        kept,
        λ φ. omega (
          arith,
          t φ,
          S.sort_same (old ++ rs) φ,
          tally-append φ old rs,
          tally-new_core_node {V = V} φ gen h.pw h.start,
        ),
        DroppedIf-mono d
            (λ φ.
              tally φ (contents (new_core_node {V = V} gen h.start h.pw))
              + tally φ (S.sort (old ++ rs)))
            (λ φ. tally φ old + tally φ rs)
            (λ φ. omega (
              arith,
              S.sort_same (old ++ rs) φ,
              tally-append φ old rs,
              tally-new_core_node {V = V} φ gen h.pw h.start,
            ))
            l,
      )

  insert-Works : (fuel : ℕ) → Works fuel (insert F S.sort gen fuel)
  unfolding insert
  insert-Works zero (leaf h old) pw lo hi rs enough w a sp s b k = absurd (omega arith)
  insert-Works zero (core h sl) pw lo hi rs enough w a sp s b k = absurd (omega arith)
  insert-Works (suc fuel) (core h sl) pw lo hi rs enough w a sp s b k =
      core-Inserted fuel (insert-Works fuel) h sl pw lo hi rs (omega arith) w a s b k
  insert-Works (suc fuel) (leaf h old) pw lo hi rs enough w a sp s b k =
      if_both (Inserted pw lo hi (leaf h old) rs) (ltb vsize (length old + length rs) && ltb 0 h.pw)
        (λ t.
          converted-Inserted fuel (insert-Works fuel) h old pw lo hi rs (omega arith) (ground arith)
            w a sp s b k)
        (λ t. insert_leaf-Inserted gen pw lo hi h old rs w s b k (λ o. sp.1 (ground arith)))

  accepted-Below :
      (is_bad : V → Bool) (rs : List (Rec V))
      → any_rejected is_bad rs ≡ false
      → Below maximum_time rs
  unfolding any_rejected is_rejected
  accepted-Below is_bad [] h = tt
  accepted-Below is_bad (r ∷ rs) h = (ground arith, accepted-Below is_bad rs (ground arith))

  any-From : (rs : List (Rec V)) → From 0 rs
  any-From [] = tt
  any-From (r ∷ rs) = (omega arith, any-From rs)

  accepted :
      (is_bad : V → Bool) (n : Node V) (rs : List (Rec V))
      → any_rejected is_bad rs ≡ false
      → 1 ≤ length rs
      → insert_values F S.sort gen is_bad root_fuel n rs
        ≡ insert F S.sort gen root_fuel n (S.sort rs)
  unfolding insert_values
  accepted is_bad n rs h k = rw h (ground arith)

  -- InsertValues of a tree whose root is well-formed returns, with the fuel 114, when it is given at least one record and
  -- none with a bad value or a time at MaximumTime or behind it, in any order: it neither panics nor runs
  -- out of fuel. The new root is well-formed, and it and the truncated records hold what the old root held and what was inserted,
  -- each record as often. Records are truncated only if more than VSIZE, old and new together, lie in a window
  -- of at most 64 ns.
  pub insert_values_lem :
      (is_bad : V → Bool) (n : Node V) (rs : List (Rec V))
      → IsNode root_pw 0 maximum_time n
      → any_rejected is_bad rs ≡ false
      → 1 ≤ length rs
      → Inserted root_pw 0 maximum_time n rs (insert_values F S.sort gen is_bad root_fuel n rs)
  insert_values_lem is_bad n rs w h k =
      let (s', b') = S.sort_window 0 maximum_time rs (any-From rs) (accepted-Below is_bad rs h) in
      let (n', d, e, w', t, l) =
        insert-Works root_fuel n root_pw 0 maximum_time (S.sort rs)
          (omega (arith, rounds-le root_pw 0 maximum_time n w)) w (0, omega arith)
          ((λ p. omega arith), (λ p. absurd (omega arith))) s' b'
          (omega (arith, length-tally (S.sort rs), length-tally rs, S.sort_same rs (λ r. 1))) in
      rw (accepted is_bad n rs h k) (
        n',
        d,
        e,
        w',
        λ φ. omega (arith, t φ, S.sort_same rs φ),
        DroppedIf-mono d (λ φ. tally φ (contents n) + tally φ (S.sort rs))
            (λ φ. tally φ (contents n) + tally φ rs) (λ φ. omega (arith, S.sort_same rs φ)) l,
      )
