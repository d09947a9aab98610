-- ===== src/Qtree/Shape/Contents.antt =====
-- About the records a tree of qtree/qtree.go holds, child by child.
use btrdb_server.Base.{ℕ, ◌+◌, ◌*◌, ◌≤◌, List, [], ◌∷◌, ◌++◌, arith, ap}
use btrdb_server.Qtree.Node.{
  Rec, Node, Slots, leaf, core, nil, hole, child, slot_count, contents, slot_contents,
}
use btrdb_server.Qtree.Window.{width, child_pw}
use btrdb_server.Qtree.Leaf.Sorted.{SortedFrom, Below, SortedFrom-weaken, Below-weaken}
use btrdb_server.Qtree.Shape.{IsNode, AreSlots}

module _ {V : Type 0} where
  pub SortedFrom-append :
      (lo mid : ℕ) (xs ys : List (Rec V))
      → lo ≤ mid
      → SortedFrom lo xs
      → Below mid xs
      → SortedFrom mid ys
      → SortedFrom lo (xs ++ ys)
  SortedFrom-append lo mid [] ys h p b q = SortedFrom-weaken mid lo ys h q
  SortedFrom-append lo mid (x ∷ xs) ys h (p, ps) (b, bs) q =
      (p, SortedFrom-append x.time mid xs ys (omega arith) ps bs q)

  pub Below-append :
      (hi : ℕ) (xs ys : List (Rec V)) → Below hi xs → Below hi ys → Below hi (xs ++ ys)
  Below-append hi [] ys p q = q
  Below-append hi (x ∷ xs) ys (p, ps) q = (p, Below-append hi xs ys ps q)

mutual
  unfolding contents

  pub contents-SortedFrom :
      {V : Type 0} (n : Node V) (pw lo hi : ℕ) → IsNode pw lo hi n → SortedFrom lo (contents n)
  contents-SortedFrom (leaf h rs) pw lo hi w = w.2
  contents-SortedFrom (core h sl) pw lo hi w = slot_contents-SortedFrom sl pw lo w.5

  pub slot_contents-SortedFrom :
      {V : Type 0} (sl : Slots V) (pw lo : ℕ) → AreSlots pw lo sl → SortedFrom lo (slot_contents sl)
  slot_contents-SortedFrom nil pw lo w = tt
  slot_contents-SortedFrom (hole g sl) pw lo w =
      SortedFrom-weaken (lo + width pw) lo _ (omega arith)
        (slot_contents-SortedFrom sl pw (lo + width pw) w)
  slot_contents-SortedFrom (child st g n sl) pw lo (w, ws) =
      SortedFrom-append lo (lo + width pw) (contents n) _ (omega arith)
        (contents-SortedFrom n (child_pw pw) lo (lo + width pw) w)
        (contents-Below n (child_pw pw) lo (lo + width pw) w)
        (slot_contents-SortedFrom sl pw (lo + width pw) ws)

  pub contents-Below :
      {V : Type 0} (n : Node V) (pw lo hi : ℕ) → IsNode pw lo hi n → Below hi (contents n)
  contents-Below (leaf h rs) pw lo hi w = w.3
  contents-Below (core h sl) pw lo hi w =
      slot_contents-Below sl pw lo hi (omega (arith, ap (λ (t : ℕ). width pw * t) w.4)) w.5

  pub slot_contents-Below :
      {V : Type 0} (sl : Slots V) (pw lo hi : ℕ)
      → lo + width pw * slot_count sl ≤ hi
      → AreSlots pw lo sl
      → Below hi (slot_contents sl)
  slot_contents-Below nil pw lo hi h w = tt
  slot_contents-Below (hole g sl) pw lo hi h w =
      slot_contents-Below sl pw (lo + width pw) hi (omega arith) w
  slot_contents-Below (child st g n sl) pw lo hi h (w, ws) =
      Below-append hi (contents n) _
        (Below-weaken (lo + width pw) hi _ (omega arith)
          (contents-Below n (child_pw pw) lo (lo + width pw) w))
        (slot_contents-Below sl pw (lo + width pw) hi (omega arith) ws)
