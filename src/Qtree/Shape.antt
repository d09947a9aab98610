-- ===== src/Qtree/Shape.antt =====
-- The invariant of a tree: each node covers the window that its parent's entry stands for, and the
-- records of a leaf ascend, lie in its window and are at most VSIZE.
pub mod Contents
use btrdb_server.Base.{ℕ, suc, ◌+◌, ◌*◌, ◌^◌, ◌≤◌, ◌<◌, ◌≡◌, List, [], ◌∷◌, ◌++◌, arith, length}
use btrdb_server.Bstore.Consts.{kfactor, vsize}
use btrdb_server.Qtree.Node.{
  Rec, Header, Node, Slots, leaf, core, nil, hole, child, slot_count, contents, slot_contents,
}
use btrdb_server.Qtree.Window.{width, child_pw}
use btrdb_server.Qtree.Leaf.Sorted.{SortedFrom, Below, SortedFrom-weaken, Below-weaken}

-- A node of point width pw over the window [lo, hi).
abbrev mutual
  pub IsNode : {V : Type 0} → ℕ → ℕ → ℕ → Node V → Type 0
  IsNode pw lo hi (leaf h rs) =
      (h.start ≡ lo) × (h.pw ≡ pw) × SortedFrom lo rs × Below hi rs × (length rs ≤ vsize)
  IsNode pw lo hi (core h sl) =
      (h.start ≡ lo)
      × (h.pw ≡ pw)
      × (1 ≤ pw)
      × (hi ≡ lo + width pw * kfactor)
      × (slot_count sl ≡ kfactor)
      × AreSlots pw lo sl

  -- The entries of a core node, the first of which starts at lo.
  pub AreSlots : {V : Type 0} → ℕ → ℕ → Slots V → Type 0
  AreSlots pw lo nil = Unit
  AreSlots pw lo (hole g sl) = AreSlots pw (lo + width pw) sl
  AreSlots pw lo (child st g n sl) =
      IsNode (child_pw pw) lo (lo + width pw) n × AreSlots pw (lo + width pw) sl
