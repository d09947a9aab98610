-- ===== src/Qtree/Node.antt =====
-- The data of qtree/qtree_utils.go: Record, QTreeNode and the entries of its core block. The child
-- behind an address is part of the node, so Child(), LoadNode and the child cache are the data.
use btrdb_server.Base.{ℕ, suc, List, [], ◌++◌}

pub record Rec (V : Type 0) : Type 0 where
  pub time : ℕ
  pub val : V

-- StartTime, PointWidth and Generation of the node's block.
pub record Header : Type 0 where
  pub start : ℕ
  pub pw : ℕ
  pub gen : ℕ

-- What SetChild keeps of a child: Count, Min, Mean and Max.
pub record Stats (V : Type 0) : Type 0 where
  pub count : ℕ
  pub min : V
  pub mean : V
  pub max : V

-- The entries of a core node, from index 0 on. A `hole` has address 0; both have a CGeneration.
mutual
  pub data Node (V : Type 0) : Type 0 where
    leaf : Header → List (Rec V) → Node V
    core : Header → Slots V → Node V

  pub data Slots (V : Type 0) : Type 0 where
    nil : Slots V
    hole : ℕ → Slots V → Slots V
    child : Stats V → ℕ → Node V → Slots V → Slots V

abbrev pub header : {V : Type 0} → Node V → Header
header (leaf h rs) = h
header (core h sl) = h

abbrev pub slot_count : {V : Type 0} → Slots V → ℕ
slot_count nil = 0
slot_count (hole g sl) = suc (slot_count sl)
slot_count (child st g n sl) = suc (slot_count sl)

-- What a node holds, in the order of the tree.
unfoldable mutual
  pub contents : {V : Type 0} → Node V → List (Rec V)
  contents (leaf h rs) = rs
  contents (core h sl) = slot_contents sl

  pub slot_contents : {V : Type 0} → Slots V → List (Rec V)
  slot_contents nil = []
  slot_contents (hole g sl) = slot_contents sl
  slot_contents (child st g n sl) = contents n ++ slot_contents sl
