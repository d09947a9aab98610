-- ===== src/Qtree/Delete/Correct.antt =====
-- About DeleteRange of qtree/qtree.go and the records it removes.
use mathlib.Core.Path.{subst₂}
use btrdb_server.Base.{
  ℕ, suc, ◌+◌, ◌*◌, ◌≤◌, ◌<◌, ◌≡◌, refl, ap, ◌∙◌, sym, ◌&&◌, ◌||◌, none, some, [], ◌++◌, leb, arith,
  Bool-cases, inl, inr, if_both,
}
use btrdb_server.Bstore.Consts.{kfactor}
use btrdb_server.Qtree.Node.{
  Rec, Header, Node, Slots, leaf, core, nil, hole, child, contents, slot_contents, slot_count,
}
use btrdb_server.Qtree.Node
use btrdb_server.Qtree.Window.{clamp_bucket, end_time, width, child_pw}
use btrdb_server.Qtree.Leaf.{keep_outside}
use btrdb_server.Qtree.Shape.{IsNode, AreSlots}
use btrdb_server.Qtree.Shape.Contents.{contents-SortedFrom, contents-Below}
use btrdb_server.Qtree.Stats.{Floats}
use btrdb_server.Qtree.Delete.{visited, other_nodes, delete, delete_slots}
use btrdb_server.Qtree.Delete.Kept.{keep_outside-append, keep_outside-none}
use btrdb_server.Qtree.Delete.Entries.{
  IsFilled, AreFilled, Deleted, DeletedSlots, slot_start, leaf-Deleted, untouched, nil-Deleted,
  hole-Deleted, skipped-Deleted, visited-Deleted,
}

module _ {V : Type 0} (F : Floats V) (gen start end : ℕ) where
  -- A core node, from its entries.
  core-Deleted :
      (h : Header) (sl : Slots V) (pw lo hi : ℕ)
      → IsNode pw lo hi (core h sl)
      → DeletedSlots h.pw
          (h.start + 0 * width h.pw)
          sl
          (keep_outside start end (slot_contents sl))
          (other_nodes (clamp_bucket h start) (clamp_bucket h end) 0 sl)
          (delete_slots F gen start end (clamp_bucket h start) (clamp_bucket h end) 0 sl)
      → Deleted pw lo hi
          (keep_outside start end (slot_contents sl))
          (delete F gen start end (core h sl))
  unfolding delete contents
  core-Deleted h sl pw lo hi w (sl', kept, e, ws, f, c, t, o) =
      if_both (Deleted pw lo hi (keep_outside start end (slot_contents sl)))
        (leb start h.start && leb (end_time h) end)
        (λ b. (none, refl, whole (ground arith) (ground arith)))
        (λ b. rw e (
          if_both (λ left. Deleted pw lo hi (keep_outside start end (slot_contents sl)) (some left))
            (kept || other_nodes (clamp_bucket h start) (clamp_bucket h end) 0 sl)
            (λ q. (
              some (core (record h { gen = gen }) sl'),
              refl,
              (
                (
                  w.0,
                  w.1,
                  w.2,
                  w.3,
                  c ∙ w.4,
                  subst₂ (λ p l. AreSlots p l sl') w.1 (omega arith) ws,
                ),
                f,
                t,
              ),
            ))
            (λ q. (none, refl, o q))))
    where
      whole : start ≤ h.start → end_time h ≤ end → keep_outside start end (slot_contents sl) ≡ []
      whole p q =
          keep_outside-none start end lo hi (slot_contents sl) (omega arith)
            (unfold end_time in omega (arith, ap (λ (t : ℕ). width t * kfactor) w.1))
            (contents-SortedFrom (core h sl) pw lo hi w) (contents-Below (core h sl) pw lo hi w)

  child-Deleted :
      (h : Header) (i : ℕ) (st : Node.Stats V) (g : ℕ) (n : Node V) (sl : Slots V)
      → i < kfactor
      → IsNode (child_pw h.pw) (h.start + i * width h.pw) (h.start + i * width h.pw + width h.pw) n
      → IsFilled n
      → Deleted
          (child_pw h.pw)
          (h.start + i * width h.pw)
          (h.start + i * width h.pw + width h.pw)
          (keep_outside start end (contents n))
          (delete F gen start end n)
      → DeletedSlots h.pw
          (h.start + i * width h.pw + width h.pw)
          sl
          (keep_outside start end (slot_contents sl))
          (other_nodes (clamp_bucket h start) (clamp_bucket h end) (suc i) sl)
          (delete_slots F gen start end (clamp_bucket h start) (clamp_bucket h end) (suc i) sl)
      → DeletedSlots h.pw
          (h.start + i * width h.pw)
          (child st g n sl)
          (keep_outside start end (contents n ++ slot_contents sl))
          (other_nodes (clamp_bucket h start) (clamp_bucket h end) i (child st g n sl))
          (delete_slots F gen start end
            (clamp_bucket h start)
            (clamp_bucket h end)
            i
            (child st g n sl))
  child-Deleted h i st g n sl l w f dn ds =
      elim (Bool-cases (visited (clamp_bucket h start) (clamp_bucket h end) i)) [
        | inl v ↦
            rw keep_outside-append
              (visited-Deleted F gen start end h.pw _ _ _ i st g n sl _ _ v dn ds)
        | inr v ↦
            rw
              (
                keep_outside-append,
                untouched F gen start end h i n l (contents-SortedFrom n _ _ _ w)
                    (contents-Below n _ _ _ w) v,
              )
              (skipped-Deleted F gen start end h.pw _ _ _ i st g n sl _ v w f ds)
      ]

mutual
  unfolding contents

  node-Deleted :
      {V : Type 0} (F : Floats V) (gen start end : ℕ) (n : Node V) (pw lo hi : ℕ)
      → IsNode pw lo hi n
      → IsFilled n
      → Deleted pw lo hi (keep_outside start end (contents n)) (delete F gen start end n)
  node-Deleted F gen start end (leaf h rs) pw lo hi w f =
      leaf-Deleted F gen start end h rs pw lo hi w f
  node-Deleted F gen start end (core h sl) pw lo hi w f =
      core-Deleted F gen start end h sl pw lo hi w (
        slots-Deleted F gen start end sl h 0 (omega arith)
          (subst₂ (λ p l. AreSlots p l sl) (sym w.1) (omega arith) w.5) f)

  slots-Deleted :
      {V : Type 0} (F : Floats V) (gen start end : ℕ) (sl : Slots V) (h : Header) (i : ℕ)
      → i + slot_count sl ≡ kfactor
      → AreSlots h.pw (h.start + i * width h.pw) sl
      → AreFilled sl
      → DeletedSlots h.pw
          (h.start + i * width h.pw)
          sl
          (keep_outside start end (slot_contents sl))
          (other_nodes (clamp_bucket h start) (clamp_bucket h end) i sl)
          (delete_slots F gen start end (clamp_bucket h start) (clamp_bucket h end) i sl)
  slots-Deleted F gen start end nil h i c w f =
      nil-Deleted F gen start end h.pw (h.start + i * width h.pw) (clamp_bucket h start)
        (clamp_bucket h end) i
  slots-Deleted F gen start end (hole g sl) h i c w f =
      hole-Deleted F gen start end h.pw _ _ _ i g sl _ (
        rw slot_start
          (slots-Deleted F gen start end sl h (suc i) (omega arith) (rw slot_start at w) f))
  slots-Deleted F gen start end (child st g n sl) h i c (w, ws) (f, fs) =
      child-Deleted F gen start end h i st g n sl (omega arith) w f
        (node-Deleted F gen start end n _ _ _ w f)
        (rw slot_start
          (slots-Deleted F gen start end sl h (suc i) (omega arith) (rw slot_start at ws) fs))

-- DeleteRange on a well-formed node with no empty leaf does not panic. Where a node is left, it is
-- well-formed, has no empty leaf and holds the records before start and from end on, in their order.
-- Where none is left, there are no such records.
pub delete_lem :
    {V : Type 0} (F : Floats V) (gen start end : ℕ) (n : Node V) (pw lo hi : ℕ)
    → IsNode pw lo hi n
    → IsFilled n
    → Deleted pw lo hi (keep_outside start end (contents n)) (delete F gen start end n)
delete_lem = node-Deleted
