-- ===== src/Qtree/Delete/Entries.antt =====
-- A deletion from a leaf and from the entries of a core node, one by one.
use native.Mathlib.Decide.{dec_lt}
use btrdb_server.Base.{
  ℕ, suc, ◌+◌, ◌*◌, ◌≤◌, ◌<◌, ◌≡◌, refl, ap, sym, Bool, true, false, ◌&&◌, ◌||◌, Option, none, some,
  List, [], ◌∷◌, ◌++◌, ltb, leb, if◌then◌else◌, arith, length, if_both,
}
use btrdb_server.Bstore.Consts.{kfactor}
use btrdb_server.Qtree.Node.{
  Rec, Header, Node, Slots, leaf, core, nil, hole, child, contents, slot_contents, slot_count,
}
use btrdb_server.Qtree.Node
use btrdb_server.Qtree.Window.{clamp_bucket, width, bucket_le, bucket_lt, child_pw}
use btrdb_server.Qtree.Leaf.{keep_outside}
use btrdb_server.Qtree.Leaf.Sorted.{SortedFrom, Below}
use btrdb_server.Qtree.Shape.{IsNode, AreSlots}
use btrdb_server.Qtree.Stats.{Floats, stats_of}
use btrdb_server.Qtree.Insert.{last_time}
use btrdb_server.Qtree.Delete.{visited, set_child, is_kept, other_nodes, delete, delete_slots}
use btrdb_server.Qtree.Delete.Kept.{
  keep_outside-before, keep_outside-behind, keep_outside-none, SortedFrom-keep_outside,
  Below-keep_outside, length-keep_outside, Below-last_time, some_kept,
}

-- No leaf is empty, as deletions remove a leaf that would be.
abbrev mutual
  pub IsFilled : {V : Type 0} → Node V → Type 0
  IsFilled (leaf h rs) = 1 ≤ length rs
  IsFilled (core h sl) = AreFilled sl

  pub AreFilled : {V : Type 0} → Slots V → Type 0
  AreFilled nil = Unit
  AreFilled (hole g sl) = AreFilled sl
  AreFilled (child st g n sl) = IsFilled n × AreFilled sl

-- The node that is left of records rs, if any.
abbrev pub Keeps : {V : Type 0} → ℕ → ℕ → ℕ → List (Rec V) → Option (Node V) → Type 0
Keeps pw lo hi rs none = rs ≡ []
Keeps pw lo hi rs (some n) = IsNode pw lo hi n × IsFilled n × (contents n ≡ rs)

abbrev pub Deleted : {V : Type 0} → ℕ → ℕ → ℕ → List (Rec V) → Option (Option (Node V)) → Type 0
Deleted {V} pw lo hi rs result =
    (left : Option (Node V)) × (result ≡ some left) × Keeps pw lo hi rs left

-- The new entries from index i on of a core node with header h.
abbrev pub DeletedSlots :
    {V : Type 0} → ℕ → ℕ → Slots V → List (Rec V) → Bool → Option (Slots V × Bool) → Type 0
DeletedSlots {V} pw lo sl rs others result =
    (sl' : Slots V) × (kept : Bool) × (result ≡ some (sl', kept))
    × AreSlots pw lo sl'
    × AreFilled sl'
    × (slot_count sl' ≡ slot_count sl)
    × (slot_contents sl' ≡ rs)
    × (kept || others ≡ false → rs ≡ [])

pub keep_outside-nil : {V : Type 0} (start end : ℕ) → keep_outside {V = V} start end [] ≡ []
unfolding keep_outside
keep_outside-nil start end = refl

pub slot_start :
    (h : Header) (i : ℕ) → h.start + i * width h.pw + width h.pw ≡ h.start + suc i * width h.pw
slot_start h i = omega arith

module _ {V : Type 0} (F : Floats V) (gen start end : ℕ) where
  pub leaf-Deleted :
      (h : Header) (rs : List (Rec V)) (pw lo hi : ℕ)
      → IsNode pw lo hi (leaf h rs)
      → 1 ≤ length rs
      → Deleted pw lo hi (keep_outside start end rs) (delete F gen start end (leaf h rs))
  unfolding delete contents
  leaf-Deleted h [] pw lo hi w k = absurd (omega arith)
  leaf-Deleted h (r ∷ rs) pw lo hi w k =
      if_both (Deleted pw lo hi (keep_outside start end (r ∷ rs)))
        (leb start r.time && ltb (last_time r.time rs) end)
        (λ e. (
          none,
          refl,
          all_gone (ground arith) (Below-last_time start end r.time rs w.2.1 (ground arith)),
        ))
        (λ e. (
          some (leaf (record h { gen = gen }) (keep_outside start end (r ∷ rs))),
          refl,
          (
            (
              w.0,
              w.1,
              SortedFrom-keep_outside start end lo (r ∷ rs) w.2,
              Below-keep_outside start end hi (r ∷ rs) w.3,
              omega (arith, length-keep_outside start end (r ∷ rs)),
            ),
            some_kept start end r rs e,
            refl,
          ),
        ))
    where
      all_gone :
          start ≤ r.time → (r.time < end) × Below end rs → keep_outside start end (r ∷ rs) ≡ []
      all_gone p b =
          keep_outside-none start end r.time end (r ∷ rs) p (omega arith) (omega arith, w.2.1) b

  -- A child in a bucket that is not visited keeps all its records.
  module _ (h : Header) (i : ℕ) (n : Node V) (l : i < kfactor)
      (low : SortedFrom (h.start + i * width h.pw) (contents n))
      (high : Below (h.start + i * width h.pw + width h.pw) (contents n)) where
    pub untouched :
        visited (clamp_bucket h start) (clamp_bucket h end) i ≡ false
        → keep_outside start end (contents n) ≡ contents n
    untouched e = elim (dec_lt i (clamp_bucket h start)) [
      | yes p ↦
          keep_outside-before start end _ _
            (omega (arith, bucket_le h start (suc i) (omega arith) p)) high
      | no p ↦ keep_outside-behind start end _ _ (below (bucket_lt h end i l (behind p))) low
    ]
      where
        behind : ¬ (i < clamp_bucket h start) → clamp_bucket h end < i
        behind p = unfold visited in ground arith

        below : {a b : ℕ} → a < b → a ≤ b
        below p = omega arith

  -- The entries from index i on, with the buckets sb to eb visited.
  module _ (pw lo sb eb i : ℕ) where
    pub nil-Deleted :
        DeletedSlots pw lo nil
          (keep_outside start end (slot_contents nil))
          (other_nodes {V = V} sb eb i nil)
          (delete_slots F gen start end sb eb i nil)
    unfolding delete contents
    nil-Deleted = (
      nil,
      false,
      refl,
      tt,
      tt,
      refl,
      sym (keep_outside-nil start end),
      λ q. keep_outside-nil start end,
    )

    pub hole-Deleted :
        (g : ℕ) (sl : Slots V) (rs : List (Rec V))
        → DeletedSlots pw
            (lo + width pw)
            sl
            rs
            (other_nodes sb eb (suc i) sl)
            (delete_slots F gen start end sb eb (suc i) sl)
        → DeletedSlots pw lo
            (hole g sl)
            rs
            (other_nodes sb eb i (hole g sl))
            (delete_slots F gen start end sb eb i (hole g sl))
    unfolding delete contents other_nodes
    hole-Deleted g sl rs (sl', kept, e, w, f, c, t, o) =
        rw e (hole (if visited sb eb i then gen else g) sl', kept, refl, w, f, ap suc c, t, o)

    pub skipped-Deleted :
        (st : Node.Stats V) (g : ℕ) (n : Node V) (sl : Slots V) (rs : List (Rec V))
        → visited sb eb i ≡ false
        → IsNode (child_pw pw) lo (lo + width pw) n
        → IsFilled n
        → DeletedSlots pw
            (lo + width pw)
            sl
            rs
            (other_nodes sb eb (suc i) sl)
            (delete_slots F gen start end sb eb (suc i) sl)
        → DeletedSlots pw lo
            (child st g n sl)
            (contents n ++ rs)
            (other_nodes sb eb i (child st g n sl))
            (delete_slots F gen start end sb eb i (child st g n sl))
    unfolding delete contents other_nodes
    skipped-Deleted st g n sl rs v wn fn (sl', kept, e, w, f, c, t, o) =
        rw (v, e)
          (
            child st g n sl',
            kept,
            refl,
            (wn, w),
            (fn, f),
            ap suc c,
            ap (λ ys. contents n ++ ys) t,
            λ q. ground arith,
          )

    pub visited-Deleted :
        (st : Node.Stats V) (g : ℕ) (n : Node V) (sl : Slots V) (ns rs : List (Rec V))
        → visited sb eb i ≡ true
        → Deleted (child_pw pw) lo (lo + width pw) ns (delete F gen start end n)
        → DeletedSlots pw
            (lo + width pw)
            sl
            rs
            (other_nodes sb eb (suc i) sl)
            (delete_slots F gen start end sb eb (suc i) sl)
        → DeletedSlots pw lo
            (child st g n sl)
            (ns ++ rs)
            (other_nodes sb eb i (child st g n sl))
            (delete_slots F gen start end sb eb i (child st g n sl))
    unfolding delete contents other_nodes set_child is_kept
    visited-Deleted st g n sl ns rs v (none, d, k) (sl', kept, e, w, f, c, t, o) =
        rw (v, d, e, k) (hole gen sl', kept, refl, w, f, ap suc c, t, o)
    visited-Deleted st g n sl ns rs v (some n', d, (wn, fn, k)) (sl', kept, e, w, f, c, t, o) =
        rw (v, d, e)
          (
            child (stats_of F n') gen n' sl',
            true,
            refl,
            (wn, w),
            (fn, f),
            ap suc c,
            rw (k, t) refl,
            λ q. ground arith,
          )
