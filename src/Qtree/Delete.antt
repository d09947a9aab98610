-- ===== src/Qtree/Delete.antt =====
-- DeleteRange of qtree/qtree.go with SetChild. The outer `none` is a panic, the inner one a nil node.
pub mod Kept
pub mod Entries
pub mod Correct
use btrdb_server.Base.{
  ℕ, zero, suc, Bool, true, false, ◌&&◌, ◌||◌, Option, none, some, List, [], ◌∷◌, ltb, leb,
  if◌then◌else◌, ◌>>=◌,
}
use btrdb_server.Qtree.Node.{Rec, Header, Node, Slots, leaf, core, nil, hole, child}
use btrdb_server.Qtree.Window.{clamp_bucket, end_time}
use btrdb_server.Qtree.Leaf.{keep_outside}
use btrdb_server.Qtree.Stats.{Floats, stats_of}
use btrdb_server.Qtree.Insert.{last_time}

-- A bucket that the deletion visits: sb <= i && i <= eb.
unfoldable pub visited : ℕ → ℕ → ℕ → Bool
visited sb eb i = leb sb i && leb i eb

module _ {V : Type 0} where
  -- nonnull, for one child
  unfoldable pub is_kept : Option (Node V) → Bool
  is_kept none = false
  is_kept (some n) = true

  -- othernodes: a child in a bucket that is not visited.
  unfoldable pub other_nodes : ℕ → ℕ → ℕ → Slots V → Bool
  other_nodes sb eb i nil = false
  other_nodes sb eb i (hole g sl) = other_nodes sb eb (suc i) sl
  other_nodes sb eb i (child st g n sl) =
      let rest = other_nodes sb eb (suc i) sl in if visited sb eb i then rest else true

module _ {V : Type 0} (F : Floats V) (gen start end : ℕ) where
  -- SetChild(i, c)
  unfoldable pub set_child : Option (Node V) → Slots V → Slots V
  set_child none sl = hole gen sl
  set_child (some n) sl = child (stats_of F n) gen n sl

  unfoldable mutual
    pub delete : Node V → Option (Option (Node V))
    delete (leaf h []) = none
    delete (leaf h (r ∷ rs)) =
        if leb start r.time && ltb (last_time r.time rs) end
        then some none
        else some (some (leaf (record h { gen = gen }) (keep_outside start end (r ∷ rs))))
    delete (core h sl) = if leb start h.start && leb (end_time h) end then some none else (do
      (sl', nonnull) ← delete_slots (clamp_bucket h start) (clamp_bucket h end) 0 sl
      some (
          if nonnull || other_nodes (clamp_bucket h start) (clamp_bucket h end) 0 sl
          then some (core (record h { gen = gen }) sl')
          else none))

    -- The new entries from index i on, and nonnull.
    pub delete_slots : ℕ → ℕ → ℕ → Slots V → Option (Slots V × Bool)
    delete_slots sb eb i nil = some (nil, false)
    delete_slots sb eb i (hole g sl) = do
      (sl', nonnull) ← delete_slots sb eb (suc i) sl
      some (hole (if visited sb eb i then gen else g) sl', nonnull)
    delete_slots sb eb i (child st g n sl) =
        if visited sb eb i
        then (do
          c ← delete n
          (sl', nonnull) ← delete_slots sb eb (suc i) sl
          some (set_child c sl', is_kept c || nonnull))
        else (do (sl', nonnull) ← delete_slots sb eb (suc i) sl; some (child st g n sl', nonnull))
