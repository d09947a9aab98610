-- ===== src/Qtree/Insert/Crowded.antt =====
-- About InsertValues of qtree/qtree.go when a leaf cannot hold its records.
use btrdb_server.Base.{
  ℕ, zero, suc, ◌+◌, ◌≤◌, ◌<◌, ◌≡◌, refl, ◌⊎◌, inl, inr, List, [], ◌∷◌, ◌++◌, arith, length,
}
use btrdb_server.Bstore.Consts.{vsize}
use btrdb_server.Qtree.Node.{Rec, Slots, nil, hole, child, contents, slot_contents}
use btrdb_server.Qtree.Leaf.Sorted.{SortedFrom, Below}
use btrdb_server.Qtree.Tally.{tally, tally-append, only_in}
use btrdb_server.Qtree.Insert.{child_at}
use btrdb_server.Qtree.Insert.Entries.{old_contents}

module _ {V : Type 0} where
  -- More than VSIZE of the records that `count` counts lie in one window of at most 64 ns.
  abbrev pub Crowded : ((Rec V → ℕ) → ℕ) → Type 0
  Crowded count = (a : ℕ) × (b : ℕ) × (b ≤ a + 64) × (vsize < count (only_in a b (λ r. 1)))

  -- What was dropped was dropped for that reason.
  abbrev pub DroppedIf : List (Rec V) → ((Rec V → ℕ) → ℕ) → Type 0
  DroppedIf d count = (d ≡ []) ⊎ Crowded count

  pub Crowded-mono : (f g : (Rec V → ℕ) → ℕ) → ((φ : Rec V → ℕ) → f φ ≤ g φ) → Crowded f → Crowded g
  Crowded-mono f g h (a, b, l, c) = (a, b, l, omega (arith, h (only_in a b (λ r. 1))))

  pub DroppedIf-mono :
      (d : List (Rec V)) (f g : (Rec V → ℕ) → ℕ)
      → ((φ : Rec V → ℕ) → f φ ≤ g φ)
      → DroppedIf d f
      → DroppedIf d g
  DroppedIf-mono d f g h (inl e) = inl e
  DroppedIf-mono d f g h (inr c) = inr (Crowded-mono f g h c)

  pub DroppedIf-append :
      (d d' : List (Rec V)) (f : (Rec V → ℕ) → ℕ)
      → DroppedIf d f
      → DroppedIf d' f
      → DroppedIf (d ++ d') f
  DroppedIf-append d d' f (inl e) (inl e') = inl (rw (e, e') refl)
  DroppedIf-append d d' f (inl e) (inr c) = inr c
  DroppedIf-append d d' f (inr c) h = inr c

  -- In a window that holds them all, all count.
  pub tally-only_in :
      (lo lo' hi : ℕ) (rs : List (Rec V))
      → lo ≤ lo'
      → SortedFrom lo' rs
      → Below hi rs
      → tally (only_in lo hi (λ r. 1)) rs ≡ length rs
  tally-only_in lo lo' hi [] h s b = refl
  tally-only_in lo lo' hi (r ∷ rs) h s b =
      ground (arith, tally-only_in lo r.time hi rs (omega arith) s.1 b.1)

  pub old_contents-le :
      (φ : Rec V → ℕ) (i : ℕ) (sl : Slots V)
      → tally φ (old_contents i sl) ≤ tally φ (slot_contents sl)
  unfolding old_contents child_at contents
  old_contents-le φ i nil = omega arith
  old_contents-le φ zero (hole g sl) = omega arith
  old_contents-le φ zero (child st g n sl) =
      omega (arith, tally-append φ (contents n) (slot_contents sl))
  old_contents-le φ (suc i) (hole g sl) = old_contents-le φ i sl
  old_contents-le φ (suc i) (child st g n sl) =
      omega (arith, tally-append φ (contents n) (slot_contents sl), old_contents-le φ i sl)
