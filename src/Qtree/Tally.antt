-- ===== src/Qtree/Tally.antt =====
-- Records counted by any measure: two lists hold the same records, as often, if every tally agrees.
use btrdb_server.Base.{
  ℕ, zero, suc, ◌+◌, ◌≡◌, refl, List, [], ◌∷◌, ◌++◌, arith, ltb, leb, ◌&&◌, if◌then◌else◌, length,
  take, drop,
}
use btrdb_server.Qtree.Node.{Rec}
use btrdb_server.Qtree.Leaf.{merge}
use btrdb_server.Qtree.Leaf.Sorted.{in_range, SortedFrom, Below, From}

module _ {V : Type 0} where
  abbrev pub tally : (Rec V → ℕ) → List (Rec V) → ℕ
  tally φ [] = 0
  tally φ (r ∷ rs) = φ r + tally φ rs

  -- The same records, as often, in any order.
  abbrev pub SameRecords : List (Rec V) → List (Rec V) → Type 0
  SameRecords xs ys = (φ : Rec V → ℕ) → tally φ xs ≡ tally φ ys

  pub tally-append :
      (φ : Rec V → ℕ) (xs ys : List (Rec V)) → tally φ (xs ++ ys) ≡ tally φ xs + tally φ ys
  tally-append φ [] ys = omega arith
  tally-append φ (x ∷ xs) ys = omega (arith, tally-append φ xs ys)

  pub tally-merge :
      (φ : Rec V → ℕ) (old new : List (Rec V)) → tally φ (merge old new) ≡ tally φ old + tally φ new
  unfolding merge
  tally-merge φ [] new = omega arith
  tally-merge φ (v ∷ old) [] = omega arith
  tally-merge φ (v ∷ old) (r ∷ new) =
      ground (arith, tally-merge φ (v ∷ old) new, tally-merge φ old (r ∷ new))

  pub tally-take-drop :
      (φ : Rec V → ℕ) (n : ℕ) (rs : List (Rec V))
      → tally φ (take n rs) + tally φ (drop n rs) ≡ tally φ rs
  tally-take-drop φ zero rs = omega arith
  tally-take-drop φ (suc n) [] = omega arith
  tally-take-drop φ (suc n) (r ∷ rs) = omega (arith, tally-take-drop φ n rs)

  -- The measure that counts only what a query for [start, end) asks for.
  abbrev pub only_in : ℕ → ℕ → (Rec V → ℕ) → Rec V → ℕ
  only_in start end φ r = if leb start r.time && ltb r.time end then φ r else 0

  pub tally-in_range :
      (φ : Rec V → ℕ) (start end : ℕ) (rs : List (Rec V))
      → tally φ (in_range start end rs) ≡ tally (only_in start end φ) rs
  unfolding in_range
  tally-in_range φ start end [] = refl
  tally-in_range φ start end (r ∷ rs) = ground (arith, tally-in_range φ start end rs)

  pub length-tally : (rs : List (Rec V)) → length rs ≡ tally (λ r. 1) rs
  length-tally [] = refl
  length-tally (r ∷ rs) = omega (arith, length-tally rs)

-- What the code relies on of sort.Sort over RecordSlice: the same records, ascending, in their window.
pub record Sorter (V : Type 0) : Type 0 where
  pub sort : List (Rec V) → List (Rec V)
  pub sort_same : (rs : List (Rec V)) → SameRecords (sort rs) rs
  pub sort_window :
      (lo hi : ℕ) (rs : List (Rec V))
      → From lo rs
      → Below hi rs
      → SortedFrom lo (sort rs) × Below hi (sort rs)
