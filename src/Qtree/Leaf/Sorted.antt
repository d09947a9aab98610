-- ===== src/Qtree/Leaf/Sorted.antt =====
-- Records in the order of their times, what a query selects of them, and that merging keeps both.
use mathlib.Core.List.{Perm, perm_middle, append-nil}
use mathlib.Core.List.Perm
use btrdb_server.Base.{
  ℕ, ◌≤◌, ◌<◌, ◌≡◌, refl, List, [], ◌∷◌, ◌++◌, ltb, leb, ◌&&◌, if◌then◌else◌, arith, Bool-cases,
  if_both, inl, inr,
}
use btrdb_server.Qtree.Node.{Rec}
use btrdb_server.Qtree.Leaf.{read_leaf, merge}

module _ {V : Type 0} where
  -- The times ascend, from lo on.
  abbrev pub SortedFrom : ℕ → List (Rec V) → Type 0
  SortedFrom lo [] = Unit
  SortedFrom lo (r ∷ rs) = (lo ≤ r.time) × SortedFrom r.time rs

  -- Every time is below hi.
  abbrev pub Below : ℕ → List (Rec V) → Type 0
  Below hi [] = Unit
  Below hi (r ∷ rs) = (r.time < hi) × Below hi rs

  -- Every time is at lo or behind it.
  abbrev pub From : ℕ → List (Rec V) → Type 0
  From lo [] = Unit
  From lo (r ∷ rs) = (lo ≤ r.time) × From lo rs

  pub From-append : (lo : ℕ) (xs ys : List (Rec V)) → From lo xs → From lo ys → From lo (xs ++ ys)
  From-append lo [] ys p q = q
  From-append lo (x ∷ xs) ys (p, ps) q = (p, From-append lo xs ys ps q)

  pub SortedFrom-From : (lo lo' : ℕ) (rs : List (Rec V)) → lo ≤ lo' → SortedFrom lo' rs → From lo rs
  SortedFrom-From lo lo' [] h s = tt
  SortedFrom-From lo lo' (r ∷ rs) h (p, s) =
      (omega arith, SortedFrom-From lo r.time rs (omega arith) s)

  -- What a query for [start, end) asks for.
  unfoldable pub in_range : ℕ → ℕ → List (Rec V) → List (Rec V)
  in_range start end [] = []
  in_range start end (r ∷ rs) =
      let rest = in_range start end rs in
      if leb start r.time && ltb r.time end then r ∷ rest else rest

  pub SortedFrom-weaken :
      (lo lo' : ℕ) (rs : List (Rec V)) → lo' ≤ lo → SortedFrom lo rs → SortedFrom lo' rs
  SortedFrom-weaken lo lo' [] h s = tt
  SortedFrom-weaken lo lo' (r ∷ rs) h s = (omega arith, s.1)

  pub Below-weaken : (hi hi' : ℕ) (rs : List (Rec V)) → hi ≤ hi' → Below hi rs → Below hi' rs
  Below-weaken hi hi' [] h b = tt
  Below-weaken hi hi' (r ∷ rs) h b = (omega arith, Below-weaken hi hi' rs h b.1)

  pub in_range-behind :
      (start end lo : ℕ) (rs : List (Rec V))
      → end ≤ lo
      → SortedFrom lo rs
      → in_range start end rs ≡ []
  unfolding in_range
  in_range-behind start end lo [] h s = refl
  in_range-behind start end lo (r ∷ rs) h s = ground (arith, in_range-behind start end r.time rs)

  pub in_range-before :
      (start end hi : ℕ) (rs : List (Rec V)) → hi ≤ start → Below hi rs → in_range start end rs ≡ []
  unfolding in_range
  in_range-before start end hi [] h b = refl
  in_range-before start end hi (r ∷ rs) h b = ground (arith, in_range-before start end hi rs)

  pub in_range-append :
      (start end : ℕ) (xs ys : List (Rec V))
      → in_range start end (xs ++ ys) ≡ in_range start end xs ++ in_range start end ys
  unfolding in_range
  in_range-append start end [] ys = refl
  in_range-append start end (r ∷ xs) ys = ground (arith, in_range-append start end xs ys)

  pub SortedFrom-in_range :
      (start end lo : ℕ) (rs : List (Rec V))
      → SortedFrom lo rs
      → SortedFrom lo (in_range start end rs)
  unfolding in_range
  SortedFrom-in_range start end lo [] s = tt
  SortedFrom-in_range start end lo (r ∷ rs) (s, t) =
      if_both (SortedFrom lo) (leb start r.time && ltb r.time end)
        (λ e. (s, SortedFrom-in_range start end r.time rs t))
        (λ e. SortedFrom-in_range start end lo rs (SortedFrom-weaken r.time lo rs s t))

  pub read_leaf-in_range :
      (start end lo : ℕ) (rs : List (Rec V))
      → SortedFrom lo rs
      → read_leaf start end rs ≡ in_range start end rs
  unfolding read_leaf in_range
  read_leaf-in_range start end lo [] s = refl
  read_leaf-in_range start end lo (r ∷ rs) s =
      ground (arith, read_leaf-in_range start end r.time rs, in_range-behind start end r.time rs)

  pub SortedFrom-merge :
      (lo : ℕ) (old new : List (Rec V))
      → SortedFrom lo old
      → SortedFrom lo new
      → SortedFrom lo (merge old new)
  unfolding merge
  SortedFrom-merge lo [] new p q = q
  SortedFrom-merge lo (v ∷ old) [] p q = p
  SortedFrom-merge lo (v ∷ old) (r ∷ new) p q =
      ground (arith, SortedFrom-merge r.time (v ∷ old) new, SortedFrom-merge v.time old (r ∷ new))

  pub Below-merge :
      (hi : ℕ) (old new : List (Rec V)) → Below hi old → Below hi new → Below hi (merge old new)
  unfolding merge
  Below-merge hi [] new p q = q
  Below-merge hi (v ∷ old) [] p q = p
  Below-merge hi (v ∷ old) (r ∷ new) p q =
      ground (arith, Below-merge hi (v ∷ old) new, Below-merge hi old (r ∷ new))

  -- Merging loses no record and makes up none.
  pub merge-perm : (old new : List (Rec V)) → Perm (merge old new) (old ++ new)
  unfolding merge
  merge-perm [] new = Perm.refl new
  merge-perm (v ∷ old) [] = rw append-nil (Perm.refl (v ∷ old))
  merge-perm (v ∷ old) (r ∷ new) = elim (Bool-cases (ltb r.time v.time)) [
    | inl t ↦ rw t (
        Perm.trans (Perm.cons r (merge-perm (v ∷ old) new)) (Perm.symm (perm_middle (v ∷ old) new)))
    | inr t ↦ rw t (Perm.cons v (merge-perm old (r ∷ new)))
  ]
