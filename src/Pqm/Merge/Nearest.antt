-- ===== src/Pqm/Merge/Nearest.antt =====
-- What MergeNearestValue chooses.
use native.Mathlib.Decide.{dec_lt}
use btrdb_server.Base.{
  ℕ, ◌⊎◌, inl, inr, ◌≤◌, ◌<◌, ◌≡◌, Bool, true, false, Option, none, some, List, [], ◌∷◌, ltb, leb,
  if◌then◌else◌, arith, if_both, All,
}
use btrdb_server.Qtree.Node.{Rec}
use btrdb_server.Pqm.Merge.{is_nearer, merge_nearest_value}

module _ {V : Type 0} where
  -- A record that answers a request: before `time`, or at it or behind it.
  abbrev pub is_candidate : Bool → ℕ → Rec V → Bool
  is_candidate true time r = ltb r.time time
  is_candidate false time r = leb time r.time

  -- If r answers the request, it is not nearer than the answer.
  abbrev IsNearest : Bool → ℕ → Option (Rec V) → Rec V → Type 0
  IsNearest backwards time none r = is_candidate backwards time r ≡ false
  IsNearest true time (some c) r = is_candidate true time r ≡ true → r.time ≤ c.time
  IsNearest false time (some c) r = is_candidate false time r ≡ true → c.time ≤ r.time

  abbrev pub IsAnswer : Bool → ℕ → Option (Rec V) → Type 0
  IsAnswer backwards time none = Unit
  IsAnswer backwards time (some c) = is_candidate backwards time c ≡ true

  -- One round of the loop.
  abbrev chosen_next : Bool → ℕ → Option (Rec V) → Rec V → Option (Rec V)
  chosen_next backwards time chosen r = if is_nearer backwards time chosen r then some r else chosen

  next-IsAnswer :
      (b : Bool) (time : ℕ) (c : Option (Rec V)) (r : Rec V)
      → IsAnswer b time c
      → IsAnswer b time (chosen_next b time c r)
  unfolding is_nearer
  next-IsAnswer true time none r h =
      if_both (IsAnswer true time) (is_nearer true time none r) (λ e. e) (λ e. h)
  next-IsAnswer false time none r h =
      if_both (IsAnswer false time) (is_nearer false time none r) (λ e. e) (λ e. h)
  next-IsAnswer true time (some c) r h =
      if_both (IsAnswer true time) (is_nearer true time (some c) r) (λ e. ground arith) (λ e. h)
  next-IsAnswer false time (some c) r h =
      if_both (IsAnswer false time) (is_nearer false time (some c) r) (λ e. ground arith) (λ e. h)

  next-IsNearest :
      (b : Bool) (time : ℕ) (c : Option (Rec V)) (r : Rec V)
      → IsAnswer b time c
      → IsNearest b time (chosen_next b time c r) r
  unfolding is_nearer
  next-IsNearest true time none r h =
      if_both (λ o. IsNearest true time o r) (is_nearer true time none r) (λ e k. omega arith)
        (λ e. e)
  next-IsNearest false time none r h =
      if_both (λ o. IsNearest false time o r) (is_nearer false time none r) (λ e k. omega arith)
        (λ e. e)
  next-IsNearest true time (some c) r h =
      if_both (λ o. IsNearest true time o r) (is_nearer true time (some c) r) (λ e k. omega arith)
        (λ e k. ground arith)
  next-IsNearest false time (some c) r h =
      if_both (λ o. IsNearest false time o r) (is_nearer false time (some c) r) (λ e k. omega arith)
        (λ e k. ground arith)

  next-keeps :
      (b : Bool) (time : ℕ) (c : Option (Rec V)) (r x : Rec V)
      → IsNearest b time c x
      → IsNearest b time (chosen_next b time c r) x
  unfolding is_nearer
  next-keeps true time none r x h =
      if_both (λ o. IsNearest true time o x) (is_nearer true time none r)
        (λ e k. absurd (ground arith)) (λ e. h)
  next-keeps false time none r x h =
      if_both (λ o. IsNearest false time o x) (is_nearer false time none r)
        (λ e k. absurd (ground arith)) (λ e. h)
  next-keeps true time (some c) r x h =
      if_both (λ o. IsNearest true time o x) (is_nearer true time (some c) r)
        (λ e k. ground (arith, h k)) (λ e. h)
  next-keeps false time (some c) r x h =
      if_both (λ o. IsNearest false time o x) (is_nearer false time (some c) r)
        (λ e k. ground (arith, h k)) (λ e. h)

  IsNearest-keeps :
      (b : Bool) (time : ℕ) (c : Option (Rec V)) (rs : List (Rec V)) (x : Rec V)
      → IsNearest b time c x
      → IsNearest b time (merge_nearest_value b time c rs) x
  unfolding merge_nearest_value
  IsNearest-keeps b time c [] x h = h
  IsNearest-keeps b time c (r ∷ rs) x h =
      IsNearest-keeps b time (chosen_next b time c r) rs x (next-keeps b time c r x h)

  IsNearest-All :
      (b : Bool) (time : ℕ) (c : Option (Rec V)) (rs : List (Rec V))
      → IsAnswer b time c
      → IsAnswer b time (merge_nearest_value b time c rs)
        × All (IsNearest b time (merge_nearest_value b time c rs)) rs
  unfolding merge_nearest_value
  IsNearest-All b time c [] h = (h, tt)
  IsNearest-All b time c (r ∷ rs) h =
      let (a, k) = IsNearest-All b time (chosen_next b time c r) rs (next-IsAnswer b time c r h) in
      (a, (IsNearest-keeps b time (chosen_next b time c r) rs r (next-IsNearest b time c r h), k))

  abbrev pub Holds : (Rec V → Type 0) → Option (Rec V) → Type 0
  Holds P none = Unit
  Holds P (some c) = P c

  nearest-Holds :
      (P : Rec V → Type 0) (b : Bool) (time : ℕ) (c : Option (Rec V)) (rs : List (Rec V))
      → Holds P c
      → All P rs
      → Holds P (merge_nearest_value b time c rs)
  unfolding merge_nearest_value
  nearest-Holds P b time c [] h k = h
  nearest-Holds P b time c (r ∷ rs) h (k, ks) =
      nearest-Holds P b time (chosen_next b time c r) rs
        (if_both (Holds P) (is_nearer b time c r) (λ e. k) (λ e. h)) ks

  -- Either x does not answer the request, or it is not nearer than the answer.
  abbrev pub IsNotNearer : Bool → ℕ → Option (Rec V) → Rec V → Type 0
  IsNotNearer backwards time none x = is_candidate backwards time x ≡ false
  IsNotNearer true time (some c) x = (time ≤ x.time) ⊎ (x.time ≤ c.time)
  IsNotNearer false time (some c) x = (x.time < time) ⊎ (c.time ≤ x.time)

  not_nearer :
      (b : Bool) (time : ℕ) (o : Option (Rec V)) (x : Rec V)
      → IsNearest b time o x
      → IsNotNearer b time o x
  not_nearer b time none x h = h
  not_nearer true time (some c) x h = elim (dec_lt x.time time) [
    | yes p ↦ inr (h (ground arith))
    | no p ↦ inl (omega arith)
  ]
  not_nearer false time (some c) x h = elim (dec_lt x.time time) [
    | yes p ↦ inl p
    | no p ↦ inr (h (ground arith))
  ]

  All-IsNotNearer :
      (b : Bool) (time : ℕ) (o : Option (Rec V)) (xs : List (Rec V))
      → All (IsNearest b time o) xs
      → All (IsNotNearer b time o) xs
  All-IsNotNearer b time o [] h = tt
  All-IsNotNearer b time o (x ∷ xs) (h, hs) =
      (not_nearer b time o x h, All-IsNotNearer b time o xs hs)

  abbrev pub option_list : Option (Rec V) → List (Rec V)
  option_list none = []
  option_list (some c) = c ∷ []

  parent-IsNearest :
      (b : Bool) (time : ℕ) (parent : Option (Rec V)) (rs : List (Rec V))
      → All (IsNearest b time (merge_nearest_value b time parent rs)) (option_list parent)
  parent-IsNearest b time none rs = tt
  parent-IsNearest true time (some p) rs =
      (IsNearest-keeps true time (some p) rs p (λ k. omega arith), tt)
  parent-IsNearest false time (some p) rs =
      (IsNearest-keeps false time (some p) rs p (λ k. omega arith), tt)

  -- If the tree's answer, where it has one, is before the requested time (backwards) or not before it, so is the
  -- answer after the loop over the buffer. It has any property that the tree's answer and all records of
  -- the buffer have, so it is one of them, and neither the tree's answer nor a record of the buffer that
  -- answers the request is nearer to the requested time. There is none only if none of them answers it.
  pub merge_nearest_value_lem :
      (b : Bool) (time : ℕ) (parent : Option (Rec V)) (buffer : List (Rec V)) (P : Rec V → Type 0)
      → IsAnswer b time parent
      → Holds P parent
      → All P buffer
      → IsAnswer b time (merge_nearest_value b time parent buffer)
        × Holds P (merge_nearest_value b time parent buffer)
        × All (IsNotNearer b time (merge_nearest_value b time parent buffer)) (option_list parent)
        × All (IsNotNearer b time (merge_nearest_value b time parent buffer)) buffer
  merge_nearest_value_lem b time parent buffer P h p ps =
      let (a, k) = IsNearest-All b time parent buffer h in
      (
        a,
        nearest-Holds P b time parent buffer p ps,
        All-IsNotNearer b time _ (option_list parent) (parent-IsNearest b time parent buffer),
        All-IsNotNearer b time _ buffer k,
      )
