-- ===== src/Merger/Windows/Correct.antt =====
-- The merged windows, looked up by time.
use btrdb_server.Base.{
  Bool, true, false, Bool-cases, inl, inr, inl, Bool, Bool-cases, ℕ, suc, ◌+◌, ◌%◌, ◌^◌, ◌≤◌, ◌<◌,
  ◌≡◌, refl, Option, none, some, List, [], ◌∷◌, ltb, ◌==◌, if◌then◌else◌, arith, if_both,
}
use btrdb_server.Base.Word.{add64}
use btrdb_server.Qtree.Stats.{Floats}
use btrdb_server.Merger.Windows.{add64, or_parent, StatRecord, combine, merge_windows}

module _ {V : Type 0} where
  -- The times ascend strictly, from lo on.
  abbrev pub StrictFrom : ℕ → List (StatRecord V) → Type 0
  StrictFrom lo [] = Unit
  StrictFrom lo (r ∷ rs) = (lo ≤ r.time) × StrictFrom (suc r.time) rs

  -- The window that starts at t.
  unfoldable pub window_at : ℕ → List (StatRecord V) → Option (StatRecord V)
  window_at t [] = none
  window_at t (r ∷ rs) = let rest = window_at t rs in if r.time == t then some r else rest

  window_at-below :
      (t lo : ℕ) (rs : List (StatRecord V)) → t < lo → StrictFrom lo rs → window_at t rs ≡ none
  unfolding window_at
  window_at-below t lo [] p s = refl
  window_at-below t lo (r ∷ rs) p s = ground (arith, window_at-below t (suc r.time) rs)

  StrictFrom-weaken :
      (lo lo' : ℕ) (rs : List (StatRecord V)) → lo' ≤ lo → StrictFrom lo rs → StrictFrom lo' rs
  StrictFrom-weaken lo lo' [] h s = tt
  StrictFrom-weaken lo lo' (r ∷ rs) h s = (omega arith, s.1)

module _ {V : Type 0} (F : Floats V) where
  abbrev pub lesser : V → V → V
  lesser a b = if F.lt a b then a else b

  abbrev pub greater : V → V → V
  greater a b = if F.lt b a then a else b

  abbrev pub weighted_sum : StatRecord V → StatRecord V → V
  weighted_sum p q = F.add (F.mul q.mean (F.of_uint q.count)) (F.mul p.mean (F.of_uint p.count))

  -- The window at t of the points of both p, of the tree, and q, of the buffer. A window of the buffer without
  -- points has no least and no greatest value.
  abbrev pub joined : ℕ → StatRecord V → StatRecord V → StatRecord V
  joined t p q = record {
    time = t;
    count = (p.count + q.count) % 2 ^ 64;
    min = if q.count == 0 then p.min else lesser p.min q.min;
    mean = F.div (weighted_sum p q) (F.of_uint ((p.count + q.count) % 2 ^ 64));
    max = if q.count == 0 then p.max else greater p.max q.max;
  }

  -- What both sides have of a window.
  abbrev pub combined : ℕ → Option (StatRecord V) → Option (StatRecord V) → Option (StatRecord V)
  combined t none q = q
  combined t (some p) none = some p
  combined t (some p) (some q) = some (joined t p q)

  combined-none : (t : ℕ) (p : Option (StatRecord V)) → combined t p none ≡ p
  combined-none t none = refl
  combined-none t (some p) = refl

  if_same {ℓ} : {A : Type ℓ} (b : Bool) (x : A) → (if b then x else x) ≡ x
  if_same true x = refl
  if_same false x = refl

  counts_commute : (p q : StatRecord V) → add64 q.count p.count ≡ (p.count + q.count) % 2 ^ 64
  unfolding add64
  counts_commute p q = omega arith

  combine_time : (p q : StatRecord V) → (combine F q p).time ≡ q.time
  unfolding combine
  combine_time p q = refl

  combine-joined : (t : ℕ) (p q : StatRecord V) → q.time ≡ t → combine F q p ≡ joined t p q
  unfolding combine or_parent
  combine-joined t p q e = elim (Bool-cases (q.count == 0)) [
    | inl z ↦ rw (counts_commute p q, z, e, if_same, if_same) refl
    | inr z ↦ rw (counts_commute p q, z, e) refl
  ]

  StrictFrom-merge :
      (lo : ℕ) (ps qs : List (StatRecord V))
      → StrictFrom lo ps
      → StrictFrom lo qs
      → StrictFrom lo (merge_windows F ps qs)
  unfolding merge_windows combine
  StrictFrom-merge lo [] qs a b = b
  StrictFrom-merge lo (p ∷ ps) [] a b = (a.0, StrictFrom-merge (suc p.time) ps [] a.1 tt)
  StrictFrom-merge lo (p ∷ ps) (q ∷ qs) a b =
      if_both (StrictFrom lo) (ltb p.time q.time)
        (λ t. (a.0, StrictFrom-merge (suc p.time) ps (q ∷ qs) a.1 (ground arith, b.1)))
        (λ t.
          if_both (StrictFrom lo) (ltb q.time p.time)
            (λ u. (b.0, StrictFrom-merge (suc q.time) (p ∷ ps) qs (ground arith, a.1) b.1))
            (λ u. (
              b.0,
              StrictFrom-merge (suc q.time) ps qs
                  (StrictFrom-weaken (suc p.time) (suc q.time) ps (ground arith) a.1) b.1,
            )))

  window_at-merge :
      (t lo : ℕ) (ps qs : List (StatRecord V))
      → StrictFrom lo ps
      → StrictFrom lo qs
      → window_at t (merge_windows F ps qs) ≡ combined t (window_at t ps) (window_at t qs)
  unfolding merge_windows window_at
  window_at-merge t lo [] qs a b = refl
  window_at-merge t lo (p ∷ ps) [] a b =
      ground (arith, window_at-merge t (suc p.time) ps [] a.1 tt, combined-none t (window_at t ps))
  window_at-merge t lo (p ∷ ps) (q ∷ qs) a b =
      if_both (λ l. window_at t l ≡ combined t (window_at t (p ∷ ps)) (window_at t (q ∷ qs)))
        (ltb p.time q.time)
        (λ e. ground (
          arith,
          window_at-merge t (suc p.time) ps (q ∷ qs) a.1 (ground arith, b.1),
          window_at-below t (suc q.time) qs,
          combined-none t (some p),
        ))
        (λ e.
          if_both (λ l. window_at t l ≡ combined t (window_at t (p ∷ ps)) (window_at t (q ∷ qs)))
            (ltb q.time p.time)
            (λ e'. ground (
              arith,
              window_at-merge t (suc q.time) (p ∷ ps) qs (ground arith, a.1) b.1,
              window_at-below t (suc p.time) ps,
            ))
            (λ e'. ground (
              arith,
              window_at-merge t (suc q.time) ps qs
                  (StrictFrom-weaken (suc p.time) (suc q.time) ps (ground arith) a.1) b.1,
              window_at-below t (suc p.time) ps,
              window_at-below t (suc q.time) qs,
              combine_time p q,
              combine-joined t p q,
            )))

  -- Two inputs whose times ascend strictly are merged into one whose times do. The window that it has for a
  -- time is the one of the input that has it; where both do, its count is the sum of both counts (mod 2 ^ 64), its
  -- least and greatest values are those of both or, if the buffer's window has no points, the tree's, and its mean
  -- is the mean of both, weighted by the counts.
  pub merge_windows_lem :
      (t : ℕ) (parent pqbuffer : List (StatRecord V))
      → StrictFrom 0 parent
      → StrictFrom 0 pqbuffer
      → StrictFrom 0 (merge_windows F parent pqbuffer)
        × (window_at t (merge_windows F parent pqbuffer)
            ≡ combined t (window_at t parent) (window_at t pqbuffer))
  merge_windows_lem t parent pqbuffer a b =
      (StrictFrom-merge 0 parent pqbuffer a b, window_at-merge t 0 parent pqbuffer a b)
