-- ===== src/Cluster/Space/Parts.antt =====
-- About the ranges that CompatibleIntermediateMash of internal/configprovider/clustering.go hands out, entry by
-- entry.
use btrdb_server.Base.{
  ◌>>=◌, ℕ, ◌+◌, ◌-◌, ◌≤◌, ◌≡◌, ◌≢◌, refl, ap, ◌⊎◌, inl, inr, true, Option, none, some, List, [],
  ◌∷◌, arith, All, All-imp, All-zip, Bool-cases, ◌==◌,
}
use btrdb_server.Cluster.{MashRange, In}
use btrdb_server.Cluster.Mash.{Share, gap_from, fits_next}
use btrdb_server.Cluster.Mash.Tiles.{Tiles}
use btrdb_server.Cluster.Space.{intersect_with_free_space, intermediate, clear_of, all_clear}
use btrdb_server.Cluster.Space.Free.{Off, IsFree, intersect_with_free_space-IsFree}

-- The returned map: for each entry of the ideal one a part of its range, free in the current map.
abbrev pub Part : List Share → List Share → List Share → Type 0
Part current [] [] = Unit {0}
Part current [] (n ∷ next) = ⊥
Part current (d ∷ ideal) [] = ⊥
Part current (d ∷ ideal) (n ∷ next) =
    (n ≡ record d { range = n.range })
    × (d.range.start ≤ n.range.start)
    × (n.range.start ≤ n.range.end)
    × (n.range.end ≤ d.range.end)
    × All (Off d.hash n.range) current
    × Part current ideal next

abbrev pub Parts : List Share → List Share → Option (List Share) → Type 0
Parts current ideal none = ⊥
Parts current ideal (some next) = Part current ideal next

Parts-cons :
    (current : List Share) (d : Share) (ideal : List Share) (o : Option MashRange)
    (rest : Option (List Share))
    → IsFree d.range d.hash current o
    → Parts current ideal rest
    → Parts current (d ∷ ideal) (o >>= λ rv. rest >>= λ next. some (record d { range = rv } ∷ next))
Parts-cons current d ideal none rest f p = f
Parts-cons current d ideal (some rv) none f p = p
Parts-cons current d ideal (some rv) (some next) f p = (refl, f.0, f.1, f.2, f.3, p)

pub intermediate-Parts :
    (loc : ℕ) (current ideal : List Share)
    → Tiles loc ideal
    → Parts current ideal (intermediate current ideal)
unfolding intermediate
intermediate-Parts loc current [] t = tt
intermediate-Parts loc current (d ∷ ideal) t =
    Parts-cons current d ideal (intersect_with_free_space current d.range d.hash)
      (intermediate current ideal)
      (intersect_with_free_space-IsFree current d.range d.hash (omega arith))
      (intermediate-Parts d.range.end current ideal t.2)

-- No place in common.
abbrev pub Apart : MashRange → MashRange → Type 0
Apart a b = (h : ℕ) → In h a → In h b → ⊥

-- Ranges of different nodes have no place in common.
abbrev pub Separate : List Share → List Share → Type 0
Separate xs ys = All (λ x. All (λ y. (x.hash ≡ y.hash) ⊎ Apart x.range y.range) ys) xs

Off-Apart :
    (x : ℕ) (rv : MashRange) (n s : Share)
    → n.hash ≡ x
    → rv.start ≤ n.range.start
    → n.range.end ≤ rv.end
    → Off x rv s
    → (n.hash ≡ s.hash) ⊎ Apart n.range s.range
Off-Apart x rv n s e a b (inl f) = inl (omega arith)
Off-Apart x rv n s e a b (inr (inl f)) = inr (λ h p q. omega arith)
Off-Apart x rv n s e a b (inr (inr (inl f))) = inr (λ h p q. omega arith)
Off-Apart x rv n s e a b (inr (inr (inr (inl f)))) = inr (λ h p q. omega arith)
Off-Apart x rv n s e a b (inr (inr (inr (inr f)))) = inr (λ h p q. omega arith)

-- The new map against the current one.
pub Part-Separate :
    (current ideal next : List Share) → Part current ideal next → Separate next current
Part-Separate current [] [] p = tt
Part-Separate current [] (n ∷ next) p = absurd p
Part-Separate current (d ∷ ideal) [] p = absurd p
Part-Separate current (d ∷ ideal) (n ∷ next) (e, a, b, c, off, p) = (
  All-imp
      (λ s. Off-Apart d.hash n.range n s (ap (λ (t : Share). t.hash) e) (omega arith) (omega arith))
      current off,
  Part-Separate current ideal next p,
)

Tiles-Beyond :
    (loc : ℕ) (ideal : List Share) → Tiles loc ideal → All (λ d. loc ≤ d.range.start) ideal
Tiles-Beyond loc [] t = tt
Tiles-Beyond loc (d ∷ ideal) (e, l, t) =
    (omega arith, All-imp (λ s h. omega arith) ideal (Tiles-Beyond d.range.end ideal t))

Part-Beyond :
    (loc : ℕ) (current ideal next : List Share)
    → Tiles loc ideal
    → Part current ideal next
    → All (λ n. loc ≤ n.range.start) next
Part-Beyond loc current [] [] t p = tt
Part-Beyond loc current [] (n ∷ next) t p = absurd p
Part-Beyond loc current (d ∷ ideal) [] t p = absurd p
Part-Beyond loc current (d ∷ ideal) (n ∷ next) (e, l, t) (f, a, b, c, off, p) = (
  omega arith,
  All-imp (λ s h. omega arith) next (Part-Beyond d.range.end current ideal next t p),
)

-- The ideal ranges against the new map.
pub Part-Off :
    (loc : ℕ) (current ideal next : List Share)
    → Tiles loc ideal
    → Part current ideal next
    → All (λ d. All (Off d.hash d.range) next) ideal
Part-Off loc current [] next t p = tt
Part-Off loc current (d ∷ ideal) [] t p = absurd p
Part-Off loc current (d ∷ ideal) (n ∷ next) (e, l, t) (f, a, b, c, off, p) = (
  (
    inl (ap (λ (u : Share). u.hash) f),
    All-imp (λ s h. inr (inr (inr (inr h)))) next (Part-Beyond d.range.end current ideal next t p),
  ),
  All-zip (λ u. Off u.hash u.range n) (λ u. All (Off u.hash u.range) next) ideal
      (All-imp (λ s h. inr (inr (inr (inl (omega arith))))) ideal
        (Tiles-Beyond d.range.end ideal t))
      (Part-Off d.range.end current ideal next t p),
)

-- The new map against itself.
pub Part-Separate_self :
    (current ideal next all : List Share)
    → Part current ideal next
    → All (λ d. All (Off d.hash d.range) all) ideal
    → Separate next all
Part-Separate_self current [] [] all p o = tt
Part-Separate_self current [] (n ∷ next) all p o = absurd p
Part-Separate_self current (d ∷ ideal) [] all p o = absurd p
Part-Separate_self current (d ∷ ideal) (n ∷ next) all (e, a, b, c, off, p) (o, os) = (
  All-imp (λ s. Off-Apart d.hash d.range n s (ap (λ (t : Share). t.hash) e) a c) all o,
  Part-Separate_self current ideal next all p os,
)

Off-clear_of :
    (x : ℕ) (n : Share) (current : List Share)
    → n.hash ≡ x
    → n.range.start ≢ n.range.end
    → All (Off x n.range) current
    → clear_of n current ≡ true
unfolding clear_of
Off-clear_of x n [] e ne all = refl
Off-clear_of x n (c ∷ current) e ne (o, all) = ground (arith, Off-clear_of x n current e ne all)

pub Part-all_clear :
    (current ideal next : List Share) → Part current ideal next → all_clear next current ≡ true
unfolding all_clear
Part-all_clear current [] [] p = refl
Part-all_clear current [] (n ∷ next) p = absurd p
Part-all_clear current (d ∷ ideal) [] p = absurd p
Part-all_clear current (d ∷ ideal) (n ∷ next) (e, a, b, c, off, p) = ground (
  arith,
  Part-all_clear current ideal next p,
  Off-clear_of d.hash n current (ap (λ (t : Share). t.hash) e),
  off,
)

Part-fits_next :
    (r : MashRange) (current ideal next : List Share) (loc : ℕ)
    → r.end ≤ loc
    → Tiles loc ideal
    → Part current ideal next
    → fits_next r next ≡ true
unfolding fits_next
Part-fits_next r current [] [] loc h t p = ground arith
Part-fits_next r current [] (n ∷ next) loc h t p = absurd p
Part-fits_next r current (d ∷ ideal) [] loc h t p = absurd p
Part-fits_next r current (d ∷ ideal) (n ∷ next) loc h (e, l, t) (f, a, b, c, off, p) = ground arith

pub Part-gap :
    (current ideal next : List Share) (lastend loc : ℕ)
    → lastend ≤ loc
    → Tiles loc ideal
    → Part current ideal next
    → (g : ℕ) × (gap_from lastend next ≡ some g)
unfolding gap_from
Part-gap current [] [] lastend loc h t p = (_, refl)
Part-gap current [] (n ∷ next) lastend loc h t p = absurd p
Part-gap current (d ∷ ideal) [] lastend loc h t p = absurd p
Part-gap current (d ∷ ideal) (n ∷ next) lastend loc h (e, l, t) (f, a, b, c, off, p) =
    elim (Bool-cases (n.range.start == n.range.end)) [
      | inl z ↦ rw (z, gap_from) (Part-gap current ideal next lastend d.range.end (omega arith) t p)
      | inr z ↦
          let (g, eg) = Part-gap current ideal next n.range.end d.range.end c t p in
          (
            n.range.start - lastend + g,
            ground (arith, z, eg, Part-fits_next n.range current ideal next d.range.end c t p),
          )
    ]
