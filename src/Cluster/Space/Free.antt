-- ===== src/Cluster/Space/Free.antt =====
-- About IntersectWithFreeSpace of internal/configprovider/clustering.go: one round, and the loop.
use btrdb_server.Base.{
  if_both, Option, none, ℕ, ◌≤◌, ◌<◌, ◌≡◌, refl, ◌⊎◌, inl, inr, some, List, [], ◌∷◌, arith, All,
  ==_iff, Bool-cases, ◌==◌,
}
use btrdb_server.Cluster.{MashRange}
use btrdb_server.Cluster.Mash.{Share}
use btrdb_server.Cluster.Space.{
  Round, go_on, return, fault, trimmed, trim, trim_all, intersect_with_free_space,
}

-- The entry is the excluded node's or empty, or has no place in common with rv.
abbrev pub Off : ℕ → MashRange → Share → Type 0
Off x rv s =
    (s.hash ≡ x)
    ⊎ ((s.range.start ≡ s.range.end)
        ⊎ ((rv.start ≡ rv.end) ⊎ ((s.range.end ≤ rv.start) ⊎ (rv.end ≤ s.range.start))))

abbrev Trimmed : MashRange → ℕ → Share → MashRange → Round → Type 0
Trimmed r x s rv (go_on out) =
    (rv.start ≤ out.start) × (out.start < out.end) × (out.end ≤ rv.end) × Off x out s
Trimmed r x s rv (return out) = (out.start ≡ r.start) × (out.end ≡ r.start)
Trimmed r x s rv fault = ⊥

trim-Trimmed :
    (r : MashRange) (x : ℕ) (s : Share) (rv : MashRange)
    → r.start ≤ rv.start
    → rv.start < rv.end
    → rv.end ≤ r.end
    → Trimmed r x s rv (trim r x s rv)
unfolding trim trimmed
trim-Trimmed r x s rv p q h = ground arith

-- What the loop leaves of rv.
abbrev Left : MashRange → MashRange → MashRange → Type 0
Left r rv out =
    ((out.start ≡ r.start) × (out.end ≡ r.start))
    ⊎ ((rv.start ≤ out.start) × (out.start < out.end) × (out.end ≤ rv.end))

Off-shrink :
    (x : ℕ) (rv out : MashRange) (s : Share)
    → rv.start < rv.end
    → rv.start ≤ out.start
    → out.end ≤ rv.end
    → Off x rv s
    → Off x out s
Off-shrink x rv out s q a b (inl e) = inl e
Off-shrink x rv out s q a b (inr (inl e)) = inr (inl e)
Off-shrink x rv out s q a b (inr (inr (inl e))) = absurd (omega arith)
Off-shrink x rv out s q a b (inr (inr (inr (inl h)))) = inr (inr (inr (inl (omega arith))))
Off-shrink x rv out s q a b (inr (inr (inr (inr h)))) = inr (inr (inr (inr (omega arith))))

-- An empty result collides with nothing.
Off-empty : (x : ℕ) (out : MashRange) (mm : List Share) → out.start ≡ out.end → All (Off x out) mm
Off-empty x out [] e = tt
Off-empty x out (s ∷ mm) e = (inr (inr (inl e)), Off-empty x out mm e)

abbrev Ends : MashRange → ℕ → List Share → MashRange → Option MashRange → Type 0
Ends r x mm rv none = ⊥
Ends r x mm rv (some out) = Left r rv out × All (Off x out) mm

Ends-cons :
    (r : MashRange) (x : ℕ) (s : Share) (mm : List Share) (rv mid : MashRange)
    (o : Option MashRange)
    → rv.start ≤ mid.start
    → mid.start < mid.end
    → mid.end ≤ rv.end
    → Off x mid s
    → Ends r x mm mid o
    → Ends r x (s ∷ mm) rv o
Ends-cons r x s mm rv mid none a q b off h = h
Ends-cons r x s mm rv mid (some out) a q b off (inl e, all) =
    (inl e, (inr (inr (inl (omega arith))), all))
Ends-cons r x s mm rv mid (some out) a q b off (inr (c, d, e), all) =
    (inr (omega arith), (Off-shrink x mid out s q c e off, all))

after_round :
    (r : MashRange) (x : ℕ) (s : Share) (mm : List Share) (rv : MashRange) (round : Round)
    → ((mid : MashRange)
        → r.start ≤ mid.start
        → mid.start < mid.end
        → mid.end ≤ r.end
        → Ends r x mm mid (trim_all r x mm mid))
    → r.start ≤ rv.start
    → rv.end ≤ r.end
    → Trimmed r x s rv round
    → Ends r x
        (s ∷ mm)
        rv
        (elim round [ go_on rv' ↦ trim_all r x mm rv' | return rv' ↦ some rv' | fault ↦ none ])
after_round r x s mm rv (go_on out) ih p h (a, b, c, off) =
    Ends-cons r x s mm rv out (trim_all r x mm out) a b c off (ih out (omega arith) b (omega arith))
after_round r x s mm rv (return out) ih p h e = (inl e, Off-empty x out (s ∷ mm) (omega arith))
after_round r x s mm rv fault ih p h t = absurd t

trim_all-Ends :
    (r : MashRange) (x : ℕ) (mm : List Share) (rv : MashRange)
    → r.start ≤ rv.start
    → rv.start < rv.end
    → rv.end ≤ r.end
    → Ends r x mm rv (trim_all r x mm rv)
unfolding trim_all
trim_all-Ends r x [] rv p q h = (inr (omega arith), tt)
trim_all-Ends r x (s ∷ mm) rv p q h =
    after_round r x s mm rv (trim r x s rv) (trim_all-Ends r x mm) p h (trim-Trimmed r x s rv p q h)

-- A range in r, which meets no entry but the excluded one's.
abbrev pub IsFree : MashRange → ℕ → List Share → Option MashRange → Type 0
IsFree r x mm none = ⊥
IsFree r x mm (some out) =
    (r.start ≤ out.start) × (out.start ≤ out.end) × (out.end ≤ r.end) × All (Off x out) mm

IsFree-Ends :
    (r : MashRange) (x : ℕ) (mm : List Share) (o : Option MashRange)
    → r.start ≤ r.end
    → Ends r x mm r o
    → IsFree r x mm o
IsFree-Ends r x mm none h e = e
IsFree-Ends r x mm (some out) h (inl e, all) = (omega arith, omega arith, omega arith, all)
IsFree-Ends r x mm (some out) h (inr l, all) = (omega arith, omega arith, omega arith, all)

-- IntersectWithFreeSpace never reaches its sanity check's Fault: of a range that does not end before it
-- starts it returns a part that has no place in common with a range of another node than the excluded one.
pub intersect_with_free_space-IsFree :
    (mm : List Share) (r : MashRange) (excluding : ℕ)
    → r.start ≤ r.end
    → IsFree r excluding mm (intersect_with_free_space mm r excluding)
unfolding intersect_with_free_space
intersect_with_free_space-IsFree mm r x h =
    if_both (IsFree r x mm) (r.start == r.end)
      (λ e. (omega arith, h, omega arith, Off-empty x r mm ((==_iff r.start r.end).0 e)))
      (λ e.
        IsFree-Ends r x mm (trim_all r x mm r) h
          (trim_all-Ends r x mm r (omega arith) (ground arith) (omega arith)))

trim-Off :
    (r : MashRange) (x : ℕ) (s : Share) → r.start < r.end → Off x r s → trim r x s r ≡ go_on r
unfolding trim
trim-Off r x s q off = ground arith

trim_all-Off :
    (r : MashRange) (x : ℕ) (mm : List Share)
    → r.start < r.end
    → All (Off x r) mm
    → trim_all r x mm r ≡ some r
unfolding trim_all
trim_all-Off r x [] q all = refl
trim_all-Off r x (s ∷ mm) q all =
    rw (trim-Off r x s q all.0, trim_all) (trim_all-Off r x mm q all.1)

-- If nothing meets the range, all of it is free.
pub intersect_with_free_space-Off :
    (mm : List Share) (r : MashRange) (x : ℕ)
    → r.start ≤ r.end
    → All (Off x r) mm
    → intersect_with_free_space mm r x ≡ some r
unfolding intersect_with_free_space
intersect_with_free_space-Off mm r x h all = elim (Bool-cases (r.start == r.end)) [
  | inl e ↦ rw e
  | inr e ↦ rw e (trim_all-Off r x mm (ground arith) all)
]
