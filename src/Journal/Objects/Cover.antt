-- ===== src/Journal/Objects/Cover.antt =====
-- About the ranges of an object of internal/cephprovider/jprovider.go that are released, hash by hash.
use btrdb_server.Base.{
  if_both, ℕ, zero, suc, ◌+◌, ◌≤◌, ◌≡◌, refl, ◌∙◌, Bool, false, Option, none, some, List, [], ◌∷◌,
  arith, All, length, ltb, ◌||◌, ◌>>=◌,
}
use btrdb_server.Cluster.{MashRange, super_set_of, union}
use btrdb_server.Journal.Objects.{absorb, finding_changes, collapse}

-- Whether the hash h lies in one of the ranges.
abbrev pub covered : ℕ → List MashRange → Bool
covered h [] = false
covered h (r ∷ rs) = super_set_of r h || covered h rs

abbrev pub Ascends : MashRange → Type 0
Ascends r = r.start ≤ r.end

abbrev Joined : MashRange → MashRange → Option MashRange → Type 0
Joined l r none = Unit {0}
Joined l r (some u) =
    Ascends u × ((h : ℕ) → super_set_of u h ≡ (super_set_of l h || super_set_of r h))

union-Joined : (l r : MashRange) → Ascends l → Ascends r → Joined l r (union l r)
unfolding union super_set_of
union-Joined l r p q =
    if_both (Joined l r) (ltb l.end r.start || ltb r.end l.start) (λ _. tt)
      (λ e. (ground arith, λ h. ground arith))

-- One range fewer, and no hash won or lost.
abbrev Fewer : List MashRange → Option (List MashRange) → Type 0
Fewer rs none = Unit {0}
Fewer rs (some ss) =
    (length rs ≡ length ss + 1) × All Ascends ss × ((h : ℕ) → covered h ss ≡ covered h rs)

abbrev as_list : Option (MashRange × List MashRange) → Option (List MashRange)
as_list none = none
as_list (some t) = some (t.0 ∷ t.1)

Fewer-absorb_next :
    (l r : MashRange) (rs : List MashRange) (o : Option (MashRange × List MashRange))
    → Ascends r
    → Fewer (l ∷ rs) (as_list o)
    → Fewer (l ∷ r ∷ rs) (as_list (o >>= λ t. some (t.0, r ∷ t.1)))
Fewer-absorb_next l r rs none q f = tt
Fewer-absorb_next l r rs (some (u, ss)) q (e, a, c) =
    (omega arith, (a.0, (q, a.1)), λ h. ground (arith, c h))

Fewer-absorb_first :
    (l r : MashRange) (rs : List MashRange) (o : Option MashRange)
    → Ascends r
    → All Ascends rs
    → Joined l r o
    → Fewer (l ∷ rs) (as_list (absorb l rs))
    → Fewer (l ∷ r ∷ rs) (
        as_list
          (elim o [ some u ↦ some (u, rs) | none ↦ absorb l rs >>= λ t. some (t.0, r ∷ t.1) ]))
Fewer-absorb_first l r rs none q a j f = Fewer-absorb_next l r rs (absorb l rs) q f
Fewer-absorb_first l r rs (some u) q a (asc, c) f =
    (omega arith, (asc, a), λ h. ground (arith, c h))

absorb-Fewer :
    (l : MashRange) (rs : List MashRange)
    → Ascends l
    → All Ascends rs
    → Fewer (l ∷ rs) (as_list (absorb l rs))
unfolding absorb
absorb-Fewer l [] p a = tt
absorb-Fewer l (r ∷ rs) p a =
    Fewer-absorb_first l r rs (union l r) a.0 a.1 (union-Joined l r p a.0) (absorb-Fewer l rs p a.1)

Fewer-next :
    (l : MashRange) (rs : List MashRange) (o : Option (List MashRange))
    → Ascends l
    → Fewer rs o
    → Fewer (l ∷ rs) (o >>= λ rest. some (l ∷ rest))
Fewer-next l rs none p f = tt
Fewer-next l rs (some ss) p (e, a, c) = (omega arith, (p, a), λ h. ground (arith, c h))

Fewer-first :
    (l : MashRange) (rs : List MashRange) (o : Option (MashRange × List MashRange))
    → Ascends l
    → Fewer (l ∷ rs) (as_list o)
    → Fewer rs (finding_changes rs)
    → Fewer (l ∷ rs) (elim o [
      | some t ↦ some (t.0 ∷ t.1)
      | none ↦ finding_changes rs >>= λ rest. some (l ∷ rest)
    ])
Fewer-first l rs none p f g = Fewer-next l rs (finding_changes rs) p g
Fewer-first l rs (some t) p f g = f

finding_changes-Fewer : (rs : List MashRange) → All Ascends rs → Fewer rs (finding_changes rs)
unfolding finding_changes
finding_changes-Fewer [] a = tt
finding_changes-Fewer (l ∷ rs) a =
    Fewer-first l rs (absorb l rs) a.0 (absorb-Fewer l rs a.0 a.1) (finding_changes-Fewer rs a.1)

-- What the loop promises: nothing is left to join, and no hash is won or lost.
abbrev Collapsed : List MashRange → List MashRange → Type 0
Collapsed rs ss =
    (finding_changes ss ≡ none)
    × All Ascends ss
    × (length ss ≤ length rs)
    × ((h : ℕ) → covered h ss ≡ covered h rs)

collapse_step :
    (fuel : ℕ) (rs : List MashRange) (o : Option (List MashRange))
    → ((ss : List MashRange) → length ss ≤ fuel → All Ascends ss → Collapsed ss (collapse fuel ss))
    → length rs ≤ suc fuel
    → All Ascends rs
    → finding_changes rs ≡ o
    → Fewer rs o
    → Collapsed rs (elim o [ none ↦ rs | some rs' ↦ collapse fuel rs' ])
collapse_step fuel rs none ih h a e f = (e, a, omega arith, λ k. refl)
collapse_step fuel rs (some ss) ih h a e (l, a', c) =
    let (d, asc, le, same) = ih ss (omega arith) a' in (d, asc, omega arith, λ k. same k ∙ c k)

collapse-none : (rs : List MashRange) → length rs ≤ 0 → finding_changes rs ≡ none
unfolding finding_changes
collapse-none [] h = refl
collapse-none (r ∷ rs) h = absurd (omega arith)

-- As much fuel as there are ranges is enough for the loop to end by itself.
pub collapse-Collapsed :
    (fuel : ℕ) (rs : List MashRange)
    → length rs ≤ fuel
    → All Ascends rs
    → Collapsed rs (collapse fuel rs)
unfolding collapse
collapse-Collapsed zero rs h a = (collapse-none rs h, a, omega arith, λ k. refl)
collapse-Collapsed (suc fuel) rs h a =
    collapse_step fuel rs (finding_changes rs) (collapse-Collapsed fuel) h a refl
      (finding_changes-Fewer rs a)
