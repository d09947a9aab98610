-- ===== src/Cluster/Space/Handover.antt =====
-- About CompatibleIntermediateMash of internal/configprovider/clustering.go: the ranges of one round against
-- those of the rounds before and behind it, and WeHoldWriteLockFor on the way.
use mathlib.Core.Path.{subst}
use btrdb_server.Base.{
  ==_iff, Bool-cases, ℕ, ◌≤◌, ◌≡◌, ◌≢◌, refl, ◌∙◌, sym, ◌⊎◌, inl, inr, Bool, true, false, Option,
  none, some, List, [], ◌∷◌, arith, All, ◌>>=◌, ◌==◌, if◌then◌else◌,
}
use btrdb_server.Cluster.{MashRange, In, we_hold_write_lock_for}
use btrdb_server.Cluster.Mash.{Share, gap}
use btrdb_server.Cluster.Mash.Tiles.{Tiles}
use btrdb_server.Cluster.Space.{intermediate, compatible_intermediate_mash, get_our_range_at}
use btrdb_server.Cluster.Space.Free.{Off, intersect_with_free_space-Off}
use btrdb_server.Cluster.Space.Parts.{
  Part, Parts, Apart, Separate, intermediate-Parts, Part-Separate, Part-Off, Part-Separate_self,
  Part-all_clear, Part-gap,
}

some-injective : {A : Type 0} {o : Option A} {x y : A} → o ≡ some x → o ≡ some y → x ≡ y
some-injective e f = cc

Parts-some :
    (current ideal : List Share) (o : Option (List Share))
    → Parts current ideal o
    → (next : List Share) × (o ≡ some next) × Part current ideal next
Parts-some current ideal none p = absurd p
Parts-some current ideal (some next) p = (next, refl, p)

compatible-some :
    (current ideal next : List Share)
    → Tiles 0 ideal
    → intermediate current ideal ≡ some next
    → Part current ideal next
    → compatible_intermediate_mash current ideal ≡ some next
unfolding compatible_intermediate_mash gap
compatible-some current ideal next t e p =
    let (g, eg) = Part-gap current ideal next 0 0 (omega arith) t p in
    rw (e, Part-all_clear current ideal next p, eg)

compatible-Part :
    (current ideal : List Share)
    → Tiles 0 ideal
    → (next : List Share) × (compatible_intermediate_mash current ideal ≡ some next)
      × Part current ideal next
compatible-Part current ideal t =
    let (next, e, p) =
      Parts-some current ideal (intermediate current ideal)
        (intermediate-Parts 0 current ideal t) in
    (next, compatible-some current ideal next t e p, p)

-- From any current map and an ideal one that tiles the hash space CompatibleIntermediateMash returns a map and
-- none of its sanity checks calls Fault. No range of the map has a place in common with another node's range
-- in the current map, nor with another node's range in the map itself.
pub compatible_intermediate_mash-Separate :
    (current ideal : List Share)
    → Tiles 0 ideal
    → (next : List Share) × (compatible_intermediate_mash current ideal ≡ some next)
      × Separate next current
      × Separate next next
compatible_intermediate_mash-Separate current ideal t =
    let (next, e, p) = compatible-Part current ideal t in
    (
      next,
      e,
      Part-Separate current ideal next p,
      Part-Separate_self current ideal next next p (Part-Off 0 current ideal next t p),
    )

intermediate-ideal :
    (next ideal : List Share)
    → All (λ d. d.range.start ≤ d.range.end) ideal
    → All (λ d. All (Off d.hash d.range) next) ideal
    → intermediate next ideal ≡ some ideal
unfolding intermediate
intermediate-ideal next [] w o = refl
intermediate-ideal next (d ∷ ideal) w o = rw (
  intersect_with_free_space-Off next d.range d.hash w.0 o.0,
  intermediate-ideal next ideal w.1 o.1,
)

Tiles-ascend :
    (loc : ℕ) (ideal : List Share) → Tiles loc ideal → All (λ d. d.range.start ≤ d.range.end) ideal
Tiles-ascend loc [] t = tt
Tiles-ascend loc (d ∷ ideal) (e, l, t) = (omega arith, Tiles-ascend d.range.end ideal t)

-- From any current map two rounds with the same ideal map, which tiles the hash space, reach that map.
pub compatible_intermediate_mash-twice :
    (current ideal : List Share)
    → Tiles 0 ideal
    → (compatible_intermediate_mash current ideal >>= λ next.
        compatible_intermediate_mash next ideal)
      ≡ some ideal
compatible_intermediate_mash-twice current ideal t =
    let (next, e, p) = compatible-Part current ideal t in
    let e' : intermediate next ideal ≡ some ideal =
      intermediate-ideal next ideal (Tiles-ascend 0 ideal t) (Part-Off 0 current ideal next t p) in
    rw e (
      compatible-some next ideal ideal t e'
        (subst (Parts next ideal) e' (intermediate-Parts 0 next ideal t)))

Separate-one :
    (x : Share) (ys : List Share) (b h : ℕ)
    → x.hash ≢ b
    → In h x.range
    → All (λ y. (x.hash ≡ y.hash) ⊎ Apart x.range y.range) ys
    → In h (get_our_range_at ys b)
    → ⊥
unfolding get_our_range_at
Separate-one x [] b h ne hx all hy = omega arith
Separate-one x (y ∷ ys) b h ne hx (s, all) hy = elim (Bool-cases (y.hash == b)) [
  | inl e ↦ elim s [
    | inl f ↦ ne (f ∙ (==_iff y.hash b).0 e)
    | inr apart ↦
        apart h hx (subst (λ (c : Bool). In h (if c then y.range else get_our_range_at ys b)) e hy)
  ]
  | inr e ↦
      Separate-one x ys b h ne hx all
        (subst (λ (c : Bool). In h (if c then y.range else get_our_range_at ys b)) e hy)
]

-- The ranges of two nodes, each in its map.
pub Separate-at :
    (xs ys : List Share) (a b h : ℕ)
    → a ≢ b
    → Separate xs ys
    → In h (get_our_range_at xs a)
    → In h (get_our_range_at ys b)
    → ⊥
unfolding get_our_range_at
Separate-at [] ys a b h ne sep hx hy = omega arith
Separate-at (x ∷ xs) ys a b h ne (s, sep) hx hy = elim (Bool-cases (x.hash == a)) [
  | inl e ↦
      Separate-one x ys b h (λ f. ne (sym ((==_iff x.hash a).0 e) ∙ f))
        (subst (λ (c : Bool). In h (if c then x.range else get_our_range_at xs a)) e hx) s hy
  | inr e ↦
      Separate-at xs ys a b h ne sep
        (subst (λ (c : Bool). In h (if c then x.range else get_our_range_at xs a)) e hx) hy
]

-- Where a node reads its range: the current map, or the next one.
abbrev pub pick_map : Bool → List Share → List Share → List Share
pick_map late current next = if late then next else current

-- Whether the node of that hash holds the write lock for the stream of hash h, with its active range read
-- from one map and its proposed range from another.
abbrev pub holds : List Share → List Share → ℕ → ℕ → Bool
holds active proposed node h =
    we_hold_write_lock_for (get_our_range_at active node) (get_our_range_at proposed node) h

we_hold-active :
    (active proposed : MashRange) (h : ℕ)
    → we_hold_write_lock_for active proposed h ≡ true
    → In h active
unfolding we_hold_write_lock_for
we_hold-active active proposed h e = ground arith

pick-Apart :
    (la lb : Bool) (current next : List Share) (a b h : ℕ)
    → a ≢ b
    → Separate current current
    → Separate next current
    → Separate next next
    → In h (get_our_range_at (pick_map la current next) a)
    → In h (get_our_range_at (pick_map lb current next) b)
    → ⊥
pick-Apart false false current next a b h ne cc nc nn x y =
    Separate-at current current a b h ne cc x y
pick-Apart false true current next a b h ne cc nc nn x y =
    Separate-at next current b a h (λ e. ne (sym e)) nc y x
pick-Apart true false current next a b h ne cc nc nn x y = Separate-at next current a b h ne nc x y
pick-Apart true true current next a b h ne cc nc nn x y = Separate-at next next a b h ne nn x y

-- If the ranges of different nodes have no place in common in the current map, and the next map is
-- CompatibleIntermediateMash of it and an ideal map that tiles the hash space, two nodes with different hashes
-- never both hold the write lock of a stream, whichever of the two maps each of them reads its active range
-- and its proposed range from.
pub we_hold_write_lock_for-exclusive :
    (current ideal next : List Share)
    → Separate current current
    → Tiles 0 ideal
    → compatible_intermediate_mash current ideal ≡ some next
    → (a b h : ℕ) (active_a proposed_a active_b proposed_b : Bool) → a ≢ b
    → holds (pick_map active_a current next) (pick_map proposed_a current next) a h ≡ true
    → holds (pick_map active_b current next) (pick_map proposed_b current next) b h ≢ true
we_hold_write_lock_for-exclusive current ideal next cc t e a b h aa pa ab pb ne ha hb =
    let (next', e', nc, nn) = compatible_intermediate_mash-Separate current ideal t in
    let same : next' ≡ next = some-injective e' e in
    pick-Apart aa ab current next a b h ne cc
      (subst (λ (n : List Share). Separate n current) same nc)
      (subst (λ (n : List Share). Separate n n) same nn) (we_hold-active _ _ h ha)
      (we_hold-active _ _ h hb)
