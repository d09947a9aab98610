-- ===== src/Merger/Ranges/Correct.antt =====
-- About mergeChangedRanges of merger.go and the times its output covers.
use btrdb_server.Base.{
  ℕ, zero, suc, ◌+◌, ◌*◌, ◌≤◌, ◌<◌, ◌≡◌, refl, ap, ◌∙◌, Bool, true, false, ◌||◌, ◌&&◌, Option, none,
  some, List, [], ◌∷◌, ltb, leb, ◌>>=◌, arith, length, if_both,
}
use btrdb_server.Merger.Ranges.{ChangedRange, intersects, intersect, merge_changed_ranges}

-- A time that a range holds, its end excluded.
abbrev pub in_changed : ℕ → ChangedRange → Bool
in_changed t c = leb c.start t && ltb t c.end

abbrev pub covered : ℕ → List ChangedRange → Bool
covered t [] = false
covered t (c ∷ cs) = in_changed t c || covered t cs

abbrev pub cur_list : Option ChangedRange → List ChangedRange
cur_list none = []
cur_list (some c) = c ∷ []

-- Rounds that are left: two for each range, and one for cur.
abbrev pub rounds : Option ChangedRange → List ChangedRange → List ChangedRange → ℕ
rounds cur parent pqbuffer = length (cur_list cur) + 2 * (length parent + length pqbuffer)

in_changed-intersect :
    (t : ℕ) (l r : ChangedRange)
    → l.start ≤ l.end
    → r.start ≤ r.end
    → intersects l r ≡ true
    → in_changed t (intersect l r) ≡ (in_changed t l || in_changed t r)
unfolding intersect intersects
in_changed-intersect t l r p q e = ground arith

-- Ranges with ascending starts, from lo on.
abbrev pub Ascending : ℕ → List ChangedRange → Type 0
Ascending lo [] = Unit
Ascending lo (c ∷ cs) = (lo ≤ c.start) × (c.start ≤ c.end) × Ascending c.start cs

-- Ranges with a gap between each and the next.
abbrev pub Apart : ℕ → List ChangedRange → Type 0
Apart lo [] = Unit
Apart lo (c ∷ cs) = (lo ≤ c.start) × (c.start ≤ c.end) × Apart (suc c.end) cs

abbrev IsState : ℕ → Option ChangedRange → List ChangedRange → List ChangedRange → Type 0
IsState lo none ps qs = Ascending lo ps × Ascending lo qs
IsState lo (some c) ps qs =
    (lo ≤ c.start) × (c.start ≤ c.end) × Ascending c.start ps × Ascending c.start qs

abbrev pub Merged :
    ℕ
    → Option ChangedRange
    → List ChangedRange
    → List ChangedRange
    → Option (List ChangedRange)
    → Type 0
Merged lo cur ps qs result =
    (out : List ChangedRange) × (result ≡ some out)
    × Apart lo out
    × ((t : ℕ) → covered t out ≡ (covered t (cur_list cur) || (covered t ps || covered t qs)))

Ascending-weaken :
    (lo lo' : ℕ) (cs : List ChangedRange) → lo' ≤ lo → Ascending lo cs → Ascending lo' cs
Ascending-weaken lo lo' [] h a = tt
Ascending-weaken lo lo' (c ∷ cs) h a = (omega arith, a.1, a.2)

or_left : (a b c : Bool) → ((a || false) || (b || c)) ≡ ((a || b) || c)
or_left true b c = refl
or_left false b c = refl

or_right : (a b c : Bool) → ((a || false) || (b || c)) ≡ (b || (a || c))
or_right true true c = refl
or_right true false c = refl
or_right false b c = refl

or_join_left :
    (a b c d : Bool) → (((a || b) || false) || (c || d)) ≡ ((a || false) || ((b || c) || d))
or_join_left true b c d = refl
or_join_left false true c d = refl
or_join_left false false c d = refl

or_join_right :
    (a b c d : Bool) → (((a || b) || false) || (c || d)) ≡ ((a || false) || (c || (b || d)))
or_join_right true b c d = refl
or_join_right false true true d = refl
or_join_right false true false d = refl
or_join_right false false c d = refl

or_sent : (a b : Bool) → (a || b) ≡ ((a || false) || b)
or_sent true b = refl
or_sent false b = refl

module _ (lo : ℕ) {result : Option (List ChangedRange)} where
  picked_left :
      (l : ChangedRange) (ps qs : List ChangedRange)
      → Merged lo (some l) ps qs result
      → Merged lo none (l ∷ ps) qs result
  picked_left l ps qs (out, e, a, c) =
      (out, e, a, λ t. c t ∙ or_left (in_changed t l) (covered t ps) (covered t qs))

  picked_right :
      (r : ChangedRange) (ps qs : List ChangedRange)
      → Merged lo (some r) ps qs result
      → Merged lo none ps (r ∷ qs) result
  picked_right r ps qs (out, e, a, c) =
      (out, e, a, λ t. c t ∙ or_right (in_changed t r) (covered t ps) (covered t qs))

  module _ (cur x : ChangedRange) (p : cur.start ≤ cur.end) (q : x.start ≤ x.end)
      (i : intersects cur x ≡ true) where
    joined_left :
        (ps qs : List ChangedRange)
        → Merged lo (some (intersect cur x)) ps qs result
        → Merged lo (some cur) (x ∷ ps) qs result
    joined_left ps qs (out, e, a, c) = (
      out,
      e,
      a,
      λ t.
          c t
          ∙ ap (λ b. (b || false) || (covered t ps || covered t qs))
              (in_changed-intersect t cur x p q i)
          ∙ or_join_left (in_changed t cur) (in_changed t x) (covered t ps) (covered t qs),
    )

    joined_right :
        (ps qs : List ChangedRange)
        → Merged lo (some (intersect cur x)) ps qs result
        → Merged lo (some cur) ps (x ∷ qs) result
    joined_right ps qs (out, e, a, c) = (
      out,
      e,
      a,
      λ t.
          c t
          ∙ ap (λ b. (b || false) || (covered t ps || covered t qs))
              (in_changed-intersect t cur x p q i)
          ∙ or_join_right (in_changed t cur) (in_changed t x) (covered t ps) (covered t qs),
    )

  sent :
      (cur : ChangedRange) (ps qs : List ChangedRange)
      → lo ≤ cur.start
      → cur.start ≤ cur.end
      → Merged (suc cur.end) none ps qs result
      → Merged lo (some cur) ps qs (result >>= λ rest. some (cur ∷ rest))
  sent cur ps qs p q (out, e, a, c) = rw e (
    cur ∷ out,
    refl,
    (p, q, a),
    λ t.
        ap (λ b. in_changed t cur || b) (c t)
        ∙ or_sent (in_changed t cur) (covered t ps || covered t qs),
  )

-- The state after a range has joined cur.
IsState-intersect :
    (lo : ℕ) (cur x : ChangedRange) (ps qs : List ChangedRange)
    → lo ≤ cur.start
    → cur.start ≤ cur.end
    → cur.start ≤ x.start
    → x.start ≤ x.end
    → Ascending cur.start ps
    → Ascending cur.start qs
    → IsState lo (some (intersect cur x)) ps qs
unfolding intersect
IsState-intersect lo cur x ps qs p q r s a b = (
  ground arith,
  ground arith,
  Ascending-weaken cur.start _ ps (ground arith) a,
  Ascending-weaken cur.start _ qs (ground arith) b,
)

behind :
    (cur x : ChangedRange)
    → cur.start ≤ x.start
    → x.start ≤ x.end
    → intersects cur x ≡ false
    → cur.end < x.start
unfolding intersects
behind cur x p q e = ground arith

merge-Merged :
    (fuel lo : ℕ) (cur : Option ChangedRange) (ps qs : List ChangedRange)
    → 1 ≤ rounds cur ps qs
    → rounds cur ps qs ≤ fuel
    → IsState lo cur ps qs
    → Merged lo cur ps qs (merge_changed_ranges fuel cur ps qs)
unfolding merge_changed_ranges
merge-Merged zero lo cur ps qs k f s = absurd (omega arith)
merge-Merged (suc fuel) lo none [] [] k f s = absurd (omega arith)
merge-Merged (suc fuel) lo none (l ∷ ps) [] k f (a, b) =
    picked_left lo l ps []
      (merge-Merged fuel lo (some l) ps [] (omega arith) (omega arith) (a.0, a.1, a.2, tt))
merge-Merged (suc fuel) lo none [] (r ∷ qs) k f (a, b) =
    picked_right lo r [] qs
      (merge-Merged fuel lo (some r) [] qs (omega arith) (omega arith) (b.0, b.1, tt, b.2))
merge-Merged (suc fuel) lo none (l ∷ ps) (r ∷ qs) k f (a, b) =
    if_both (Merged lo none (l ∷ ps) (r ∷ qs)) (ltb l.start r.start)
      (λ t. picked_left lo l ps (r ∷ qs) (
        merge-Merged fuel lo (some l) ps (r ∷ qs) (omega arith) (omega arith)
          (a.0, a.1, a.2, (ground arith, b.1, b.2))))
      (λ t. picked_right lo r (l ∷ ps) qs (
        merge-Merged fuel lo (some r) (l ∷ ps) qs (omega arith) (omega arith)
          (b.0, b.1, (ground arith, a.1, a.2), b.2)))
merge-Merged (suc fuel) lo (some c) [] [] k f (p, q, a, b) =
    (c ∷ [], refl, (p, q, tt), λ t. or_sent (in_changed t c) false)
merge-Merged (suc fuel) lo (some c) (l ∷ ps) [] k f (p, q, a, b) =
    if_both (Merged lo (some c) (l ∷ ps) []) (intersects c l)
      (λ t. joined_left lo c l q a.1 t ps [] (
        merge-Merged fuel lo (some (intersect c l)) ps [] (omega arith) (omega arith) (
          IsState-intersect lo c l ps [] p q a.0 a.1 (Ascending-weaken l.start c.start ps a.0 a.2)
            tt)))
      (λ t. sent lo c (l ∷ ps) [] p q (
        merge-Merged fuel (suc c.end) none (l ∷ ps) [] (omega arith) (omega arith)
          ((behind c l a.0 a.1 t, a.1, a.2), tt)))
merge-Merged (suc fuel) lo (some c) [] (r ∷ qs) k f (p, q, a, b) =
    if_both (Merged lo (some c) [] (r ∷ qs)) (intersects c r)
      (λ t. joined_right lo c r q b.1 t [] qs (
        merge-Merged fuel lo (some (intersect c r)) [] qs (omega arith) (omega arith) (
          IsState-intersect lo c r [] qs p q b.0 b.1 tt
            (Ascending-weaken r.start c.start qs b.0 b.2))))
      (λ t. sent lo c [] (r ∷ qs) p q (
        merge-Merged fuel (suc c.end) none [] (r ∷ qs) (omega arith) (omega arith)
          (tt, (behind c r b.0 b.1 t, b.1, b.2))))
merge-Merged (suc fuel) lo (some c) (l ∷ ps) (r ∷ qs) k f (p, q, a, b) =
    if_both (Merged lo (some c) (l ∷ ps) (r ∷ qs)) (intersects c l)
      (λ t. joined_left lo c l q a.1 t ps (r ∷ qs) (
        merge-Merged fuel lo (some (intersect c l)) ps (r ∷ qs) (omega arith) (omega arith) (
          IsState-intersect lo c l ps (r ∷ qs) p q a.0 a.1
            (Ascending-weaken l.start c.start ps a.0 a.2) b)))
      (λ t.
        if_both (Merged lo (some c) (l ∷ ps) (r ∷ qs)) (intersects c r)
          (λ t'. joined_right lo c r q b.1 t' (l ∷ ps) qs (
            merge-Merged fuel lo (some (intersect c r)) (l ∷ ps) qs (omega arith) (omega arith) (
              IsState-intersect lo c r (l ∷ ps) qs p q b.0 b.1 a
                (Ascending-weaken r.start c.start qs b.0 b.2))))
          (λ t'. sent lo c (l ∷ ps) (r ∷ qs) p q (
            merge-Merged fuel (suc c.end) none (l ∷ ps) (r ∷ qs) (omega arith) (omega arith)
              ((behind c l a.0 a.1 t, a.1, a.2), (behind c r b.0 b.1 t', b.1, b.2)))))

-- From two inputs that are not both empty, each with ascending starts and no range that ends before it
-- starts, the loop ends within two rounds for each range. The ranges that it sends ascend, each ends before
-- the next one starts, and a time lies in one of them exactly if it lies in a range of an input.
pub merge_changed_ranges_lem :
    (fuel : ℕ) (parent pqbuffer : List ChangedRange)
    → 1 ≤ length parent + length pqbuffer
    → 2 * (length parent + length pqbuffer) ≤ fuel
    → Ascending 0 parent
    → Ascending 0 pqbuffer
    → (out : List ChangedRange) × (merge_changed_ranges fuel none parent pqbuffer ≡ some out)
      × Apart 0 out
      × ((t : ℕ) → covered t out ≡ (covered t parent || covered t pqbuffer))
merge_changed_ranges_lem fuel parent pqbuffer k f a b =
    merge-Merged fuel 0 none parent pqbuffer (omega arith) (omega arith) (a, b)

-- From two empty inputs the loop never ends, whatever number of rounds it is given.
pub merge_changed_ranges-nil : (fuel : ℕ) → merge_changed_ranges fuel none [] [] ≡ none
unfolding merge_changed_ranges
merge_changed_ranges-nil zero = refl
merge_changed_ranges-nil (suc fuel) = merge_changed_ranges-nil fuel
