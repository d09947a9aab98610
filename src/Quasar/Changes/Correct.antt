-- ===== src/Quasar/Changes/Correct.antt =====
-- About the answer of QueryChangedRanges of quasar.go and the times it covers.
use btrdb_server.Base.{
  All, ℕ, suc, ◌+◌, ◌^◌, ◌≤◌, ◌≡◌, refl, Bool, false, ◌||◌, none, some, List, [], ◌∷◌, arith, ◌==◌,
  length, Bool-cases, inl, inr,
}
use btrdb_server.Qtree.Node.{Rec}
use btrdb_server.Merger.Ranges.{ChangedRange}
use btrdb_server.Merger.Ranges.Correct.{in_changed, covered, Ascending, Apart}
use btrdb_server.Quasar.Changes.{coalesce, range_of}

-- Ranges one behind the other, from lo on.
abbrev pub Following : ℕ → List ChangedRange → Type 0
Following lo [] = Unit {0}
Following lo (c ∷ cs) = (lo ≤ c.start) × (c.start ≤ c.end) × Following c.end cs

Following-Ascending : (lo : ℕ) (cs : List ChangedRange) → Following lo cs → Ascending lo cs
Following-Ascending lo [] f = tt
Following-Ascending lo (c ∷ cs) (a, b, f) =
    (a, b, Ascending-from c.end c.start cs b (Following-Ascending c.end cs f))
  where
    Ascending-from :
        (hi lo : ℕ) (cs : List ChangedRange) → lo ≤ hi → Ascending hi cs → Ascending lo cs
    Ascending-from hi lo [] h a = tt
    Ascending-from hi lo (c ∷ cs) h a = (omega arith, a.1, a.2)

abbrev Joins : ℕ → List ChangedRange → List ChangedRange → Type 0
Joins lo all out = Apart lo out × ((t : ℕ) → covered t out ≡ covered t all) × (1 ≤ length out)

coalesce-some :
    (lo : ℕ) (lr : ChangedRange) (rch : List ChangedRange)
    → lo ≤ lr.start
    → lr.start ≤ lr.end
    → Following lr.end rch
    → Joins lo (lr ∷ rch) (coalesce (some lr) rch)
unfolding coalesce
coalesce-some lo lr [] p q f = ((p, q, tt), λ t. refl, omega arith)
coalesce-some lo lr (cr ∷ rch) p q (a, b, f) = elim (Bool-cases (cr.start == lr.end)) [
  | inl e ↦
      let (apart, same, some_left) =
        coalesce-some lo (record lr { end = cr.end }) rch p (omega arith) f in
      rw e (apart, λ t. ground (arith, same t, e), some_left)
  | inr e ↦
      let (apart, same, some_left) = coalesce-some (suc lr.end) cr rch (ground arith) b f in
      rw e ((p, q, apart), λ t. ground (arith, same t), omega arith)
]

-- If the ranges that FindChangedSince sends follow one another in time, the loop of QueryChangedRanges sends
-- ranges with a gap between any two, which cover the same times.
pub coalesce-Apart :
    (rch : List ChangedRange)
    → Following 0 rch
    → Apart 0 (coalesce none rch) × ((t : ℕ) → covered t (coalesce none rch) ≡ covered t rch)
unfolding coalesce
coalesce-Apart [] f = (tt, λ t. refl)
coalesce-Apart (cr ∷ rch) (a, b, f) =
    let (apart, same, some_left) = coalesce-some 0 cr rch a b f in (apart, same)

-- A record's time in the buffer, rounded to the resolution, gives the times that count as changed.
pub records_changed_at : {V : Type 0} → ℕ → ℕ → List (Rec V) → Bool
records_changed_at resolution t [] = false
records_changed_at resolution t (e ∷ buf) =
    in_changed t (range_of resolution e) || records_changed_at resolution t buf

-- All ranges are as wide as the resolution says.
abbrev Wide : ℕ → List ChangedRange → Type 0
Wide w cs = All (λ c. c.end ≡ c.start + w) cs

abbrev Gets : {V : Type 0} → ℕ → List (Rec V) → List ChangedRange → Type 0
Gets resolution buf out =
    Ascending 0 out
    × Wide (2 ^ resolution) out
    × ((t : ℕ) → covered t out ≡ records_changed_at resolution t buf)
