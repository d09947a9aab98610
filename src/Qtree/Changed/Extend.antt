-- ===== src/Qtree/Changed/Extend.antt =====
-- About FindChangedSince of qtree/qtree.go: when a node changed, and how a range is extended.
use btrdb_server.Base.{
  Bool-cases, inl, inr, Bool-cases, ℕ, suc, ◌+◌, ◌≤◌, ◌≡◌, refl, Bool, true, false, ◌||◌, ◌&&◌,
  Option, none, some, List, [], ◌∷◌, ◌++◌, ltb, leb, ◌==◌, if◌then◌else◌, arith,
}
use btrdb_server.Qtree.Node.{Header, Node, Slots, leaf, core, nil, hole, child}
use btrdb_server.Qtree.Window.{width, child_start_time, child_end_time, arbitrary_start_time}
use btrdb_server.Merger.Ranges.{ChangedRange}
use btrdb_server.Merger.Ranges.Correct.{in_changed, covered, cur_list}
use btrdb_server.Qtree.Changed.{Sent, extend, bucket_range, extend_by, send}

-- Whether a node changed at time t after version gen: a bucket whose generation is newer, down to the
-- resolution, to a bucket without a child, or to a leaf.
unfoldable mutual
  pub changed_at : {V : Type 0} → ℕ → ℕ → ℕ → ℕ → Node V → Bool
  changed_at gen resolution t parent_pw (leaf h rs) =
      leb h.start t && ltb t (h.start + width parent_pw)
  changed_at gen resolution t parent_pw (core h sl) = slots_changed_at gen resolution t h 0 sl

  pub slots_changed_at : {V : Type 0} → ℕ → ℕ → ℕ → Header → ℕ → Slots V → Bool
  slots_changed_at gen resolution t h k nil = false
  slots_changed_at gen resolution t h k (hole g sl) =
      (ltb gen g && in_changed t (bucket_range h k))
      || slots_changed_at gen resolution t h (suc k) sl
  slots_changed_at gen resolution t h k (child st g n sl) =
      (ltb gen g
        && (if leb h.pw resolution
            then in_changed t (bucket_range h k)
            else changed_at gen resolution t h.pw n))
      || slots_changed_at gen resolution t h (suc k) sl

pub covered-append :
    (t : ℕ) (xs ys : List ChangedRange) → covered t (xs ++ ys) ≡ (covered t xs || covered t ys)
covered-append t [] ys = refl
covered-append t (x ∷ xs) ys = ground (arith, covered-append t xs ys)

abbrev pub Ascends : Option ChangedRange → Type 0
Ascends none = Unit {0}
Ascends (some c) = c.start ≤ c.end

-- All that a result covers.
abbrev pub covers : ℕ → Sent → Bool
covers t s = covered t s.0 || covered t (cur_list s.1)

pub extend-covers :
    (t : ℕ) (cr : Option ChangedRange) (r : ChangedRange)
    → Ascends cr
    → r.start ≤ r.end
    → (covers t (extend cr r) ≡ (covered t (cur_list cr) || in_changed t r))
      × Ascends (extend cr r).1
unfolding extend
extend-covers t none r a b = (ground arith, b)
extend-covers t (some cr) r a b = elim (Bool-cases (r.start == cr.end)) [
  | inl e ↦ rw e (ground (arith, e), ground (arith, e))
  | inr e ↦ rw e (ground arith, b)
]

pub extend_by-covers :
    (t : ℕ) (cr o : Option ChangedRange)
    → Ascends cr
    → Ascends o
    → (covers t (extend_by cr o) ≡ (covered t (cur_list cr) || covered t (cur_list o)))
      × Ascends (extend_by cr o).1
unfolding extend_by
extend_by-covers t cr none a b = (ground arith, a)
extend_by-covers t cr (some r) a b = let (e, c) = extend-covers t cr r a b in (ground (arith, e), c)

-- What a call promises, if it sends no error.
abbrev pub Finds : ℕ → Bool → Option Sent → Type 0
Finds t b none = Unit {0}
Finds t b (some s) = (covers t s ≡ b) × Ascends s.1

pub send-Finds :
    (t : ℕ) (b c : Bool) (sent : List ChangedRange) (o : Option Sent)
    → b ≡ (covered t sent || c)
    → Finds t c o
    → Finds t b (send sent o)
unfolding send
send-Finds t b c sent none e f = tt
send-Finds t b c sent (some s) e f = (ground (arith, covered-append t sent s.0, e, f.0), f.1)

pub bucket-ascends : (h : Header) (k : ℕ) → (bucket_range h k).start ≤ (bucket_range h k).end
unfolding bucket_range child_start_time child_end_time arbitrary_start_time
bucket-ascends h k = grind arith

pub or_assoc : (a b c d e : Bool) → (a || b) ≡ (c || d) → (c || (d || e)) ≡ (a || (b || e))
or_assoc true b true d e h = refl
or_assoc true b false true e h = refl
or_assoc true b false false e h = cc
or_assoc false true true d e h = refl
or_assoc false true false true e h = refl
or_assoc false true false false e h = cc
or_assoc false false true d e h = cc
or_assoc false false false true e h = cc
or_assoc false false false false e h = refl
