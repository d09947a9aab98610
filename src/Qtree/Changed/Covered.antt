-- ===== src/Qtree/Changed/Covered.antt =====
-- About FindChangedSince of qtree/qtree.go and the times that the ranges it sends cover.
use mathlib.Core.Path.{subst}
use btrdb_server.Base.{
  ℕ, suc, ◌+◌, ◌≤◌, ◌<◌, ◌≡◌, refl, sym, ap, ◌∙◌, Bool, true, false, ◌||◌, ◌&&◌, Option, none, some,
  List, [], ◌∷◌, ◌++◌, ltb, leb, if◌then◌else◌, ◌>>=◌, arith,
}
use btrdb_server.Qtree.Node.{header, Header, Node, Slots, leaf, core, nil, hole, child}
use btrdb_server.Qtree.Window.{width}
use btrdb_server.Merger.Ranges.{ChangedRange}
use btrdb_server.Merger.Ranges.Correct.{in_changed, covered, cur_list}
use btrdb_server.Qtree.Changed.{
  Sent, maxchild, extend, bucket_range, extend_by, send, find_changed_since, scan_changed,
  tree_changed_since,
}
use btrdb_server.Qtree.Changed.Extend.{
  Ascends, Finds, bucket-ascends, changed_at, covered-append, extend-covers, extend_by-covers,
  or_assoc, send-Finds, slots_changed_at,
}
use btrdb_server.Qtree.Changed.Generations.{HasGenerations, tree-IsSome}

hole_step :
    (t : ℕ) (b rest : Bool) (cr : Option ChangedRange) (r : ChangedRange)
    (scan : Option ChangedRange → Option Sent)
    → Ascends cr
    → r.start ≤ r.end
    → ((c : Option ChangedRange) → Ascends c → Finds t (covered t (cur_list c) || rest) (scan c))
    → Finds t
        (covered t (cur_list cr) || ((b && in_changed t r) || rest))
        (if b then send (extend cr r).0 (scan (extend cr r).1) else scan cr)
hole_step t false rest cr r scan a p ih = ih cr a
hole_step t true rest cr r scan a p ih =
    let (e, c) = extend-covers t cr r a p in
    send-Finds t _ (covered t (cur_list (extend cr r).1) || rest) (extend cr r).0
      (scan (extend cr r).1)
      (or_assoc (covered t (extend cr r).0) (covered t (cur_list (extend cr r).1))
        (covered t (cur_list cr)) (in_changed t r) rest e)
      (ih (extend cr r).1 c)

inside_bools :
    (cr ch rest s0 s1 e0 e1 : Bool)
    → (s0 || s1) ≡ ch
    → (e0 || e1) ≡ (cr || s1)
    → (cr || (ch || rest)) ≡ ((s0 || e0) || (e1 || rest))
inside_bools cr ch rest s0 s1 e0 e1 h k = ground arith

inside_step :
    (t : ℕ) (ch rest : Bool) (cr : Option ChangedRange) (o : Option Sent)
    (scan : Option ChangedRange → Option Sent)
    → Ascends cr
    → Finds t ch o
    → ((c : Option ChangedRange) → Ascends c → Finds t (covered t (cur_list c) || rest) (scan c))
    → Finds t
        (covered t (cur_list cr) || (ch || rest))
        (o >>= λ s. send (s.0 ++ (extend_by cr s.1).0) (scan (extend_by cr s.1).1))
inside_step t ch rest cr none scan a f ih = tt
inside_step t ch rest cr (some s) scan a f ih =
    let (e, c) = extend_by-covers t cr s.1 a f.1 in
    send-Finds t _ (covered t (cur_list (extend_by cr s.1).1) || rest) (s.0 ++ (extend_by cr s.1).0)
      (scan (extend_by cr s.1).1)
      (inside_bools (covered t (cur_list cr)) ch rest (covered t s.0) (covered t (cur_list s.1))
          (covered t (extend_by cr s.1).0) (covered t (cur_list (extend_by cr s.1).1)) f.0 e
        ∙ ap (λ (b : Bool). b || (covered t (cur_list (extend_by cr s.1).1) || rest))
            (sym (covered-append t s.0 (extend_by cr s.1).0)))
      (ih (extend_by cr s.1).1 c)

child_step :
    (t : ℕ) (b whole ch rest : Bool) (cr : Option ChangedRange) (r : ChangedRange) (o : Option Sent)
    (scan : Option ChangedRange → Option Sent)
    → Ascends cr
    → r.start ≤ r.end
    → Finds t ch o
    → ((c : Option ChangedRange) → Ascends c → Finds t (covered t (cur_list c) || rest) (scan c))
    → Finds t (covered t (cur_list cr) || ((b && (if whole then in_changed t r else ch)) || rest)) (
        if b
        then if whole
          then send (extend cr r).0 (scan (extend cr r).1)
          else (o >>= λ s. send (s.0 ++ (extend_by cr s.1).0) (scan (extend_by cr s.1).1))
        else scan cr)
child_step t false whole ch rest cr r o scan a p f ih = ih cr a
child_step t true true ch rest cr r o scan a p f ih = hole_step t true rest cr r scan a p ih
child_step t true false ch rest cr r o scan a p f ih = inside_step t ch rest cr o scan a f ih

guarded :
    (t : ℕ) (b a c : Bool) (o : Option Sent)
    → Finds t b o
    → Finds t b (if a then none else if c then none else o)
guarded t b true c o f = tt
guarded t b false true o f = tt
guarded t b false false o f = f

mutual
  unfolding find_changed_since scan_changed changed_at slots_changed_at

  find-Finds :
      {V : Type 0} (gen resolution t parent_pw : ℕ) (n : Node V)
      → Finds t
          (changed_at gen resolution t parent_pw n)
          (find_changed_since gen resolution parent_pw n)
  find-Finds gen resolution t parent_pw (leaf h rs) =
      guarded t _ (leb h.gen gen) false
        (some ([], some (record { start = h.start; end = h.start + width parent_pw })))
        (ground arith, omega arith)
  find-Finds gen resolution t parent_pw (core h sl) =
      guarded t _ (ltb h.gen gen) (ltb h.gen (maxchild 0 sl)) _
        (scan-Finds gen resolution t h 0 none sl tt)

  scan-Finds :
      {V : Type 0} (gen resolution t : ℕ) (h : Header) (k : ℕ) (cr : Option ChangedRange)
      (sl : Slots V)
      → Ascends cr
      → Finds t
          (covered t (cur_list cr) || slots_changed_at gen resolution t h k sl)
          (scan_changed gen resolution h k cr sl)
  scan-Finds gen resolution t h k cr nil a = (ground arith, a)
  scan-Finds gen resolution t h k cr (hole g sl) a =
      hole_step t (ltb gen g) (slots_changed_at gen resolution t h (suc k) sl) cr (bucket_range h k)
        (λ c. scan_changed gen resolution h (suc k) c sl) a (bucket-ascends h k)
        (λ c b. scan-Finds gen resolution t h (suc k) c sl b)
  scan-Finds gen resolution t h k cr (child st g n sl) a =
      child_step t (ltb gen g) (leb h.pw resolution) (changed_at gen resolution t h.pw n)
        (slots_changed_at gen resolution t h (suc k) sl) cr (bucket_range h k)
        (find_changed_since gen resolution h.pw n) (λ c. scan_changed gen resolution h (suc k) c sl)
        a (bucket-ascends h k) (find-Finds gen resolution t h.pw n)
        (λ c b. scan-Finds gen resolution t h (suc k) c sl b)

some-injective : {x y : List ChangedRange} → some x ≡ some y → x ≡ y
some-injective e = cc

or_false : (b : Bool) → b ≡ (b || false)
or_false true = refl
or_false false = refl

tree_changed_since-sent :
    {V : Type 0} (gen resolution : ℕ) (root : Node V) (out : List ChangedRange)
    → tree_changed_since gen resolution (some root) ≡ some out
    → (t : ℕ) → covered t out ≡ changed_at gen resolution t 0 root
unfolding tree_changed_since
tree_changed_since-sent gen resolution root out e t =
    all_sent (find_changed_since gen resolution 0 root) (find-Finds gen resolution t 0 root) e
  where
    all_sent :
        (o : Option Sent)
        → Finds t (changed_at gen resolution t 0 root) o
        → (o >>= λ s. some (elim (s.1) [ none ↦ s.0 | some cr ↦ s.0 ++ cr ∷ [] ])) ≡ some out
        → covered t out ≡ changed_at gen resolution t 0 root
    all_sent none f q = cc
    all_sent (some (sent, none)) f q =
        subst (λ (o : List ChangedRange). covered t o ≡ changed_at gen resolution t 0 root)
          (some-injective q) (or_false (covered t sent) ∙ f.0)
    all_sent (some (sent, some cr)) f q =
        subst (λ (o : List ChangedRange). covered t o ≡ changed_at gen resolution t 0 root)
          (some-injective q) (covered-append t sent (cr ∷ []) ∙ f.0)

-- If the generations in a tree agree and its root is newer than the version, FindChangedSince sends no error,
-- and a time lies in one of the ranges it sends exactly if the tree changed there after the version: in a
-- bucket with a newer generation, followed down to the resolution, to a bucket without a child, or to a leaf.
pub tree_changed_since-covered :
    {V : Type 0} (gen resolution : ℕ) (root : Node V)
    → HasGenerations root
    → gen < (header root).gen
    → (out : List ChangedRange) × (tree_changed_since gen resolution (some root) ≡ some out)
      × ((t : ℕ) → covered t out ≡ changed_at gen resolution t 0 root)
tree_changed_since-covered gen resolution root g l =
    let (out, e) = tree-IsSome gen resolution root g l in
    (out, e, tree_changed_since-sent gen resolution root out e)
