-- ===== src/Qtree/Insert/Entries.antt =====
-- The entries of a core node under wchild and SetChild.
use native.Mathlib.Nat.{mul-mod_left, zero-mul, add-zero}
use native.Mathlib.Numerals.{towards_suc}
use native.Mathlib.Decide.{dec_lt}
use mathlib.Core.Path.{subst}
use btrdb_server.Base.{
  ℕ, zero, suc, ◌+◌, ◌*◌, ◌%◌, ◌^◌, ◌≤◌, ◌<◌, ◌≡◌, refl, ap, ◌∙◌, none, some, List, [], arith,
}
use btrdb_server.Bstore.Consts.{kfactor}
use btrdb_server.Qtree.Node
use btrdb_server.Qtree.Node.{
  Rec, Header, Node, Slots, leaf, core, nil, hole, child, slot_count, contents, slot_contents,
}
use btrdb_server.Qtree.Window.{width, child_pw, clamp_time}
use btrdb_server.Qtree.Tally.{tally, tally-append}
use btrdb_server.Qtree.Shape.{IsNode, AreSlots}
use btrdb_server.Qtree.Insert.{holes, new_core_node, new_vector_node, child_at, put_child}

-- A start time on the grid of its point width.
abbrev pub Aligned : ℕ → ℕ → Type 0
Aligned pw lo = (k : ℕ) × (lo ≡ k * width pw)

-- A node that may be converted to a core covers KFACTOR buckets of its width, any other at most 64 ns.
abbrev pub Spans : ℕ → ℕ → ℕ → Type 0
Spans pw lo hi = (1 ≤ pw → hi ≡ lo + width pw * kfactor) × (pw ≡ 0 → hi ≤ lo + 64)

pow_six : (n : ℕ) → 2 ^ (n + 6) ≡ 2 ^ n * 64
pow_six n = simp towards_suc (omega arith)

width-child_pw : (pw : ℕ) → 1 ≤ child_pw pw → width pw ≡ width (child_pw pw) * kfactor
width-child_pw pw h = ap (λ (n : ℕ). 2 ^ n) (six_more pw h) ∙ pow_six (child_pw pw)
  where
    six_more : (pw : ℕ) → 1 ≤ child_pw pw → pw ≡ child_pw pw + 6
    six_more pw h = unfold child_pw in ground arith

width-le : (pw : ℕ) → pw ≤ 6 → width pw ≤ 64
width-le zero h = omega arith
width-le (suc zero) h = omega arith
width-le (suc (suc zero)) h = omega arith
width-le (suc (suc (suc zero))) h = omega arith
width-le (suc (suc (suc (suc zero)))) h = omega arith
width-le (suc (suc (suc (suc (suc zero))))) h = omega arith
width-le (suc (suc (suc (suc (suc (suc zero)))))) h = omega arith
width-le (suc (suc (suc (suc (suc (suc (suc n))))))) h = absurd (omega arith)

-- A leaf of point width 0 covers at most 64 ns.
bottom_width : (pw : ℕ) → child_pw pw ≡ 0 → width pw ≤ 64
bottom_width pw e = width-le pw (small pw e)
  where
    small : (pw : ℕ) → child_pw pw ≡ 0 → pw ≤ 6
    small pw e = unfold child_pw in ground arith

pub Spans-child : (pw lo : ℕ) → Spans (child_pw pw) lo (lo + width pw)
Spans-child pw lo = (λ h. omega (arith, width-child_pw pw h), λ e. omega (arith, bottom_width pw e))

pub Aligned-child : (pw lo : ℕ) → Aligned pw lo → Aligned (child_pw pw) lo
Aligned-child pw lo (k, e) = elim (dec_lt 0 (child_pw pw)) [
  | yes p ↦ (k * kfactor, omega (arith, ap (λ (t : ℕ). k * t) (width-child_pw pw p)))
  | no p ↦ (lo, rw (bottom p) (omega arith))
]
  where
    bottom : ¬ (0 < child_pw pw) → child_pw pw ≡ 0
    bottom p = omega arith

pub Aligned-next : (pw lo i : ℕ) → Aligned pw lo → Aligned pw (lo + i * width pw)
Aligned-next pw lo i (k, e) = (k + i, omega arith)

clamp_time-Aligned : (pw lo : ℕ) → Aligned pw lo → clamp_time lo pw ≡ lo
unfolding clamp_time
clamp_time-Aligned pw lo (k, e) = ground (arith, whole)
  where
    whole : lo % 2 ^ pw ≡ 0
    whole = rw e (mul-mod_left k (2 ^ pw))

tally-holes : {V : Type 0} (φ : Rec V → ℕ) (k : ℕ) → tally φ (slot_contents (holes k)) ≡ 0
unfolding holes contents
tally-holes φ zero = refl
tally-holes φ (suc k) = tally-holes φ k

AreSlots-holes : (V : Type 0) (pw lo k : ℕ) → AreSlots {V = V} pw lo (holes k)
unfolding holes
AreSlots-holes V pw lo zero = tt
AreSlots-holes V pw lo (suc k) = AreSlots-holes V pw (lo + width pw) k

slot_count-holes : (V : Type 0) (k : ℕ) → slot_count (holes {V = V} k) ≡ k
unfolding holes
slot_count-holes V zero = refl
slot_count-holes V (suc k) = ap suc (slot_count-holes V k)

next : (lo i w : ℕ) → lo + suc i * w ≡ lo + w + i * w
next lo i w = omega arith

-- A new node is a well-formed empty one.
pub new_core_node-IsNode :
    (V : Type 0) (gen pw lo hi : ℕ)
    → Aligned pw lo
    → 1 ≤ pw
    → hi ≡ lo + width pw * kfactor
    → IsNode pw lo hi (new_core_node {V = V} gen lo pw)
unfolding new_core_node
new_core_node-IsNode V gen pw lo hi a p q = (
  clamp_time-Aligned pw lo a,
  refl,
  p,
  q,
  slot_count-holes V kfactor,
  AreSlots-holes V pw lo kfactor,
)

pub new_vector_node-IsNode :
    (V : Type 0) (gen pw lo hi : ℕ)
    → Aligned pw lo
    → IsNode pw lo hi (new_vector_node {V = V} gen lo pw)
unfolding new_vector_node
new_vector_node-IsNode V gen pw lo hi a = (clamp_time-Aligned pw lo a, refl, tt, tt, omega arith)

pub tally-new_core_node :
    {V : Type 0} (φ : Rec V → ℕ) (gen pw lo : ℕ) → tally φ (contents (new_core_node gen lo pw)) ≡ 0
unfolding new_core_node contents
tally-new_core_node φ gen pw lo = tally-holes φ kfactor

module _ {V : Type 0} where
  -- What SetChild replaces.
  unfoldable pub old_contents : ℕ → Slots V → List (Rec V)
  old_contents i sl = elim (child_at i sl) [ none ↦ [] | some n ↦ contents n ]

  pub put_child-AreSlots :
      (i : ℕ) (sl : Slots V) (pw lo : ℕ) (st : Node.Stats V) (gen : ℕ) (n : Node V)
      → AreSlots pw lo sl
      → IsNode (child_pw pw) (lo + i * width pw) (lo + i * width pw + width pw) n
      → AreSlots pw lo (put_child i st gen n sl)
  unfolding put_child
  put_child-AreSlots i nil pw lo st gen n w h = tt
  put_child-AreSlots zero (hole g sl) pw lo st gen n w h = (rw add-zero at (rw zero-mul at h), w)
  put_child-AreSlots zero (child st' g n' sl) pw lo st gen n w h =
      (rw add-zero at (rw zero-mul at h), w.1)
  put_child-AreSlots (suc i) (hole g sl) pw lo st gen n w h =
      put_child-AreSlots i sl pw (lo + width pw) st gen n w (rw next at h)
  put_child-AreSlots (suc i) (child st' g n' sl) pw lo st gen n w h =
      (w.0, put_child-AreSlots i sl pw (lo + width pw) st gen n w.1 (rw next at h))

  pub slot_count-put_child :
      (i : ℕ) (sl : Slots V) (st : Node.Stats V) (gen : ℕ) (n : Node V)
      → slot_count (put_child i st gen n sl) ≡ slot_count sl
  unfolding put_child
  slot_count-put_child i nil st gen n = refl
  slot_count-put_child zero (hole g sl) st gen n = refl
  slot_count-put_child zero (child st' g n' sl) st gen n = refl
  slot_count-put_child (suc i) (hole g sl) st gen n = ap suc (slot_count-put_child i sl st gen n)
  slot_count-put_child (suc i) (child st' g n' sl) st gen n =
      ap suc (slot_count-put_child i sl st gen n)

  pub tally-put_child :
      (φ : Rec V → ℕ) (i : ℕ) (sl : Slots V) (st : Node.Stats V) (gen : ℕ) (n : Node V)
      → i < slot_count sl
      → tally φ (slot_contents (put_child i st gen n sl)) + tally φ (old_contents i sl)
        ≡ tally φ (slot_contents sl) + tally φ (contents n)
  unfolding put_child contents old_contents child_at
  tally-put_child φ i nil st gen n h = absurd (omega arith)
  tally-put_child φ zero (hole g sl) st gen n h =
      omega (arith, tally-append φ (contents n) (slot_contents sl))
  tally-put_child φ zero (child st' g n' sl) st gen n h = omega (
    arith,
    tally-append φ (contents n) (slot_contents sl),
    tally-append φ (contents n') (slot_contents sl),
  )
  tally-put_child φ (suc i) (hole g sl) st gen n h = tally-put_child φ i sl st gen n (omega arith)
  tally-put_child φ (suc i) (child st' g n' sl) st gen n h = omega (
    arith,
    tally-append φ (contents n') (slot_contents (put_child i st gen n sl)),
    tally-append φ (contents n') (slot_contents sl),
    tally-put_child φ i sl st gen n (omega arith),
  )

  pub child_at-IsNode :
      (i : ℕ) (sl : Slots V) (pw lo : ℕ) (n : Node V)
      → AreSlots pw lo sl
      → child_at i sl ≡ some n
      → IsNode (child_pw pw) (lo + i * width pw) (lo + i * width pw + width pw) n
  unfolding child_at
  child_at-IsNode i nil pw lo n w e = cc
  child_at-IsNode zero (hole g sl) pw lo n w e = cc
  child_at-IsNode zero (child st g n' sl) pw lo n w e =
      let same : n' ≡ n = cc in
      rw (zero-mul, add-zero) (subst (λ x. IsNode (child_pw pw) lo (lo + width pw) x) same w.0)
  child_at-IsNode (suc i) (hole g sl) pw lo n w e =
      rw next (child_at-IsNode i sl pw (lo + width pw) n w e)
  child_at-IsNode (suc i) (child st g n' sl) pw lo n w e =
      rw next (child_at-IsNode i sl pw (lo + width pw) n w.1 e)
