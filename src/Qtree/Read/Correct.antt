-- ===== src/Qtree/Read/Correct.antt =====
-- About ReadStandardValuesCI of qtree/qtree.go and the range it reads.
use mathlib.Core.Path.{subst₂}
use native.Mathlib.Decide.{dec_lt}
use btrdb_server.Base.{
  ℕ, zero, suc, ◌+◌, ◌*◌, ◌≤◌, ◌<◌, ◌≡◌, refl, ap, sym, false, ◌&&◌, some, [], ltb, leb,
  if◌then◌else◌, arith, Bool-cases, inl, inr,
}
use btrdb_server.Bstore.Consts.{kfactor}
use btrdb_server.Qtree.Node.{
  Header, Stats, Node, Slots, leaf, core, nil, hole, child, contents, slot_contents, slot_count,
}
use btrdb_server.Qtree.Window.{
  clamp_bucket, end_time, width, bucket_le, bucket_lt, width_pos, child_pw,
}
use btrdb_server.Qtree.Leaf.Sorted.{
  SortedFrom, Below, in_range, in_range-append, in_range-before, in_range-behind,
  read_leaf-in_range,
}
use btrdb_server.Qtree.Read.{first_bucket, last_bucket, read, read_slots}
use btrdb_server.Qtree.Shape.{IsNode, AreSlots}
use btrdb_server.Qtree.Shape.Contents.{contents-SortedFrom, contents-Below}

module _ (h : Header) (start end : ℕ) where
  abbrev sb : ℕ
  sb = if ltb h.start start then clamp_bucket h start else 0

  abbrev eb : ℕ
  eb = if ltb end (end_time h) then clamp_bucket h end + 1 else kfactor

  first_bucket_lem : start < end_time h → first_bucket h start ≡ some sb
  unfolding first_bucket
  first_bucket_lem p = ground arith

  last_bucket_lem : h.start ≤ end → last_bucket h end ≡ some eb
  unfolding last_bucket
  last_bucket_lem p = ground arith

  -- A bucket before sb ends before the query starts, one from sb on ends behind its start.
  bucket_before : (i : ℕ) → i < sb → h.start + suc i * width h.pw ≤ start
  bucket_before i p = bucket_le h start (suc i) (omega arith) (ground arith)

  bucket_reaches :
      (i : ℕ) → start < end_time h → i < kfactor → sb ≤ i → start < h.start + suc i * width h.pw
  unfolding end_time
  bucket_reaches i q l p = ground (arith, bucket_lt h start (suc i), width_pos h.pw)

  -- A bucket before eb starts at the query's end or before, one from eb on starts behind it.
  bucket_starts : (i : ℕ) → h.start ≤ end → i < eb → h.start + i * width h.pw ≤ end
  unfolding end_time
  bucket_starts zero q p = omega arith
  bucket_starts (suc i) q p = ground (arith, bucket_le h end (suc i), below_end (suc i))
    where
      below_end : (i : ℕ) → i ≤ 64 → i * width h.pw ≤ width h.pw * 64
      below_end i l = grind arith

  bucket_behind : (i : ℕ) → i < kfactor → eb ≤ i → end < h.start + i * width h.pw
  bucket_behind i l p = ground (arith, bucket_lt h end i)

in_range_nil : {V : Type 0} (start end : ℕ) → some [] ≡ some (in_range {V = V} start end [])
unfolding in_range
in_range_nil start end = refl

-- What the entries of a core node with header h need, from index i on.
abbrev Covers : {V : Type 0} → Header → ℕ → ℕ → ℕ → Slots V → Type 0
Covers h start end i sl =
    (start < end) × (start < end_time h) × (h.start ≤ end) × (i + slot_count sl ≡ kfactor)

slot_start :
    (h : Header) (i : ℕ) → h.start + i * width h.pw + width h.pw ≡ h.start + suc i * width h.pw
slot_start h i = omega arith

module _ {V : Type 0} (h : Header) (start end i : ℕ) (st : Stats V) (g : ℕ) (n : Node V)
    (sl : Slots V) (k : Covers h start end i (child st g n sl))
    (low : SortedFrom (h.start + i * width h.pw) (contents n))
    (high : Below (h.start + suc i * width h.pw) (contents n))
    (rest : read_slots start end (sb h start end) (eb h start end) (suc i) sl
      ≡ some (in_range start end (slot_contents sl))) where
  -- A child outside the buckets of the query holds nothing that it asks for.
  skipped :
      leb (sb h start end) i && ltb i (eb h start end) ≡ false
      → in_range start end (contents n) ≡ []
  skipped t = elim (dec_lt i (sb h start end)) [
    | yes p ↦
        in_range-before start end (h.start + suc i * width h.pw) _ (bucket_before h start end i p)
          high
    | no p ↦
        in_range-behind start end (h.start + i * width h.pw) _
          (le_of_lt (bucket_behind h start end i (omega arith) (past p))) low
  ]
    where
      past : ¬ (i < sb h start end) → eb h start end ≤ i
      past p = ground arith

      le_of_lt : {a b : ℕ} → a < b → a ≤ b
      le_of_lt p = omega arith

  read_child :
      (start < h.start + suc i * width h.pw
        → h.start + i * width h.pw ≤ end
        → read start end n ≡ some (in_range start end (contents n)))
      → read_slots start end (sb h start end) (eb h start end) i (child st g n sl)
        ≡ some (in_range start end (slot_contents (child st g n sl)))
  unfolding read contents
  read_child ih = elim (Bool-cases (leb (sb h start end) i && ltb i (eb h start end))) [
    | inl t ↦ rw (
      t,
      ih (bucket_reaches h start end i k.1 (omega arith) (ground arith))
          (bucket_starts h start end i k.2 (ground arith)),
      rest,
      in_range-append,
    )
    | inr t ↦ rw (t, in_range-append, skipped t, rest)
  ]

core-Covers :
    {V : Type 0} (h : Header) (sl : Slots V) (pw lo hi start end : ℕ)
    → IsNode pw lo hi (core h sl)
    → start < end
    → start < hi
    → lo ≤ end
    → Covers h start end 0 sl
unfolding end_time
core-Covers h sl pw lo hi start end w p q r =
    (p, omega (arith, ap (λ (t : ℕ). width t * kfactor) w.1), omega arith, omega arith)

core_slots :
    {V : Type 0} (h : Header) (sl : Slots V) (pw lo hi : ℕ)
    → IsNode pw lo hi (core h sl)
    → AreSlots h.pw (h.start + 0 * width h.pw) sl
core_slots h sl pw lo hi w = subst₂ (λ p l. AreSlots p l sl) (sym w.1) (omega arith) w.5

mutual
  unfolding read contents

  pub read-in_range :
      {V : Type 0} (n : Node V) (pw lo hi start end : ℕ)
      → IsNode pw lo hi n
      → start < end
      → start < hi
      → lo ≤ end
      → read start end n ≡ some (in_range start end (contents n))
  read-in_range (leaf h rs) pw lo hi start end w p q r =
      ground (arith, read_leaf-in_range start end lo rs w.2)
  read-in_range (core h sl) pw lo hi start end w p q r =
      let k = core-Covers h sl pw lo hi start end w p q r in
      rw
        (
          first_bucket_lem h start end k.1,
          last_bucket_lem h start end k.2,
          read_slots-in_range sl h start end 0 k (core_slots h sl pw lo hi w),
        )
        (ground arith)

  read_slots-in_range :
      {V : Type 0} (sl : Slots V) (h : Header) (start end i : ℕ)
      → Covers h start end i sl
      → AreSlots h.pw (h.start + i * width h.pw) sl
      → read_slots start end (sb h start end) (eb h start end) i sl
        ≡ some (in_range start end (slot_contents sl))
  read_slots-in_range nil h start end i k w = in_range_nil start end
  read_slots-in_range (hole g sl) h start end i k w =
      read_slots-in_range sl h start end (suc i) (omega arith) (rw slot_start at w)
  read_slots-in_range (child st g n sl) h start end i k (w, ws) =
      let w' : IsNode (child_pw h.pw) (h.start + i * width h.pw) (h.start + suc i * width h.pw) n =
        rw slot_start at w in
      read_child h start end i st g n sl k (contents-SortedFrom n _ _ _ w')
        (contents-Below n _ _ _ w')
        (read_slots-in_range sl h start end (suc i) (omega arith) (rw slot_start at ws))
        (λ p q. read-in_range n _ _ _ start end w' (omega arith) p q)
