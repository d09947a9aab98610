-- ===== src/Qtree/Window.antt =====
-- The time arithmetic of qtree/qtree_utils.go.
use btrdb_server.Base.{
  ℕ, zero, suc, ◌+◌, ◌-◌, ◌*◌, ◌/◌, ◌%◌, ◌^◌, ◌≤◌, ◌<◌, ltb, leb, ◌==◌, if◌then◌else◌, arith,
}
use btrdb_server.Bstore.Consts.{kfactor, pwfactor}
use btrdb_server.Qtree.Node.{Header}
use native.Mathlib.Nat.{le-div_iff_mul-le, div-lt_iff_lt-mul, pow-suc}

abbrev pub root_pw : ℕ
root_pw = 56

-- MaximumTime, which is the end of the root's window.
abbrev pub maximum_time : ℕ
maximum_time = 64 * 2 ^ 56

-- int64(1) << pw
abbrev pub width : ℕ → ℕ
width pw = 2 ^ pw

-- t &^ ((1 << pw) - 1)
unfoldable pub clamp_time : ℕ → ℕ → ℕ
clamp_time t pw = if pw == 0 then t else t - t % width pw

unfoldable pub child_pw : ℕ → ℕ
child_pw pw = if leb pw pwfactor then 0 else pw - pwfactor

-- ArbitraryStartTime(idx, pw), and ChildStartTime and ChildEndTime of a core node.
unfoldable pub arbitrary_start_time : Header → ℕ → ℕ → ℕ
arbitrary_start_time h idx pw = h.start + idx * width pw

unfoldable pub child_start_time : Header → ℕ → ℕ
child_start_time h idx = arbitrary_start_time h idx h.pw

unfoldable pub child_end_time : Header → ℕ → ℕ
child_end_time h idx = arbitrary_start_time h (idx + 1) h.pw

-- EndTime of a core node; that of a leaf depends on its parent and is not used here.
unfoldable pub end_time : Header → ℕ
end_time h = h.start + width h.pw * kfactor

-- ClampBucket(t): a time before the node goes to the first bucket, one behind it to the last.
unfoldable pub clamp_bucket : Header → ℕ → ℕ
clamp_bucket h t =
    let t' = (if ltb t h.start then h.start else t) - h.start in
    let rv = t' / width h.pw in if leb kfactor rv then kfactor - 1 else rv

pub width_pos : (pw : ℕ) → 1 ≤ width pw
width_pos zero = omega arith
width_pos (suc n) = omega (arith, width_pos n, pow-suc 2 n)

pub child_pw-lt : (pw : ℕ) → 1 ≤ pw → child_pw pw < pw
unfolding child_pw
child_pw-lt pw h = ground arith

pub clamp_bucket-lt : (h : Header) (t : ℕ) → clamp_bucket h t < 64
unfolding clamp_bucket
clamp_bucket-lt h t = ground arith

-- The distance that clamp_bucket divides by the width.
abbrev offset : Header → ℕ → ℕ
offset h t = (if ltb t h.start then h.start else t) - h.start

le_quotient : (h : Header) (t i : ℕ) → i ≤ clamp_bucket h t → i ≤ offset h t / width h.pw
unfolding clamp_bucket
le_quotient h t i p = ground arith

quotient_lt : (h : Header) (t i : ℕ) → clamp_bucket h t < i → i < 64 → offset h t / width h.pw < i
unfolding clamp_bucket
quotient_lt h t i p q = ground arith

one_le_mul : (i w : ℕ) → 1 ≤ i → 1 ≤ w → 1 ≤ i * w
one_le_mul i w p q = grind arith

-- Bucket i of the node holds the times from its start up to the start of bucket i + 1.
pub bucket_le : (h : Header) (t i : ℕ) → 1 ≤ i → i ≤ clamp_bucket h t → h.start + i * width h.pw ≤ t
bucket_le h t i q p =
    let scaled : i * width h.pw ≤ offset h t =
      (le-div_iff_mul-le (width_pos h.pw)).0 (le_quotient h t i p) in
    ground (arith, one_le_mul i (width h.pw) q (width_pos h.pw))

pub bucket_lt :
    (h : Header) (t i : ℕ) → i < 64 → clamp_bucket h t < i → t < h.start + i * width h.pw
bucket_lt h t i q p =
    let scaled : offset h t < i * width h.pw =
      (div-lt_iff_lt-mul (width_pos h.pw)).0 (quotient_lt h t i p q) in
    ground arith
