-- ===== src/Quasar/Guards/Windows.antt =====
-- About QueryWindow of quasar.go: the range that it passes on.
use native.Mathlib.Nat.{div-add-mod', mod-lt}
use btrdb_server.Base.{◌/◌, ℕ, ◌+◌, ◌-◌, ◌*◌, ◌%◌, ◌^◌, ◌≤◌, ◌<◌, ◌≡◌, Bool, arith}
use btrdb_server.Base.Word.{sub64}
use btrdb_server.Quasar.{minimum_time, maximum_time}
use btrdb_server.Quasar.Guards.{runs, check_range, rem64, query_window}

check_range-runs :
    (start end s e : ℕ)
    → check_range start end ≡ runs s e
    → (s ≡ start) × (e ≡ end) × (s < e) × (minimum_time ≤ s) × (e < maximum_time)
unfolding check_range
check_range-runs start end s e h = ground arith

mod-le : (d w : ℕ) → 0 < w → d % w ≤ d
mod-le d w p = grind arith

rem64-pos : (d w : ℕ) → d < 2 ^ 63 → rem64 d w ≡ d % w
unfolding rem64
rem64-pos d w h = ground arith

-- The end that is passed on, for a range whose length is an int64.
rounded_end :
    (start end width : ℕ)
    → start ≤ end
    → end - start < 2 ^ 63
    → end < 2 ^ 64
    → 0 < width
    → sub64 end (rem64 (sub64 end start) width) ≡ end - (end - start) % width
unfolding sub64
rounded_end start end width h k l w =
    rw (d, rem64-pos (end - start) width k) (omega (arith, mod-le (end - start) width w))
  where
    d : (end + 2 ^ 64 - start) % 2 ^ 64 ≡ end - start
    d = omega arith

query_window-check :
    (holds latest : Bool) (start end width depth s e : ℕ)
    → query_window holds latest start end width depth ≡ runs s e
    → (0 < width) × (check_range start (sub64 end (rem64 (sub64 end start) width)) ≡ runs s e)
unfolding query_window
query_window-check holds latest start end width depth s e h = ground arith

-- If QueryWindow passes a range on, for a range of a length below 2 ^ 63, the width is not 0 and the range is
-- as many whole windows from start on as fit before end, at least one; it lies between MinimumTime and
-- MaximumTime.
pub query_window-runs :
    (holds latest : Bool) (start end width depth s e : ℕ)
    → start ≤ end
    → end - start < 2 ^ 63
    → end < 2 ^ 64
    → query_window holds latest start end width depth ≡ runs s e
    → (0 < width)
      × (s ≡ start)
      × (e ≡ start + (end - start) / width * width)
      × (e ≤ end)
      × (end < e + width)
      × (s < e)
      × (minimum_time ≤ s)
      × (e < maximum_time)
query_window-runs holds latest start end width depth s e h k l q =
    let (w, c) = query_window-check holds latest start end width depth s e q in
    let (a, b, lt, lo, hi) =
      check_range-runs start (sub64 end (rem64 (sub64 end start) width)) s e c in
    let r = rounded_end start end width h k l w in
    let dm = div-add-mod' (end - start) width in
    let ml = mod-lt (end - start) w in
    let m = mod-le (end - start) width w in
    (w, a, omega arith, omega arith, omega arith, lt, lo, hi)
