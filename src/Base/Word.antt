-- ===== src/Base/Word.antt =====
-- Go's uint64 and int64: a word is a bit pattern below 2 ^ 64, an int64 in two's complement.
use Prim.Native.Nat.{ℕ, ◌+◌, ◌-◌, ◌*◌, ◌/◌, ◌%◌, ◌^◌, ◌≤◌, ◌<◌}
use mathlib.Core.Path.{◌≡◌}
use mathlib.Core.Logic.{◌⊎◌}
use mathlib.Core.Bool.{Bool}
use native.Mathlib.Omega.{arith}
use btrdb_server.Base.Tests.{leb, if◌then◌else◌}

abbrev pub two64 : ℕ
two64 = 2 ^ 64

abbrev pub two63 : ℕ
two63 = 2 ^ 63

abbrev pub IsWord : ℕ → Type 0
IsWord w = w < 2 ^ 64

unfoldable pub add64 : ℕ → ℕ → ℕ
add64 a b = (a + b) % 2 ^ 64

unfoldable pub sub64 : ℕ → ℕ → ℕ
sub64 a b = (a + 2 ^ 64 - b) % 2 ^ 64

-- -x
unfoldable pub neg64 : ℕ → ℕ
neg64 a = (2 ^ 64 - a) % 2 ^ 64

-- x < 0
abbrev pub is_neg : ℕ → Bool
is_neg a = leb (2 ^ 63) a

-- x / n for an int64 x and a small positive n: Go's division truncates towards zero.
unfoldable pub div64 : ℕ → ℕ → ℕ
div64 a n = if is_neg a then (2 ^ 64 - (2 ^ 64 - a) / n) % 2 ^ 64 else a / n

-- x << k and the int64 x >> k.
unfoldable pub shl64 : ℕ → ℕ → ℕ
shl64 a k = a * 2 ^ k % 2 ^ 64

unfoldable pub sar64 : ℕ → ℕ → ℕ
sar64 a k = if is_neg a then 2 ^ 64 - 1 - (2 ^ 64 - 1 - a) / 2 ^ k else a / 2 ^ k

-- The int64 w lies between -b and b.
abbrev pub Within : ℕ → ℕ → Type 0
Within b w = (w ≤ b) ⊎ ((2 ^ 64 ≤ w + b) × (w < 2 ^ 64))

pub add64-IsWord : (a b : ℕ) → IsWord (add64 a b)
unfolding add64
add64-IsWord a b = omega arith

pub sub64-IsWord : (a b : ℕ) → IsWord (sub64 a b)
unfolding sub64
sub64-IsWord a b = omega arith

-- What a decoder undoes of an encoder.
pub add64-sub64 : (d avg : ℕ) → IsWord d → IsWord avg → add64 (sub64 d avg) avg ≡ d
unfolding add64 sub64
add64-sub64 d avg hd ha = omega arith

pub add64-sub64_right : (last v : ℕ) → IsWord v → IsWord last → add64 last (sub64 v last) ≡ v
unfolding add64 sub64
add64-sub64_right last v hv hl = omega arith

pub add64-sub64_left : (d avg : ℕ) → IsWord d → IsWord avg → add64 avg (sub64 d avg) ≡ d
unfolding add64 sub64
add64-sub64_left d avg hd ha = omega arith

-- The difference of two numbers up to b.
pub small_difference : (b x y : ℕ) → b < 2 ^ 63 → x ≤ b → y ≤ b → Within b (sub64 x y)
unfolding sub64
small_difference b x y h p q = ground arith
