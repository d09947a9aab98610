-- ===== src/Bstore/Float.antt =====
-- decompose and recompose of internal/bstore/blocktypes.go. A float64 is its bit pattern
-- (math.Float64bits), so Go's NaNs, infinities and signed zeros are all covered.
use btrdb_server.Base.{ℕ, ◌+◌, ◌*◌, ◌/◌, ◌%◌, ◌^◌, ◌<◌, ◌≡◌, arith}
use Prim.Native.Nat.{bit_or}
use btrdb_server.Base.Bits.{bit_or_disjoint}
use btrdb_server.Base.Word.{IsWord}

-- The byte that a mask of 8 bits at bit 8 * i keeps, moved to bit 0.
abbrev byte_at : ℕ → ℕ → ℕ
byte_at w i = w / 2 ^ (8 * i) % 256

-- The bottom 7 bytes in reverse: the 7 masked and shifted terms of the source, which are disjoint.
unfoldable pub reverse_bytes : ℕ → ℕ
reverse_bytes w =
    byte_at w 0 * 2 ^ 48
    + byte_at w 1 * 2 ^ 40
    + byte_at w 2 * 2 ^ 32
    + byte_at w 3 * 2 ^ 24
    + byte_at w 4 * 2 ^ 16
    + byte_at w 5 * 2 ^ 8
    + byte_at w 6

-- iv & ((1 << 52) - 1) for the mantissa; (exp << 1) | s for the exponent with the sign.
unfoldable pub decompose : ℕ → ℕ × ℕ
decompose iv =
    let s = iv / 2 ^ 63 in
    let exp = iv / 2 ^ 52 % 2048 in (exp * 2 + s, reverse_bytes (iv % 2 ^ 52))

-- iv |= uint64(e) << 52; iv |= uint64(s) << 63. The shifts drop what passes bit 63.
unfoldable pub recompose : ℕ → ℕ → ℕ
recompose e m =
    let s = e % 2 in
    bit_or (bit_or (reverse_bytes m) (e / 2 * 2 ^ 52 % 2 ^ 64)) (s * 2 ^ 63 % 2 ^ 64)

pub reverse_bytes-lt : (w : ℕ) → reverse_bytes w < 2 ^ 56
unfolding reverse_bytes
reverse_bytes-lt w = omega arith

pub reverse_bytes_twice : (w : ℕ) → w < 2 ^ 56 → reverse_bytes (reverse_bytes w) ≡ w
unfolding reverse_bytes
reverse_bytes_twice w h = omega arith

-- The exponent takes 12 bits, the mantissa 7 bytes.
pub decompose_bounds :
    (iv : ℕ) → IsWord iv → ((decompose iv).0 < 4096) × ((decompose iv).1 < 2 ^ 56)
unfolding decompose
decompose_bounds iv h = (omega arith, reverse_bytes-lt _)

-- Sign, exponent and mantissa beside one another.
join_fields :
    (m e s : ℕ)
    → m < 2 ^ 52
    → e < 2048
    → s < 2
    → bit_or (bit_or m (e * 2 ^ 52)) (s * 2 ^ 63) ≡ m + e * 2 ^ 52 + s * 2 ^ 63
join_fields m e s hm he hs =
    rw (bit_or_disjoint 52 m e hm) (bit_or_disjoint 63 (m + e * 2 ^ 52) s (omega arith))

-- Every 64-bit pattern of a float64 is recomposed from its exponent and its mantissa, bit for bit.
pub recompose-decompose : (iv : ℕ) → IsWord iv → recompose (decompose iv).0 (decompose iv).1 ≡ iv
unfolding decompose recompose
recompose-decompose iv h =
    rw
      (
        reverse_bytes_twice (iv % 2 ^ 52) (omega arith),
        exponent,
        sign,
        join_fields (iv % 2 ^ 52) (iv / 2 ^ 52 % 2048) (iv / 2 ^ 63) (omega arith) (omega arith)
            (omega arith),
      )
      (omega arith)
  where
    exponent :
        (iv / 2 ^ 52 % 2048 * 2 + iv / 2 ^ 63) / 2 * 2 ^ 52 % 2 ^ 64 ≡ iv / 2 ^ 52 % 2048 * 2 ^ 52
    exponent = omega arith

    sign : (iv / 2 ^ 52 % 2048 * 2 + iv / 2 ^ 63) % 2 * 2 ^ 63 % 2 ^ 64 ≡ iv / 2 ^ 63 * 2 ^ 63
    sign = omega arith
