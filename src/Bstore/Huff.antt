-- ===== src/Bstore/Huff.antt =====
-- The packed numbers of internal/bstore/blocktypes.go: writeUnsignedHuff, readUnsignedHuff and the
-- signed forms. A write is the list of the bytes written; a read returns the rest of the slice in
-- place of the number of bytes used. `none` is a panic (a reserved symbol, or an index out of range).
use btrdb_server.Base.{
  ℕ, zero, suc, ◌+◌, ◌-◌, ◌*◌, ◌/◌, ◌%◌, ◌^◌, ◌<◌, Bool, Option, none, some, List, [], ◌∷◌, ltb,
  leb, ◌==◌, if◌then◌else◌,
}
pub mod RoundTrip
use btrdb_server.Base.Word.{is_neg, neg64, shl64}

-- The constants VALUE, ABSZERO and FULLZERO.
pub data Bottom : Type 0 where
  value abs_zero full_zero : Bottom

-- The closure do_rest of the writer: byte (val >> ((n-1)*8)) & 0xFF, for n down to 1.
unfoldable pub put_rest : ℕ → ℕ → List ℕ
put_rest val zero = []
put_rest val (suc n) = (val / 2 ^ (n * 8) % 256) ∷ put_rest val n

-- The bits of the prefix and of `val >> k` are disjoint in each branch, so `|` is a sum.
unfoldable pub write_unsigned_huff : ℕ → List ℕ
write_unsigned_huff val =
    if ltb val (2 ^ 7)
    then (val % 256) ∷ []
    else if ltb val (2 ^ 14)
    then ((0x80 + val / 2 ^ 8) % 256) ∷ put_rest val 1
    else if ltb val (2 ^ 20)
    then ((0xC0 + val / 2 ^ 16) % 256) ∷ put_rest val 2
    else if ltb val (2 ^ 28)
    then ((0xD0 + val / 2 ^ 24) % 256) ∷ put_rest val 3
    else if ltb val (2 ^ 36)
    then ((0xE0 + val / 2 ^ 32) % 256) ∷ put_rest val 4
    else if ltb val (2 ^ 42)
    then ((0xF0 + val / 2 ^ 40) % 256) ∷ put_rest val 5
    else if ltb val (2 ^ 50)
    then ((0xF4 + val / 2 ^ 48) % 256) ∷ put_rest val 6
    else if ltb val (2 ^ 58)
    then ((0xF8 + val / 2 ^ 56) % 256) ∷ put_rest val 7
    else 0xFC ∷ put_rest val 8

unfoldable pub write_abs_zero : List ℕ
write_abs_zero = 0xFD ∷ []

unfoldable pub write_full_zero : List ℕ
write_full_zero = 0xFE ∷ []

-- An int64: the magnitude is shifted left by one, and the lowest bit says that it is negative.
unfoldable pub write_signed_huff : ℕ → List ℕ
write_signed_huff val =
    write_unsigned_huff (if is_neg val then shl64 (neg64 val) 1 + 1 else shl64 val 1)

-- The closure do_rest of the reader: rv <<= 8; rv |= src[i]; i++.
unfoldable pub get_rest : ℕ → ℕ → List ℕ → Option (ℕ × List ℕ × Bottom)
get_rest zero rv src = some (rv, src, value)
get_rest (suc n) rv [] = none
get_rest (suc n) rv (b ∷ src) = get_rest n (shl64 rv 8 + b) src

unfoldable pub read_unsigned_huff : List ℕ → Option (ℕ × List ℕ × Bottom)
read_unsigned_huff [] = none
read_unsigned_huff (b ∷ src) =
    if ltb 0xFE b
    then none
    else if b == 0xFD
    then some (0, src, abs_zero)
    else if b == 0xFE
    then some (0, src, full_zero)
    else if b == 0xFC
    then get_rest 8 0 src
    else if leb 0xF8 b
    then get_rest 7 (b % 4) src
    else if leb 0xF4 b
    then get_rest 6 (b % 4) src
    else if leb 0xF0 b
    then get_rest 5 (b % 4) src
    else if leb 0xE0 b
    then get_rest 4 (b % 16) src
    else if leb 0xD0 b
    then get_rest 3 (b % 16) src
    else if leb 0xC0 b
    then get_rest 2 (b % 16) src
    else if leb 0x80 b
    then get_rest 1 (b % 64) src
    else some (b % 128, src, value)

-- What readSignedHuff makes of the unsigned number.
unfoldable pub signed_of : ℕ × List ℕ × Bottom → ℕ × List ℕ × Bottom
signed_of (v, rest, value) = (if v % 2 == 1 then neg64 (v / 2) else v / 2, rest, value)
signed_of (v, rest, abs_zero) = (0, rest, abs_zero)
signed_of (v, rest, full_zero) = (0, rest, full_zero)

unfoldable pub read_signed_huff : List ℕ → Option (ℕ × List ℕ × Bottom)
read_signed_huff src = elim (read_unsigned_huff src) [ none ↦ none | some r ↦ some (signed_of r) ]
