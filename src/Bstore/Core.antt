-- ===== src/Bstore/Core.antt =====
-- Coreblock of internal/bstore/blocktypes.go, with Serialize and Deserialize. The arrays Addr, Count,
-- Min, Mean, Max and CGeneration, of KFACTOR entries each, are one list of slots.
pub mod Fields
pub mod Slots
pub mod RoundTrip
use btrdb_server.Base.{
  ℕ, zero, suc, ◌+◌, ◌%◌, ◌^◌, Bool, true, false, ◌&&◌, Option, none, some, List, [], ◌∷◌, ◌++◌,
  ◌==◌, if◌then◌else◌, ◌>>=◌,
}
use btrdb_server.Base.Word.{shl64, sar64}
use btrdb_server.Bstore.Huff.{
  Bottom, value, abs_zero, full_zero, write_signed_huff, read_signed_huff, write_abs_zero,
  write_full_zero,
}
use btrdb_server.Bstore.Float.{decompose, recompose}
use btrdb_server.Bstore.Delta.{Deltarizer, new_deltarizer, deltarize, dedeltarize}
use btrdb_server.Bstore.Vector.{write_nonzero, read_nonzero, drop_kind}

-- Entry i of each array. The three statistics are the bits of a float64.
pub record Slot : Type 0 where
  pub addr : ℕ
  pub count : ℕ
  pub min : ℕ
  pub mean : ℕ
  pub max : ℕ
  pub cgeneration : ℕ

pub record Coreblock : Type 0 where
  pub identifier : ℕ
  pub generation : ℕ
  pub point_width : ℕ
  pub start_time : ℕ
  pub slots : List Slot

-- Only the payload is copied.
unfoldable pub copy_into : Coreblock → Coreblock → Coreblock
copy_into src dst = record dst {
  point_width = src.point_width;
  start_time = src.start_time;
  slots = src.slots;
}

-- The nine closures, with the same names on both sides.
pub record Closures : Type 0 where
  pub dd_addr : Deltarizer
  pub dd_cgen : Deltarizer
  pub dd_count : Deltarizer
  pub dd_mean_m : Deltarizer
  pub dd_mean_e : Deltarizer
  pub dd_min_m : Deltarizer
  pub dd_min_e : Deltarizer
  pub dd_max_m : Deltarizer
  pub dd_max_e : Deltarizer

unfoldable pub new_closures : Closures
new_closures = record {
  dd_addr = new_deltarizer;
  dd_cgen = new_deltarizer;
  dd_count = new_deltarizer;
  dd_mean_m = new_deltarizer;
  dd_mean_e = new_deltarizer;
  dd_min_m = new_deltarizer;
  dd_min_e = new_deltarizer;
  dd_max_m = new_deltarizer;
  dd_max_e = new_deltarizer;
}

-- x <<= 1; if other != 0 { x |= 1 }
unfoldable pub flag_bit : ℕ → ℕ → ℕ
flag_bit dd other = shl64 dd 1 + (if other == 0 then 0 else 1)

-- Min, Mean and Max are coded alike: the mantissa with its flag, then the exponent if it is flagged.
unfoldable pub write_float : Deltarizer → Deltarizer → ℕ → List ℕ
write_float dd_m dd_e v =
    let e_dd = (deltarize dd_e (decompose v).0).0 in
    let m_dd = (deltarize dd_m (decompose v).1).0 in
    write_signed_huff (flag_bit m_dd e_dd) ++ write_nonzero e_dd

-- The closures of the exponent and of the mantissa after a float.
unfoldable pub after_e : Deltarizer → ℕ → Deltarizer
after_e dd_e v = (deltarize dd_e (decompose v).0).1

unfoldable pub after_m : Deltarizer → ℕ → Deltarizer
after_m dd_m v = (deltarize dd_m (decompose v).1).1

-- An entry with an address: the address, the count with its flag, the generation, the statistics.
unfoldable pub write_full : Closures → Slot → List ℕ
write_full c s =
    let addr_dd = (deltarize c.dd_addr s.addr).0 in
    let cgen_dd = (deltarize c.dd_cgen s.cgeneration).0 in
    let count_dd = (deltarize c.dd_count s.count).0 in
    write_signed_huff addr_dd
    ++ (write_signed_huff (flag_bit count_dd cgen_dd)
        ++ (write_nonzero cgen_dd
            ++ (write_float c.dd_min_m c.dd_min_e s.min
                ++ (write_float c.dd_mean_m c.dd_mean_e s.mean
                    ++ write_float c.dd_max_m c.dd_max_e s.max))))

unfoldable pub after_full : Closures → Slot → Closures
after_full c s = record {
  dd_addr = (deltarize c.dd_addr s.addr).1;
  dd_cgen = (deltarize c.dd_cgen s.cgeneration).1;
  dd_count = (deltarize c.dd_count s.count).1;
  dd_mean_m = after_m c.dd_mean_m s.mean;
  dd_mean_e = after_e c.dd_mean_e s.mean;
  dd_min_m = after_m c.dd_min_m s.min;
  dd_min_e = after_e c.dd_min_e s.min;
  dd_max_m = after_m c.dd_max_m s.max;
  dd_max_e = after_e c.dd_max_e s.max;
}

-- An entry with no address: only its generation is kept.
unfoldable pub write_empty : Closures → Slot → List ℕ
write_empty c s = write_abs_zero ++ write_signed_huff (deltarize c.dd_cgen s.cgeneration).0

unfoldable pub after_empty : Closures → Slot → Closures
after_empty c s = record c { dd_cgen = (deltarize c.dd_cgen s.cgeneration).1 }

-- The scan from the last entry down for the trailing entries with neither address nor generation:
-- whether it has not met another entry yet, and bottomidx, `none` for -1.
unfoldable pub bottom_scan : List Slot → ℕ → Bool × Option ℕ
bottom_scan [] i = (true, none)
bottom_scan (s ∷ rest) i =
    let (running, idx) = bottom_scan rest (suc i) in
    if running && (s.addr == 0 && s.cgeneration == 0) then (true, some i) else (false, idx)

unfoldable pub is_index : Option ℕ → ℕ → Bool
is_index none i = false
is_index (some b) i = i == b

-- The loop over the entries from i on; at bottomidx it ends with one symbol.
unfoldable pub write_slots : Closures → Option ℕ → ℕ → List Slot → List ℕ
write_slots c bottom i [] = []
write_slots c bottom i (s ∷ rest) =
    let empty = write_empty c s ++ write_slots (after_empty c s) bottom (suc i) rest in
    let full = write_full c s ++ write_slots (after_full c s) bottom (suc i) rest in
    if is_index bottom i then write_full_zero else if s.addr == 0 then empty else full

unfoldable pub serialize : Coreblock → List ℕ
serialize b = 2 ∷ write_slots new_closures (bottom_scan b.slots 0).1 0 b.slots

-- A float, with its mantissa word already read; and the closures after it.
unfoldable pub read_float :
    Deltarizer → Deltarizer → List ℕ → Option ((ℕ × Deltarizer × Deltarizer) × List ℕ)
read_float dd_m dd_e src = do
  (word, src1) ← drop_kind (read_signed_huff src)
  (e_dd, src2) ← read_nonzero (word % 2 == 1) src1
  let (e, dd_e') = dedeltarize dd_e e_dd
  let (m, dd_m') = dedeltarize dd_m (sar64 word 1)
  some ((recompose (e % 2 ^ 16) m, dd_m', dd_e'), src2)

-- The rest of an entry whose address delta has been read.
unfoldable pub read_full : Closures → ℕ → List ℕ → Option ((Closures × Slot) × List ℕ)
read_full c addr_dd src = do
  (word, src1) ← drop_kind (read_signed_huff src)
  (cgen_dd, src2) ← read_nonzero (word % 2 == 1) src1
  ((min, min_m, min_e), src3) ← read_float c.dd_min_m c.dd_min_e src2
  ((mean, mean_m, mean_e), src4) ← read_float c.dd_mean_m c.dd_mean_e src3
  ((max, max_m, max_e), src5) ← read_float c.dd_max_m c.dd_max_e src4
  let (addr, dd_addr) = dedeltarize c.dd_addr addr_dd
  let (cgen, dd_cgen) = dedeltarize c.dd_cgen cgen_dd
  let (count, dd_count) = dedeltarize c.dd_count (sar64 word 1)
  some (
    (
      record {
        dd_addr = dd_addr;
        dd_cgen = dd_cgen;
        dd_count = dd_count;
        dd_mean_m = mean_m;
        dd_mean_e = mean_e;
        dd_min_m = min_m;
        dd_min_e = min_e;
        dd_max_m = max_m;
        dd_max_e = max_e;
      },
      record { addr = addr; count = count; min = min; mean = mean; max = max; cgeneration = cgen },
    ),
    src5,
  )

-- ABSZERO: address and count are cleared, the statistics stay what they were.
unfoldable pub read_empty : Closures → Slot → List ℕ → Option ((Closures × Slot) × List ℕ)
read_empty c old src = do
  (cgen_dd, src1) ← drop_kind (read_signed_huff src)
  let (cgen, dd_cgen) = dedeltarize c.dd_cgen cgen_dd
  some (
    (record c { dd_cgen = dd_cgen }, record old { addr = 0; count = 0; cgeneration = cgen }),
    src1,
  )

-- FULLZERO: this entry and all that follow are cleared.
unfoldable pub clear_slots : List Slot → List Slot
clear_slots [] = []
clear_slots (old ∷ rest) = record old { addr = 0; count = 0; cgeneration = 0 } ∷ clear_slots rest

-- The loop over the entries of the block that is filled.
unfoldable pub read_slots : Closures → List Slot → List ℕ → Option (List Slot)
read_slots c [] src = some []
read_slots c (old ∷ olds) src = do
  (addr_dd, src1, kind) ← read_signed_huff src
  elim kind [
    | abs_zero ↦ (do
      ((c', s), rest) ← read_empty c old src1
      ss ← read_slots c' olds rest
      some (s ∷ ss))
    | full_zero ↦ some (clear_slots (old ∷ olds))
    | value ↦ (do
      ((c', s), rest) ← read_full c addr_dd src1
      ss ← read_slots c' olds rest
      some (s ∷ ss))
  ]

unfoldable pub deserialize : Coreblock → List ℕ → Option Coreblock
deserialize b [] = none
deserialize b (kind ∷ src) =
    if kind == 2
    then (do ss ← read_slots new_closures b.slots src; some (record b { slots = ss }))
    else none
