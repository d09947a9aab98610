-- ===== src/Bstore/Vector.antt =====
-- Vectorblock of internal/bstore/blocktypes.go, with Serialize and Deserialize. Of the arrays Time and
-- Value the model keeps the first Len entries, as points: what stands behind them is never read.
-- Byte slices are lists of bytes; a write at dst[idx:] appends. `none` is a panic.
pub mod Step
pub mod Size
pub mod RoundTrip
use btrdb_server.Base.{
  ℕ, zero, suc, ◌+◌, ◌-◌, ◌*◌, ◌/◌, ◌%◌, ◌^◌, Bool, Option, none, some, List, [], ◌∷◌, ◌++◌, ◌==◌,
  if◌then◌else◌, length, set, ◌>>=◌,
}
use btrdb_server.Base.Word.{add64, sub64, shl64, sar64}
use btrdb_server.Bstore.Huff.{
  Bottom, write_unsigned_huff, read_unsigned_huff, write_signed_huff, read_signed_huff,
}
use btrdb_server.Bstore.Float.{decompose, recompose}
use btrdb_server.Bstore.Delta.{no_deltas, average, cap_deltas, next_idx}

-- A time and a value: an int64 and the bits of a float64.
abbrev pub Point : Type 0
Point = ℕ × ℕ

pub record Vectorblock : Type 0 where
  pub identifier : ℕ
  pub generation : ℕ
  pub point_width : ℕ
  pub start_time : ℕ
  pub points : List Point

-- Only the payload is copied.
unfoldable pub copy_into : Vectorblock → Vectorblock → Vectorblock
copy_into src dst = record dst {
  point_width = src.point_width;
  start_time = src.start_time;
  points = src.points;
}

-- The block types, as BlockType and DatablockGetBufferType have them.
pub data BlockType : Type 0 where
  vector core bad : BlockType

unfoldable pub block_type_byte : BlockType → ℕ
block_type_byte vector = 1
block_type_byte core = 2
block_type_byte bad = 255

unfoldable pub buffer_type : ℕ → BlockType
buffer_type b = if b == 1 then vector else if b == 2 then core else bad

-- The variables that Serialize and Deserialize carry from one record to the next.
pub record Deltas : Type 0 where
  pub hist_t : List ℕ
  pub hist_e : List ℕ
  pub hist_m : List ℕ
  pub delta_idx : ℕ
  pub num_deltas : ℕ
  pub tm1 : ℕ
  pub em1 : ℕ
  pub mm1 : ℕ

unfoldable pub start_deltas : ℕ → ℕ → ℕ → Deltas
start_deltas t e m = record {
  hist_t = no_deltas;
  hist_e = no_deltas;
  hist_m = no_deltas;
  delta_idx = 0;
  num_deltas = 0;
  tm1 = t;
  em1 = e;
  mm1 = m;
}

abbrev pub avg_t : Deltas → ℕ
avg_t s = average (cap_deltas s.num_deltas) s.hist_t

abbrev pub avg_e : Deltas → ℕ
avg_e s = average (cap_deltas s.num_deltas) s.hist_e

abbrev pub avg_m : Deltas → ℕ
avg_m s = average (cap_deltas s.num_deltas) s.hist_m

-- The deltas of this record enter the history, and its values become the last ones.
unfoldable pub push_deltas : Deltas → ℕ → ℕ → ℕ → ℕ → ℕ → ℕ → Deltas
push_deltas s dt de dm t e m = record {
  hist_t = set s.hist_t s.delta_idx dt;
  hist_e = set s.hist_e s.delta_idx de;
  hist_m = set s.hist_m s.delta_idx dm;
  delta_idx = next_idx s.delta_idx;
  num_deltas = suc s.num_deltas;
  tm1 = t;
  em1 = e;
  mm1 = m;
}

-- ddm <<= 2, then its two low bits say whether dde and ddt follow.
unfoldable pub flag_word : ℕ → ℕ → ℕ → ℕ
flag_word ddm dde ddt = shl64 ddm 2 + (if dde == 0 then 0 else 2) + (if ddt == 0 then 0 else 1)

-- A delta is written only if its bit is set.
unfoldable pub write_nonzero : ℕ → List ℕ
write_nonzero dd = if dd == 0 then [] else write_signed_huff dd

unfoldable pub write_record : ℕ → ℕ → ℕ → List ℕ
write_record ddm dde ddt =
    write_signed_huff (flag_word ddm dde ddt) ++ (write_nonzero dde ++ write_nonzero ddt)

-- The body of the loop of Serialize, for the record with time t and value v.
unfoldable pub encode_record : Deltas → ℕ → ℕ → Deltas × List ℕ
encode_record s t v =
    let e = (decompose v).0 in
    let m = (decompose v).1 in
    let dt = sub64 t s.tm1 in
    let de = sub64 e s.em1 in
    let dm = sub64 m s.mm1 in
    (
      push_deltas s dt de dm t e m,
      write_record (sub64 dm (avg_m s)) (sub64 de (avg_e s)) (sub64 dt (avg_t s)),
    )

unfoldable pub encode_records : Deltas → List Point → List ℕ
encode_records s [] = []
encode_records s ((t, v) ∷ ps) =
    (encode_record s t v).1 ++ encode_records (encode_record s t v).0 ps

-- The records: the first is written in full.
unfoldable pub write_points : List Point → List ℕ
write_points [] = []
write_points ((t, v) ∷ ps) =
    let e = (decompose v).0 in
    let m = (decompose v).1 in
    write_unsigned_huff m
    ++ (write_unsigned_huff e ++ (write_unsigned_huff t ++ encode_records (start_deltas t e m) ps))

-- Len is a uint16, written low byte first.
unfoldable pub serialize : Vectorblock → List ℕ
serialize b =
    let len = length b.points % 2 ^ 16 in 1 ∷ (len % 256) ∷ (len / 2 ^ 8) ∷ write_points b.points

-- A read whose symbol kind the caller ignores.
abbrev pub drop_kind : Option (ℕ × List ℕ × Bottom) → Option (ℕ × List ℕ)
drop_kind none = none
drop_kind (some (v, rest, k)) = some (v, rest)

-- A delta is read only if its bit is set.
unfoldable pub read_nonzero : Bool → List ℕ → Option (ℕ × List ℕ)
read_nonzero bit src = if bit then drop_kind (read_signed_huff src) else some (0, src)

-- The values of a record from its delta deltas.
unfoldable pub decode_values : Deltas → ℕ → ℕ → ℕ → Deltas × Point
decode_values s ddm dde ddt =
    let dm = add64 ddm (avg_m s) in
    let dt = add64 ddt (avg_t s) in
    let de = add64 dde (avg_e s) in
    let e = add64 s.em1 de in
    let m = add64 s.mm1 dm in
    let t = add64 s.tm1 dt in (push_deltas s dt de dm t e m, (t, recompose (e % 2 ^ 16) m))

-- The body of the loop of Deserialize: ddm&2 and ddm&1 say what follows.
unfoldable pub decode_record : Deltas → List ℕ → Option ((Deltas × Point) × List ℕ)
decode_record s src = do
  (word, src1) ← drop_kind (read_signed_huff src)
  (dde, src2) ← read_nonzero (word / 2 % 2 == 1) src1
  (ddt, src3) ← read_nonzero (word % 2 == 1) src2
  some (decode_values s (sar64 word 2) dde ddt, src3)

-- for i := 1; i < length; i++
unfoldable pub decode_records : ℕ → Deltas → List ℕ → Option (List Point)
decode_records zero s src = some []
decode_records (suc n) s src = do
  ((s', p), rest) ← decode_record s src
  ps ← decode_records n s' rest
  some (p ∷ ps)

-- The first record is read whatever the length says; with length 0 it is behind the end of the points.
unfoldable pub read_points : ℕ → List ℕ → Option (List Point)
read_points len src = do
  (m, src1) ← drop_kind (read_unsigned_huff src)
  (e, src2) ← drop_kind (read_unsigned_huff src1)
  (t, src3) ← drop_kind (read_unsigned_huff src2)
  ps ← decode_records (len - 1) (start_deltas t e m) src3
  some (if len == 0 then [] else (t, recompose (e % 2 ^ 16) m) ∷ ps)

-- Deserialize fills a block; the identifier and the fields marked implicit are left alone.
unfoldable pub deserialize : Vectorblock → List ℕ → Option Vectorblock
deserialize b (kind ∷ lo ∷ hi ∷ src) =
    if kind == 1
    then (do ps ← read_points ((lo + hi * 2 ^ 8) % 2 ^ 16) src; some (record b { points = ps }))
    else none
deserialize b _ = none
