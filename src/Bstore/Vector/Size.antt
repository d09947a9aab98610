-- ===== src/Bstore/Vector/Size.antt =====
-- About the length of a serialized Vectorblock of internal/bstore/blocktypes.go.
use btrdb_server.Base.{
  ℕ, zero, suc, ◌-◌, ◌*◌, ◌^◌, ◌≤◌, ◌<◌, ◌≡◌, List, [], ◌∷◌, arith, length, length-append, All,
}
use btrdb_server.Base.Word.{Within, neg64, shl64}
use btrdb_server.Bstore.Consts.{vsize, dbsize}
use btrdb_server.Bstore.Huff.{put_rest, write_signed_huff, write_unsigned_huff}
use btrdb_server.Bstore.Float.{decompose, decompose_bounds}
use btrdb_server.Bstore.Vector.{
  Deltas, Point, Vectorblock, encode_record, encode_records, write_nonzero, write_record, flag_word,
  write_points, serialize,
}
use btrdb_server.Bstore.Vector.RoundTrip.{
  IsCoded, IsPoint, IsCoded-start, encode_record-IsCoded, dde_Within,
}

length-put_rest : (v n : ℕ) → length (put_rest v n) ≡ n
unfolding put_rest
length-put_rest v zero = omega arith
length-put_rest v (suc n) = omega (arith, length-put_rest v n)

length-write_unsigned :
    (v : ℕ)
    → (length (write_unsigned_huff v) ≤ 9)
      × (v < 2 ^ 14 → length (write_unsigned_huff v) ≤ 2)
      × (v < 2 ^ 58 → length (write_unsigned_huff v) ≤ 8)
unfolding write_unsigned_huff
length-write_unsigned v = ground (
  arith,
  length-put_rest v 1,
  length-put_rest v 2,
  length-put_rest v 3,
  length-put_rest v 4,
  length-put_rest v 5,
  length-put_rest v 6,
  length-put_rest v 7,
  length-put_rest v 8,
)

pub length-write_signed : (v : ℕ) → length (write_signed_huff v) ≤ 9
unfolding write_signed_huff
length-write_signed v = (length-write_unsigned _).0

length-write_signed_small : (v : ℕ) → Within 8190 v → length (write_signed_huff v) ≤ 2
unfolding write_signed_huff
length-write_signed_small v h = (length-write_unsigned _).1 (unfold neg64 shl64 in ground arith)

length-write_nonzero : (v b : ℕ) → length (write_signed_huff v) ≤ b → length (write_nonzero v) ≤ b
unfolding write_nonzero
length-write_nonzero v b h = ground arith

length-write_record : (ddm dde ddt : ℕ) → Within 8190 dde → length (write_record ddm dde ddt) ≤ 20
unfolding write_record
length-write_record ddm dde ddt h =
    rw (length-append, length-append)
      (omega (
        arith,
        length-write_signed (flag_word ddm dde ddt),
        length-write_nonzero dde 2 (length-write_signed_small dde h),
        length-write_nonzero ddt 9 (length-write_signed ddt),
      ))

pub length-encode_records :
    (s : Deltas) (ps : List Point)
    → IsCoded s
    → All IsPoint ps
    → length (encode_records s ps) ≤ 20 * length ps
unfolding encode_records
length-encode_records s [] ok h = omega arith
length-encode_records s ((t, v) ∷ ps) ok ((ht, hv), h) = rw length-append (
    omega (
      arith,
      one,
      length-encode_records (encode_record s t v).0 ps (encode_record-IsCoded s ok t v ht hv) h,
    ))
  where
    one : length (encode_record s t v).1 ≤ 20
    one = unfold encode_record in length-write_record _ _ _ (dde_Within s ok t v ht hv)

length-write_points :
    (ps : List Point) → All IsPoint ps → length (write_points ps) ≤ 20 * length ps - 1
unfolding write_points
length-write_points [] h = omega arith
length-write_points ((t, v) ∷ ps) ((ht, hv), h) =
    let (e_lt, m_lt) = decompose_bounds v hv in
    rw (length-append, length-append, length-append)
      (omega (
        arith,
        (length-write_unsigned (decompose v).1).2 (omega arith),
        (length-write_unsigned (decompose v).0).1 (omega arith),
        (length-write_unsigned t).0,
        length-encode_records _ ps (IsCoded-start t _ _ ht e_lt m_lt) h,
      ))

-- A block of at most VSIZE points is never longer than DBSIZE bytes, so no write leaves the buffer.
pub length-serialize :
    (b : Vectorblock)
    → length b.points ≤ vsize
    → All IsPoint b.points
    → length (serialize b) ≤ dbsize
unfolding serialize
length-serialize b h p = omega (arith, length-write_points b.points p)
