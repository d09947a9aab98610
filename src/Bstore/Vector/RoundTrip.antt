-- ===== src/Bstore/Vector/RoundTrip.antt =====
-- About Serialize and Deserialize of a Vectorblock in internal/bstore/blocktypes.go, taken together.
use mathlib.Core.List.{append_assoc}
use btrdb_server.Base.{
  ℕ, suc, ◌+◌, ◌-◌, ◌*◌, ◌/◌, ◌%◌, ◌^◌, ◌≤◌, ◌<◌, ◌≡◌, some, List, [], ◌∷◌, ◌++◌, ◌∙◌, ap, arith,
  ◌⊎◌, refl, length, All,
}
use btrdb_server.Base.Word.{
  IsWord, Within, add64, sub64, add64-sub64, add64-sub64_right, sub64-IsWord, small_difference,
}
use btrdb_server.Bstore.Huff.{read_unsigned_huff, write_unsigned_huff}
use native.Mathlib.Nat.{mod-eq_of_lt}
use btrdb_server.Bstore.Huff.RoundTrip.{read_unsigned_huff-write}
use btrdb_server.Bstore.Float.{decompose, decompose_bounds, recompose-decompose}
use btrdb_server.Bstore.Delta.Average.{
  ThreeWithin, ThreeWithin-set, ThreeWithin-no_deltas, average-Within, cap_deltas-le, next_idx-lt,
  sub64-Within,
}
use btrdb_server.Bstore.Vector.{
  Deltas, drop_kind, Point, Vectorblock, avg_t, avg_e, avg_m, start_deltas, push_deltas,
  encode_record, encode_records, decode_record, decode_records, decode_values, write_points,
  read_points, serialize, deserialize,
}
use btrdb_server.Bstore.Vector.Step.{decode_record-write}

-- MinimumTime <= t < MaximumTime of qtree_utils.go, as an int64.
abbrev pub InRange : ℕ → Type 0
InRange t = (t < 3 * 2 ^ 60) ⊎ ((2 ^ 64 ≤ t + 2 ^ 60) × (t < 2 ^ 64))

-- A point that InsertValues accepts: the value is any float64.
abbrev pub IsPoint : Point → Type 0
IsPoint p = InRange p.0 × IsWord p.1

-- What the loops keep: the deltas and the last values lie in the range of their kind.
pub record IsCoded (s : Deltas) : Type 0 where
  pub times : ThreeWithin (2 ^ 62 - 1) s.hist_t
  pub exponents : ThreeWithin 4095 s.hist_e
  pub mantissas : ThreeWithin (2 ^ 56 - 1) s.hist_m
  pub last_time : InRange s.tm1
  pub last_exponent : s.em1 < 4096
  pub last_mantissa : s.mm1 < 2 ^ 56
  pub index : s.delta_idx < 3

time_delta : (t u : ℕ) → InRange t → InRange u → Within (2 ^ 62 - 1) (sub64 t u)
unfolding sub64
time_delta t u p q = ground arith

pub IsCoded-start : (t e m : ℕ) → InRange t → e < 4096 → m < 2 ^ 56 → IsCoded (start_deltas t e m)
unfolding start_deltas
IsCoded-start t e m ht he hm = record {
  times = ThreeWithin-no_deltas _;
  exponents = ThreeWithin-no_deltas _;
  mantissas = ThreeWithin-no_deltas _;
  last_time = ht;
  last_exponent = he;
  last_mantissa = hm;
  index = omega arith;
}

module _ (s : Deltas) (ok : IsCoded s) (t v : ℕ) (ht : InRange t) (hv : IsWord v) where
  abbrev e : ℕ
  e = (decompose v).0

  abbrev m : ℕ
  m = (decompose v).1

  dt_Within : Within (2 ^ 62 - 1) (sub64 t s.tm1)
  dt_Within = time_delta t s.tm1 ht ok.last_time

  de_Within : Within 4095 (sub64 e s.em1)
  de_Within =
      small_difference 4095 e s.em1 (omega arith) (omega (arith, (decompose_bounds v hv).0))
        (omega (arith, ok.last_exponent))

  dm_Within : Within (2 ^ 56 - 1) (sub64 m s.mm1)
  dm_Within =
      small_difference _ m s.mm1 (omega arith) (omega (arith, (decompose_bounds v hv).1))
        (omega (arith, ok.last_mantissa))

  avg_t-Within : Within (2 ^ 62 - 1) (avg_t s)
  avg_t-Within = average-Within _ _ s.hist_t (omega arith) (cap_deltas-le _) ok.times

  avg_e-Within : Within 4095 (avg_e s)
  avg_e-Within = average-Within _ _ s.hist_e (omega arith) (cap_deltas-le _) ok.exponents

  avg_m-Within : Within (2 ^ 56 - 1) (avg_m s)
  avg_m-Within = average-Within _ _ s.hist_m (omega arith) (cap_deltas-le _) ok.mantissas

  pub ddt_Within : Within (2 ^ 63 - 2) (sub64 (sub64 t s.tm1) (avg_t s))
  ddt_Within =
      sub64-Within (2 ^ 62 - 1) (2 ^ 62 - 1) _ (avg_t s) (omega arith) dt_Within avg_t-Within

  pub dde_Within : Within 8190 (sub64 (sub64 e s.em1) (avg_e s))
  dde_Within = sub64-Within 4095 4095 _ (avg_e s) (omega arith) de_Within avg_e-Within

  pub ddm_Within : Within (2 ^ 57 - 2) (sub64 (sub64 m s.mm1) (avg_m s))
  ddm_Within =
      sub64-Within (2 ^ 56 - 1) (2 ^ 56 - 1) _ (avg_m s) (omega arith) dm_Within avg_m-Within

  pub encode_record-IsCoded : IsCoded (encode_record s t v).0
  unfolding encode_record push_deltas
  encode_record-IsCoded = record {
    times = ThreeWithin-set _ s.hist_t s.delta_idx _ ok.times dt_Within;
    exponents = ThreeWithin-set _ s.hist_e s.delta_idx _ ok.exponents de_Within;
    mantissas = ThreeWithin-set _ s.hist_m s.delta_idx _ ok.mantissas dm_Within;
    last_time = ht;
    last_exponent = (decompose_bounds v hv).0;
    last_mantissa = (decompose_bounds v hv).1;
    index = next_idx-lt s.delta_idx ok.index;
  }

  time_back : add64 s.tm1 (add64 (sub64 (sub64 t s.tm1) (avg_t s)) (avg_t s)) ≡ t
  time_back =
      rw (add64-sub64 _ (avg_t s) (sub64-IsWord t s.tm1) (omega (arith, avg_t-Within)))
        (add64-sub64_right s.tm1 t (omega arith) (omega (arith, ok.last_time)))

  values_back :
      decode_values s
        (sub64 (sub64 m s.mm1) (avg_m s))
        (sub64 (sub64 e s.em1) (avg_e s))
        (sub64 (sub64 t s.tm1) (avg_t s))
      ≡ ((encode_record s t v).0, (t, v))
  unfolding decode_values encode_record
  values_back = rw (
    add64-sub64 _ (avg_m s) (sub64-IsWord m s.mm1) (omega (arith, avg_m-Within)),
    add64-sub64 _ (avg_e s) (sub64-IsWord e s.em1) (omega (arith, avg_e-Within)),
    add64-sub64 _ (avg_t s) (sub64-IsWord t s.tm1) (omega (arith, avg_t-Within)),
    add64-sub64_right s.mm1 m (omega (arith, (decompose_bounds v hv).1))
        (omega (arith, ok.last_mantissa)),
    add64-sub64_right s.em1 e (omega (arith, (decompose_bounds v hv).0))
        (omega (arith, ok.last_exponent)),
    add64-sub64_right s.tm1 t (omega arith) (omega (arith, ok.last_time)),
    mod-eq_of_lt (exponent_fits),
    recompose-decompose v hv,
  )
    where
      exponent_fits : e < 2 ^ 16
      exponent_fits = omega (arith, (decompose_bounds v hv).0)

  -- A record is read back, and the decoder's state is then the encoder's.
  pub decode_record-encode :
      (rest : List ℕ)
      → decode_record s ((encode_record s t v).1 ++ rest)
        ≡ some (((encode_record s t v).0, (t, v)), rest)
  decode_record-encode rest =
      unfold encode_record in
      decode_record-write s _ _ _ rest (omega (arith, ddm_Within)) (sub64-IsWord _ (avg_e s))
        (omega (arith, dde_Within)) (sub64-IsWord _ (avg_t s)) (omega (arith, ddt_Within))
      ∙ ap (λ (x : Deltas × Point). some (x, rest)) values_back

-- The loop of Deserialize reads what the loop of Serialize wrote.
pub decode_records-encode :
    (s : Deltas) (ps : List Point) (rest : List ℕ)
    → IsCoded s
    → All IsPoint ps
    → decode_records (length ps) s (encode_records s ps ++ rest) ≡ some ps
unfolding decode_records encode_records
decode_records-encode s [] rest ok h = refl
decode_records-encode s ((t, v) ∷ ps) rest ok ((ht, hv), h) = rw (
  append_assoc,
  decode_record-encode s ok t v ht hv (encode_records (encode_record s t v).0 ps ++ rest),
  decode_records-encode (encode_record s t v).0 ps rest (encode_record-IsCoded s ok t v ht hv) h,
)

read_unsigned :
    (v : ℕ) (rest : List ℕ)
    → IsWord v
    → drop_kind (read_unsigned_huff (write_unsigned_huff v ++ rest)) ≡ some (v, rest)
read_unsigned v rest h = rw (read_unsigned_huff-write v rest h)

read_points-write :
    (t v : ℕ) (ps : List Point) (rest : List ℕ)
    → InRange t
    → IsWord v
    → All IsPoint ps
    → read_points (suc (length ps)) (write_points ((t, v) ∷ ps) ++ rest) ≡ some ((t, v) ∷ ps)
unfolding read_points write_points
read_points-write t v ps rest ht hv h =
    let (e_lt, m_lt) = decompose_bounds v hv in
    rw
      (
        append_assoc,
        append_assoc,
        append_assoc,
        read_unsigned (decompose v).1 _ (omega arith),
        read_unsigned (decompose v).0 _ (omega arith),
        read_unsigned t _ (omega arith),
        one_less (length ps),
        decode_records-encode _ ps rest (IsCoded-start t _ _ ht e_lt m_lt) h,
        mod-eq_of_lt (exponent_fits e_lt),
        recompose-decompose v hv,
      )
      (ground arith)
  where
    one_less : (n : ℕ) → suc n - 1 ≡ n
    one_less n = omega arith

    exponent_fits : (decompose v).0 < 4096 → (decompose v).0 < 2 ^ 16
    exponent_fits l = omega arith

-- The two bytes of Len.
length_bytes : (n : ℕ) → n < 2 ^ 16 → (n % 2 ^ 16 % 256 + n % 2 ^ 16 / 2 ^ 8 * 2 ^ 8) % 2 ^ 16 ≡ n
length_bytes n h = omega arith

read_points-write_points :
    (ps : List Point) (rest : List ℕ)
    → 1 ≤ length ps
    → All IsPoint ps
    → read_points (length ps) (write_points ps ++ rest) ≡ some ps
read_points-write_points [] rest k h = absurd (omega arith)
read_points-write_points ((t, v) ∷ ps) rest k ((ht, hv), h) = read_points-write t v ps rest ht hv h

-- Bit for bit, whatever the block holds: from 1 to 65535 points with times in the range of the tree
-- and any float64 values, and whatever follows in the buffer, come back as they were written. The
-- identifier, the generation and the fields that are not serialised stay those of the block filled.
pub deserialize-serialize :
    (src dst : Vectorblock) (rest : List ℕ)
    → 1 ≤ length src.points
    → length src.points < 2 ^ 16
    → All IsPoint src.points
    → deserialize dst (serialize src ++ rest) ≡ some (record dst { points = src.points })
unfolding deserialize serialize
deserialize-serialize src dst rest low high h =
    rw (length_bytes (length src.points) high, read_points-write_points src.points rest low h)
