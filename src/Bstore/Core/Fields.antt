-- ===== src/Bstore/Core/Fields.antt =====
-- About one flagged number and one float of a Coreblock of internal/bstore/blocktypes.go.
use mathlib.Core.List.{append_assoc}
use native.Mathlib.Nat.{mod-eq_of_lt}
use btrdb_server.Base.{
  ℕ, ◌+◌, ◌-◌, ◌%◌, ◌^◌, ◌≤◌, ◌<◌, ◌≡◌, ◌≢◌, some, List, ◌++◌, arith, true, false, ◌==◌,
  if◌then◌else◌,
}
use btrdb_server.Base.Word.{IsWord, Within, shl64, sar64}
use btrdb_server.Bstore.Float.{decompose, decompose_bounds, recompose-decompose}
use btrdb_server.Bstore.Delta.{Deltarizer, deltarize}
use btrdb_server.Bstore.Delta.Coder.{
  IsBounded, deltarize-Within, deltarize-IsBounded, dedeltarize-deltarize,
}
use btrdb_server.Bstore.Vector.Step.{read_write, read_nonzero-write}
use btrdb_server.Bstore.Core.{flag_bit, write_float, read_float, after_e, after_m}

pub flag_bit_fields :
    (dd other : ℕ)
    → Within (2 ^ 62 - 1) dd
    → (sar64 (flag_bit dd other) 1 ≡ dd)
      × ((flag_bit dd other % 2 == 1) ≡ (if other == 0 then false else true))
      × IsWord (flag_bit dd other)
      × (flag_bit dd other ≢ 2 ^ 63)
unfolding flag_bit sar64 shl64
flag_bit_fields dd other h = (ground arith, ground arith, ground arith, ground arith)

-- A delta delta below the least int64 in size survives the signed code.
pub Within-IsWord : (b w : ℕ) → b < 2 ^ 63 → Within b w → IsWord w × (w ≢ 2 ^ 63)
Within-IsWord b w h k = (ground arith, ground arith)

module _ (dd_m dd_e : Deltarizer) (ok_m : IsBounded (2 ^ 56 - 1) dd_m) (ok_e : IsBounded 4095 dd_e)
    (v : ℕ) (hv : IsWord v) where
  mantissa_le : (decompose v).1 ≤ 2 ^ 56 - 1
  mantissa_le = omega (arith, (decompose_bounds v hv).1)

  exponent_le : (decompose v).0 ≤ 4095
  exponent_le = omega (arith, (decompose_bounds v hv).0)

  mantissa_Within : Within (2 ^ 56 - 1 + (2 ^ 56 - 1)) (deltarize dd_m (decompose v).1).0
  mantissa_Within = deltarize-Within _ (omega arith) dd_m ok_m _ mantissa_le

  exponent_Within : Within (4095 + 4095) (deltarize dd_e (decompose v).0).0
  exponent_Within = deltarize-Within _ (omega arith) dd_e ok_e _ exponent_le

  pub after_m-IsBounded : IsBounded (2 ^ 56 - 1) (after_m dd_m v)
  unfolding after_m
  after_m-IsBounded = deltarize-IsBounded _ (omega arith) dd_m ok_m _ mantissa_le

  pub after_e-IsBounded : IsBounded 4095 (after_e dd_e v)
  unfolding after_e
  after_e-IsBounded = deltarize-IsBounded _ (omega arith) dd_e ok_e _ exponent_le

  pub read_float-write :
      (rest : List ℕ)
      → read_float dd_m dd_e (write_float dd_m dd_e v ++ rest)
        ≡ some ((v, after_m dd_m v, after_e dd_e v), rest)
  unfolding read_float write_float after_e after_m
  read_float-write rest =
      let (word, bit, w, k) =
        flag_bit_fields (deltarize dd_m (decompose v).1).0 (deltarize dd_e (decompose v).0).0
          (omega (arith, mantissa_Within)) in
      let (we, ke) = Within-IsWord _ _ (omega arith) exponent_Within in
      rw (
        append_assoc,
        read_write _ _ w k,
        read_nonzero-write (deltarize dd_e (decompose v).0).0 _ rest we ke bit,
        word,
        dedeltarize-deltarize _ (omega arith) dd_m ok_m _ mantissa_le,
        dedeltarize-deltarize _ (omega arith) dd_e ok_e _ exponent_le,
        mod-eq_of_lt fits,
        recompose-decompose v hv,
      )
    where
      fits : (decompose v).0 < 2 ^ 16
      fits = omega (arith, exponent_le)
