-- ===== src/Bstore/Delta/Coder.antt =====
-- About the delta coder of internal/bstore/blocktypes.go and its decoder.
use btrdb_server.Base.{ℕ, ◌+◌, ◌*◌, ◌^◌, ◌≤◌, ◌<◌, ◌≡◌, arith}
use btrdb_server.Base.Word.{
  Within, sub64, add64-sub64_left, add64-sub64_right, sub64-IsWord, small_difference,
}
use btrdb_server.Bstore.Delta.{
  Deltarizer, new_deltarizer, push_delta, deltarize, dedeltarize, average,
}
use btrdb_server.Bstore.Delta.Average.{
  ThreeWithin, ThreeWithin-set, ThreeWithin-no_deltas, average-Within, cap_deltas-le, sub64-Within,
}

-- A closure that has been given values up to b only.
pub record IsBounded (b : ℕ) (d : Deltarizer) : Type 0 where
  pub deltas : ThreeWithin b d.hist_delta
  pub few : d.depth ≤ 3
  pub index : d.insidx < 3
  pub last : d.last_value ≤ b

pub IsBounded-new : (b : ℕ) → IsBounded b new_deltarizer
unfolding new_deltarizer
IsBounded-new b = record {
  deltas = ThreeWithin-no_deltas b;
  few = omega arith;
  index = omega arith;
  last = omega arith;
}

module _ (b : ℕ) (small : 2 * b < 2 ^ 63) (d : Deltarizer) (ok : IsBounded b d) (v : ℕ)
    (hv : v ≤ b) where
  delta_Within : Within b (sub64 v d.last_value)
  delta_Within = small_difference b v d.last_value (omega arith) hv ok.last

  average_bound : Within b (average d.depth d.hist_delta)
  average_bound = average-Within b d.depth d.hist_delta small ok.few ok.deltas

  pub deltarize-Within : Within (b + b) (deltarize d v).0
  unfolding deltarize
  deltarize-Within = sub64-Within b b _ _ (omega arith) delta_Within average_bound

  pub deltarize-IsBounded : IsBounded b (deltarize d v).1
  unfolding deltarize push_delta
  deltarize-IsBounded = record {
    deltas = ThreeWithin-set b d.hist_delta d.insidx _ ok.deltas delta_Within;
    few = cap_deltas-le _;
    index = omega arith;
    last = hv;
  }

  -- For a closure that has been given values up to b only, with 2 * b < 2 ^ 63, and a value up to b, the decoding
  -- closure in the same state returns the value, and both are in the same state again.
  pub dedeltarize-deltarize : dedeltarize d (deltarize d v).0 ≡ (v, (deltarize d v).1)
  unfolding dedeltarize deltarize
  dedeltarize-deltarize = rw (
    add64-sub64_left _ (average d.depth d.hist_delta) (sub64-IsWord v d.last_value)
        (omega (arith, average_bound)),
    add64-sub64_right d.last_value v (omega arith) (omega (arith, ok.last)),
  )
