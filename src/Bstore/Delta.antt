-- ===== src/Bstore/Delta.antt =====
-- The average of the last deltas, as Serialize and Deserialize of internal/bstore/blocktypes.go
-- compute it for both block types. A slice of int64 is a list of words.
pub mod Average
pub mod Coder
use btrdb_server.Base.{ℕ, zero, suc, ◌==◌, List, [], ◌∷◌, if◌then◌else◌, ltb, replicate, set, ◌%◌}
use btrdb_server.Base.Word.{add64, sub64, div64}

abbrev pub delta_depth : ℕ
delta_depth = 3

-- make([]int64, delta_depth)
abbrev pub no_deltas : List ℕ
no_deltas = replicate 3 0

-- for d := 0; d < deltas; d++ { total += hist[d] }
unfoldable pub sum_deltas : ℕ → List ℕ → ℕ → ℕ
sum_deltas zero hist total = total
sum_deltas (suc d) [] total = total
sum_deltas (suc d) (x ∷ hist) total = sum_deltas d hist (add64 total x)

-- The average that both sides take off and add back; 0 while there are no deltas.
unfoldable pub average : ℕ → List ℕ → ℕ
average deltas hist = if deltas == 0 then 0 else div64 (sum_deltas deltas hist 0) deltas

-- if num_deltas > delta_depth { delta_depth } else { num_deltas }
unfoldable pub cap_deltas : ℕ → ℕ
cap_deltas num_deltas = if ltb delta_depth num_deltas then delta_depth else num_deltas

-- delta_idx++; if delta_idx == delta_depth { delta_idx = 0 }
unfoldable pub next_idx : ℕ → ℕ
next_idx delta_idx = if suc delta_idx == delta_depth then 0 else suc delta_idx

-- What the closures deltadeltarizer and dedeltadeltarizer of the core block keep.
pub record Deltarizer : Type 0 where
  pub hist_delta : List ℕ
  pub depth : ℕ
  pub insidx : ℕ
  pub last_value : ℕ

unfoldable pub new_deltarizer : Deltarizer
new_deltarizer = record { hist_delta = no_deltas; depth = 0; insidx = 0; last_value = 0 }

-- The delta enters the history and the value becomes the last one.
unfoldable pub push_delta : Deltarizer → ℕ → ℕ → Deltarizer
push_delta d curdelta value = record {
  hist_delta = set d.hist_delta d.insidx curdelta;
  depth = cap_deltas (suc d.depth);
  insidx = suc d.insidx % delta_depth;
  last_value = value;
}

-- dd(value): the delta delta, and the state after it.
unfoldable pub deltarize : Deltarizer → ℕ → ℕ × Deltarizer
deltarize d value =
    let curdelta = sub64 value d.last_value in
    (sub64 curdelta (average d.depth d.hist_delta), push_delta d curdelta value)

-- decode(dd): the value, and the state after it.
unfoldable pub dedeltarize : Deltarizer → ℕ → ℕ × Deltarizer
dedeltarize d dd =
    let curdelta = add64 (average d.depth d.hist_delta) dd in
    let curvalue = add64 d.last_value curdelta in (curvalue, push_delta d curdelta curvalue)
