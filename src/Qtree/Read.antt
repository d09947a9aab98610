-- ===== src/Qtree/Read.antt =====
-- ReadStandardValuesCI of qtree/qtree.go: the records that it sends on its channel, in order.
-- `none` is one of its panics. The context is not cancelled and every block loads.
pub mod Correct
use btrdb_server.Base.{
  ℕ, zero, suc, ◌+◌, Bool, ◌&&◌, Option, none, some, List, [], ◌∷◌, ◌++◌, ltb, leb, if◌then◌else◌,
  ◌>>=◌,
}
use btrdb_server.Bstore.Consts.{kfactor}
use btrdb_server.Qtree.Node.{Rec, Header, Node, Slots, leaf, core, nil, hole, child}
use btrdb_server.Qtree.Window.{clamp_bucket, end_time}
use btrdb_server.Qtree.Leaf.{read_leaf}

-- sbuck and ebuck, with the two panics of the core case.
unfoldable pub first_bucket : Header → ℕ → Option ℕ
first_bucket h start =
    if ltb h.start start
    then if leb (end_time h) start then none else some (clamp_bucket h start)
    else some 0

unfoldable pub last_bucket : Header → ℕ → Option ℕ
last_bucket h end =
    if ltb end (end_time h)
    then if ltb end h.start then none else some (clamp_bucket h end + 1)
    else some kfactor

unfoldable mutual
  pub read : {V : Type 0} → ℕ → ℕ → Node V → Option (List (Rec V))
  read start end (leaf h rs) = if leb end start then none else some (read_leaf start end rs)
  read start end (core h sl) =
      if leb end start
      then none
      else (do sb ← first_bucket h start; eb ← last_bucket h end; read_slots start end sb eb 0 sl)

  -- for buck := sbuck; buck < ebuck; buck++, over the entries from index i on.
  pub read_slots : {V : Type 0} → ℕ → ℕ → ℕ → ℕ → ℕ → Slots V → Option (List (Rec V))
  read_slots start end sb eb i nil = some []
  read_slots start end sb eb i (hole g sl) = read_slots start end sb eb (suc i) sl
  read_slots start end sb eb i (child st g n sl) =
      if leb sb i && ltb i eb
      then (do
        rs ← read start end n
        more ← read_slots start end sb eb (suc i) sl
        some (rs ++ more))
      else read_slots start end sb eb (suc i) sl
