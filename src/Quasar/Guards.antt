-- ===== src/Quasar/Guards.antt =====
-- The guards of InsertValues, writePrimaryStorage, Flush, DeleteRange and of the queries in quasar.go, up to
-- the call that does the work.
pub mod Accepts
pub mod Windows
use btrdb_server.Base.{
  ℕ, ◌+◌, ◌-◌, ◌*◌, ◌%◌, ◌^◌, Bool, true, false, not, ◌&&◌, ◌||◌, Option, none, some, List, [], ◌∷◌,
  ltb, leb, ◌==◌, ◌>>=◌, if◌then◌else◌, length,
}
use btrdb_server.Base.Word.{sub64, neg64, is_neg}
use btrdb_server.Qtree.Node.{Rec}
use btrdb_server.Pqm.{Stream, Calls, Result, ok, err, insert, flush, query_version}
use btrdb_server.Quasar.{
  minimum_time, maximum_time, Code, wrong_endpoint, invalid_time_range, bad_value,
  invalid_point_width, invalid_versions, tree_record,
}

-- What a write answers: a refusal, or what the PQM answers.
pub data Answer : Type 0 where
  refused : Code → Answer
  answered : Result → Answer

-- What a query does: it is refused, it runs from start to end, or the code panics.
pub data Query : Type 0 where
  refused : Code → Query
  runs : ℕ → ℕ → Query
  panics : Query

module _ {V : Type 0} (is_nan is_inf : V → Bool) where
  unfoldable pub check_record : Rec V → Option Code
  check_record r =
      if ltb r.time minimum_time || leb (maximum_time - 1) r.time
      then some invalid_time_range
      else if is_nan r.val
      then some bad_value
      else if is_inf r.val
      then some bad_value
      else none

  -- The loop of InsertValues of the tree, which panics on an infinite or undefined value and on a time out of
  -- range: none is the panic. Otherwise the records go on with the times that the tree's model has.
  unfoldable pub to_tree : List (Rec V) → Option (List (Rec V))
  to_tree [] = some []
  to_tree (v ∷ records) =
      let rest = to_tree records in
      if is_inf v.val || is_nan v.val
      then none
      else if ltb v.time minimum_time || leb maximum_time v.time
      then none
      else (rest >>= λ rs. some (tree_record v ∷ rs))

  -- The first record that is bad decides.
  unfoldable pub check_records : List (Rec V) → Option Code
  check_records [] = none
  check_records (r ∷ rs) = elim (check_record r) [ some c ↦ some c | none ↦ check_records rs ]

  unfoldable pub insert_values : Bool → Calls → List (Rec V) → Stream V → Answer × Stream V
  insert_values holds calls rs s =
      if holds
      then elim (check_records rs) [
        | some c ↦ (Answer.refused c, s)
        | none ↦
            if length rs == 0
            then (answered (ok (query_version s).0 (query_version s).1), s)
            else (answered (insert calls rs s).0, (insert calls rs s).1)
      ]
      else (Answer.refused wrong_endpoint, s)

unfoldable pub flush_stream : {V : Type 0} → Bool → Calls → Stream V → Answer × Stream V
flush_stream holds calls s =
    if holds
    then (answered (flush calls s).0, (flush calls s).1)
    else (Answer.refused wrong_endpoint, s)

-- The tests on the range that every query makes.
unfoldable pub check_range : ℕ → ℕ → Query
check_range start end =
    if ltb start minimum_time || leb maximum_time end
    then refused invalid_time_range
    else if leb end start
    then refused invalid_time_range
    else runs start end

-- `latest` is gen == LatestGeneration.
unfoldable pub query_values_stream : Bool → Bool → ℕ → ℕ → Query
query_values_stream holds latest start end =
    if ltb start minimum_time || leb maximum_time end
    then refused invalid_time_range
    else if leb end start
    then refused invalid_time_range
    else if latest && not holds
    then refused wrong_endpoint
    else runs start end

-- t &^ ((1 << pointwidth) - 1)
unfoldable pub align : ℕ → ℕ → ℕ
align t pointwidth = t - t % 2 ^ pointwidth

unfoldable pub query_statistical_values_stream : Bool → Bool → ℕ → ℕ → ℕ → Query
query_statistical_values_stream holds latest start end pointwidth =
    if ltb 63 pointwidth
    then refused invalid_point_width
    else if latest && not holds
    then refused wrong_endpoint
    else check_range (align start pointwidth) (sub64 (align end pointwidth) 1)

-- x % n for an int64 x in two's complement: the sign is that of x. An n of 2 ^ 63 is the least int64.
unfoldable pub rem64 : ℕ → ℕ → ℕ
rem64 x n = if is_neg x then neg64 (neg64 x % n) else x % n

-- A width of 0 is a division by zero.
unfoldable pub query_window : Bool → Bool → ℕ → ℕ → ℕ → ℕ → Query
query_window holds latest start end width depth =
    if ltb 63 depth
    then refused invalid_point_width
    else if ltb (2 ^ 63) width
    then refused invalid_point_width
    else if latest && not holds
    then refused wrong_endpoint
    else if width == 0
    then panics
    else check_range start (sub64 end (rem64 (sub64 end start) width))

unfoldable pub query_nearest_value : Bool → Bool → ℕ → Query
query_nearest_value holds latest time =
    if ltb time minimum_time || leb maximum_time time
    then refused invalid_time_range
    else if latest && not holds
    then refused wrong_endpoint
    else runs time time

-- The guards of QueryChangedRanges, which runs from one version to another.
unfoldable pub check_versions : Bool → Bool → ℕ → ℕ → ℕ → Query
check_versions holds latest startgen endgen resolution =
    let startgen' = if startgen == 0 then 1 else startgen in
    if ltb 63 resolution
    then refused invalid_point_width
    else if latest && not holds
    then refused wrong_endpoint
    else if ltb endgen startgen'
    then refused invalid_versions
    else runs startgen' endgen

unfoldable pub delete_range : Bool → ℕ → ℕ → Query
delete_range holds start end = if holds then check_range start end else refused wrong_endpoint
