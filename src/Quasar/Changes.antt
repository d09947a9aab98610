-- ===== src/Quasar/Changes.antt =====
-- The ranges that QueryChangedRanges of quasar.go answers with: the loop that joins what FindChangedSince sends,
-- GetChangedRanges of pqm.go for the buffer, and mergeChangedRanges over both. Every range from the tree is
-- valid.
pub mod Correct
use btrdb_server.Base.{
  ℕ, ◌+◌, ◌-◌, ◌*◌, ◌%◌, ◌^◌, Bool, Option, none, some, List, [], ◌∷◌, ltb, ◌==◌, if◌then◌else◌,
  length,
}
use btrdb_server.Base.Word.{add64}
use btrdb_server.Qtree.Node.{Rec}
use btrdb_server.Merger.Ranges.{ChangedRange, merge_changed_ranges}

-- The loop, with lr.
unfoldable pub coalesce : Option ChangedRange → List ChangedRange → List ChangedRange
coalesce none [] = []
coalesce (some lr) [] = lr ∷ []
coalesce none (cr ∷ rch) = coalesce (some cr) rch
coalesce (some lr) (cr ∷ rch) =
    let joined = coalesce (some (record lr { end = cr.end })) rch in
    let sent = lr ∷ coalesce (some cr) rch in if cr.start == lr.end then joined else sent

-- The range of 1 << resolution that a record lies in; its end wraps around.
unfoldable pub range_of : {V : Type 0} → ℕ → Rec V → ChangedRange
range_of resolution e =
    let start = e.time - e.time % 2 ^ resolution in
    record { start = start; end = add64 start (2 ^ resolution) }

-- The map crz, kept in the order in which sort.Sort leaves the slice.
unfoldable pub put_range : ChangedRange → List ChangedRange → List ChangedRange
put_range r [] = r ∷ []
put_range r (c ∷ crz) =
    if ltb c.start r.start
    then c ∷ put_range r crz
    else if c.start == r.start
    then r ∷ crz
    else r ∷ c ∷ crz

unfoldable pub get_changed_ranges : {V : Type 0} → ℕ → List (Rec V) → List ChangedRange
get_changed_ranges resolution [] = []
get_changed_ranges resolution (e ∷ buf) =
    put_range (range_of resolution e) (get_changed_ranges resolution buf)

-- The answer for the latest version, from what FindChangedSince sends and the buffer; the fuel is that of
-- mergeChangedRanges.
unfoldable pub query_changed_ranges :
    {V : Type 0} → ℕ → ℕ → List ChangedRange → List (Rec V) → Option (List ChangedRange)
query_changed_ranges fuel resolution rch buf =
    merge_changed_ranges fuel none (coalesce none rch) (get_changed_ranges resolution buf)
