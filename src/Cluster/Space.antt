-- ===== src/Cluster/Space.antt =====
-- IntersectWithFreeSpace and CompatibleIntermediateMash of internal/configprovider/clustering.go.
pub mod Free
pub mod Parts
pub mod Handover
use btrdb_server.Base.{
  ℕ, ◌-◌, Bool, true, false, ◌&&◌, ◌||◌, Option, none, some, List, [], ◌∷◌, ltb, leb, ◌==◌,
  if◌then◌else◌, ◌>>=◌,
}
use btrdb_server.Cluster.{MashRange}
use btrdb_server.Cluster.Mash.{Share, gap}

-- What a round of the loop does: it goes on with rv, it returns rv, or it calls Fault.
pub data Round : Type 0 where
  go_on : MashRange → Round
  return : MashRange → Round
  fault : Round

-- After a trim: an empty range stands at the start of r.
unfoldable pub trimmed : MashRange → ℕ → ℕ → Round
trimmed r start end =
    if leb end start
    then return (record { start = r.start; end = r.start })
    else go_on (record { start = start; end = end })

-- A round for one entry of mm, in the order of the code's tests.
unfoldable pub trim : MashRange → ℕ → Share → MashRange → Round
trim r excluding s rv =
    if s.hash == excluding
    then go_on rv
    else if s.range.start == s.range.end
    then go_on rv
    else if leb s.range.end rv.start || leb rv.end s.range.start
    then go_on rv
    else if ltb rv.start s.range.end && leb s.range.start rv.start
    then trimmed r s.range.end rv.end
    else if leb rv.start s.range.start && leb s.range.end rv.end
    then if ltb (rv.end - s.range.end) (s.range.start - rv.start)
      then trimmed r rv.start s.range.start
      else trimmed r s.range.end rv.end
    else if ltb s.range.start rv.end && leb rv.end s.range.end
    then trimmed r rv.start s.range.start
    else if ltb rv.start r.start || ltb r.end rv.end || leb rv.end rv.start
    then fault
    else go_on rv

unfoldable pub trim_all : MashRange → ℕ → List Share → MashRange → Option MashRange
trim_all r excluding [] rv = some rv
trim_all r excluding (s ∷ mm) rv = elim (trim r excluding s rv) [
  | go_on rv' ↦ trim_all r excluding mm rv'
  | return rv' ↦ some rv'
  | fault ↦ none
]

-- `none` is a Fault.
unfoldable pub intersect_with_free_space : List Share → MashRange → ℕ → Option MashRange
intersect_with_free_space mm r excluding =
    if r.start == r.end then some r else trim_all r excluding mm r

-- The ranges of the returned map.
unfoldable pub intermediate : List Share → List Share → Option (List Share)
intermediate current [] = some []
intermediate current (s ∷ ideal) = intersect_with_free_space current s.range s.hash >>= λ rv.
    intermediate current ideal >>= λ rest. some (record s { range = rv } ∷ rest)

-- The sanity check BA of one entry of the returned map.
unfoldable pub clear_of : Share → List Share → Bool
clear_of n [] = true
clear_of n (c ∷ current) =
    (leb c.range.end n.range.start
      || leb n.range.end c.range.start
      || (n.hash == c.hash)
      || (c.range.start == c.range.end))
    && clear_of n current

unfoldable pub all_clear : List Share → List Share → Bool
all_clear [] current = true
all_clear (n ∷ next) current =
    (if n.range.start == n.range.end then true else clear_of n current) && all_clear next current

-- CompatibleIntermediateMash; `none` is a Fault, also that of the Gap it prints.
unfoldable pub compatible_intermediate_mash : List Share → List Share → Option (List Share)
compatible_intermediate_mash current ideal = intermediate current ideal >>= λ next.
    if all_clear next current then (gap next >>= λ g. some next) else none

-- getOurRangeAt, from the MASHMap at that number; a node that it does not name has the empty range.
unfoldable pub get_our_range_at : List Share → ℕ → MashRange
get_our_range_at [] nodehash = record { start = 0; end = 0 }
get_our_range_at (s ∷ pm) nodehash =
    let rest = get_our_range_at pm nodehash in if s.hash == nodehash then s.range else rest
