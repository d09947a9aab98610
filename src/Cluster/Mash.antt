-- ===== src/Cluster/Mash.antt =====
-- MASHMap of internal/configprovider/clustering.go: which node owns which range. The parallel slices Hashes,
-- Nodenames, Weights and Ranges are one list of entries, since the code appends to all of them in step. Weights
-- are int64, the products and places of IdealMash wrap around as in the code.
pub mod Tiles
use btrdb_server.Base.{
  ℕ, zero, suc, ◌+◌, ◌*◌, ◌%◌, ◌-◌, ◌^◌, Bool, true, false, ◌&&◌, Option, none, some, List, [], ◌∷◌,
  ltb, ◌==◌, if◌then◌else◌, ◌>>=◌,
}
use btrdb_server.Base.Word.{add64, div64}
use btrdb_server.Cluster.{MashRange, hashrange_end}
use btrdb_server.Cluster.Members.{Member, is_in}

pub record Share : Type 0 where
  pub hash : ℕ
  pub nodename : ℕ
  pub weight : ℕ
  pub range : MashRange

-- sort.Sort by Hashes.
unfoldable pub insert_share : Share → List Share → List Share
insert_share s [] = s ∷ []
insert_share s (t ∷ ts) = if ltb t.hash s.hash then t ∷ insert_share s ts else s ∷ t ∷ ts

unfoldable pub sort_shares : List Share → List Share
sort_shares [] = []
sort_shares (s ∷ ss) = insert_share s (sort_shares ss)

unfoldable pub total_weight : List Share → ℕ
total_weight [] = 0
total_weight (s ∷ ss) = add64 s.weight (total_weight ss)

-- The loop of IdealMash that hands out the ranges from loc on. The last one ends at the end.
unfoldable pub hand_out : ℕ → ℕ → List Share → List Share
hand_out total loc [] = []
hand_out total loc (s ∷ []) = record s { range = record { start = loc; end = hashrange_end } } ∷ []
hand_out total loc (s ∷ t ∷ ss) =
    let next = add64 loc (div64 (s.weight * 2 ^ 32 % 2 ^ 64) total) in
    record s { range = record { start = loc; end = next } } ∷ hand_out total next (t ∷ ss)

-- Equivalent.
unfoldable pub equivalent : List Share → List Share → Bool
equivalent [] [] = true
equivalent [] (t ∷ ts) = false
equivalent (s ∷ ss) [] = false
equivalent (s ∷ ss) (t ∷ ts) =
    (s.nodename == t.nodename)
    && (s.range.start == t.range.start)
    && (s.range.end == t.range.end)
    && equivalent ss ts

-- The checks AB and AC of Gap, against the range behind or the end.
unfoldable pub fits_next : MashRange → List Share → Bool
fits_next r [] = if ltb hashrange_end r.end then false else true
fits_next r (t ∷ ts) =
    if t.range.start == t.range.end then true else if ltb t.range.start r.end then false else true

-- Gap; `none` is a Fault, which panics.
unfoldable pub gap_from : ℕ → List Share → Option ℕ
gap_from lastend [] = some (hashrange_end - lastend)
gap_from lastend (s ∷ ss) =
    let skipped = gap_from lastend ss in
    let rest = gap_from s.range.end ss in
    if s.range.start == s.range.end
    then skipped
    else if ltb s.range.start lastend
    then none
    else if fits_next s.range ss
    then (rest >>= λ g. some (s.range.start - lastend + g))
    else none

unfoldable pub gap : List Share → Option ℕ
gap ss = gap_from 0 ss

module _ (murmur : ℕ → ℕ) where
  -- The members that are in, with no range yet.
  unfoldable pub members_in : List Member → List Share
  members_in [] = []
  members_in (m ∷ ms) =
      let rest = members_in ms in
      if is_in m
      then record {
        hash = murmur m.nodename;
        nodename = m.nodename;
        weight = m.weight;
        range = record { start = 0; end = 0 };
      }
        ∷ rest
      else rest

  unfoldable pub ideal_mash : List Member → List Share
  ideal_mash ms = let ss = members_in ms in hand_out (total_weight ss) 0 (sort_shares ss)
