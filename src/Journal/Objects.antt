-- ===== src/Journal/Objects.antt =====
-- The journal objects of one node: markOrDeleteReleasedRangeLockHeld, releaseJournalEntriesLockHeld and the
-- attributes that beginNewObject sets, of internal/cephprovider/jprovider.go. The objects stand in descending
-- order of their first checkpoint, the order in which the code walks through them after it has sorted their
-- names. Ceph's calls succeed. The map of ranges is a list: its order is one of those in which Go may walk
-- through the map.
pub mod Cover
pub mod Above
pub mod Zero
pub mod Release
use btrdb_server.Base.{
  ℕ, zero, suc, Bool, true, false, ◌&&◌, Option, none, some, List, [], ◌∷◌, ltb, leb, if◌then◌else◌,
  length, ◌>>=◌,
}
use btrdb_server.Cluster.{MashRange, union}

abbrev pub max_distinct_ranges : ℕ
max_distinct_ranges = 64

-- An object with the checkpoints of its records, and its two attributes.
pub record Object : Type 0 where
  pub starting_checkpoint : ℕ
  pub checkpoints : List ℕ
  pub range : MashRange
  pub relrange : List MashRange

-- beginNewObject: sixteen zero bytes are the range (0, 0).
unfoldable pub begin_new_object : ℕ → MashRange → Object
begin_new_object next_cp rng = record {
  starting_checkpoint = next_cp;
  checkpoints = [];
  range = rng;
  relrange = record { start = 0; end = 0 } ∷ [];
}

-- The first range that touches lhs: the union, and the other ranges.
unfoldable pub absorb : MashRange → List MashRange → Option (MashRange × List MashRange)
absorb lhs [] = none
absorb lhs (rhs ∷ rs) = elim (union lhs rhs) [
  | some u ↦ some (u, rs)
  | none ↦ absorb lhs rs >>= λ t. some (t.0, rhs ∷ t.1)
]

-- A round of findingchanges; `none` if nothing changes.
unfoldable pub finding_changes : List MashRange → Option (List MashRange)
finding_changes [] = none
finding_changes (lhs ∷ rs) = elim (absorb lhs rs) [
  | some t ↦ some (t.0 ∷ t.1)
  | none ↦ finding_changes rs >>= λ rest. some (lhs ∷ rest)
]

-- The loop, on fuel. Each round takes one range away.
unfoldable pub collapse : ℕ → List MashRange → List MashRange
collapse zero rs = rs
collapse (suc fuel) rs = elim (finding_changes rs) [ none ↦ rs | some rs' ↦ collapse fuel rs' ]

unfoldable pub must_delete : MashRange → List MashRange → Bool
must_delete fullrange [] = false
must_delete fullrange (r ∷ []) = leb fullrange.end r.end && leb r.start fullrange.start
must_delete fullrange (r ∷ s ∷ rs) = false

pub data Marked : Type 0 where
  deleted : Marked
  marked : List MashRange → Marked
  panicked : Marked

unfoldable pub mark_or_delete : MashRange → MashRange → List MashRange → Marked
mark_or_delete rng fullrange relrange =
    let ranges = collapse (length (rng ∷ relrange)) (rng ∷ relrange) in
    if ltb max_distinct_ranges (length ranges)
    then panicked
    else if must_delete fullrange ranges
    then deleted
    else marked ranges

-- The object after the mark, in front of those behind it. `none` is the panic.
unfoldable pub put_marked : Object → Marked → Option (List Object) → Option (List Object)
put_marked o deleted rest = rest
put_marked o (marked rs) rest = rest >>= λ os. some (record o { relrange = rs } ∷ os)
put_marked o panicked rest = none

-- The walk behind the object that starts at lastcp.
unfoldable pub release_before : ℕ → MashRange → ℕ → List Object → Option (List Object)
release_before upto rng lastcp [] = some []
release_before upto rng lastcp (o ∷ os) =
    let rest = release_before upto rng o.starting_checkpoint os in
    if leb lastcp upto
    then put_marked o (mark_or_delete rng o.range o.relrange) rest
    else (rest >>= λ os'. some (o ∷ os'))

-- ReleaseJournalEntries up to a checkpoint, exclusively.
unfoldable pub release_journal_entries : ℕ → MashRange → List Object → Option (List Object)
release_journal_entries upto rng [] = some []
release_journal_entries upto rng (o ∷ os) =
    release_before upto rng o.starting_checkpoint os >>= λ rest. some (o ∷ rest)
