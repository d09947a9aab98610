-- ===== src/Cluster.antt =====
-- internal/configprovider: the shares of the hash space that the nodes of a cluster own. A node is known by
-- its name, a number here that stands for the string. Places in the hash space are the non-negative int64
-- that the code keeps them in, up to HASHRANGE_END.
pub mod Members
pub mod Mash
pub mod Space
pub mod Protocol
use btrdb_server.Base.{
  ℕ, ◌^◌, ◌≤◌, ◌<◌, Bool, true, false, ◌&&◌, ◌||◌, Option, none, some, ltb, leb, ◌==◌,
  if◌then◌else◌,
}

abbrev pub hashrange_end : ℕ
hashrange_end = 2 ^ 32

pub record MashRange : Type 0 where
  pub start : ℕ
  pub end : ℕ

-- Whether the hash h lies in the range.
abbrev pub In : ℕ → MashRange → Type 0
In h r = (r.start ≤ h) × (h < r.end)

-- Equal, with a nil rhs as `none`; the receiver is not nil.
unfoldable pub equal : MashRange → Option MashRange → Bool
equal mr none = false
equal mr (some rhs) = (mr.start == rhs.start) && (mr.end == rhs.end)

-- Union: of ranges that share a place or touch.
unfoldable pub union : MashRange → MashRange → Option MashRange
union mr rhs =
    if ltb mr.end rhs.start || ltb rhs.end mr.start
    then none
    else some (record {
      start = if ltb rhs.start mr.start then rhs.start else mr.start;
      end = if ltb mr.end rhs.end then rhs.end else mr.end;
    })

-- SuperSetOfUUID, of the UUID's hash.
unfoldable pub super_set_of : MashRange → ℕ → Bool
super_set_of mr hsh = leb mr.start hsh && ltb hsh mr.end

-- WeHoldWriteLockFor, with OurRanges and the UUID's hash.
unfoldable pub we_hold_write_lock_for : MashRange → MashRange → ℕ → Bool
we_hold_write_lock_for active proposed hsh =
    (leb active.start hsh && ltb hsh active.end) && (leb proposed.start hsh && ltb hsh proposed.end)
