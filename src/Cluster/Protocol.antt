-- ===== src/Cluster/Protocol.antt =====
-- The nodes of a cluster as a step relation: stateChanged and doLeaderStuff of
-- internal/configprovider/clustering.go. A node reads etcd, takes its ranges from what it read, starts to notify
-- its watchers, and later puts its active number; a leader proposes the next map from what it read. These
-- interleave in any order. The maps stand with the newest first, and the number of the newest is their number.
-- The ranges of a node are looked up by number among the maps in etcd, which are those that it read as long as no
-- map is written twice. stateChanged runs once for each state that is read, so that a node proposes at
-- most one map for each. No member is taken in or out by an operator, and none loses its lease; a node has active
-- number 0 until its first put.
pub mod Shares
pub mod Kept
pub mod Follows
pub mod Led
pub mod Leads
pub mod Exclusive
use btrdb_server.Base.{
  none, not, ◌&&◌, ◌||◌, ℕ, suc, ◌≡◌, ◌≢◌, ◌<◌, Bool, true, false, Option, some, List, [], ◌∷◌,
  ◌++◌, ltb, ◌==◌, if◌then◌else◌, length, map,
}
use btrdb_server.Cluster.Members.{Member, is_in, scan_active, active_members, ideal_leader}
use btrdb_server.Cluster.Mash.{Share, ideal_mash, equivalent}
use btrdb_server.Cluster.Space.{compatible_intermediate_mash}

-- MashAt: the map of that number.
unfoldable pub mash_at : ℕ → List (List Share) → List Share
mash_at v [] = []
mash_at v (m ∷ ms) = let rest = mash_at v ms in if v == length (m ∷ ms) then m else rest

-- The cached ClusterState: the members, the maps, the number of the newest, and the leader key.
pub record Cached : Type 0 where
  pub members : List Member
  pub mashes : List (List Share)
  pub proposed : ℕ
  pub leader : Option ℕ
  pub leader_revision : ℕ

-- The revision of the leader key grows with each put. A node is undecided from a read until its proposal.
pub record Cluster : Type 0 where
  pub mashes : List (List Share)
  pub leader : Option ℕ
  pub leader_revision : ℕ
  pub member : ℕ → Member
  pub cached : ℕ → Cached
  pub our_active : ℕ → ℕ
  pub our_proposed : ℕ → ℕ
  pub puts : ℕ → List ℕ
  pub undecided : ℕ → Bool

-- After setDefaultNodeKeys and before any node has read the state: map 1 is empty.
unfoldable pub new_cluster : (ℕ → Member) → Cluster
new_cluster members = record {
  mashes = [] ∷ [];
  leader = none;
  leader_revision = 0;
  member = λ x. record (members x) { nodename = x; active = 0 };
  cached =
      λ x. record { members = []; mashes = []; proposed = 0; leader = none; leader_revision = 0 };
  our_active = λ x. 0;
  our_proposed = λ x. 0;
  puts = λ x. [];
  undecided = λ x. false;
}

-- A field of one node.
unfoldable pub set {ℓ} : {A : Type ℓ} → ℕ → A → (ℕ → A) → ℕ → A
set x a f y = if x == y then a else f y

-- The active number and allmax of ProposedMashNumber.
unfoldable pub active_number : Cached → ℕ
active_number s = (scan_active s.proposed s.members (0, true, 0)).0

unfoldable pub all_current : Cached → Bool
all_current s =
    let (active, allsame, count) = scan_active s.proposed s.members (0, true, 0) in
    if count == 0 then false else allsame

unfoldable pub query_cluster_state : List ℕ → ℕ → Cluster → Cluster
query_cluster_state names x c = record c {
  cached =
      set x
        (record {
          members = map c.member names;
          mashes = c.mashes;
          proposed = length c.mashes;
          leader = c.leader;
          leader_revision = c.leader_revision;
        })
        c.cached;
  undecided = set x true c.undecided;
}

-- stateChanged, without the part of the leader.
unfoldable pub state_changed : ℕ → Cluster → Cluster
state_changed x c =
    let s = c.cached x in
    record c {
      our_active = set x (active_number s) c.our_active;
      our_proposed = set x s.proposed c.our_proposed;
      puts =
          if ltb (c.member x).active s.proposed
          then set x (s.proposed ∷ c.puts x) c.puts
          else c.puts;
    }

-- The goroutine behind the notifications puts the active number; the others stay.
unfoldable pub put_active : ℕ → ℕ → List ℕ → Cluster → Cluster
put_active x k others c = record c {
  member = set x (record (c.member x) { active = k }) c.member;
  puts = set x others c.puts;
}

-- s.Leader == c.nodename
unfoldable pub is_leader : ℕ → Option ℕ → Bool
is_leader x none = false
is_leader x (some y) = y == x

unfoldable pub has_leader : Option ℕ → Bool
has_leader none = false
has_leader (some y) = true

-- s.Members[c.nodename].IsIn()
unfoldable pub is_in_at : ℕ → List Member → Bool
is_in_at x [] = false
is_in_at x (m ∷ ms) = if m.nodename == x then is_in m else is_in_at x ms

-- The test of stateChanged in front of doLeaderStuff.
unfoldable pub wants_to_lead : (ℕ → ℕ) → ℕ → Cached → Bool
wants_to_lead murmur x s =
    all_current s
    && (not (has_leader s.leader)
        || (is_leader x s.leader
            || (ideal_leader murmur s.members == murmur x && is_in_at x s.members)))

-- The put of the leader key.
unfoldable pub put_leader : ℕ → Cluster → Cluster
put_leader x c = record c { leader = some x; leader_revision = suc c.leader_revision }

unfoldable pub is_named : ℕ → List Share → Bool
is_named n [] = false
is_named n (s ∷ ss) = if s.nodename == n then true else is_named n ss

-- The ranges of the nodes that next does not name stay where a map is written again.
unfoldable pub overwrite : List Share → List Share → List Share
overwrite next [] = next
overwrite next (s ∷ ss) =
    let rest = overwrite next ss in if is_named s.nodename next then rest else s ∷ rest

-- The puts of the leader's transaction: the map of number n.
unfoldable pub put_mash : ℕ → List Share → List (List Share) → List (List Share)
put_mash n next [] = next ∷ []
put_mash n next (m ∷ ms) =
    let rest = put_mash n next ms in
    if ltb (length (m ∷ ms)) n
    then next ∷ m ∷ ms
    else if n == length (m ∷ ms)
    then overwrite next m ∷ ms
    else m ∷ rest

unfoldable pub propose : ℕ → List Share → Cluster → Cluster
propose x next c = record c {
  mashes = put_mash (suc (c.cached x).proposed) next c.mashes;
  undecided = set x false c.undecided;
}

module _ (murmur : ℕ → ℕ) (names : List ℕ) where
  -- What doLeaderStuff needs for its second transaction, and what that writes. Its sanity check holds if all are
  -- current, since no map has a higher number than the newest.
  pub data Proposes (s : Cached) (next : List Share) : Type 0 where
    proposes :
        all_current s ≡ true
        → 0 < active_members s.members
        → equivalent (mash_at s.proposed s.mashes) (ideal_mash murmur s.members) ≡ false
        → compatible_intermediate_mash (mash_at s.proposed s.mashes) (ideal_mash murmur s.members)
          ≡ some next
        → Proposes s next

  pub data Step : Cluster → Cluster → Type 0 where
    reads : (x : ℕ) (c : Cluster) → Step c (query_cluster_state names x c)
    changes : (x : ℕ) (c : Cluster) → Step c (state_changed x c)
    puts_active :
        (x k : ℕ) (before after : List ℕ) (c : Cluster)
        → c.puts x ≡ before ++ k ∷ after
        → Step c (put_active x k (before ++ after) c)
    -- The first transaction compares the revision of the leader key with the one that was read.
    takes_over :
        (x : ℕ) (c : Cluster)
        → c.undecided x ≡ true
        → wants_to_lead murmur x (c.cached x) ≡ true
        → is_leader x (c.cached x).leader ≡ false
        → c.leader_revision ≡ (c.cached x).leader_revision
        → Step c (put_leader x c)
    -- The second one compares its value with the name of the node.
    leads :
        (x : ℕ) (next : List Share) (c : Cluster)
        → c.undecided x ≡ true
        → wants_to_lead murmur x (c.cached x) ≡ true
        → c.leader ≡ some x
        → Proposes (c.cached x) next
        → Step c (propose x next c)

  pub data IsReachable (members : ℕ → Member) : Cluster → Type 0 where
    start : IsReachable members (new_cluster members)
    next : {c c' : Cluster} → IsReachable members c → Step c c' → IsReachable members c'

  -- Whether no map has been written between the read and the takeover of a new leader. The code does not test it.
  abbrev pub IsUnracedStep : {c c' : Cluster} → Step c c' → Type 0
  IsUnracedStep (reads x c) = Unit {0}
  IsUnracedStep (changes x c) = Unit {0}
  IsUnracedStep (puts_active x k before after c e) = Unit {0}
  IsUnracedStep (takes_over x c u w l e) = (c.cached x).mashes ≡ c.mashes
  IsUnracedStep (leads x m c u w l e) = Unit {0}

  abbrev pub IsUnraced : {members : ℕ → Member} {c : Cluster} → IsReachable members c → Type 0
  IsUnraced start = Unit {0}
  IsUnraced (next r s) = IsUnraced r × IsUnracedStep s
