-- ===== src/Cluster/Members.antt =====
-- Member and the questions that ClusterState answers about its members: IsIn, ProposedMashNumber, IdealLeader
-- and ActiveMembers. The members stand in the order in which the code's map yields them. The hash of a name is
-- murmur's, a parameter.
use btrdb_server.Base.{
  ℕ, ◌+◌, Bool, true, false, not, ◌&&◌, ◌||◌, List, [], ◌∷◌, ltb, ◌==◌, if◌then◌else◌,
}

pub record Member : Type 0 where
  pub nodename : ℕ
  pub enabled : Bool
  pub is_in_cluster : Bool
  pub active : ℕ
  pub weight : ℕ

unfoldable pub is_in : Member → Bool
is_in m = m.is_in_cluster && m.enabled && not (m.active == 0) && not (m.weight == 0)

-- The highest key of Mashes.
unfoldable pub highest : ℕ → List ℕ → ℕ
highest max [] = max
highest max (k ∷ ks) = highest (if ltb max k then k else max) ks

-- The loop of ProposedMashNumber over the members: active, allsame and count.
unfoldable pub scan_active : ℕ → List Member → ℕ × Bool × ℕ → ℕ × Bool × ℕ
scan_active max [] acc = acc
scan_active max (m ∷ ms) (active, allsame, count) = scan_active max ms (
    if is_in m
    then (
      if active == 0 || ltb m.active active then m.active else active,
      if m.active == max then allsame else false,
      count + 1,
    )
    else (active, allsame, count))

-- ProposedMashNumber, from the keys of Mashes and the members.
unfoldable pub proposed_mash_number : List ℕ → List Member → ℕ × ℕ × Bool
proposed_mash_number mashes members =
    let max = highest 0 mashes in
    let (active, allsame, count) = scan_active max members (0, true, 0) in
    (max, active, if count == 0 then false else allsame)

unfoldable pub active_members : List Member → ℕ
active_members [] = 0
active_members (m ∷ ms) = (if is_in m then 1 else 0) + active_members ms

module _ (murmur : ℕ → ℕ) where
  unfoldable pub leader_scan : ℕ → List Member → ℕ
  leader_scan max [] = max
  leader_scan max (m ∷ ms) =
      let h = murmur m.nodename in
      leader_scan (if is_in m then (if ltb max h then h else max) else max) ms

  unfoldable pub ideal_leader : List Member → ℕ
  ideal_leader ms = leader_scan 0 ms
