-- ===== src/Tests/Cluster.antt =====
-- A cluster of three nodes, one of them disabled.
use btrdb_server.Base.{
  ℕ, ◌*◌, ◌≡◌, ◌≢◌, refl, true, false, some, List, [], ◌∷◌, arith, ◌>>=◌, ◌==◌, if◌then◌else◌,
}
use btrdb_server.Cluster.{we_hold_write_lock_for}
use btrdb_server.Cluster.Members.{
  highest, scan_active, leader_scan, Member, active_members, is_in, proposed_mash_number,
  ideal_leader,
}
use btrdb_server.Cluster.Mash.{
  equivalent, total_weight, gap_from, hand_out, members_in, sort_shares, fits_next, insert_share,
  Share, ideal_mash, gap,
}
use btrdb_server.Cluster.Mash.Tiles.{Tiles, ideal_mash-Tiles}
use btrdb_server.Cluster.Space.{
  intermediate, clear_of, trim, get_our_range_at, all_clear, trimmed, trim_all,
  intersect_with_free_space, compatible_intermediate_mash,
}
use btrdb_server.Cluster.Space.Parts.{Separate}
use btrdb_server.Cluster.Space.Handover.{
  compatible_intermediate_mash-Separate, compatible_intermediate_mash-twice,
}
use btrdb_server.Base.Word.{add64, div64}
use btrdb_server.Cluster.Protocol.{
  propose, put_leader, put_mash, wants_to_lead, is_leader, has_leader, takes_over, IsUnraced,
  all_current, mash_at, active_number, set, Cluster, new_cluster, query_cluster_state,
  state_changed, put_active, Proposes, proposes, reads, changes, puts_active, leads, IsReachable,
  start, next,
}
use btrdb_server.Cluster.Protocol.Exclusive.{holds_write_lock, IsReachable-exclusive}

abbrev murmur : ℕ → ℕ
murmur n = n * 1000

abbrev members : List Member
members =
    record { nodename = 2; enabled = true; is_in_cluster = true; active = 4; weight = 5 }
    ∷ record { nodename = 3; enabled = false; is_in_cluster = true; active = 4; weight = 9 }
    ∷ record { nodename = 1; enabled = true; is_in_cluster = true; active = 3; weight = 3 }
    ∷ []

abbrev share : ℕ → ℕ → ℕ → ℕ → Share
share n w s e = record {
  hash = n * 1000;
  nodename = n;
  weight = w;
  range = record { start = s; end = e };
}

abbrev ideal : List Share
ideal = share 1 3 0 1610612736 ∷ share 2 5 1610612736 4294967296 ∷ []

-- Node 2 has most of what node 1 is to get.
abbrev current : List Share
current = share 1 1 0 1000 ∷ share 2 9 1000 4294967296 ∷ []

-- Node 1 does not grow before node 2 has given up its part.
abbrev between : List Share
between = share 1 3 0 1000 ∷ share 2 5 1610612736 4294967296 ∷ []

ideal_mash_run : ideal_mash murmur members ≡ ideal
unfolding ideal_mash hand_out sort_shares members_in is_in insert_share add64 div64 total_weight
ideal_mash_run = refl

proposed_mash_number_run : proposed_mash_number (4 ∷ 3 ∷ []) members ≡ (4, 3, false)
unfolding proposed_mash_number highest scan_active is_in
proposed_mash_number_run = refl

ideal_leader_run : ideal_leader murmur members ≡ 2000
unfolding ideal_leader leader_scan is_in
ideal_leader_run = refl

compatible_run : compatible_intermediate_mash current ideal ≡ some between
unfolding compatible_intermediate_mash intermediate intersect_with_free_space trim_all trim trimmed
    all_clear clear_of gap gap_from fits_next
compatible_run = refl

gap_run : gap between ≡ some 1610611736
unfolding gap gap_from fits_next
gap_run = refl

ideal-Tiles : Tiles 0 ideal
ideal-Tiles = (refl, omega arith, (refl, omega arith, refl))

ideal_mash-Tiles_example : Tiles 0 (ideal_mash murmur members)
unfolding active_members is_in
ideal_mash-Tiles_example =
    ideal_mash-Tiles murmur members (omega arith) (omega arith, (omega arith, (omega arith, tt)))
      (omega arith)

compatible_intermediate_mash-Separate_example :
    (next : List Share) × (compatible_intermediate_mash current ideal ≡ some next)
    × Separate next current
    × Separate next next
compatible_intermediate_mash-Separate_example =
    compatible_intermediate_mash-Separate current ideal ideal-Tiles

compatible_intermediate_mash-twice_example :
    (compatible_intermediate_mash current ideal >>= λ next. compatible_intermediate_mash next ideal)
    ≡ some ideal
compatible_intermediate_mash-twice_example =
    compatible_intermediate_mash-twice current ideal ideal-Tiles

abbrev member_of : ℕ → Member
member_of n = record {
  nodename = n;
  enabled = true;
  is_in_cluster = true;
  active = 0;
  weight = if n == 1 then 3 else 5;
}

abbrev names : List ℕ
names = 1 ∷ 2 ∷ []

abbrev both : (ℕ → Cluster → Cluster) → Cluster → Cluster
both f c = f 2 (f 1 c)

abbrev sees : ℕ → Cluster → Cluster
sees x c = state_changed x (query_cluster_state names x c)

-- Both nodes see the empty map 1 and put its number.
abbrev seen_one : Cluster
seen_one = both sees (new_cluster member_of)

abbrev at_one : Cluster
at_one = both (λ x. put_active x 1 []) seen_one

-- Node 1 takes over the lead and proposes map 2, and both take it on.
abbrev leader_reads : Cluster
leader_reads = query_cluster_state names 1 at_one

abbrev one_leads : Cluster
one_leads = put_leader 1 leader_reads

abbrev proposed_two : Cluster
proposed_two = propose 1 ideal one_leads

abbrev seen_two : Cluster
seen_two = both sees proposed_two

abbrev at_two : Cluster
at_two = both (λ x. put_active x 2 []) seen_two

abbrev settled : Cluster
settled = both sees at_two

abbrev both-IsReachable :
    {c : Cluster}
    → IsReachable murmur names member_of c
    → IsReachable murmur names member_of (both sees c)
both-IsReachable r = next (next (next (next r (reads 1 _)) (changes 1 _)) (reads 2 _)) (changes 2 _)

seen_one_puts : (seen_one.puts 1 ≡ 1 ∷ []) × ((put_active 1 1 [] seen_one).puts 2 ≡ 1 ∷ [])
unfolding state_changed query_cluster_state new_cluster set put_active
seen_one_puts = (refl, refl)

abbrev at_one-IsReachable : IsReachable murmur names member_of at_one
at_one-IsReachable =
    next (next (both-IsReachable start) (puts_active 1 1 [] [] _ seen_one_puts.0))
      (puts_active 2 1 [] [] _ seen_one_puts.1)

one_wants_to_lead :
    (wants_to_lead murmur 1 (leader_reads.cached 1) ≡ true)
    × (is_leader 1 (leader_reads.cached 1).leader ≡ false)
    × (leader_reads.undecided 1 ≡ true)
    × (leader_reads.leader_revision ≡ (leader_reads.cached 1).leader_revision)
    × ((leader_reads.cached 1).mashes ≡ leader_reads.mashes)
unfolding state_changed query_cluster_state put_active set all_current scan_active is_in new_cluster
    wants_to_lead is_leader has_leader
one_wants_to_lead = (refl, refl, refl, refl, refl)

one_holds_the_lead :
    (wants_to_lead murmur 1 (one_leads.cached 1) ≡ true)
    × (one_leads.undecided 1 ≡ true)
    × (one_leads.leader ≡ some 1)
unfolding put_leader state_changed query_cluster_state put_active set all_current scan_active is_in
    new_cluster wants_to_lead is_leader has_leader
one_holds_the_lead = (refl, refl, refl)

two_proposed : Proposes murmur names (one_leads.cached 1) ideal
unfolding put_leader state_changed query_cluster_state put_active set all_current scan_active is_in
    new_cluster active_members equivalent mash_at ideal_mash hand_out sort_shares members_in
    insert_share compatible_intermediate_mash intermediate intersect_with_free_space add64 div64
    fits_next gap gap_from total_weight active_number all_clear clear_of trim trim_all trimmed
two_proposed = proposes refl (omega arith) refl refl

seen_two_puts : (seen_two.puts 1 ≡ 2 ∷ []) × ((put_active 1 2 [] seen_two).puts 2 ≡ 2 ∷ [])
unfolding state_changed query_cluster_state put_active set new_cluster propose put_mash put_leader
seen_two_puts = (refl, refl)

abbrev proposed_two-IsReachable : IsReachable murmur names member_of proposed_two
proposed_two-IsReachable =
    next
      (next (next at_one-IsReachable (reads 1 at_one)) (
        takes_over 1 leader_reads one_wants_to_lead.2 one_wants_to_lead.0 one_wants_to_lead.1
          one_wants_to_lead.3))
      (leads 1 ideal one_leads one_holds_the_lead.1 one_holds_the_lead.0 one_holds_the_lead.2
        two_proposed)

abbrev settled-IsReachable : IsReachable murmur names member_of settled
settled-IsReachable = both-IsReachable (
    next
      (next (both-IsReachable proposed_two-IsReachable) (puts_active 1 2 [] [] _ seen_two_puts.0))
      (puts_active 2 2 [] [] _ seen_two_puts.1))

settled-IsUnraced : IsUnraced murmur names settled-IsReachable
settled-IsUnraced = search (one_wants_to_lead.4)

settled_run : holds_write_lock murmur names settled 1 500 ≡ true
unfolding state_changed we_hold_write_lock_for get_our_range_at mash_at query_cluster_state
    put_active set active_number scan_active is_in new_cluster propose put_mash put_leader
settled_run = refl

IsReachable-exclusive_example : holds_write_lock murmur names settled 2 500 ≢ true
IsReachable-exclusive_example =
    IsReachable-exclusive murmur names member_of (omega arith, (omega arith, tt)) (omega arith)
      (λ x n a b e. omega (arith, e)) settled-IsReachable settled-IsUnraced 1 2 500 (omega arith)
      refl refl settled_run
