-- ===== src/Cluster/Protocol/Follows.antt =====
-- About the reads, stateChanged and the puts of a node of internal/configprovider/clustering.go and what they keep.
use mathlib.Core.Path.{subst}
use btrdb_server.Base.{
  ℕ, ◌<◌, ◌≤◌, ◌≡◌, refl, sym, ◌^◌, true, List, ◌∷◌, ◌++◌, arith, All, All-imp, ltb, ltb→lt,
  if_both, length,
}
use btrdb_server.Cluster.Members.{Member, is_in}
use btrdb_server.Cluster.Mash.Tiles.{member_weights}
use btrdb_server.Cluster.Protocol.{Cached, Cluster, query_cluster_state, state_changed, put_active}
use btrdb_server.Cluster.Protocol.Shares.{has_in}
use btrdb_server.Cluster.Protocol.Kept.{
  is_name, Known, Kept, Known-mono, Current-mono, set-case, All-map, all_names, has_in-map,
  set_same, is_in-active, All-split, member_weights-map,
}

module _ (murmur : ℕ → ℕ) (names : List ℕ) where
  pub reads-Kept :
      (x : ℕ) (c : Cluster)
      → Kept murmur names c
      → Kept murmur names (query_cluster_state names x c)
  unfolding query_cluster_state
  reads-Kept x c k = record {
    own_name = k.own_name;
    own_active = k.own_active;
    own_puts = k.own_puts;
    own_cached =
        set-case (λ y (s : Cached). c.our_proposed y ≤ s.proposed) x _ c.cached
          (omega (arith, k.own_cached x, k.not_ahead x)) k.own_cached;
    not_ahead =
        set-case (λ y (s : Cached). s.proposed ≤ length c.mashes) x _ c.cached (omega arith)
          k.not_ahead;
    known =
        set-case (λ y (s : Cached). All (Known names c') s.members) x _ c.cached
          (All-map (Known names c') c.member names (All-imp own_known names (all_names names)))
          (λ y.
            All-imp (Known-mono murmur names c c' (λ n. omega arith) (λ n e. e))
              (c.cached y).members (k.known y));
    current =
        All-imp
          (All-imp (Current-mono murmur names c c' (λ n. omega arith) (λ n e. e) (omega arith)))
          c.mashes k.current;
    members_read =
        set-case
          (λ y (s : Cached).
            s.proposed ≡ length c.mashes
            → All (All (λ t. has_in t.nodename s.members ≡ true)) c.mashes)
          x _ c.cached
          (λ _.
            All-imp
              (All-imp
                (λ t cur. has_in-map c.member t.nodename names k.own_name cur.named cur.within))
              c.mashes k.current)
          k.members_read;
    chain = k.chain;
    small =
        set-case
          (λ y (s : Cached).
            All (λ m. m.weight < 2 ^ 31) s.members × (member_weights s.members < 2 ^ 63))
          x _ c.cached
          (All-map (λ m. m.weight < 2 ^ 31) c.member names k.own_small.0, k.own_small.1) k.small;
    own_small = k.own_small;
  }
    where
      c' : Cluster
      c' = query_cluster_state names x c

      own_known : (n : ℕ) → is_name n names ≡ true → Known names c' (c.member n)
      own_known n e = record {
        active_seen = rw (k.own_name n) (k.own_active n);
        still_in = λ h. rw (k.own_name n) h;
        listed = rw (k.own_name n) e;
      }

  pub changes-Kept :
      (x : ℕ) (c : Cluster) → Kept murmur names c → Kept murmur names (state_changed x c)
  unfolding state_changed
  changes-Kept x c k = record {
    own_name = k.own_name;
    own_active = λ y. omega (arith, k.own_active y, up y);
    own_puts =
        if_both (λ (f : ℕ → List ℕ). (y : ℕ) → All (λ j. (1 ≤ j) × (j ≤ c'.our_proposed y)) (f y))
          (ltb (c.member x).active (c.cached x).proposed)
          (λ e.
            set-case (λ y (js : List ℕ). All (λ j. (1 ≤ j) × (j ≤ c'.our_proposed y)) js) x _ c.puts
              (
                (
                  omega (arith, ltb→lt (c.member x).active (c.cached x).proposed e),
                  omega (arith, set_same x (c.cached x).proposed c.our_proposed),
                ),
                old x,
              )
              old)
          (λ _. old);
    own_cached =
        set-case (λ y (n : ℕ). n ≤ (c.cached y).proposed) x _ c.our_proposed (omega arith)
          k.own_cached;
    not_ahead = k.not_ahead;
    known =
        λ y. All-imp (Known-mono murmur names c c' up (λ n e. e)) (c.cached y).members (k.known y);
    current =
        All-imp (All-imp (Current-mono murmur names c c' up (λ n e. e) (omega arith))) c.mashes
          k.current;
    members_read = k.members_read;
    chain = k.chain;
    small = k.small;
    own_small = k.own_small;
  }
    where
      c' : Cluster
      c' = state_changed x c

      up : (y : ℕ) → c.our_proposed y ≤ c'.our_proposed y
      up =
          set-case (λ y (n : ℕ). c.our_proposed y ≤ n) x _ c.our_proposed (k.own_cached x)
            (λ y. omega arith)

      old : (y : ℕ) → All (λ j. (1 ≤ j) × (j ≤ c'.our_proposed y)) (c.puts y)
      old y = All-imp (λ j h. (h.0, omega (arith, h.1, up y))) (c.puts y) (k.own_puts y)

  pub puts-Kept :
      (x j : ℕ) (before after : List ℕ) (c : Cluster)
      → c.puts x ≡ before ++ j ∷ after
      → Kept murmur names c
      → Kept murmur names (put_active x j (before ++ after) c)
  unfolding put_active
  puts-Kept x j before after c e k = record {
    own_name = set-case (λ y (m : Member). m.nodename ≡ y) x _ c.member (k.own_name x) k.own_name;
    own_active =
        set-case (λ y (m : Member). m.active ≤ c.our_proposed y) x _ c.member here.0.1 k.own_active;
    own_puts =
        set-case (λ y (js : List ℕ). All (λ i. (1 ≤ i) × (i ≤ c.our_proposed y)) js) x _ c.puts
          here.1 k.own_puts;
    own_cached = k.own_cached;
    not_ahead = k.not_ahead;
    known = λ y.
        All-imp (Known-mono murmur names c c' (λ n. omega arith) stays) (c.cached y).members
          (k.known y);
    current =
        All-imp (All-imp (Current-mono murmur names c c' (λ n. omega arith) stays (omega arith)))
          c.mashes k.current;
    members_read = k.members_read;
    chain = k.chain;
    small = k.small;
    own_small = (
      All-imp (λ n w. subst (λ (i : ℕ). i < 2 ^ 31) (sym (same n)) w) names k.own_small.0,
      subst (λ (i : ℕ). i < 2 ^ 63) (sym (member_weights-map c.member c'.member names same))
          k.own_small.1,
    );
  }
    where
      c' : Cluster
      c' = put_active x j (before ++ after) c

      here :
          ((1 ≤ j) × (j ≤ c.our_proposed x))
          × All (λ i. (1 ≤ i) × (i ≤ c.our_proposed x)) (before ++ after)
      here =
          All-split (λ i. (1 ≤ i) × (i ≤ c.our_proposed x)) before j after
            (subst (All (λ i. (1 ≤ i) × (i ≤ c.our_proposed x))) e (k.own_puts x))

      stays : (n : ℕ) → is_in (c.member n) ≡ true → is_in (c'.member n) ≡ true
      stays =
          set-case (λ y (m : Member). is_in (c.member y) ≡ true → is_in m ≡ true) x _ c.member
            (is_in-active (c.member x) j here.0.0) (λ y h. h)

      same : (n : ℕ) → (c'.member n).weight ≡ (c.member n).weight
      same =
          set-case (λ y (m : Member). m.weight ≡ (c.member y).weight) x _ c.member refl (λ y. refl)
