-- ===== src/Cluster/Protocol/Exclusive.antt =====
-- About the write lock in every state that the nodes of internal/configprovider/clustering.go reach.
use mathlib.Core.Path.{subst}
use btrdb_server.Base.{
  ℕ, suc, ◌<◌, ◌≤◌, ◌≡◌, ◌≢◌, ◌⊎◌, refl, sym, ap, ◌∙◌, ◌^◌, Bool, true, false, List, [], ◌∷◌, arith,
  All, ◌==◌, ==_iff, if_both, Bool-cases, inl, inr, length, map,
}
use btrdb_server.Cluster.{MashRange, In, we_hold_write_lock_for}
use btrdb_server.Cluster.Members.{Member}
use btrdb_server.Cluster.Mash.{Share}
use btrdb_server.Cluster.Mash.Tiles.{member_weights}
use btrdb_server.Cluster.Space.{get_our_range_at}
use btrdb_server.Cluster.Space.Parts.{Separate}
use btrdb_server.Cluster.Space.Handover.{holds, Separate-at}
use btrdb_server.Cluster.Protocol.{
  mash_at, Cluster, new_cluster, IsReachable, IsUnraced, start, next,
}
use btrdb_server.Cluster.Protocol.Shares.{Named}
use btrdb_server.Cluster.Protocol.Kept.{is_name, Chain, Current, Kept}
use btrdb_server.Cluster.Protocol.Led.{IsLed, IsCounted}
use btrdb_server.Cluster.Protocol.Leads.{Step-Kept}

Separate-nil : (m : List Share) → Separate m []
Separate-nil [] = tt
Separate-nil (s ∷ m) = (tt, Separate-nil m)

mash_at-top : (m : List Share) (ms : List (List Share)) → mash_at (suc (length ms)) (m ∷ ms) ≡ m
unfolding mash_at
mash_at-top m ms = rw ((==_iff (suc (length ms)) (suc (length ms))).1 refl) refl

mash_at-below :
    (m : List Share) (ms : List (List Share))
    → mash_at (length ms) (m ∷ ms) ≡ mash_at (length ms) ms
unfolding mash_at
mash_at-below m ms = rw (other) refl
  where
    other : (length ms == length (m ∷ ms)) ≡ false
    other = ground arith

-- The two newest maps are apart from one another and in themselves.
newest_apart :
    (m : List Share) (ms : List (List Share))
    → Chain (m ∷ ms)
    → Separate m m
      × Separate m (mash_at (length ms) ms)
      × Separate (mash_at (length ms) ms) (mash_at (length ms) ms)
unfolding mash_at
newest_apart m [] c = (c, Separate-nil m, tt)
newest_apart m (p ∷ []) c = rw (mash_at-top p []) (c.0, c.1, c.2)
newest_apart m (p ∷ q ∷ ms) c = rw (mash_at-top p (q ∷ ms)) (c.0, c.1, c.2.0)

at_newest :
    (u : ℕ) (m : List Share) (ms : List (List Share))
    → u ≤ suc (length ms)
    → suc (length ms) ≤ suc u
    → (mash_at u (m ∷ ms) ≡ m) ⊎ (mash_at u (m ∷ ms) ≡ mash_at (length ms) ms)
at_newest u m ms a d = elim (Bool-cases (u == suc (length ms))) [
  | inl e ↦
      inl (ap (λ (k : ℕ). mash_at k (m ∷ ms)) ((==_iff u (suc (length ms))).0 e) ∙ mash_at-top m ms)
  | inr e ↦
      let same : u ≡ length ms = ground (arith, e) in
      inr (ap (λ (k : ℕ). mash_at k (m ∷ ms)) same ∙ mash_at-below m ms)
]

Chain-apart :
    (ms : List (List Share)) (u v : ℕ)
    → Chain ms
    → u ≤ length ms
    → v ≤ length ms
    → length ms ≤ suc u
    → length ms ≤ suc v
    → Separate (mash_at u ms) (mash_at v ms) ⊎ Separate (mash_at v ms) (mash_at u ms)
unfolding mash_at
Chain-apart [] u v c a b d e = inl tt
Chain-apart (m ∷ ms) u v c a b d e = from _ _ (at_newest u m ms a d) (at_newest v m ms b e)
  where
    from :
        (x y : List Share)
        → (x ≡ m) ⊎ (x ≡ mash_at (length ms) ms)
        → (y ≡ m) ⊎ (y ≡ mash_at (length ms) ms)
        → Separate x y ⊎ Separate y x
    from x y (inl p) (inl q) = inl (rw (p, q) (newest_apart m ms c).0)
    from x y (inl p) (inr q) = inl (rw (p, q) (newest_apart m ms c).1)
    from x y (inr p) (inl q) = inr (rw (p, q) (newest_apart m ms c).1)
    from x y (inr p) (inr q) = inl (rw (p, q) (newest_apart m ms c).2)

mash_at-All :
    (P : List Share → Type 0) (v : ℕ) (ms : List (List Share)) → P [] → All P ms → P (mash_at v ms)
unfolding mash_at
mash_at-All P v [] p a = p
mash_at-All P v (m ∷ ms) p a =
    if_both P (v == length (m ∷ ms)) (λ _. a.0) (λ _. mash_at-All P v ms p a.1)

we_hold-proposed :
    (active proposed : MashRange) (h : ℕ)
    → we_hold_write_lock_for active proposed h ≡ true
    → In h proposed
unfolding we_hold_write_lock_for
we_hold-proposed active proposed h e = ground arith

module _ (murmur : ℕ → ℕ) (names : List ℕ) where
  start-Kept :
      (members : ℕ → Member)
      → All (λ n. (members n).weight < 2 ^ 31) names
      → member_weights (map members names) < 2 ^ 63
      → Kept murmur names (new_cluster members)
  unfolding new_cluster
  start-Kept members w t = record {
    own_name = λ x. refl;
    own_active = λ x. omega arith;
    own_puts = λ x. tt;
    own_cached = λ x. omega arith;
    not_ahead = λ x. omega arith;
    known = λ x. tt;
    current = (tt, tt);
    members_read = λ x e. (tt, tt);
    chain = tt;
    small = λ x. (tt, omega arith);
    own_small = (w, subst (λ (i : ℕ). i < 2 ^ 63) (sym (weights-same names)) t);
  }
    where
      weights-same :
          (xs : List ℕ)
          → member_weights (map (new_cluster members).member xs) ≡ member_weights (map members xs)
      weights-same [] = refl
      weights-same (x ∷ xs) = omega (arith, weights-same xs)

  start-IsLed : (members : ℕ → Member) → IsLed (new_cluster members)
  unfolding new_cluster
  start-IsLed members x e u = cc

  start-IsCounted : (members : ℕ → Member) → IsCounted (new_cluster members)
  unfolding new_cluster
  start-IsCounted members x = refl

  IsReachable-Kept :
      (members : ℕ → Member)
      → All (λ n. (members n).weight < 2 ^ 31) names
      → member_weights (map members names) < 2 ^ 63
      → {c : Cluster} (r : IsReachable murmur names members c) → IsUnraced murmur names r
      → Kept murmur names c × IsLed c × IsCounted c
  IsReachable-Kept members w t start u =
      (start-Kept members w t, start-IsLed members, start-IsCounted members)
  IsReachable-Kept members w t (next r s) u =
      let (k, l, n) = IsReachable-Kept members w t r u.0 in
      Step-Kept murmur names _ _ s u.1 k (l, n)

  our_range-Current :
      (c : Cluster) (m : List Share) (x h : ℕ)
      → All (Named (Current murmur names c)) m
      → In h (get_our_range_at m x)
      → (n : ℕ) × Current murmur names c x n
  unfolding get_our_range_at
  our_range-Current c [] x h a i = absurd (omega (arith, i.0, i.1))
  our_range-Current c (s ∷ m) x h a i = elim (Bool-cases (s.hash == x)) [
    | inl e ↦ (
      s.nodename,
      subst (λ (k : ℕ). Current murmur names c k s.nodename) ((==_iff s.hash x).0 e) a.0,
    )
    | inr e ↦ our_range-Current c m x h a.1 (rw e at i)
  ]

  -- The node holds the write lock of the streams with the hash h.
  abbrev pub holds_write_lock : Cluster → ℕ → ℕ → Bool
  holds_write_lock c x h =
      holds (mash_at (c.our_active x) c.mashes) (mash_at (c.our_proposed x) c.mashes) (murmur x) h

  -- A node that holds a write lock took its ranges from the newest map or the one before it.
  holds-recent :
      (c : Cluster) (x h : ℕ)
      → Kept murmur names c
      → ((n : ℕ) → is_name n names ≡ true → murmur x ≡ murmur n → x ≡ n)
      → holds_write_lock c x h ≡ true
      → (c.our_proposed x ≤ length c.mashes)
        × (length c.mashes ≤ suc (c.our_proposed x))
        × In h (get_our_range_at (mash_at (c.our_proposed x) c.mashes) (murmur x))
  holds-recent c x h k one e =
      let i = we_hold-proposed _ _ h e in
      let (n, cur) =
        our_range-Current c (mash_at (c.our_proposed x) c.mashes) (murmur x) h
          (mash_at-All (All (Named (Current murmur names c))) (c.our_proposed x) c.mashes tt
            k.current)
          i in
      let same : x ≡ n = one n cur.named cur.hashed in
      (
        omega (arith, k.own_cached x, k.not_ahead x),
        subst (λ (y : ℕ). length c.mashes ≤ suc (c.our_proposed y)) (sym same) cur.recent,
        i,
      )

  -- In every state that the nodes of a cluster reach, by reading the state, taking their ranges from what they
  -- read, putting their active number, taking over the lead and proposing maps, in any order in which no map is
  -- written between the read of a node and its takeover of the lead, no two nodes hold the write lock of the same
  -- stream, however old the state is that either of them read. The names have different hashes, each weight
  -- is below 2 ^ 31 and all weights together are below 2 ^ 63.
  pub IsReachable-exclusive :
      (members : ℕ → Member)
      → All (λ n. (members n).weight < 2 ^ 31) names
      → member_weights (map members names) < 2 ^ 63
      → ((x n : ℕ) → is_name x names ≡ true → is_name n names ≡ true → murmur x ≡ murmur n → x ≡ n)
      → {c : Cluster} (r : IsReachable murmur names members c) → IsUnraced murmur names r
      → (x y h : ℕ) → x ≢ y
      → is_name x names ≡ true
      → is_name y names ≡ true
      → holds_write_lock c x h ≡ true
      → holds_write_lock c y h ≢ true
  IsReachable-exclusive members w t one {c} r u x y h ne nx ny hx hy =
      let k = (IsReachable-Kept members w t r u).0 in
      let far : murmur x ≢ murmur y = λ q. ne (one x y nx ny q) in
      let (a, b, i) = holds-recent c x h k (λ n. one x n nx) hx in
      let (d, e, j) = holds-recent c y h k (λ n. one y n ny) hy in
      elim (Chain-apart c.mashes (c.our_proposed x) (c.our_proposed y) k.chain a d b e) [
        | inl p ↦ Separate-at _ _ (murmur x) (murmur y) h far p i j
        | inr p ↦ Separate-at _ _ (murmur y) (murmur x) h (λ q. far (sym q)) p j i
      ]
