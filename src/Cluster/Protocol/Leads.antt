-- ===== src/Cluster/Protocol/Leads.antt =====
-- About doLeaderStuff of internal/configprovider/clustering.go, and what any step keeps.
use mathlib.Core.Path.{subst}
use btrdb_server.Base.{
  ap, refl, suc, some, false, length, ◌++◌, ℕ, ◌≤◌, ◌≡◌, sym, ◌∙◌, Bool, true, ◌&&◌, List, [], ◌∷◌,
  arith, All, All-imp, All-zip, ◌==◌, ==_iff, Bool-cases, inl, inr,
}
use btrdb_server.Cluster.Members.{Member, is_in}
use btrdb_server.Cluster.Mash.{Share, ideal_mash}
use btrdb_server.Cluster.Mash.Tiles.{ideal_mash-Tiles}
use btrdb_server.Cluster.Space.Parts.{Separate}
use btrdb_server.Cluster.Space.Handover.{compatible_intermediate_mash-Separate}
use btrdb_server.Cluster.Protocol.{
  compatible_intermediate_mash, mash_at, Cached, Cluster, Proposes, proposes, Step, reads, changes,
  puts_active, leads, takes_over, set, put_leader, propose, put_mash, IsUnracedStep,
}
use btrdb_server.Cluster.Protocol.Shares.{
  has_in, has_current, Named, FromMember, ideal_mash-Named, compatible_intermediate_mash-Named,
  scan_active-same,
}
use btrdb_server.Cluster.Protocol.Kept.{
  is_name, Known, Current, Kept, Known-mono, Current-mono, all_current-same, Chain-next, some-inj,
}
use btrdb_server.Cluster.Protocol.Led.{
  IsLed, IsCounted, reads-IsLed, changes-IsLed, puts-IsLed, takes_over-IsLed, leads-IsLed,
  Step-IsCounted,
}
use btrdb_server.Cluster.Protocol.Follows.{reads-Kept, changes-Kept, puts-Kept}

module _ (murmur : ℕ → ℕ) (names : List ℕ) where
  -- A member that is in and was current when it was read took its ranges from that map or a later one.
  current-Known :
      (c : Cluster) (max n : ℕ) (ms : List Member)
      → All (Known names c) ms
      → has_current max n ms ≡ true
      → max ≤ c.our_proposed n
  current-Known c max n [] a e = cc
  current-Known c max n (m ∷ ms) a e = elim (Bool-cases ((m.nodename == n) && (m.active == max))) [
    | inl f ↦
        let (p, q) = both (m.nodename == n) (m.active == max) f in
        let same : m.nodename ≡ n = (==_iff m.nodename n).0 p in
        let seen : m.active ≤ c.our_proposed n =
          subst (λ (i : ℕ). m.active ≤ c.our_proposed i) same a.0.active_seen in
        omega (arith, (==_iff m.active max).0 q)
    | inr f ↦ current-Known c max n ms a.1 (rw f at e)
  ]
    where
      both : (a b : Bool) → (a && b) ≡ true → (a ≡ true) × (b ≡ true)
      both a b h = ground arith

  in-Known :
      (c : Cluster) (n : ℕ) (ms : List Member)
      → All (Known names c) ms
      → has_in n ms ≡ true
      → (is_in (c.member n) ≡ true) × (is_name n names ≡ true)
  in-Known c n [] a e = cc
  in-Known c n (m ∷ ms) a e = elim (Bool-cases ((m.nodename == n) && is_in m)) [
    | inl f ↦
        let (p, q) = both (m.nodename == n) (is_in m) f in
        let same : m.nodename ≡ n = (==_iff m.nodename n).0 p in
        (
          subst (λ (i : ℕ). is_in (c.member i) ≡ true) same (a.0.still_in q),
          subst (λ (i : ℕ). is_name i names ≡ true) same a.0.listed,
        )
    | inr f ↦ in-Known c n ms a.1 (rw f at e)
  ]
    where
      both : (a b : Bool) → (a && b) ≡ true → (a ≡ true) × (b ≡ true)
      both a b h = ground arith

  -- The cluster with one more map.
  abbrev appended : ℕ → List Share → Cluster → Cluster
  appended x next c = record c { mashes = next ∷ c.mashes; undecided = set x false c.undecided }

  leads-Kept :
      (x : ℕ) (next : List Share) (c : Cluster)
      → (c.cached x).proposed ≡ length c.mashes
      → (c.cached x).mashes ≡ c.mashes
      → Proposes murmur names (c.cached x) next
      → Kept murmur names c
      → Kept murmur names (appended x next c)
  leads-Kept x next c newest fresh (proposes all act differs e) k = record {
    own_name = k.own_name;
    own_active = k.own_active;
    own_puts = k.own_puts;
    own_cached = k.own_cached;
    not_ahead = λ y. omega (arith, k.not_ahead y);
    known = λ y.
        All-imp (Known-mono murmur names c c' (λ n. omega arith) (λ n h. h)) (c.cached y).members
          (k.known y);
    current = (
      All-imp (λ t h. from_member t.hash t.nodename h.0 h.1) next
          (compatible_intermediate_mash-Named (FromMember murmur s.members)
            (mash_at s.proposed c.mashes) (ideal_mash murmur s.members) next now
            (ideal_mash-Named murmur s.members)),
      All-imp
          (λ m h.
            All-imp (λ t g. from_member t.hash t.nodename g.0.hashed g.1) m
              (All-zip (Named (Current murmur names c)) (λ t. has_in t.nodename s.members ≡ true) m
                h.0 h.1))
          c.mashes
          (All-zip (All (Named (Current murmur names c)))
            (All (λ t. has_in t.nodename s.members ≡ true)) c.mashes k.current
            (k.members_read x newest)),
    );
    members_read = λ y h. absurd (omega (arith, h, k.not_ahead y));
    chain =
        Chain-next next c.mashes apart.1
          (subst (λ (v : ℕ). Separate next (mash_at v c.mashes)) newest apart.0) k.chain;
    small = k.small;
    own_small = k.own_small;
  }
    where
      c' : Cluster
      c' = appended x next c

      s : Cached
      s = c.cached x

      now :
          compatible_intermediate_mash (mash_at s.proposed c.mashes) (ideal_mash murmur s.members)
          ≡ some next
      now =
          subst
            (λ (ms : List (List Share)).
              compatible_intermediate_mash (mash_at s.proposed ms) (ideal_mash murmur s.members)
              ≡ some next)
            fresh e

      from_member :
          (h n : ℕ) → h ≡ murmur n → has_in n s.members ≡ true → Current murmur names c' h n
      from_member h n q i =
          let (within, named) = in-Known c n s.members (k.known x) i in
          let same = scan_active-same s.proposed s.members 0 0 true (all_current-same s all) in
          record {
            hashed = q;
            within = within;
            recent =
                omega
                  (arith, newest, current-Known c s.proposed n s.members (k.known x) (same.1 n i));
            named = named;
          }

      apart : Separate next (mash_at s.proposed c.mashes) × Separate next next
      apart =
          let (next', e', a, b) =
            compatible_intermediate_mash-Separate (mash_at s.proposed c.mashes)
              (ideal_mash murmur s.members)
              (ideal_mash-Tiles murmur s.members act (k.small x).0 (k.small x).1) in
          let same : next' ≡ next = some-inj (sym e' ∙ now) in
          (
            subst (λ (n : List Share). Separate n (mash_at s.proposed c.mashes)) same a,
            subst (λ (n : List Share). Separate n n) same b,
          )

  takes_over-Kept : (x : ℕ) (c : Cluster) → Kept murmur names c → Kept murmur names (put_leader x c)
  unfolding put_leader
  takes_over-Kept x c k = record {
    own_name = k.own_name;
    own_active = k.own_active;
    own_puts = k.own_puts;
    own_cached = k.own_cached;
    not_ahead = k.not_ahead;
    known = λ y.
        All-imp (Known-mono murmur names c (put_leader x c) (λ n. omega arith) (λ n h. h))
          (c.cached y).members (k.known y);
    current =
        All-imp
          (All-imp (
            Current-mono murmur names c (put_leader x c) (λ n. omega arith) (λ n h. h)
              (omega arith)))
          c.mashes k.current;
    members_read = k.members_read;
    chain = k.chain;
    small = k.small;
    own_small = k.own_small;
  }

  put_mash-next :
      (next : List Share) (ms : List (List Share)) → put_mash (suc (length ms)) next ms ≡ next ∷ ms
  unfolding put_mash
  put_mash-next next [] = refl
  put_mash-next next (m ∷ ms) = ground arith

  propose-appended :
      (x : ℕ) (next : List Share) (c : Cluster)
      → (c.cached x).proposed ≡ length c.mashes
      → propose x next c ≡ appended x next c
  unfolding propose
  propose-appended x next c e =
      ap (λ (ms : List (List Share)). record c { mashes = ms; undecided = set x false c.undecided })
        (ap (λ (n : ℕ). put_mash (suc n) next c.mashes) e ∙ put_mash-next next c.mashes)

  pub Step-Kept :
      (c c' : Cluster) (s : Step murmur names c c')
      → IsUnracedStep murmur names s
      → Kept murmur names c
      → IsLed c × IsCounted c
      → Kept murmur names c' × IsLed c' × IsCounted c'
  Step-Kept _ _ (reads x c) u k (l, n) = (
    reads-Kept murmur names x c k,
    reads-IsLed names x c l,
    Step-IsCounted murmur names _ _ (reads x c) n,
  )
  Step-Kept _ _ (changes x c) u k (l, n) = (
    changes-Kept murmur names x c k,
    changes-IsLed x c l,
    Step-IsCounted murmur names _ _ (changes x c) n,
  )
  Step-Kept _ _ (puts_active x j before after c e) u k (l, n) = (
    puts-Kept murmur names x j before after c e k,
    puts-IsLed x j (before ++ after) c l,
    Step-IsCounted murmur names _ _ (puts_active x j before after c e) n,
  )
  Step-Kept _ _ (takes_over x c a w f e) u k (l, n) = (
    takes_over-Kept x c k,
    takes_over-IsLed x c u,
    Step-IsCounted murmur names _ _ (takes_over x c a w f e) n,
  )
  Step-Kept _ _ (leads x next c a w f p) u k (l, n) =
      let fresh = l x f a in
      let newest : (c.cached x).proposed ≡ length c.mashes =
        n x ∙ ap (λ (ms : List (List Share)). length ms) fresh in
      (
        subst (Kept murmur names) (sym (propose-appended x next c newest))
            (leads-Kept x next c newest fresh p k),
        leads-IsLed x next c f,
        Step-IsCounted murmur names _ _ (leads x next c a w f p) n,
      )
