-- ===== src/Qtree/Changed/Generations.antt =====
-- About FindChangedSince of qtree/qtree.go where the generations in the tree agree.
use btrdb_server.Base.{
  leb→le, ltb→lt, ℕ, suc, ◌≤◌, ◌<◌, ◌≡◌, refl, Option, none, some, List, [], ◌∷◌, ◌++◌, ltb, leb,
  if_both, ◌>>=◌, arith,
}
use btrdb_server.Qtree.Node.{header, Header, Node, Slots, leaf, core, nil, hole, child}
use btrdb_server.Merger.Ranges.{ChangedRange}
use btrdb_server.Qtree.Changed.{
  Sent, maxchild, extend, bucket_range, extend_by, send, find_changed_since, scan_changed,
  tree_changed_since,
}

-- Generations agree: no child is newer than its parent's block, and CGeneration is the child's generation.
unfoldable mutual
  pub HasGenerations : {V : Type 0} → Node V → Type 0
  HasGenerations (leaf h rs) = Unit {0}
  HasGenerations (core h sl) = (maxchild 0 sl ≤ h.gen) × SlotGenerations sl

  pub SlotGenerations : {V : Type 0} → Slots V → Type 0
  SlotGenerations nil = Unit {0}
  SlotGenerations (hole g sl) = SlotGenerations sl
  SlotGenerations (child st g n sl) = ((header n).gen ≡ g) × HasGenerations n × SlotGenerations sl

abbrev IsSome {ℓ} : {A : Type ℓ} → Option A → Type 0
IsSome none = ⊥
IsSome (some a) = Unit {0}

send-IsSome : (sent : List ChangedRange) (o : Option Sent) → IsSome o → IsSome (send sent o)
unfolding send
send-IsSome sent none h = h
send-IsSome sent (some s) h = tt

inside-IsSome :
    (o : Option Sent) (f : Sent → Option Sent)
    → IsSome o
    → ((s : Sent) → IsSome (f s))
    → IsSome (o >>= f)
inside-IsSome none f h k = h
inside-IsSome (some s) f h k = k s

mutual
  unfolding find_changed_since scan_changed HasGenerations SlotGenerations

  find-IsSome :
      {V : Type 0} (gen resolution parent_pw : ℕ) (n : Node V)
      → HasGenerations n
      → gen < (header n).gen
      → IsSome (find_changed_since gen resolution parent_pw n)
  find-IsSome gen resolution parent_pw (leaf h rs) g l =
      if_both IsSome (leb h.gen gen) (λ e. absurd (omega (arith, leb→le h.gen gen e))) (λ _. tt)
  find-IsSome gen resolution parent_pw (core h sl) g l =
      if_both IsSome (ltb h.gen gen) (λ e. absurd (omega (arith, ltb→lt h.gen gen e)))
        (λ _.
          if_both IsSome (ltb h.gen (maxchild 0 sl))
            (λ e. absurd (omega (arith, ltb→lt h.gen (maxchild 0 sl) e)))
            (λ _. scan-IsSome gen resolution h 0 none sl g.1))

  scan-IsSome :
      {V : Type 0} (gen resolution : ℕ) (h : Header) (k : ℕ) (cr : Option ChangedRange)
      (sl : Slots V)
      → SlotGenerations sl
      → IsSome (scan_changed gen resolution h k cr sl)
  scan-IsSome gen resolution h k cr nil g = tt
  scan-IsSome gen resolution h k cr (hole c sl) g =
      if_both IsSome (ltb gen c)
        (λ _.
          send-IsSome (extend cr (bucket_range h k)).0
            (scan_changed gen resolution h (suc k) (extend cr (bucket_range h k)).1 sl)
            (scan-IsSome gen resolution h (suc k) (extend cr (bucket_range h k)).1 sl g))
        (λ _. scan-IsSome gen resolution h (suc k) cr sl g)
  scan-IsSome gen resolution h k cr (child st c n sl) (e, a, g) =
      if_both IsSome (ltb gen c)
        (λ newer.
          if_both IsSome (leb h.pw resolution)
            (λ _.
              send-IsSome (extend cr (bucket_range h k)).0
                (scan_changed gen resolution h (suc k) (extend cr (bucket_range h k)).1 sl)
                (scan-IsSome gen resolution h (suc k) (extend cr (bucket_range h k)).1 sl g))
            (λ _.
              inside-IsSome (find_changed_since gen resolution h.pw n) _
                (find-IsSome gen resolution h.pw n a (omega (arith, ltb→lt gen c newer, e)))
                (λ s.
                  send-IsSome (s.0 ++ (extend_by cr s.1).0)
                    (scan_changed gen resolution h (suc k) (extend_by cr s.1).1 sl)
                    (scan-IsSome gen resolution h (suc k) (extend_by cr s.1).1 sl g))))
        (λ _. scan-IsSome gen resolution h (suc k) cr sl g)

pub tree-IsSome :
    {V : Type 0} (gen resolution : ℕ) (root : Node V)
    → HasGenerations root
    → gen < (header root).gen
    → (out : List ChangedRange) × (tree_changed_since gen resolution (some root) ≡ some out)
unfolding tree_changed_since
tree-IsSome gen resolution root g l =
    from (find_changed_since gen resolution 0 root) (find-IsSome gen resolution 0 root g l)
  where
    from :
        (o : Option Sent)
        → IsSome o
        → (out : List ChangedRange) × ((o >>= λ s.
              some (elim (s.1) [ none ↦ s.0 | some cr ↦ s.0 ++ cr ∷ [] ]))
            ≡ some out)
    from none h = absurd h
    from (some s) h = (_, refl)
