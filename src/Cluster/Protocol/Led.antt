-- ===== src/Cluster/Protocol/Led.antt =====
-- About the leader key of internal/configprovider/clustering.go and the maps that its holder has read.
use mathlib.Core.Path.{subst}
use btrdb_server.Base.{
  refl, some, false, length, ℕ, ◌≡◌, sym, ◌∙◌, true, List, ◌==◌, Bool-cases, inl, inr,
}
use btrdb_server.Cluster.Mash.{Share}
use btrdb_server.Cluster.Protocol.{
  Cached, Cluster, Step, reads, changes, puts_active, leads, takes_over, set, query_cluster_state,
  state_changed, put_active, put_leader, propose,
}
use btrdb_server.Cluster.Protocol.Kept.{set_same, set-case}

-- The node that holds the leader key and has not proposed a map since its last read has read the newest one.
abbrev pub IsLed : Cluster → Type 0
IsLed c = (x : ℕ) → c.leader ≡ some x → c.undecided x ≡ true → (c.cached x).mashes ≡ c.mashes

abbrev pub IsCounted : Cluster → Type 0
IsCounted c = (x : ℕ) → (c.cached x).proposed ≡ length (c.cached x).mashes

name-inj : {x y : ℕ} → some x ≡ some y → x ≡ y
name-inj e = cc

pub reads-IsLed :
    (names : List ℕ) (x : ℕ) (c : Cluster) → IsLed c → IsLed (query_cluster_state names x c)
unfolding query_cluster_state set
reads-IsLed names x c l y e u = elim (Bool-cases (x == y)) [
  | inl f ↦ rw (set, f) refl
  | inr f ↦ rw (set, f) (l y e (rw (set, f) at u))
]

pub changes-IsLed : (x : ℕ) (c : Cluster) → IsLed c → IsLed (state_changed x c)
unfolding state_changed
changes-IsLed x c l = l

pub puts-IsLed : (x j : ℕ) (js : List ℕ) (c : Cluster) → IsLed c → IsLed (put_active x j js c)
unfolding put_active
puts-IsLed x j js c l = l

pub takes_over-IsLed :
    (x : ℕ) (c : Cluster) → (c.cached x).mashes ≡ c.mashes → IsLed (put_leader x c)
unfolding put_leader
takes_over-IsLed x c n y e u = subst (λ (i : ℕ). (c.cached i).mashes ≡ c.mashes) (name-inj e) n

pub leads-IsLed :
    (x : ℕ) (next : List Share) (c : Cluster) → c.leader ≡ some x → IsLed (propose x next c)
unfolding propose
leads-IsLed x next c f y e u =
    let same : x ≡ y = name-inj (sym f ∙ e) in
    cc (
      sym (set_same x false c.undecided)
      ∙ subst (λ (i : ℕ). set x false c.undecided i ≡ true) (sym same) u)

reads-IsCounted :
    (names : List ℕ) (x : ℕ) (c : Cluster) → IsCounted c → IsCounted (query_cluster_state names x c)
unfolding query_cluster_state
reads-IsCounted names x c n =
    set-case (λ y (s : Cached). s.proposed ≡ length s.mashes) x _ c.cached refl n

pub Step-IsCounted :
    (murmur : ℕ → ℕ) (names : List ℕ) (c c' : Cluster)
    → Step murmur names c c'
    → IsCounted c
    → IsCounted c'
unfolding state_changed put_active put_leader propose
Step-IsCounted murmur names _ _ (reads x c) n = reads-IsCounted names x c n
Step-IsCounted murmur names _ _ (changes x c) n = n
Step-IsCounted murmur names _ _ (puts_active x j before after c e) n = n
Step-IsCounted murmur names _ _ (takes_over x c a w f e) n = n
Step-IsCounted murmur names _ _ (leads x next c a w f p) n = n
