-- ===== src/Cluster/Protocol/Kept.antt =====
-- What every step of the nodes of internal/configprovider/clustering.go keeps.
use mathlib.Core.Path.{subst}
use btrdb_server.Base.{
  ℕ, suc, ◌<◌, ◌≤◌, ◌≡◌, refl, ap, ◌^◌, Bool, true, false, some, List, [], ◌∷◌, ◌++◌, arith, All,
  All-imp, ◌==◌, ==_iff, if_both, if◌then◌else◌, Bool-cases, inl, inr, length, map,
}
use btrdb_server.Cluster.Members.{Member, is_in, scan_active}
use btrdb_server.Cluster.Mash.{Share}
use btrdb_server.Cluster.Mash.Tiles.{member_weights}
use btrdb_server.Cluster.Space.Parts.{Separate}
use btrdb_server.Cluster.Protocol.{mash_at, Cached, Cluster, set, all_current}
use btrdb_server.Cluster.Protocol.Shares.{has_in, Named}

abbrev pub is_name : ℕ → List ℕ → Bool
is_name n [] = false
is_name n (x ∷ xs) = if x == n then true else is_name n xs

-- Each map is apart from the one before it, and in itself.
abbrev pub Chain : List (List Share) → Type 0
Chain [] = Unit {0}
Chain (m ∷ []) = Separate m m
Chain (m ∷ p ∷ ms) = Separate m m × Separate m p × Chain (p ∷ ms)

-- A member as some node may have read it.
pub record Known (names : List ℕ) (c : Cluster) (m : Member) : Type 0 where
  pub active_seen : m.active ≤ c.our_proposed m.nodename
  pub still_in : is_in m ≡ true → is_in (c.member m.nodename) ≡ true
  pub listed : is_name m.nodename names ≡ true

-- Others keep their field.
pub set-case :
    {A : Type 0} (P : ℕ → A → Type 0) (x : ℕ) (a : A) (f : ℕ → A)
    → P x a
    → ((y : ℕ) → P y (f y))
    → (y : ℕ) → P y (set x a f y)
unfolding set
set-case P x a f p q y =
    if_both (P y) (x == y) (λ e. subst (λ (z : ℕ). P z a) ((==_iff x y).0 e) p) (λ _. q y)

pub All-map :
    {A B : Type 0} (P : B → Type 0) (f : A → B) (xs : List A)
    → All (λ x. P (f x)) xs
    → All P (map f xs)
All-map P f [] a = tt
All-map P f (x ∷ xs) a = (a.0, All-map P f xs a.1)

pub all_names : (xs : List ℕ) → All (λ n. is_name n xs ≡ true) xs
all_names [] = tt
all_names (x ∷ xs) = (
  rw ((==_iff x x).1 refl) refl,
  All-imp (λ n e. if_both (λ (b : Bool). b ≡ true) (x == n) (λ _. refl) (λ _. e)) xs (all_names xs),
)

pub has_in-map :
    (member : ℕ → Member) (n : ℕ) (xs : List ℕ)
    → ((x : ℕ) → (member x).nodename ≡ x)
    → is_name n xs ≡ true
    → is_in (member n) ≡ true
    → has_in n (map member xs) ≡ true
unfolding is_in
has_in-map member n [] own e h = cc
has_in-map member n (x ∷ xs) own e h = elim (Bool-cases (x == n)) [
  | inl f ↦
      let same : x ≡ n = (==_iff x n).0 f in
      rw (own x, f, ap (λ (z : ℕ). is_in (member z)) same, h) refl
  | inr f ↦ rw (own x, f) (has_in-map member n xs own (rw f at e) h)
]

pub set_same : {A : Type 0} (x : ℕ) (a : A) (f : ℕ → A) → set x a f x ≡ a
unfolding set
set_same x a f = rw ((==_iff x x).1 refl) refl

pub is_in-active :
    (m : Member) (j : ℕ) → 1 ≤ j → is_in m ≡ true → is_in (record m { active = j }) ≡ true
unfolding is_in
is_in-active m j p e = ground arith

pub All-split :
    {A : Type 0} (P : A → Type 0) (xs : List A) (y : A) (zs : List A)
    → All P (xs ++ y ∷ zs)
    → P y × All P (xs ++ zs)
All-split P [] y zs a = a
All-split P (x ∷ xs) y zs a = let (p, q) = All-split P xs y zs a.1 in (p, (a.0, q))

pub member_weights-map :
    (f g : ℕ → Member) (xs : List ℕ)
    → ((x : ℕ) → (g x).weight ≡ (f x).weight)
    → member_weights (map g xs) ≡ member_weights (map f xs)
member_weights-map f g [] e = refl
member_weights-map f g (x ∷ xs) e = omega (arith, e x, member_weights-map f g xs e)

pub all_current-same :
    (s : Cached) → all_current s ≡ true → (scan_active s.proposed s.members (0, true, 0)).1 ≡ true
unfolding all_current
all_current-same s e = ground arith

pub Chain-next :
    (next : List Share) (ms : List (List Share))
    → Separate next next
    → Separate next (mash_at (length ms) ms)
    → Chain ms
    → Chain (next ∷ ms)
unfolding mash_at
Chain-next next [] a b c = a
Chain-next next (m ∷ ms) a b c =
    (a, rw ((==_iff (length (m ∷ ms)) (length (m ∷ ms))).1 refl) at b, c)

pub some-inj : {y z : List Share} → some y ≡ some z → y ≡ z
some-inj q = cc

module _ (murmur : ℕ → ℕ) (names : List ℕ) where
  -- A node that a map names is in, and took its ranges from the newest map or the one before it.
  pub record Current (c : Cluster) (h n : ℕ) : Type 0 where
    pub hashed : h ≡ murmur n
    pub within : is_in (c.member n) ≡ true
    pub recent : length c.mashes ≤ suc (c.our_proposed n)
    pub named : is_name n names ≡ true

  pub record Kept (c : Cluster) : Type 0 where
    pub own_name : (x : ℕ) → (c.member x).nodename ≡ x
    pub own_active : (x : ℕ) → (c.member x).active ≤ c.our_proposed x
    pub own_puts : (x : ℕ) → All (λ k. (1 ≤ k) × (k ≤ c.our_proposed x)) (c.puts x)
    pub own_cached : (x : ℕ) → c.our_proposed x ≤ (c.cached x).proposed
    pub not_ahead : (x : ℕ) → (c.cached x).proposed ≤ length c.mashes
    pub known : (x : ℕ) → All (Known names c) (c.cached x).members
    pub current : All (All (Named (Current c))) c.mashes
    pub members_read :
        (x : ℕ)
        → (c.cached x).proposed ≡ length c.mashes
        → All (All (λ s. has_in s.nodename (c.cached x).members ≡ true)) c.mashes
    pub chain : Chain c.mashes
    pub small :
        (x : ℕ)
        → All (λ m. m.weight < 2 ^ 31) (c.cached x).members
          × (member_weights (c.cached x).members < 2 ^ 63)
    pub own_small :
        All (λ n. (c.member n).weight < 2 ^ 31) names
        × (member_weights (map c.member names) < 2 ^ 63)

  pub Known-mono :
      (c c' : Cluster)
      → ((n : ℕ) → c.our_proposed n ≤ c'.our_proposed n)
      → ((n : ℕ) → is_in (c.member n) ≡ true → is_in (c'.member n) ≡ true)
      → (m : Member) → Known names c m
      → Known names c' m
  Known-mono c c' p q m k = record {
    active_seen = omega (arith, p m.nodename, k.active_seen);
    still_in = λ e. q m.nodename (k.still_in e);
    listed = k.listed;
  }

  pub Current-mono :
      (c c' : Cluster)
      → ((n : ℕ) → c.our_proposed n ≤ c'.our_proposed n)
      → ((n : ℕ) → is_in (c.member n) ≡ true → is_in (c'.member n) ≡ true)
      → length c'.mashes ≤ length c.mashes
      → (s : Share) → Named (Current c) s
      → Named (Current c') s
  Current-mono c c' p q l s k = record {
    hashed = k.hashed;
    within = q s.nodename k.within;
    recent = omega (arith, p s.nodename, k.recent);
    named = k.named;
  }
