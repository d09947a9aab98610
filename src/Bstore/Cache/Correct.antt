-- ===== src/Bstore/Cache/Correct.antt =====
-- About ReadDatablock of internal/bstore/blockstore.go behind the block cache.
use mathlib.Core.Path.{subst}
use btrdb_server.Base.{
  ℕ, ◌≤◌, ◌<◌, ◌≡◌, refl, sym, ◌∙◌, ap, Bool, true, false, ◌||◌, Option, none, some, List, [], ◌∷◌,
  arith, ◌==◌, if◌then◌else◌, length, if_both, ==_iff, Bool-cases, Option-cases, inl, inr,
}
use btrdb_server.Bstore.Cache.{Cache, cache_promote, cache_put, cache_get, fetch, read_datablock}
use btrdb_server.Bstore.Cache.Order.{has}
use btrdb_server.Bstore.Cache.Recent.{is_some}
use btrdb_server.Bstore.Cache.Lru.{IsLru, put_vaddr, use_vaddr, cache_promote-Moved}
use btrdb_server.Bstore.Cache.Put.{cache_put-Put}

-- Every block that is cached is the one in the store.
abbrev pub Coherent : {B : Type 0} → (ℕ → Option B) → Cache B → Type 0
Coherent read c = (a : ℕ) → is_some (c.cachemap a) ≡ true → c.cachemap a ≡ read a

-- The list after ReadDatablock, by whether the store has the block.
abbrev pub read_vaddr : ℕ → ℕ → Bool → List ℕ → List ℕ
read_vaddr max a found l = if max == 0 then l else if has a l || found then put_vaddr max a l else l

get_hit :
    {B : Type 0} (addr : ℕ) (c : Cache B) (b : B)
    → 0 < c.cachemax
    → c.cachemap addr ≡ some b
    → cache_get addr c ≡ (some b, cache_promote addr c)
unfolding cache_get
get_hit addr c b p e = rw (max_pos, e) refl
  where
    max_pos : (c.cachemax == 0) ≡ false
    max_pos = ground arith

get_miss :
    {B : Type 0} (addr : ℕ) (c : Cache B) → c.cachemap addr ≡ none → cache_get addr c ≡ (none, c)
unfolding cache_get
get_miss addr c e = elim (Bool-cases (c.cachemax == 0)) [
  | inl f ↦ rw f refl
  | inr f ↦ rw (f, e) refl
]

read_hit :
    {B : Type 0} (read : ℕ → Option B) (addr : ℕ) (c : Cache B) (b : B)
    → 0 < c.cachemax
    → c.cachemap addr ≡ some b
    → read_datablock read addr c ≡ some (some b, cache_promote addr c)
unfolding read_datablock fetch
read_hit read addr c b p e = ap (fetch read addr) (get_hit addr c b p e)

read_missing :
    {B : Type 0} (read : ℕ → Option B) (addr : ℕ) (c : Cache B)
    → c.cachemap addr ≡ none
    → read addr ≡ none
    → read_datablock read addr c ≡ some (none, c)
unfolding read_datablock fetch
read_missing read addr c e f = ap (fetch read addr) (get_miss addr c e) ∙ rw (f, fetch) refl

read_stored :
    {B : Type 0} (read : ℕ → Option B) (addr : ℕ) (c c' : Cache B) (b : B)
    → c.cachemap addr ≡ none
    → read addr ≡ some b
    → cache_put addr b c ≡ some c'
    → read_datablock read addr c ≡ some (some b, c')
unfolding read_datablock fetch
read_stored read addr c c' b e f g =
    ap (fetch read addr) (get_miss addr c e) ∙ rw (f, g, fetch) refl

has_room : (a : ℕ) (l : List ℕ) (max : ℕ) → has a l ≡ true → length l ≤ max → 0 < max
has_room a [] max h p = cc
has_room a (x ∷ l) max h p = omega arith

no_cache :
    {B : Type 0} (addr : ℕ) (b : B) (c : Cache B)
    → (c.cachemax == 0) ≡ true
    → cache_put addr b c ≡ some c
unfolding cache_put
no_cache addr b c e = rw e refl

vaddr_hit :
    (max a : ℕ) (found : Bool) (l : List ℕ)
    → 0 < max
    → has a l ≡ true
    → read_vaddr max a found l ≡ use_vaddr a l
vaddr_hit max a found l p h = rw (zero_max, h) refl
  where
    zero_max : (max == 0) ≡ false
    zero_max = ground arith

vaddr_new :
    (max a : ℕ) (l : List ℕ)
    → (max == 0) ≡ false
    → has a l ≡ false
    → read_vaddr max a true l ≡ put_vaddr max a l
vaddr_new max a l z h = rw (z, h) refl

max_pos : (max : ℕ) → (max == 0) ≡ false → 0 < max
max_pos max z = ground arith

new-Coherent :
    {B : Type 0} (read : ℕ → Option B) (addr : ℕ) (c c' : Cache B) (b : B)
    → Coherent read c
    → read addr ≡ some b
    → ((a : ℕ)
        → is_some (c'.cachemap a) ≡ true
        → c'.cachemap a ≡ (if addr == a then some b else c.cachemap a))
    → Coherent read c'
new-Coherent read addr c c' b k f v a m = elim (Bool-cases (addr == a)) [
  | inl q ↦ (rw q at (v a m)) ∙ sym f ∙ ap read ((==_iff addr a).0 q)
  | inr q ↦ let w = rw q at (v a m) in w ∙ k a (sym (ap is_some w) ∙ m)
]

-- From a cache that is an LRU list and agrees with the store, ReadDatablock answers what the store has, whether it
-- is cached or not, and does not panic. The cache still agrees with the store, holds at most cachemax blocks, and
-- its list has the address in front if there is such a block, and has lost the least recently used block if
-- there was no room.
pub read_datablock-IsLru :
    {B : Type 0} (read : ℕ → Option B) (addr : ℕ) (c : Cache B) (l : List ℕ)
    → IsLru c l
    → Coherent read c
    → (c' : Cache B) × (read_datablock read addr c ≡ some (read addr, c'))
      × IsLru c' (read_vaddr c.cachemax addr (is_some (read addr)) l)
      × Coherent read c'
read_datablock-IsLru read addr c l r k = elim (Option-cases (c.cachemap addr)) [
  | inl e ↦
      let h : has addr l ≡ false = sym (r.represents.cached addr) ∙ ap is_some e in
      elim (Option-cases (read addr)) [
        | inl f ↦ (
          c,
          read_missing read addr c e f ∙ ap (λ (o : Option _). some (o, c)) (sym f),
          rw (h, f) (if_both (λ (l' : List ℕ). IsLru c l') (c.cachemax == 0) (λ _. r) (λ _. r)),
          k,
        )
        | inr f ↦ elim (Bool-cases (c.cachemax == 0)) [
          | inl z ↦ (
            c,
            read_stored read addr c c f.0 e f.1 (no_cache addr f.0 c z)
                ∙ ap (λ (o : Option _). some (o, c)) (sym f.1),
            rw z r,
            k,
          )
          | inr z ↦
              let (c', put, lru, max, values) =
                cache_put-Put c addr f.0 l r (max_pos c.cachemax z) in
              (
                c',
                read_stored read addr c c' f.0 e f.1 put
                    ∙ ap (λ (o : Option _). some (o, c')) (sym f.1),
                subst (λ (l' : List ℕ). IsLru c' l')
                    (sym (vaddr_new c.cachemax addr l z h)
                      ∙ ap (λ (o : Option _). read_vaddr c.cachemax addr (is_some o) l) (sym f.1))
                    lru,
                new-Coherent read addr c c' f.0 k f.1 (λ a m. rw h at (values a m)),
              )
        ]
      ]
  | inr e ↦
      let h : has addr l ≡ true = sym (r.represents.cached addr) ∙ ap is_some e.1 in
      let p : 0 < c.cachemax = has_room addr l c.cachemax h r.capped in
      let (lru, same, max) = cache_promote-Moved c addr l r h in
      (
        cache_promote addr c,
        read_hit read addr c e.0 p e.1
            ∙ ap (λ (o : Option _). some (o, cache_promote addr c))
                (sym e.1 ∙ k addr (ap is_some e.1)),
        subst (λ (l' : List ℕ). IsLru (cache_promote addr c) l')
            (sym (vaddr_hit c.cachemax addr _ l p h)) lru,
        subst (λ (f : ℕ → Option _). (a : ℕ) → is_some (f a) ≡ true → f a ≡ read a) (sym same) k,
      )
]
