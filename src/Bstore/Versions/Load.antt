-- ===== src/Bstore/Versions/Load.antt =====
-- About LoadSuperblock and ObtainGeneration of internal/bstore/blockstore.go: what they give of the store.
use mathlib.Core.Path.{subst}
use btrdb_server.Base.{
  ==_iff, ==_iff, ℕ, ◌≤◌, ◌≡◌, refl, sym, ◌∙◌, ap, Bool, true, false, Option, none, some, List, ltb,
  ◌==◌, if◌then◌else◌, ◌>>=◌, arith, Bool-cases, inl, inr,
}
use btrdb_server.Base.Word.{add64}
use btrdb_server.Bstore.Superblock.{
  Superblock, special_version_created, special_version_first, new_superblock, clone_inc, uint64,
  deserialize_superblock,
}
use btrdb_server.Bstore.Versions.{
  Streams, latest_generation, read_superblock, load_superblock_from_cache, Loaded, missing, loaded,
  panicked, or_panic, load_from_store, load_superblock, obtain_generation,
}

-- What is cached is what the store would answer.
abbrev pub CachedAs : Streams → Option Superblock → Type 0
CachedAs s none = Unit {0}
CachedAs s (some sb) = (now : ℕ) → load_from_store now latest_generation s ≡ loaded sb

abbrev pub CacheAgrees : Streams → Type 0
CacheAgrees s = CachedAs s s.sbcache

pub from_cache :
    (s : Streams) (o : Option Superblock) (now : ℕ)
    → CachedAs s o
    → (elim o [ some sb ↦ loaded sb | none ↦ load_from_store now latest_generation s ])
      ≡ load_from_store now latest_generation s
from_cache s none now h = refl
from_cache s (some sb) now h = sym (h now)

-- Where the cache agrees with the store, LoadSuperblock answers as if there were no cache, whether this node
-- holds the write lock or not.
pub load_superblock-store :
    (now : ℕ) (holds : Bool) (generation : ℕ) (s : Streams)
    → CacheAgrees s
    → load_superblock now holds generation s ≡ load_from_store now generation s
unfolding load_superblock load_superblock_from_cache
load_superblock-store now holds generation s h =
    elim (Bool-cases (generation == latest_generation)) [
      | inl e ↦
          let g = (==_iff generation latest_generation).0 e in
          rw e (
            subst
              (λ (k : ℕ).
                (elim (if holds then s.sbcache else none) [
                  | some sb ↦ loaded sb
                  | none ↦ load_from_store now k s
                ])
                ≡ load_from_store now k s)
              (sym g) (if_cached holds))
      | inr e ↦ rw e
    ]
  where
    if_cached :
        (b : Bool)
        → (elim (if b then s.sbcache else none) [
          | some sb ↦ loaded sb
          | none ↦ load_from_store now latest_generation s
        ])
          ≡ load_from_store now latest_generation s
    if_cached true = from_cache s s.sbcache now h
    if_cached false = refl

pub or_panic-loaded :
    (o : Option Superblock) (sb : Superblock) → or_panic o ≡ loaded sb → o ≡ some sb
unfolding or_panic
or_panic-loaded none sb e = cc
or_panic-loaded (some x) sb e = cc

pub made-fields :
    (id gen root : ℕ) (o : Option (ℕ × List ℕ)) (sb : Superblock)
    → (elim o [
      | none ↦ none
      | some u ↦ some (record { uuid = id; gen = gen; root = root; walltime = u.0 })
    ])
      ≡ some sb
    → (sb.uuid ≡ id) × (sb.gen ≡ gen)
made-fields id gen root none sb e = absurd (none-ne-some e)
  where
    none-ne-some : {x : Superblock} → none ≡ some x → ⊥
    none-ne-some e = cc
made-fields id gen root (some u) sb e = (sym (ap uuid_of e), sym (ap gen_of e))
  where
    uuid_of : Option Superblock → ℕ
    uuid_of none = id
    uuid_of (some x) = x.uuid

    gen_of : Option Superblock → ℕ
    gen_of none = gen
    gen_of (some x) = x.gen

pub read-fields :
    (id gen : ℕ) (o : Option (ℕ × List ℕ)) (sb : Superblock)
    → (elim o [
      | none ↦ none
      | some t ↦ elim (uint64 t.1) [
        | none ↦ none
        | some u ↦ some (record { uuid = id; gen = gen; root = t.0; walltime = u.0 })
      ]
    ])
      ≡ some sb
    → (sb.uuid ≡ id) × (sb.gen ≡ gen)
read-fields id gen none sb e = made-fields id gen 0 none sb e
read-fields id gen (some t) sb e = made-fields id gen t.0 (uint64 t.1) sb e

pub stored-fields :
    (id gen : ℕ) (o : Option (List ℕ)) (sb : Superblock)
    → or_panic (o >>= deserialize_superblock id gen) ≡ loaded sb
    → (sb.uuid ≡ id) × (sb.gen ≡ gen)
unfolding deserialize_superblock
stored-fields id gen none sb e = made-fields id gen 0 none sb (or_panic-loaded none sb e)
stored-fields id gen (some arr) sb e =
    read-fields id gen (uint64 arr) sb (or_panic-loaded (deserialize_superblock id gen arr) sb e)

pub ltb_irrefl : (n : ℕ) → ltb n n ≡ false
ltb_irrefl n = ground arith

-- The version that a loaded superblock of the latest generation has: that of the store, or the first.
abbrev pub loaded_gen : Streams → ℕ
loaded_gen s = if s.version == special_version_created then special_version_first else s.version

pub load_from_store-fields :
    (now : ℕ) (s : Streams) (sb : Superblock)
    → load_from_store now latest_generation s ≡ loaded sb
    → (sb.uuid ≡ s.id) × (sb.gen ≡ loaded_gen s) × (special_version_created ≤ s.version)
unfolding load_from_store new_superblock
load_from_store-fields now s sb e = elim (Bool-cases (ltb s.version special_version_created)) [
  | inl a ↦ absurd (missing-ne-loaded (rw (a, load_from_store) at e))
  | inr a ↦ elim (Bool-cases (s.version == special_version_created)) [
    | inl b ↦
        let q : loaded (new_superblock now s.id) ≡ loaded sb = rw (a, b, load_from_store) at e in
        (ground (arith, q), ground (arith, q, b), ground (arith, a))
    | inr b ↦
        let q = rw (a, b, ltb_irrefl s.version, load_from_store) at e in
        let (id, gen) =
          stored-fields s.id s.version (read_superblock s.version s.superblocks) sb q in
        (id, ground (arith, gen, b), ground (arith, a))
  ]
]
  where
    missing-ne-loaded : {x : Superblock} → missing ≡ loaded x → ⊥
    missing-ne-loaded q = cc

pub missing-none :
    (now : ℕ) (l : Loaded) (new : Superblock)
    → (elim l [ missing ↦ none | loaded cur ↦ some (clone_inc now cur) | panicked ↦ none ])
      ≡ some new
    → (cur : Superblock) × (l ≡ loaded cur) × (new ≡ clone_inc now cur)
missing-none now missing new e = absurd (none-ne-some e)
  where
    none-ne-some : {x : Superblock} → none ≡ some x → ⊥
    none-ne-some q = cc
missing-none now (loaded cur) new e = (cur, refl, some-eq e)
  where
    some-eq : {x y : Superblock} → some x ≡ some y → y ≡ x
    some-eq q = cc
missing-none now panicked new e = absurd (none-ne-some e)
  where
    none-ne-some : {x : Superblock} → none ≡ some x → ⊥
    none-ne-some q = cc

-- The new superblock of a write, before its root is set.
pub obtain_generation-fields :
    (now : ℕ) (holds : Bool) (s : Streams) (new : Superblock)
    → CacheAgrees s
    → obtain_generation now holds s ≡ some new
    → (new.uuid ≡ s.id)
      × (new.gen ≡ add64 (loaded_gen s) 1)
      × (new.walltime ≡ now)
      × (special_version_created ≤ s.version)
unfolding obtain_generation clone_inc
obtain_generation-fields now holds s new h e =
    let (cur, l, n) = missing-none now (load_superblock now holds latest_generation s) new e in
    let (id, gen, le) =
      load_from_store-fields now s cur
        (sym (load_superblock-store now holds latest_generation s h) ∙ l) in
    (ground (arith, n, id), ground (arith, n, ap (λ (g : ℕ). add64 g 1) gen), ground (arith, n), le)
