-- ===== src/Bstore/Versions/Correct.antt =====
-- About LoadSuperblock of internal/bstore/blockstore.go after commits, with the cache of sbcache.go and without.
use mathlib.Core.Path.{subst}
use btrdb_server.Base.{
  suc, ==_iff, ==_iff, ℕ, ◌-◌, ◌^◌, ◌≤◌, ◌<◌, ◌≡◌, refl, sym, ◌∙◌, Bool, true, false, none, some,
  ◌∷◌, ltb, ◌==◌, if◌then◌else◌, arith,
}
use btrdb_server.Base.Word.{IsWord, add64}
use btrdb_server.Bstore.Superblock.{
  Superblock, special_version_created, special_version_first, serialize,
  deserialize_superblock-serialize,
}
use btrdb_server.Bstore.Versions.{
  Streams, latest_generation, read_superblock, loaded, or_panic, load_from_store, load_superblock,
  put_superblock_in_cache, obtain_generation, commit,
}
use btrdb_server.Bstore.Versions.Load.{
  CacheAgrees, CachedAs, load_superblock-store, loaded_gen, ltb_irrefl, obtain_generation-fields,
}

written : Superblock → Streams → Streams
written sb s = record s { superblocks = (sb.gen, serialize sb) ∷ s.superblocks; version = sb.gen }

load_from_store-written :
    (now : ℕ) (sb : Superblock) (s : Streams)
    → sb.uuid ≡ s.id
    → special_version_first ≤ sb.gen
    → IsWord sb.root
    → IsWord sb.walltime
    → load_from_store now latest_generation (written sb s) ≡ loaded sb
unfolding load_from_store written read_superblock or_panic
load_from_store-written now sb s id g r w = rw (
  low,
  special,
  ltb_irrefl sb.gen,
  (==_iff sb.gen sb.gen).1 refl,
  sym id,
  deserialize_superblock-serialize sb r w,
)
  where
    low : ltb sb.gen special_version_created ≡ false
    low = ground arith

    special : (sb.gen == special_version_created) ≡ false
    special = ground arith

-- A version that is there already reads as before.
load_from_store-older :
    (now g : ℕ) (sb : Superblock) (s : Streams)
    → special_version_created < s.version
    → s.version < sb.gen
    → g ≤ s.version
    → g < latest_generation
    → load_from_store now g (written sb s) ≡ load_from_store now g s
unfolding load_from_store written read_superblock
load_from_store-older now g sb s a b c d =
    ground (arith, not_latest, low, special, low', special', here, there, other)
  where
    not_latest : (g == latest_generation) ≡ false
    not_latest = ground arith

    low : ltb s.version special_version_created ≡ false
    low = ground arith

    special : (s.version == special_version_created) ≡ false
    special = ground arith

    low' : ltb sb.gen special_version_created ≡ false
    low' = ground arith

    special' : (sb.gen == special_version_created) ≡ false
    special' = ground arith

    here : ltb s.version g ≡ false
    here = ground arith

    there : ltb sb.gen g ≡ false
    there = ground arith

    other : (sb.gen == g) ≡ false
    other = ground arith

load-put :
    (holds : Bool) (sb : Superblock) (s : Streams) (now g : ℕ)
    → load_from_store now g (put_superblock_in_cache holds sb s) ≡ load_from_store now g s
unfolding put_superblock_in_cache load_from_store
load-put true sb s now g = refl
load-put false sb s now g = refl

put-CacheAgrees :
    (holds : Bool) (sb : Superblock) (s : Streams)
    → ((now : ℕ) → load_from_store now latest_generation s ≡ loaded sb)
    → (holds ≡ false → s.sbcache ≡ none)
    → CacheAgrees (put_superblock_in_cache holds sb s)
unfolding put_superblock_in_cache load_from_store
put-CacheAgrees true sb s h k = h
put-CacheAgrees false sb s h k = subst (CachedAs s) (sym (k refl)) tt

-- A commit, seen by later loads. Let the cache agree with the store, and be empty if this node does not hold
-- the write lock, and let ObtainGeneration give the new superblock. After Commit with a root, the cache still
-- agrees with the store; the new version is the one after the old, and every load of the latest version, with
-- or without the cache, gives the new superblock with that root; every load of an older version, from the
-- first one on, gives what it gave. The root and the wall time are words, and the version is below 2 ^ 64 - 2.
pub load_superblock-commit :
    (now : ℕ) (holds : Bool) (root : ℕ) (s : Streams) (new : Superblock)
    → CacheAgrees s
    → (holds ≡ false → s.sbcache ≡ none)
    → obtain_generation now holds s ≡ some new
    → IsWord root
    → IsWord now
    → s.version < 2 ^ 64 - 2
    → CacheAgrees (commit holds root new s)
      × (new.gen ≡ suc (loaded_gen s))
      × ((later : ℕ) (b : Bool)
          → load_superblock later b latest_generation (commit holds root new s)
            ≡ loaded (record new { root = root }))
      × ((later g : ℕ) (b : Bool)
          → special_version_first ≤ g
          → g ≤ s.version
          → load_superblock later b g (commit holds root new s) ≡ load_superblock later b g s)
unfolding commit written add64
load_superblock-commit now holds root s new h k e r w v =
    let (id, gen, wall, le) = obtain_generation-fields now holds s new h e in
    let sb : Superblock = record new { root = root } in
    let g1 : new.gen ≡ suc (loaded_gen s) = next_gen s.version new.gen v gen in
    let load : (later : ℕ) → load_from_store later latest_generation (written sb s) ≡ loaded sb =
      λ later.
        load_from_store-written later sb s id (first_gen s.version new.gen le g1) r
          (subst IsWord (sym wall) w) in
    let agrees : CacheAgrees (put_superblock_in_cache holds sb (written sb s)) =
      put-CacheAgrees holds sb (written sb s) load k in
    (
      agrees,
      g1,
      λ later b.
          load_superblock-store later b latest_generation
            (put_superblock_in_cache holds sb (written sb s)) agrees
          ∙ load-put holds sb (written sb s) later latest_generation
          ∙ load later,
      λ later g b from below.
          let old : special_version_created < s.version = omega arith in
          load_superblock-store later b g (put_superblock_in_cache holds sb (written sb s)) agrees
          ∙ load-put holds sb (written sb s) later g
          ∙ load_from_store-older later g sb s old (after_gen s.version new.gen old g1) below
              (omega arith)
          ∙ sym (load_superblock-store later b g s h),
    )
  where
    next_gen :
        (version gen : ℕ)
        → version < 2 ^ 64 - 2
        → gen
          ≡ add64 (if version == special_version_created then special_version_first else version) 1
        → gen ≡ suc (if version == special_version_created then special_version_first else version)
    next_gen version gen l q = ground (arith, q)

    first_gen :
        (version gen : ℕ)
        → special_version_created ≤ version
        → gen ≡ suc (if version == special_version_created then special_version_first else version)
        → special_version_first ≤ gen
    first_gen version gen l q = ground (arith, q)

    after_gen :
        (version gen : ℕ)
        → special_version_created < version
        → gen ≡ suc (if version == special_version_created then special_version_first else version)
        → version < gen
    after_gen version gen l q = ground (arith, q)
