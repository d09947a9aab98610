-- ===== src/Bstore/Versions.antt =====
-- The versions of one stream in internal/bstore/blockstore.go and sbcache.go: LoadSuperblock with the superblock
-- cache in front of the store, ObtainGeneration and the end of Commit, which writes the superblock. What the
-- store holds are the bytes of WriteSuperBlock and the version of SetStreamVersion, 0 for a stream that does
-- not exist; its calls succeed. `holds` is WeHoldWriteLockFor. The prune of a full cache may drop any entry,
-- which FlushSuperblockFromCache stands for.
pub mod Load
pub mod Correct
use btrdb_server.Base.{
  ℕ, ◌-◌, ◌+◌, ◌^◌, Bool, true, false, Option, none, some, List, [], ◌∷◌, ltb, ◌==◌, if◌then◌else◌,
  ◌>>=◌,
}
use btrdb_server.Bstore.Superblock.{
  Superblock, special_version_created, new_superblock, clone_inc, serialize, deserialize_superblock,
}

abbrev pub latest_generation : ℕ
latest_generation = 2 ^ 64 - 1

pub record Streams : Type 0 where
  pub id : ℕ
  pub version : ℕ
  pub superblocks : List (ℕ × List ℕ)
  pub sbcache : Option Superblock

-- ReadSuperBlock; the last write of a version counts.
unfoldable pub read_superblock : ℕ → List (ℕ × List ℕ) → Option (List ℕ)
read_superblock version [] = none
read_superblock version ((v, arr) ∷ sbs) =
    let rest = read_superblock version sbs in if v == version then some arr else rest

unfoldable pub load_superblock_from_cache : Bool → Streams → Option Superblock
load_superblock_from_cache holds s = if holds then s.sbcache else none

-- nil, a superblock, or a panic.
pub data Loaded : Type 0 where
  missing : Loaded
  loaded : Superblock → Loaded
  panicked : Loaded

unfoldable pub or_panic : Option Superblock → Loaded
or_panic none = panicked
or_panic (some sb) = loaded sb

unfoldable pub load_from_store : ℕ → ℕ → Streams → Loaded
load_from_store now generation s =
    let generation' = if generation == latest_generation then s.version else generation in
    if ltb s.version special_version_created
    then missing
    else if s.version == special_version_created
    then loaded (new_superblock now s.id)
    else if ltb s.version generation'
    then missing
    else or_panic
        (read_superblock generation' s.superblocks >>= deserialize_superblock s.id generation')

unfoldable pub load_superblock : ℕ → Bool → ℕ → Streams → Loaded
load_superblock now holds generation s =
    if generation == latest_generation
    then elim (load_superblock_from_cache holds s) [
      | some sb ↦ loaded sb
      | none ↦ load_from_store now generation s
    ]
    else load_from_store now generation s

unfoldable pub put_superblock_in_cache : Bool → Superblock → Streams → Streams
put_superblock_in_cache holds sb s = if holds then record s { sbcache = some sb } else s

unfoldable pub flush_superblock_from_cache : Streams → Streams
flush_superblock_from_cache s = record s { sbcache = none }

-- ObtainGeneration: New_SB, or `none` where there is no stream or the load panics.
unfoldable pub obtain_generation : ℕ → Bool → Streams → Option Superblock
obtain_generation now holds s = elim (load_superblock now holds latest_generation s) [
  | missing ↦ none
  | loaded cur ↦ some (clone_inc now cur)
  | panicked ↦ none
]

-- The end of Commit, with the root that LinkAndStore gave an address.
unfoldable pub commit : Bool → ℕ → Superblock → Streams → Streams
commit holds root new_sb s =
    let sb : Superblock = record new_sb { root = root } in
    put_superblock_in_cache holds sb
      (record s { superblocks = (sb.gen, serialize sb) ∷ s.superblocks; version = sb.gen })
