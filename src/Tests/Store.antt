-- ===== src/Tests/Store.antt =====
-- Versions of a stream, the links of a write pass and the block cache.
use btrdb_server.Base.{
  Option, none, ℕ, suc, ◌+◌, ◌≤◌, ◌<◌, ◌≡◌, refl, inl, inr, Bool, true, some, List, [], ◌∷◌, arith,
  All, map, ltb, if◌then◌else◌, ◌>>=◌, ◌*◌, ◌==◌,
}
use btrdb_server.Bstore.Consts.{relocation_base}
use btrdb_server.Bstore.Superblock.{
  deserialize_superblock, clone_inc, put_uint64, uint64, Superblock, special_version_first,
  serialize,
}
use btrdb_server.Bstore.Versions.{
  read_superblock, load_superblock_from_cache, or_panic, load_from_store, put_superblock_in_cache,
  Streams, latest_generation, loaded, load_superblock, obtain_generation, commit,
}
use btrdb_server.Bstore.Versions.Load.{CacheAgrees, loaded_gen}
use btrdb_server.Bstore.Versions.Correct.{load_superblock-commit}
use btrdb_server.Bstore.Link.{
  store_cblocks, insert_cblock, relocate, store_vblocks, find, relocate_all, VBlock, CBlock,
  Backpatch, sort_cblocks, link_and_store,
}
use btrdb_server.Bstore.Link.Order.{AreLinked, OnDisk}
use btrdb_server.Bstore.Link.Correct.{link_and_store-OnDisk}
use btrdb_server.Base.Word.{add64}
use btrdb_server.Bstore.Cache.{
  cache_promote, evict_oldest, drop_item, fetch, put_item, promoted_old, cache_check_cap, relink,
  cache_get, write, Cache, cache_put, read_datablock,
}
use btrdb_server.Bstore.Cache.Recent.{is_some}
use btrdb_server.Bstore.Cache.Lru.{IsLru}
use btrdb_server.Bstore.Cache.Correct.{Coherent, read_vaddr, read_datablock-IsLru}

abbrev eleventh : Superblock
eleventh = record { uuid = 77; gen = 11; root = 4000; walltime = 900 }

-- A stream in version 11, which is cached.
abbrev written_twice : Streams
written_twice = record {
  id = 77;
  version = 11;
  superblocks =
      (11, 160 ∷ 15 ∷ 0 ∷ 0 ∷ 0 ∷ 0 ∷ 0 ∷ 0 ∷ 132 ∷ 3 ∷ 0 ∷ 0 ∷ 0 ∷ 0 ∷ 0 ∷ 0 ∷ [])
      ∷ (10, 0 ∷ 0 ∷ 0 ∷ 0 ∷ 0 ∷ 0 ∷ 0 ∷ 0 ∷ 2 ∷ 1 ∷ 0 ∷ 0 ∷ 0 ∷ 0 ∷ 0 ∷ 0 ∷ [])
      ∷ [];
  sbcache = some eleventh;
}

abbrev twelfth : Superblock
twelfth = record { uuid = 77; gen = 12; root = 4000; walltime = 1000 }

obtain_generation_run : obtain_generation 1000 true written_twice ≡ some twelfth
unfolding obtain_generation load_superblock load_superblock_from_cache clone_inc add64
obtain_generation_run = refl

serialize_run :
    serialize eleventh ≡ 160 ∷ 15 ∷ 0 ∷ 0 ∷ 0 ∷ 0 ∷ 0 ∷ 0 ∷ 132 ∷ 3 ∷ 0 ∷ 0 ∷ 0 ∷ 0 ∷ 0 ∷ 0 ∷ []
unfolding serialize put_uint64
serialize_run = refl

load_older_run :
    load_superblock 0 true 10 (commit true 5000 twelfth written_twice)
    ≡ loaded (record { uuid = 77; gen = 10; root = 0; walltime = 258 })
unfolding load_superblock load_from_store commit put_superblock_in_cache or_panic read_superblock
    deserialize_superblock uint64
load_older_run = refl

written_twice-CacheAgrees : CacheAgrees written_twice
unfolding load_superblock load_from_store or_panic read_superblock deserialize_superblock uint64
written_twice-CacheAgrees now = refl

load_superblock-commit_example :
    CacheAgrees (commit true 5000 twelfth written_twice)
    × (12 ≡ suc (loaded_gen written_twice))
    × ((later : ℕ) (b : Bool)
        → load_superblock later b latest_generation (commit true 5000 twelfth written_twice)
          ≡ loaded (record twelfth { root = 5000 }))
    × ((later g : ℕ) (b : Bool)
        → special_version_first ≤ g
        → g ≤ 11
        → load_superblock later b g (commit true 5000 twelfth written_twice)
          ≡ load_superblock later b g written_twice)
load_superblock-commit_example =
    load_superblock-commit 1000 true 5000 written_twice twelfth written_twice-CacheAgrees
      (λ e. ground arith) obtain_generation_run (omega arith) (omega arith) (omega arith)

-- A segment that lies below RELOCATION_BASE, and wraps around there.
abbrev after_write : ℕ → ℕ → ℕ
after_write p n = if ltb (p + n) relocation_base then p + n else 0

after_write-stays : (p n : ℕ) → p < relocation_base → after_write p n < relocation_base
after_write-stays p n h = ground arith

abbrev vblocks : List VBlock
vblocks =
    record { identifier = relocation_base + 3; size = 100 }
    ∷ record { identifier = relocation_base + 1; size = 50 }
    ∷ []

-- The wider block stands in front and holds the narrower one.
abbrev cblocks : List CBlock
cblocks =
    record {
      identifier = relocation_base + 2;
      point_width = 12;
      addr = 0 ∷ (relocation_base + 4) ∷ 900 ∷ [];
      size = 30;
    }
    ∷ record {
      identifier = relocation_base + 4;
      point_width = 6;
      addr = (relocation_base + 1) ∷ (relocation_base + 3) ∷ [];
      size = 40;
    }
    ∷ []

abbrev blocks_written : List CBlock
blocks_written =
    record { identifier = 20000; point_width = 6; addr = 10100 ∷ 10000 ∷ []; size = 40 }
    ∷ record { identifier = 20040; point_width = 12; addr = 0 ∷ 20000 ∷ 900 ∷ []; size = 30 }
    ∷ []

link_and_store_run :
    (link_and_store after_write 10000 20000 vblocks cblocks >>= λ t. some t.1) ≡ some blocks_written
unfolding link_and_store store_cblocks sort_cblocks insert_cblock relocate_all relocate find
    store_vblocks
link_and_store_run = refl

links : AreLinked vblocks cblocks cblocks
links = (
  (inl (omega arith), (inr (inr refl), (inl (omega arith), tt))),
  ((inr (inl refl), (inr (inl refl), tt)), tt),
)

link_and_store-OnDisk_example :
    (bp : Backpatch) × (out : List CBlock) × (link_and_store after_write 10000 20000 vblocks cblocks
      ≡ some (bp, out))
    × All (λ c. (c.identifier < relocation_base) × OnDisk c.addr) out
    × (map (λ c. c.point_width) out ≡ map (λ c. c.point_width) (sort_cblocks cblocks))
link_and_store-OnDisk_example =
    link_and_store-OnDisk after_write after_write-stays 10000 20000 vblocks cblocks (omega arith)
      (omega arith) links

-- The blocks in the store; there is none at 100 or behind.
abbrev stored : ℕ → Option ℕ
stored a = if ltb a 100 then some (a * 3) else none

-- A cache for two blocks with 9 in front of 7.
abbrev two_blocks : Cache ℕ
two_blocks = record {
  cachemap = λ a. if a == 9 then some 27 else if a == 7 then some 21 else none;
  newer = λ a. if a == 7 then some 9 else none;
  older = λ a. if a == 9 then some 7 else none;
  cachenew = some 9;
  cacheold = some 7;
  cachelen = 2;
  cachemax = 2;
}

two_blocks-IsLru : IsLru two_blocks (9 ∷ 7 ∷ [])
two_blocks-IsLru = record {
  represents = record {
    distinct = (refl, (refl, tt));
    newest = refl;
    oldest = refl;
    cached = λ a. ground arith;
    newer_ok = λ a m. ground arith;
    older_ok = λ a m. ground arith;
  };
  counted = refl;
  capped = omega arith;
}

two_blocks-Coherent : Coherent stored two_blocks
two_blocks-Coherent a m = ground arith

-- 5 takes the place of 7.
read_datablock_run :
    (read_datablock stored 5 two_blocks >>= λ t.
    some (t.0 ∷ t.1.cachenew ∷ t.1.cacheold ∷ t.1.cachemap 7 ∷ t.1.cachemap 9 ∷ []))
    ≡ some (some 15 ∷ some 5 ∷ some 9 ∷ none ∷ some 27 ∷ [])
unfolding read_datablock fetch cache_get cache_put cache_check_cap cache_promote put_item relink
    evict_oldest promoted_old write drop_item
read_datablock_run = refl

read_datablock-IsLru_example :
    (c' : Cache ℕ) × (read_datablock stored 5 two_blocks ≡ some (stored 5, c'))
    × IsLru c' (read_vaddr 2 5 (is_some (stored 5)) (9 ∷ 7 ∷ []))
    × Coherent stored c'
read_datablock-IsLru_example =
    read_datablock-IsLru stored 5 two_blocks (9 ∷ 7 ∷ []) two_blocks-IsLru two_blocks-Coherent
