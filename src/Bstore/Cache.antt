-- ===== src/Bstore/Cache.antt =====
-- The block cache of internal/bstore/blockcache.go, and ReadDatablock of blockstore.go in front of the store. An
-- item stands under its vaddr: nothing refers to an item that was evicted, so that there is one item for each
-- vaddr. The heap is a map for each field; cachemap also holds the item's val. `none` is nil. Counters of hits
-- and the lock are left out, and so are DropCache, which only a fault injection calls, and cacheEvictAddr, which
-- no setting reaches.
pub mod Order
pub mod Recent
pub mod Lru
pub mod Put
pub mod Correct
use btrdb_server.Base.{
  ℕ, zero, suc, ◌+◌, ◌-◌, Bool, true, false, ◌&&◌, Option, none, some, List, [], ◌∷◌, ltb, ◌==◌,
  if◌then◌else◌, ◌>>=◌,
}

pub record Cache (B : Type 0) : Type 0 where
  pub cachemap : ℕ → Option B
  pub newer : ℕ → Option ℕ
  pub older : ℕ → Option ℕ
  pub cachenew : Option ℕ
  pub cacheold : Option ℕ
  pub cachelen : ℕ
  pub cachemax : ℕ

-- Whether the pointer is that of the item.
abbrev pub is_at : Option ℕ → ℕ → Bool
is_at none i = false
is_at (some p) i = p == i

-- A write through a pointer that is not nil.
unfoldable pub write {ℓ} : {A : Type ℓ} → Option ℕ → A → (ℕ → A) → ℕ → A
write p x f a = if is_at p a then x else f a

unfoldable pub init_cache : {B : Type 0} → ℕ → Cache B
init_cache size = record {
  cachemap = λ a. none;
  newer = λ a. none;
  older = λ a. none;
  cachenew = none;
  cacheold = none;
  cachelen = 0;
  cachemax = size;
}

-- The new cacheold of cachePromote, from i.newer.
unfoldable pub promoted_old : Option ℕ → ℕ → Option ℕ → Option ℕ
promoted_old none i newer = some i
promoted_old (some old) i none = some old
promoted_old (some old) i (some n) = if old == i then some n else some old

-- What cachePromote does to an item that is not in front.
unfoldable pub relink : {B : Type 0} → ℕ → Cache B → Cache B
relink i c =
    let older = write (c.newer i) (c.older i) c.older in
    let newer = write (older i) (c.newer i) c.newer in
    record c {
      newer = write c.cachenew (some i) (write (some i) none newer);
      older = write (some i) c.cachenew older;
      cacheold = promoted_old c.cacheold i (newer i);
      cachenew = some i;
    }

unfoldable pub cache_promote : {B : Type 0} → ℕ → Cache B → Cache B
cache_promote i c = if is_at c.cachenew i then c else relink i c

-- What a round of cacheCheckCap does to the item at cacheold.
unfoldable pub drop_item : {B : Type 0} → ℕ → Cache B → Cache B
drop_item i c = record c {
  cachemap = write (some i) none c.cachemap;
  older = write (c.newer i) none c.older;
  cacheold = c.newer i;
  cachelen = c.cachelen - 1;
}

-- `none` is the panic for an empty list.
unfoldable pub evict_oldest : {B : Type 0} → Cache B → Option (Cache B)
evict_oldest c = elim (c.cacheold) [ none ↦ none | some i ↦ some (drop_item i c) ]

-- cacheCheckCap, on fuel.
unfoldable pub cache_check_cap : {B : Type 0} → ℕ → Cache B → Option (Cache B)
cache_check_cap zero c = none
cache_check_cap (suc fuel) c =
    let rest = evict_oldest c >>= λ c'. cache_check_cap fuel c' in
    if ltb c.cachemax c.cachelen then rest else some c

-- A new item in the heap and in cachemap.
unfoldable pub put_item : {B : Type 0} → ℕ → B → Cache B → Cache B
put_item vaddr item c = record c {
  cachemap = write (some vaddr) (some item) c.cachemap;
  newer = write (some vaddr) none c.newer;
  older = write (some vaddr) none c.older;
}

-- The fuel is a round more than the items there may be.
unfoldable pub cache_put : {B : Type 0} → ℕ → B → Cache B → Option (Cache B)
cache_put vaddr item c = if c.cachemax == 0 then some c else elim (c.cachemap vaddr) [
  | some b ↦ some (cache_promote vaddr c)
  | none ↦
      let c' = cache_promote vaddr (put_item vaddr item c) in
      cache_check_cap (suc (suc c'.cachelen)) (record c' { cachelen = c'.cachelen + 1 })
]

unfoldable pub cache_get : {B : Type 0} → ℕ → Cache B → Option B × Cache B
cache_get vaddr c =
    if c.cachemax == 0
    then (none, c)
    else elim (c.cachemap vaddr) [ some b ↦ (some b, cache_promote vaddr c) | none ↦ (none, c) ]

-- After cacheGet, where `read` is the store with the decoding of the block. The result is the block, or `none` for
-- an error, and the cache.
unfoldable pub fetch :
    {B : Type 0} → (ℕ → Option B) → ℕ → Option B × Cache B → Option (Option B × Cache B)
fetch read addr (some b, c) = some (some b, c)
fetch read addr (none, c) = elim (read addr) [
  | none ↦ some (none, c)
  | some b ↦ cache_put addr b c >>= λ c'. some (some b, c')
]

unfoldable pub read_datablock :
    {B : Type 0} → (ℕ → Option B) → ℕ → Cache B → Option (Option B × Cache B)
read_datablock read addr c = fetch read addr (cache_get addr c)
