-- ===== src/Bstore/Link.antt =====
-- LinkAndStore of internal/bstore/linker.go with allocateBlock of internal/bstore/blockstore.go: the blocks of
-- a write pass get their addresses. A block is what the links need of it: its identifier, a core block also
-- with its point width and the addresses of its children; `size` is the length of the serialised block. The
-- segments of the storage provider, and the address behind a write, are parameters; their calls succeed.
-- backpatch[0] = 0 is never read, as addresses below RELOCATION_BASE are left alone.
pub mod Order
pub mod Correct
use btrdb_server.Base.{
  ℕ, ◌+◌, ◌-◌, ◌^◌, Bool, Option, none, some, List, [], ◌∷◌, ◌++◌, ltb, leb, ◌==◌, if◌then◌else◌,
  ◌>>=◌,
}
use btrdb_server.Base.Word.{add64}
use btrdb_server.Bstore.Consts.{relocation_base}

pub record VBlock : Type 0 where
  pub identifier : ℕ
  pub size : ℕ

pub record CBlock : Type 0 where
  pub identifier : ℕ
  pub point_width : ℕ
  pub addr : List ℕ
  pub size : ℕ

-- The goroutine behind allocateBlock: the address after this one.
unfoldable pub next_relocation : ℕ → ℕ
next_relocation a =
    let next = add64 a 1 in if ltb next relocation_base then relocation_base else next

-- sort.Sort(pCBArr(cblocks)): by PointWidth.
unfoldable pub insert_cblock : CBlock → List CBlock → List CBlock
insert_cblock c [] = c ∷ []
insert_cblock c (d ∷ ds) =
    if ltb d.point_width c.point_width then d ∷ insert_cblock c ds else c ∷ d ∷ ds

unfoldable pub sort_cblocks : List CBlock → List CBlock
sort_cblocks [] = []
sort_cblocks (c ∷ cs) = insert_cblock c (sort_cblocks cs)

-- The map backpatch: the last entry of an identifier counts.
abbrev pub Backpatch : Type 0
Backpatch = List (ℕ × ℕ)

unfoldable pub find : ℕ → Backpatch → Option ℕ
find id [] = none
find id ((k, ptr) ∷ bp) = let rest = find id bp in if k == id then some ptr else rest

-- Relocate and backpatch; `none` is the panic for an address that is not there.
unfoldable pub relocate : Backpatch → ℕ → Option ℕ
relocate bp a = if ltb a relocation_base then some a else find a bp

unfoldable pub relocate_all : Backpatch → List ℕ → Option (List ℕ)
relocate_all bp [] = some []
relocate_all bp (a ∷ addr) =
    relocate bp a >>= λ a'. relocate_all bp addr >>= λ rest. some (a' ∷ rest)

-- Segments: the address behind a write of some bytes at an address.
module _ (after_write : ℕ → ℕ → ℕ) where
  -- The loop over the vector blocks, from the address vptr on.
  unfoldable pub store_vblocks : ℕ → List VBlock → Backpatch → Backpatch
  store_vblocks vptr [] bp = bp
  store_vblocks vptr (vb ∷ vbs) bp =
      store_vblocks (after_write vptr vb.size) vbs ((vb.identifier, vptr) ∷ bp)

  -- The loop over the core blocks: the map, and the blocks as they are written.
  unfoldable pub store_cblocks : ℕ → List CBlock → Backpatch → Option (Backpatch × List CBlock)
  store_cblocks cptr [] bp = some (bp, [])
  store_cblocks cptr (cb ∷ cbs) bp = relocate_all bp cb.addr >>= λ addr.
      store_cblocks (after_write cptr cb.size) cbs ((cb.identifier, cptr) ∷ bp) >>= λ t.
      some (t.0, record cb { identifier = cptr; addr = addr } ∷ t.1)

  unfoldable pub link_and_store :
      ℕ → ℕ → List VBlock → List CBlock → Option (Backpatch × List CBlock)
  link_and_store vbase cbase vblocks cblocks =
      store_cblocks cbase (sort_cblocks cblocks) (store_vblocks vbase vblocks [])
