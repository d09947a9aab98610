-- ===== src/Bstore/Link/Correct.antt =====
-- About LinkAndStore of internal/bstore/linker.go: the order of the blocks and their links.
use mathlib.Core.Path.{subst}
use btrdb_server.Base.{
  map, ap, ◌∙◌, ==_iff, ==_iff, ℕ, ◌<◌, ◌≡◌, refl, ◌⊎◌, inl, inr, true, some, List, [], ◌∷◌, arith,
  All, All-imp, ◌==◌, Bool-cases,
}
use btrdb_server.Bstore.Consts.{relocation_base}
use btrdb_server.Bstore.Link.{
  VBlock, CBlock, Backpatch, sort_cblocks, store_vblocks, store_cblocks, link_and_store,
}
use btrdb_server.Bstore.Link.Order.{
  All-sort_cblocks, AreLinked, AscendsPw, CanRelocate, Found, Found-cons, Found-first, IsLink,
  OnDisk, Ready, head-Ready, is_narrower, is_narrower-sort, is_vblock, relocate_all-some,
  sort_cblocks-AscendsPw, tail-Ready,
}

module _ (after_write : ℕ → ℕ → ℕ)
    (stays : (p n : ℕ) → p < relocation_base → after_write p n < relocation_base) where
  store_vblocks-keep :
      (id vptr : ℕ) (vs : List VBlock) (bp : Backpatch)
      → vptr < relocation_base
      → Found id bp
      → Found id (store_vblocks after_write vptr vs bp)
  unfolding store_vblocks
  store_vblocks-keep id vptr [] bp l f = f
  store_vblocks-keep id vptr (v ∷ vs) bp l f =
      store_vblocks-keep id (after_write vptr v.size) vs ((v.identifier, vptr) ∷ bp)
        (stays vptr v.size l) (Found-cons id v.identifier vptr bp l f)

  store_vblocks-Found :
      (id vptr : ℕ) (vs : List VBlock) (bp : Backpatch)
      → vptr < relocation_base
      → is_vblock id vs ≡ true
      → Found id (store_vblocks after_write vptr vs bp)
  unfolding store_vblocks
  store_vblocks-Found id vptr [] bp l e = cc
  store_vblocks-Found id vptr (v ∷ vs) bp l e = elim (Bool-cases (v.identifier == id)) [
    | inl f ↦
        store_vblocks-keep id (after_write vptr v.size) vs ((v.identifier, vptr) ∷ bp)
          (stays vptr v.size l)
          (subst (λ (k : ℕ). Found k ((v.identifier, vptr) ∷ bp)) ((==_iff v.identifier id).0 f)
            (Found-first v.identifier vptr bp l))
    | inr f ↦
        store_vblocks-Found id (after_write vptr v.size) vs ((v.identifier, vptr) ∷ bp)
          (stays vptr v.size l) (rw f at e)
  ]

  store_cblocks-some :
      (cptr : ℕ) (cs : List CBlock) (bp : Backpatch) (lo : ℕ)
      → cptr < relocation_base
      → AscendsPw lo cs
      → All (Ready bp cs) cs
      → (bp' : Backpatch) × (out : List CBlock) × (store_cblocks after_write cptr cs bp
          ≡ some (bp', out))
        × All (λ c. (c.identifier < relocation_base) × OnDisk c.addr) out
        × (map (λ c. c.point_width) out ≡ map (λ c. c.point_width) cs)
  unfolding store_cblocks
  store_cblocks-some cptr [] bp lo l asc r = (bp, [], refl, tt, refl)
  store_cblocks-some cptr (c ∷ cs) bp lo l (p, asc) (r, rs) =
      let (addr, e, d) = relocate_all-some bp c.addr (head-Ready bp c cs (omega arith, asc) r) in
      let (bp', out, f, ds, w) =
        store_cblocks-some (after_write cptr c.size) cs ((c.identifier, cptr) ∷ bp) c.point_width
          (stays cptr c.size l) asc (All-imp (λ b. tail-Ready bp c cs cptr b l) cs rs) in
      (
        bp',
        record c { identifier = cptr; addr = addr } ∷ out,
        rw (e, f),
        ((l, d), ds),
        ap (λ (ws : List ℕ). c.point_width ∷ ws) w,
      )

  -- Let every child's address in a core block be on disk, or be the identifier of a vector block or of a
  -- narrower core block of the pass, and let the segments hand out addresses below RELOCATION_BASE. Then
  -- LinkAndStore finds every address, so that it does not panic; it writes every core block, the narrow ones
  -- first, and no address in a block that it writes is a relocation address.
  pub link_and_store-OnDisk :
      (vbase cbase : ℕ) (vs : List VBlock) (cs : List CBlock)
      → vbase < relocation_base
      → cbase < relocation_base
      → AreLinked vs cs cs
      → (bp : Backpatch) × (out : List CBlock) × (link_and_store after_write vbase cbase vs cs
          ≡ some (bp, out))
        × All (λ c. (c.identifier < relocation_base) × OnDisk c.addr) out
        × (map (λ c. c.point_width) out ≡ map (λ c. c.point_width) (sort_cblocks cs))
  unfolding link_and_store
  link_and_store-OnDisk vbase cbase vs cs lv lc links =
      store_cblocks-some cbase (sort_cblocks cs) (store_vblocks after_write vbase vs []) 0 lc
        (sort_cblocks-AscendsPw cs)
        (All-sort_cblocks (Ready (store_vblocks after_write vbase vs []) (sort_cblocks cs)) cs
          (All-imp (λ c. All-imp (ready c.point_width) c.addr) cs links))
    where
      ready :
          (pw a : ℕ)
          → IsLink vs cs pw a
          → CanRelocate (store_vblocks after_write vbase vs []) a
            ⊎ (is_narrower a pw (sort_cblocks cs) ≡ true)
      ready pw a (inl h) = inl (inl h)
      ready pw a (inr (inl e)) = inl (inr (store_vblocks-Found a vbase vs [] lv e))
      ready pw a (inr (inr e)) = inr (is_narrower-sort a pw cs ∙ e)
