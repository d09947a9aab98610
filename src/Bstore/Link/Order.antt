-- ===== src/Bstore/Link/Order.antt =====
-- About the order of the core blocks in LinkAndStore of internal/bstore/linker.go and the addresses they hold.
use mathlib.Core.Path.{subst}
use btrdb_server.Base.{
  ltb→lt, ltb-false→le, ◌&&◌, ==_iff, ==_iff, ℕ, ◌≤◌, ◌<◌, ◌≡◌, refl, ◌⊎◌, inl, inr, Bool, true,
  false, some, List, [], ◌∷◌, arith, All, All-imp, ltb, ◌==◌, if_both, if◌then◌else◌, Bool-cases,
}
use btrdb_server.Bstore.Consts.{relocation_base}
use btrdb_server.Bstore.Link.{
  VBlock, CBlock, Backpatch, insert_cblock, sort_cblocks, find, relocate, relocate_all,
}

-- Whether a block has the identifier.
abbrev pub is_vblock : ℕ → List VBlock → Bool
is_vblock id [] = false
is_vblock id (v ∷ vs) = if v.identifier == id then true else is_vblock id vs

-- Whether a core block narrower than pw has the identifier.
abbrev pub is_narrower : ℕ → ℕ → List CBlock → Bool
is_narrower id pw [] = false
is_narrower id pw (c ∷ cs) =
    if c.identifier == id && ltb c.point_width pw then true else is_narrower id pw cs

-- A child's address is on disk already, or is the identifier of a vector block or of a narrower core block of
-- this pass.
abbrev pub IsLink : List VBlock → List CBlock → ℕ → ℕ → Type 0
IsLink vs cs pw a = (a < relocation_base) ⊎ ((is_vblock a vs ≡ true) ⊎ (is_narrower a pw cs ≡ true))

abbrev pub AreLinked : List VBlock → List CBlock → List CBlock → Type 0
AreLinked vs all cs = All (λ c. All (IsLink vs all c.point_width) c.addr) cs

pub is_narrower-insert :
    (id pw : ℕ) (c : CBlock) (cs : List CBlock)
    → is_narrower id pw (insert_cblock c cs) ≡ is_narrower id pw (c ∷ cs)
unfolding insert_cblock
is_narrower-insert id pw c [] = refl
is_narrower-insert id pw c (d ∷ ds) = ground (arith, is_narrower-insert id pw c ds)

pub is_narrower-sort :
    (id pw : ℕ) (cs : List CBlock) → is_narrower id pw (sort_cblocks cs) ≡ is_narrower id pw cs
unfolding sort_cblocks
is_narrower-sort id pw [] = refl
is_narrower-sort id pw (c ∷ cs) =
    ground (arith, is_narrower-insert id pw c (sort_cblocks cs), is_narrower-sort id pw cs)

-- The identifier has an address, on disk.
abbrev pub Found : ℕ → Backpatch → Type 0
Found id bp = (ptr : ℕ) × (find id bp ≡ some ptr) × (ptr < relocation_base)

pub Found-cons :
    (id k ptr : ℕ) (bp : Backpatch) → ptr < relocation_base → Found id bp → Found id ((k, ptr) ∷ bp)
unfolding find
Found-cons id k ptr bp l (p, e, h) = elim (Bool-cases (k == id)) [
  | inl f ↦ (ptr, rw f, l)
  | inr f ↦ (p, rw (f, find) e, h)
]

pub Found-first : (id ptr : ℕ) (bp : Backpatch) → ptr < relocation_base → Found id ((id, ptr) ∷ bp)
unfolding find
Found-first id ptr bp l = (ptr, rw ((==_iff id id).1 refl), l)

-- Every address that a core block holds can be relocated.
abbrev pub CanRelocate : Backpatch → ℕ → Type 0
CanRelocate bp a = (a < relocation_base) ⊎ Found a bp

abbrev pub OnDisk : List ℕ → Type 0
OnDisk addr = All (λ a. a < relocation_base) addr

pub relocate_all-some :
    (bp : Backpatch) (addr : List ℕ)
    → All (CanRelocate bp) addr
    → (out : List ℕ) × (relocate_all bp addr ≡ some out) × OnDisk out
unfolding relocate_all relocate
relocate_all-some bp [] h = ([], refl, tt)
relocate_all-some bp (a ∷ addr) (h, hs) =
    let (out, e, d) = relocate_all-some bp addr hs in
    elim (Bool-cases (ltb a relocation_base)) [
      | inl low ↦ (a ∷ out, rw (low, e), (ltb→lt a relocation_base low, d))
      | inr high ↦ elim h [
        | inl l ↦ absurd (omega (arith, ltb-false→le a relocation_base high))
        | inr f ↦ (f.0 ∷ out, rw (high, f.1, e), (f.2, d))
      ]
    ]

-- Each of the block's addresses can be relocated, or is that of a narrower block of the list.
abbrev pub Ready : Backpatch → List CBlock → CBlock → Type 0
Ready bp cs c = All (λ a. CanRelocate bp a ⊎ (is_narrower a c.point_width cs ≡ true)) c.addr

abbrev pub AscendsPw : ℕ → List CBlock → Type 0
AscendsPw lo [] = Unit {0}
AscendsPw lo (c ∷ cs) = (lo ≤ c.point_width) × AscendsPw c.point_width cs

pub insert_cblock-AscendsPw :
    (lo : ℕ) (c : CBlock) (cs : List CBlock)
    → lo ≤ c.point_width
    → AscendsPw lo cs
    → AscendsPw lo (insert_cblock c cs)
unfolding insert_cblock
insert_cblock-AscendsPw lo c [] h a = (h, tt)
insert_cblock-AscendsPw lo c (d ∷ ds) h (p, a) =
    if_both (AscendsPw lo) (ltb d.point_width c.point_width)
      (λ e. (p, insert_cblock-AscendsPw d.point_width c ds (ground (arith, e)) a))
      (λ e. (h, (ground (arith, e), a)))

pub sort_cblocks-AscendsPw : (cs : List CBlock) → AscendsPw 0 (sort_cblocks cs)
unfolding sort_cblocks
sort_cblocks-AscendsPw [] = tt
sort_cblocks-AscendsPw (c ∷ cs) =
    insert_cblock-AscendsPw 0 c (sort_cblocks cs) (omega arith) (sort_cblocks-AscendsPw cs)

pub none_narrower : (a lo : ℕ) (cs : List CBlock) → AscendsPw lo cs → is_narrower a lo cs ≡ false
none_narrower a lo [] h = refl
none_narrower a lo (c ∷ cs) (p, h) = ground (arith, none_narrower' a lo c.point_width cs)
  where
    none_narrower' :
        (a lo hi : ℕ) (cs : List CBlock) → lo ≤ hi → AscendsPw hi cs → is_narrower a lo cs ≡ false
    none_narrower' a lo hi [] l h = refl
    none_narrower' a lo hi (c ∷ cs) l (p, h) = ground (arith, none_narrower' a lo c.point_width cs)

-- What holds of every block holds of the sorted ones.
pub All-insert_cblock :
    (P : CBlock → Type 0) (c : CBlock) (cs : List CBlock)
    → P c
    → All P cs
    → All P (insert_cblock c cs)
unfolding insert_cblock
All-insert_cblock P c [] h hs = (h, tt)
All-insert_cblock P c (d ∷ ds) h hs =
    if_both (All P) (ltb d.point_width c.point_width) (λ _. (hs.0, All-insert_cblock P c ds h hs.1))
      (λ _. (h, hs))

pub All-sort_cblocks : (P : CBlock → Type 0) (cs : List CBlock) → All P cs → All P (sort_cblocks cs)
unfolding sort_cblocks
All-sort_cblocks P [] h = tt
All-sort_cblocks P (c ∷ cs) h =
    All-insert_cblock P c (sort_cblocks cs) h.0 (All-sort_cblocks P cs h.1)

-- The head of a sorted list waits for no block of the list.
pub head-Ready :
    (bp : Backpatch) (c : CBlock) (cs : List CBlock)
    → AscendsPw c.point_width (c ∷ cs)
    → Ready bp (c ∷ cs) c
    → All (CanRelocate bp) c.addr
head-Ready bp c cs asc r = All-imp pick c.addr r
  where
    true-ne-false : {b : Bool} → b ≡ true → b ≡ false → ⊥
    true-ne-false e f = cc

    pick :
        (a : ℕ)
        → CanRelocate bp a ⊎ (is_narrower a c.point_width (c ∷ cs) ≡ true)
        → CanRelocate bp a
    pick a (inl h) = h
    pick a (inr e) = absurd (true-ne-false e (none_narrower a c.point_width (c ∷ cs) asc))

-- Behind the head, which has its address now.
pub tail-Ready :
    (bp : Backpatch) (c : CBlock) (cs : List CBlock) (ptr : ℕ) (d : CBlock)
    → ptr < relocation_base
    → Ready bp (c ∷ cs) d
    → Ready ((c.identifier, ptr) ∷ bp) cs d
tail-Ready bp c cs ptr d l r = All-imp pick d.addr r
  where
    narrower :
        (a : ℕ)
        → is_narrower a d.point_width (c ∷ cs) ≡ true
        → CanRelocate ((c.identifier, ptr) ∷ bp) a ⊎ (is_narrower a d.point_width cs ≡ true)
    narrower a e = elim (Bool-cases (c.identifier == a)) [
      | inl f ↦ inl (
          inr (
            subst (λ (k : ℕ). Found k ((c.identifier, ptr) ∷ bp)) ((==_iff c.identifier a).0 f)
              (Found-first c.identifier ptr bp l)))
      | inr f ↦ inr (rw f at e)
    ]

    pick :
        (a : ℕ)
        → CanRelocate bp a ⊎ (is_narrower a d.point_width (c ∷ cs) ≡ true)
        → CanRelocate ((c.identifier, ptr) ∷ bp) a ⊎ (is_narrower a d.point_width cs ≡ true)
    pick a (inl (inl h)) = inl (inl h)
    pick a (inl (inr f)) = inl (inr (Found-cons a c.identifier ptr bp l f))
    pick a (inr e) = narrower a e
