-- ===== src/Bstore/Cache/Lru.antt =====
-- The block cache of internal/bstore/blockcache.go as a list of the vaddrs that were used last, and cachePromote.
use mathlib.Core.Path.{subst}
use btrdb_server.Base.{
  ℕ, ◌≤◌, ◌≡◌, refl, ◌∙◌, ap, Bool, true, false, Option, List, [], ◌∷◌, arith, ltb, ◌==◌, ==_iff,
  if◌then◌else◌, length, Bool-cases, inl, inr,
}
use btrdb_server.Bstore.Cache.{Cache, is_at, relink, cache_promote}
use btrdb_server.Bstore.Cache.Order.{has, remove, last_of, length-remove}
use btrdb_server.Bstore.Cache.Recent.{Represents, relink-Represents}

-- The list after a vaddr was used: in front, and nowhere else.
abbrev pub use_vaddr : ℕ → List ℕ → List ℕ
use_vaddr a l = a ∷ remove a l

-- After a new one: at most max, without the last one if there are more.
abbrev pub drop_last : List ℕ → List ℕ
drop_last [] = []
drop_last (x ∷ l) = remove (last_of x l) (x ∷ l)

abbrev pub put_vaddr : ℕ → ℕ → List ℕ → List ℕ
put_vaddr max a l =
    if has a l then use_vaddr a l else if ltb (length l) max then a ∷ l else drop_last (a ∷ l)

-- The heap holds the list, which is no longer than cachelen says and cachemax allows.
pub record IsLru {B : Type 0} (c : Cache B) (l : List ℕ) : Type 0 where
  pub represents : Represents c l
  pub counted : c.cachelen ≡ length l
  pub capped : length l ≤ c.cachemax

-- The list and the sizes after a step that moves no block.
abbrev pub Moved : {B : Type 0} → Cache B → Cache B → List ℕ → Type 0
Moved c c' l = IsLru c' l × (c'.cachemap ≡ c.cachemap) × (c'.cachemax ≡ c.cachemax)

relink-fields :
    {B : Type 0} (c : Cache B) (i : ℕ)
    → ((relink i c).cachemap ≡ c.cachemap)
      × ((relink i c).cachemax ≡ c.cachemax)
      × ((relink i c).cachelen ≡ c.cachelen)
unfolding relink
relink-fields c i = (refl, refl, refl)

relink-Moved :
    {B : Type 0} (c : Cache B) (x i : ℕ) (l : List ℕ)
    → IsLru c (x ∷ l)
    → has i l ≡ true
    → (x == i) ≡ false
    → Moved c (relink i c) (i ∷ x ∷ remove i l)
relink-Moved c x i l r h e =
    let (same_map, same_max, same_len) = relink-fields c i in
    (
      record {
        represents = relink-Represents c x i l r.represents h e;
        counted = omega (arith, same_len, r.counted, length-remove i l h);
        capped = omega (arith, same_max, r.capped, length-remove i l h);
      },
      same_map,
      same_max,
    )

pub promote_if :
    {B : Type 0} (c : Cache B) (i : ℕ) (b : Bool)
    → is_at c.cachenew i ≡ b
    → cache_promote i c ≡ (if b then c else relink i c)
unfolding cache_promote
promote_if c i b e = ap (λ (t : Bool). if t then c else relink i c) e

pub cache_promote-Moved :
    {B : Type 0} (c : Cache B) (i : ℕ) (l : List ℕ)
    → IsLru c l
    → has i l ≡ true
    → Moved c (cache_promote i c) (use_vaddr i l)
cache_promote-Moved c i [] r h = cc
cache_promote-Moved c i (x ∷ l) r h = elim (Bool-cases (x == i)) [
  | inl e ↦
      rw (promote_if c i true (ap (λ (p : Option ℕ). is_at p i) r.represents.newest ∙ e), e)
        (subst (λ (y : ℕ). IsLru c (y ∷ l)) ((==_iff x i).0 e) r, refl, refl)
  | inr e ↦
      rw (promote_if c i false (ap (λ (p : Option ℕ). is_at p i) r.represents.newest ∙ e), e)
        (relink-Moved c x i l r (rw e at h) e)
]
