-- ===== src/Bstore/Cache/Put.antt =====
-- About cachePut of internal/bstore/blockcache.go: what it does to the list of the vaddrs, and to the blocks.
use mathlib.Core.Path.{subst}
use btrdb_server.Base.{
  ltb→lt, ltb-false→le, ℕ, suc, ◌+◌, ◌-◌, ◌≤◌, ◌<◌, ◌≡◌, refl, sym, ◌∙◌, ap, true, false, Option,
  none, some, List, [], ◌∷◌, arith, ltb, ◌==◌, if◌then◌else◌, length, Bool-cases, Option-cases, inl,
  inr,
}
use btrdb_server.Bstore.Cache.{
  write, Cache, is_at, relink, cache_promote, drop_item, evict_oldest, cache_check_cap, put_item,
  cache_put,
}
use btrdb_server.Bstore.Cache.Order.{has, first, last_of, length-remove, has-last_of}
use btrdb_server.Bstore.Cache.Recent.{
  is_some, Represents, put_item-Represents, drop_item-Represents,
}
use btrdb_server.Bstore.Cache.Lru.{IsLru, put_vaddr, promote_if, cache_promote-Moved}

check_cap-fits :
    {B : Type 0} (fuel : ℕ) (c : Cache B)
    → c.cachelen ≤ c.cachemax
    → cache_check_cap (suc fuel) c ≡ some c
unfolding cache_check_cap
check_cap-fits fuel c h = rw (fits) refl
  where
    fits : ltb c.cachemax c.cachelen ≡ false
    fits = ground arith

check_cap-over :
    {B : Type 0} (fuel : ℕ) (c c' : Cache B)
    → c.cachemax < c.cachelen
    → evict_oldest c ≡ some c'
    → c'.cachelen ≤ c'.cachemax
    → cache_check_cap (suc (suc fuel)) c ≡ some c'
unfolding cache_check_cap
check_cap-over fuel c c' h e k = rw (over, e) (check_cap-fits fuel c' k)
  where
    over : ltb c.cachemax c.cachelen ≡ true
    over = ground arith

-- A new item in front, before cacheCheckCap.
abbrev with_new : {B : Type 0} → ℕ → B → Cache B → Cache B
with_new vaddr item c =
    let c' = relink vaddr (put_item vaddr item c) in record c' { cachelen = c'.cachelen + 1 }

with_new-Represents :
    {B : Type 0} (c : Cache B) (i : ℕ) (b : B) (l : List ℕ)
    → Represents c l
    → has i l ≡ false
    → Represents (with_new i b c) (i ∷ l)
with_new-Represents c i b l r h =
    let p = put_item-Represents c i b l r h in
    record {
      distinct = p.distinct;
      newest = p.newest;
      oldest = p.oldest;
      cached = p.cached;
      newer_ok = p.newer_ok;
      older_ok = p.older_ok;
    }

with_new-fields :
    {B : Type 0} (c : Cache B) (i : ℕ) (b : B)
    → ((with_new i b c).cachemax ≡ c.cachemax)
      × ((with_new i b c).cachelen ≡ c.cachelen + 1)
      × ((a : ℕ) → (with_new i b c).cachemap a ≡ (if i == a then some b else c.cachemap a))
unfolding relink put_item write
with_new-fields c i b = (refl, refl, λ a. refl)

-- What cachePut makes of the cache.
abbrev pub Put : {B : Type 0} → ℕ → B → Cache B → List ℕ → Option (Cache B) → Type 0
Put vaddr item c l o =
    (c' : Cache _) × (o ≡ some c')
    × IsLru c' (put_vaddr c.cachemax vaddr l)
    × (c'.cachemax ≡ c.cachemax)
    × ((a : ℕ)
        → is_some (c'.cachemap a) ≡ true
        → c'.cachemap a
          ≡ (if has vaddr l then c.cachemap a else if vaddr == a then some item else c.cachemap a))

evict_if :
    {B : Type 0} (c : Cache B) (z : ℕ) → c.cacheold ≡ some z → evict_oldest c ≡ some (drop_item z c)
unfolding evict_oldest
evict_if c z e = ap (λ (o : Option ℕ). elim o [ none ↦ none | some i ↦ some (drop_item i c) ]) e

drop_item-fields :
    {B : Type 0} (c : Cache B) (z : ℕ)
    → ((drop_item z c).cachemax ≡ c.cachemax)
      × ((drop_item z c).cachelen ≡ c.cachelen - 1)
      × ((a : ℕ) → (drop_item z c).cachemap a ≡ (if z == a then none else c.cachemap a))
unfolding drop_item write
drop_item-fields c z = (refl, refl, λ a. refl)

Put-room :
    {B : Type 0} (c : Cache B) (i : ℕ) (b : B) (l : List ℕ)
    → IsLru c l
    → has i l ≡ false
    → ltb (length l) c.cachemax ≡ true
    → Put i b c l (cache_check_cap (suc (suc c.cachelen)) (with_new i b c))
Put-room c i b l r h e =
    let (max, len, mapped) = with_new-fields c i b in
    (
      with_new i b c,
      check_cap-fits (suc c.cachelen) (with_new i b c)
          (omega (arith, max, len, r.counted, ltb→lt (length l) c.cachemax e)),
      rw (h, e)
          (record {
            represents = with_new-Represents c i b l r.represents h;
            counted = omega (arith, len, r.counted);
            capped = omega (arith, max, ltb→lt (length l) c.cachemax e);
          }),
      max,
      λ a m. rw h (mapped a),
    )

Put-full :
    {B : Type 0} (c : Cache B) (i : ℕ) (b : B) (l : List ℕ)
    → IsLru c l
    → 0 < c.cachemax
    → has i l ≡ false
    → ltb (length l) c.cachemax ≡ false
    → Put i b c l (cache_check_cap (suc (suc c.cachelen)) (with_new i b c))
Put-full c i b [] r p h e = absurd (omega (arith, ltb-false→le 0 c.cachemax e))
Put-full c i b (y ∷ l) r p h e =
    let (max, len, mapped) = with_new-fields c i b in
    let z = last_of y l in
    let c' = with_new i b c in
    let (max', len', mapped') = drop_item-fields c' z in
    let full = ltb-false→le (length (y ∷ l)) c.cachemax e in
    let w = with_new-Represents c i b (y ∷ l) r.represents h in
    let shorter = length-remove z (i ∷ y ∷ l) (ground (arith, has-last_of y l)) in
    (
      drop_item z c',
      check_cap-over c.cachelen c' (drop_item z c')
          (omega (arith, max, len, r.counted, r.capped, full)) (evict_if c' z w.oldest)
          (omega (arith, max, max', len, len', r.counted, r.capped)),
      rw (h, e)
          (record {
            represents = drop_item-Represents c' i y l w;
            counted = omega (arith, len, len', r.counted, shorter);
            capped = omega (arith, max, max', r.capped, shorter);
          }),
      max' ∙ max,
      λ a m. ground (arith, h, mapped a, mapped' a),
    )

put_new :
    {B : Type 0} (c : Cache B) (i : ℕ) (b : B) (l : List ℕ)
    → Represents c l
    → has i l ≡ false
    → 0 < c.cachemax
    → c.cachemap i ≡ none
    → cache_put i b c ≡ cache_check_cap (suc (suc c.cachelen)) (with_new i b c)
unfolding cache_put put_item relink
put_new c i b l r h p e =
    rw (max_pos, e)
      (ap
        (λ (c' : Cache _).
          cache_check_cap (suc (suc c'.cachelen)) (record c' { cachelen = c'.cachelen + 1 }))
        (promote_if (put_item i b c) i false not_first))
  where
    max_pos : (c.cachemax == 0) ≡ false
    max_pos = ground arith

    first_is : (l : List ℕ) → has i l ≡ false → is_at (first l) i ≡ false
    first_is [] g = refl
    first_is (x ∷ l) g = ground arith

    not_first : is_at c.cachenew i ≡ false
    not_first = ap (λ (p : Option ℕ). is_at p i) r.newest ∙ first_is l h

put_old :
    {B : Type 0} (c : Cache B) (i : ℕ) (b b' : B)
    → 0 < c.cachemax
    → c.cachemap i ≡ some b'
    → cache_put i b c ≡ some (cache_promote i c)
unfolding cache_put
put_old c i b b' p e = rw (max_pos, e) refl
  where
    max_pos : (c.cachemax == 0) ≡ false
    max_pos = ground arith

pub cache_put-Put :
    {B : Type 0} (c : Cache B) (i : ℕ) (b : B) (l : List ℕ)
    → IsLru c l
    → 0 < c.cachemax
    → Put i b c l (cache_put i b c)
cache_put-Put c i b l r p = elim (Option-cases (c.cachemap i)) [
  | inl e ↦
      let h : has i l ≡ false = sym (r.represents.cached i) ∙ ap is_some e in
      subst (Put i b c l) (sym (put_new c i b l r.represents h p e))
        (elim (Bool-cases (ltb (length l) c.cachemax)) [
          | inl room ↦ Put-room c i b l r h room
          | inr full ↦ Put-full c i b l r p h full
        ])
  | inr e ↦
      let h : has i l ≡ true = sym (r.represents.cached i) ∙ ap is_some e.1 in
      let (lru, same, max) = cache_promote-Moved c i l r h in
      (
        cache_promote i c,
        put_old c i b e.0 p e.1,
        rw h lru,
        max,
        λ a m. rw h (ap (λ (f : ℕ → Option _). f a) same),
      )
]
