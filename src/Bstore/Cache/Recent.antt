-- ===== src/Bstore/Cache/Recent.antt =====
-- The doubly linked list of the block cache of internal/bstore/blockcache.go, as the list of its vaddrs with the
-- newest first: cachePromote and a new item put a vaddr in front, cacheCheckCap takes the last one away.
use mathlib.Core.Path.{subst}
use btrdb_server.Base.{
  ℕ, ◌≡◌, refl, sym, Bool, true, false, Option, none, some, List, [], ◌∷◌, arith, ◌==◌,
}
use btrdb_server.Bstore.Cache.{Cache, write, promoted_old, relink, drop_item, put_item}
use btrdb_server.Bstore.Cache.Order.{
  has, Distinct, remove, first, last, last_of, older_in, newer_in, older_in-remove, newer_in-remove,
  has-remove, Distinct-remove, last_of-remove, has-last_of,
}

abbrev pub is_some {ℓ} : {A : Type ℓ} → Option A → Bool
is_some none = false
is_some (some a) = true

-- The heap holds the list.
pub record Represents {B : Type 0} (c : Cache B) (l : List ℕ) : Type 0 where
  pub distinct : Distinct l
  pub newest : c.cachenew ≡ first l
  pub oldest : c.cacheold ≡ last l
  pub cached : (a : ℕ) → is_some (c.cachemap a) ≡ has a l
  pub newer_ok : (a : ℕ) → has a l ≡ true → c.newer a ≡ newer_in none l a
  pub older_ok : (a : ℕ) → has a l ≡ true → c.older a ≡ older_in l a

pub relink-Represents :
    {B : Type 0} (c : Cache B) (x i : ℕ) (l : List ℕ)
    → Represents c (x ∷ l)
    → has i l ≡ true
    → (x == i) ≡ false
    → Represents (relink i c) (i ∷ x ∷ remove i l)
unfolding relink write promoted_old
relink-Represents c x i l r h e = record {
  distinct = (
    ground (arith, has-remove i i l r.distinct.1),
    (ground (arith, has-remove i x l r.distinct.1), Distinct-remove i l r.distinct.1),
  );
  newest = refl;
  oldest = rw (r.oldest, n) (ground (arith, o, last_of-remove x i l r.distinct e));
  cached = λ a. ground (arith, r.cached a, has-remove i a l r.distinct.1);
  newer_ok = λ a m. ground (
    arith,
    n,
    o,
    r.newest,
    r.newer_ok a,
    has-remove i a l r.distinct.1,
    newer_in-remove (some x) i a l r.distinct.1,
  );
  older_ok = λ a m. ground (
    arith,
    n,
    o,
    r.newest,
    r.older_ok a,
    has-remove i a l r.distinct.1,
    older_in-remove none i a (x ∷ l) r.distinct,
  );
}
  where
    n : c.newer i ≡ newer_in (some x) l i
    n = ground (arith, r.newer_ok i)

    o : c.older i ≡ older_in l i
    o = ground (arith, r.older_ok i)

pub put_item-Represents :
    {B : Type 0} (c : Cache B) (i : ℕ) (b : B) (l : List ℕ)
    → Represents c l
    → has i l ≡ false
    → Represents (relink i (put_item i b c)) (i ∷ l)
unfolding relink put_item write promoted_old
put_item-Represents c i b [] r h = record {
  distinct = (refl, tt);
  newest = refl;
  oldest = ground (arith, r.oldest);
  cached = λ a. ground (arith, r.cached a);
  newer_ok = λ a m. ground (arith, r.newest);
  older_ok = λ a m. ground (arith, r.newest);
}
put_item-Represents c i b (x ∷ l) r h = record {
  distinct = (h, r.distinct);
  newest = refl;
  oldest = ground (arith, r.oldest);
  cached = λ a. ground (arith, r.cached a);
  newer_ok = λ a m. ground (arith, r.newest, r.newer_ok a);
  older_ok = λ a m. ground (arith, r.newest, r.older_ok a);
}

older_in-last_of : (x : ℕ) (l : List ℕ) → Distinct (x ∷ l) → older_in (x ∷ l) (last_of x l) ≡ none
older_in-last_of x [] d = ground arith
older_in-last_of x (y ∷ l) d = ground (arith, older_in-last_of y l d.1, has-last_of y l)

-- The last one of several items is taken out.
pub drop_item-Represents :
    {B : Type 0} (c : Cache B) (x y : ℕ) (l : List ℕ)
    → Represents c (x ∷ y ∷ l)
    → Represents (drop_item (last_of y l) c) (remove (last_of y l) (x ∷ y ∷ l))
unfolding drop_item write
drop_item-Represents c x y l r =
    subst (λ (l' : List ℕ). Represents (drop_item z c) l') (sym out)
      (record {
        distinct = (
          ground (arith, has-remove z x (y ∷ l) r.distinct.1),
          Distinct-remove z (y ∷ l) r.distinct.1,
        );
        newest = r.newest;
        oldest = ground (arith, n, behind, last_of-remove x z (y ∷ l) r.distinct);
        cached = λ a. ground (arith, behind, r.cached a, has-remove z a (y ∷ l) r.distinct.1);
        newer_ok = λ a m. ground (
          arith,
          none_older,
          r.newer_ok a,
          has-remove z a (y ∷ l) r.distinct.1,
          newer_in-remove (some x) z a (y ∷ l) r.distinct.1,
        );
        older_ok = λ a m. ground (
          arith,
          n,
          behind,
          none_older,
          r.older_ok a,
          has-remove z a (y ∷ l) r.distinct.1,
          older_in-remove none z a (x ∷ y ∷ l) r.distinct,
        );
      })
  where
    z : ℕ
    z = last_of y l

    behind : (x == z) ≡ false
    behind = ground (arith, has-last_of y l, r.distinct.0)

    out : remove z (x ∷ y ∷ l) ≡ x ∷ remove z (y ∷ l)
    out = rw behind refl

    n : c.newer z ≡ newer_in (some x) (y ∷ l) z
    n = ground (arith, r.newer_ok z, has-last_of y l)

    none_older : older_in (y ∷ l) z ≡ none
    none_older = older_in-last_of y l r.distinct.1
