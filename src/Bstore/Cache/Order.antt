-- ===== src/Bstore/Cache/Order.antt =====
-- The order of the items of the block cache of internal/bstore/blockcache.go as a list of their vaddrs, the newest
-- first: what newer and older must be, and how they change when an item is taken out.
use btrdb_server.Base.{
  ℕ, ◌+◌, ◌≡◌, refl, Bool, true, false, Option, none, some, List, [], ◌∷◌, arith, ◌==◌,
  if◌then◌else◌, Bool-cases, inl, inr, length,
}
use btrdb_server.Bstore.Cache.{is_at}

abbrev pub has : ℕ → List ℕ → Bool
has a [] = false
has a (x ∷ l) = if x == a then true else has a l

abbrev pub Distinct : List ℕ → Type 0
Distinct [] = Unit {0}
Distinct (x ∷ l) = (has x l ≡ false) × Distinct l

abbrev pub remove : ℕ → List ℕ → List ℕ
remove i [] = []
remove i (x ∷ l) = if x == i then l else x ∷ remove i l

abbrev pub first : List ℕ → Option ℕ
first [] = none
first (x ∷ l) = some x

abbrev pub last_of : ℕ → List ℕ → ℕ
last_of x [] = x
last_of x (y ∷ l) = last_of y l

abbrev pub last : List ℕ → Option ℕ
last [] = none
last (x ∷ l) = some (last_of x l)

abbrev pub older_in : List ℕ → ℕ → Option ℕ
older_in [] a = none
older_in (x ∷ l) a = if x == a then first l else older_in l a

-- p is what is newer than the list.
abbrev pub newer_in : Option ℕ → List ℕ → ℕ → Option ℕ
newer_in p [] a = none
newer_in p (x ∷ l) a = if x == a then p else newer_in (some x) l a

is_at-newer_in :
    (x y i : ℕ) (l : List ℕ)
    → (y == x) ≡ false
    → has x l ≡ false
    → is_at (newer_in (some y) l i) x ≡ false
is_at-newer_in x y i [] e h = refl
is_at-newer_in x y i (z ∷ l) e h = ground (arith, is_at-newer_in x z i l)

is_at-older_in : (x i : ℕ) (l : List ℕ) → has x l ≡ false → is_at (older_in l i) x ≡ false
is_at-older_in x i [] h = refl
is_at-older_in x i (z ∷ []) h = ground arith
is_at-older_in x i (z ∷ w ∷ l) h = ground (arith, is_at-older_in x i (w ∷ l))

pub older_in-remove :
    (p : Option ℕ) (i a : ℕ) (l : List ℕ)
    → Distinct l
    → (i == a) ≡ false
    → is_at p a ≡ false
    → older_in (remove i l) a ≡ (if is_at (newer_in p l i) a then older_in l i else older_in l a)
older_in-remove p i a [] d e f = refl
older_in-remove p i a (x ∷ []) d e f = ground arith
older_in-remove p i a (x ∷ y ∷ l) d e f =
    ground (arith, older_in-remove (some x) i a (y ∷ l) d.1 e, is_at-newer_in x y i l)

pub newer_in-remove :
    (p : Option ℕ) (i a : ℕ) (l : List ℕ)
    → Distinct l
    → (i == a) ≡ false
    → newer_in p (remove i l) a
      ≡ (if is_at (older_in l i) a then newer_in p l i else newer_in p l a)
newer_in-remove p i a [] d e = refl
newer_in-remove p i a (x ∷ []) d e = ground arith
newer_in-remove p i a (x ∷ y ∷ l) d e =
    ground (arith, newer_in-remove (some x) i a (y ∷ l) d.1 e, is_at-older_in x i (y ∷ l))

pub has-last_of : (x : ℕ) (l : List ℕ) → has (last_of x l) (x ∷ l) ≡ true
has-last_of x [] = ground arith
has-last_of x (y ∷ l) = ground (arith, has-last_of y l)

pub has-remove :
    (i a : ℕ) (l : List ℕ) → Distinct l → has a (remove i l) ≡ (if i == a then false else has a l)
has-remove i a [] d = ground arith
has-remove i a (x ∷ l) d = ground (arith, has-remove i a l d.1)

pub Distinct-remove : (i : ℕ) (l : List ℕ) → Distinct l → Distinct (remove i l)
Distinct-remove i [] d = tt
Distinct-remove i (x ∷ l) d = elim (Bool-cases (x == i)) [
  | inl e ↦ rw e d.1
  | inr e ↦ rw e (ground (arith, has-remove i x l d.1), Distinct-remove i l d.1)
]

pub length-remove : (i : ℕ) (l : List ℕ) → has i l ≡ true → length (remove i l) + 1 ≡ length l
length-remove i [] h = cc
length-remove i (x ∷ l) h = ground (arith, length-remove i l)

-- The last item, once i is taken out from behind the first one.
pub last_of-remove :
    (x i : ℕ) (l : List ℕ)
    → Distinct (x ∷ l)
    → (x == i) ≡ false
    → some (last_of x (remove i l))
      ≡ (if last_of x l == i then newer_in (some x) l i else some (last_of x l))
last_of-remove x i [] d e = ground arith
last_of-remove x i (y ∷ []) d e = ground arith
last_of-remove x i (y ∷ z ∷ l) d e = ground (arith, last_of-remove y i (z ∷ l) d.1, has-last_of z l)
