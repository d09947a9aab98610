-- ===== src/Journal/Objects/Above.antt =====
-- About a range of an object of internal/cephprovider/jprovider.go that absorbs another: where it starts.
use btrdb_server.Base.{
  ◌<◌, ◌≡◌, refl, ◌⊎◌, inl, inr, Option, none, some, List, [], ◌∷◌, arith, All, ◌>>=◌,
}
use btrdb_server.Cluster.{MashRange, union}
use btrdb_server.Journal.Objects.{absorb}

-- All ranges start above 0 but one, which is (0, 0).
abbrev pub HasZero : List MashRange → Type 0
HasZero [] = ⊥
HasZero (r ∷ rs) =
    ((r.start ≡ 0) × (r.end ≡ 0) × All (λ s. 0 < s.start) rs) ⊎ ((0 < r.start) × HasZero rs)

abbrev pub AboveZero : List MashRange → Type 0
AboveZero rs = All (λ s. 0 < s.start) rs

abbrev pub Keeps : (List MashRange → Type 0) → Option (List MashRange) → Type 0
Keeps P none = Unit {0}
Keeps P (some rs) = P rs

abbrev pub as_list : Option (MashRange × List MashRange) → Option (List MashRange)
as_list none = none
as_list (some t) = some (t.0 ∷ t.1)

-- A union of ranges above 0 is above 0, and (0, 0) touches none of them.
pub union-above :
    (l r : MashRange)
    → 0 < l.start
    → 0 < r.start
    → Keeps AboveZero (union l r >>= λ u. some (u ∷ []))
unfolding union
union-above l r p q = ground arith

pub union-zero_left : (l r : MashRange) → l.end ≡ 0 → 0 < r.start → union l r ≡ none
unfolding union
union-zero_left l r e q = ground arith

pub union-zero_right : (l r : MashRange) → r.end ≡ 0 → 0 < l.start → union l r ≡ none
unfolding union
union-zero_right l r e q = ground arith

pub absorb-zero :
    (l : MashRange) (rs : List MashRange) → l.end ≡ 0 → AboveZero rs → absorb l rs ≡ none
unfolding absorb
absorb-zero l [] e a = refl
absorb-zero l (r ∷ rs) e a = rw (union-zero_left l r e a.0, absorb, absorb-zero l rs e a.1)

pub absorb_next :
    (P : List MashRange → Type 0) (l r : MashRange) (o : Option (MashRange × List MashRange))
    → ((u : MashRange) (ss : List MashRange) → P (u ∷ ss) → P (u ∷ r ∷ ss))
    → Keeps P (as_list o)
    → Keeps P (as_list (o >>= λ t. some (t.0, r ∷ t.1)))
absorb_next P l r none f k = tt
absorb_next P l r (some (u, ss)) f k = f u ss k

pub absorb_first :
    (P : List MashRange → Type 0) (l r : MashRange) (rs : List MashRange) (o : Option MashRange)
    → ((u : MashRange) → 0 < u.start → P (u ∷ rs))
    → Keeps AboveZero (o >>= λ u. some (u ∷ []))
    → Keeps P (as_list (absorb l rs >>= λ t. some (t.0, r ∷ t.1)))
    → Keeps P (
        as_list
          (elim o [ some u ↦ some (u, rs) | none ↦ absorb l rs >>= λ t. some (t.0, r ∷ t.1) ]))
absorb_first P l r rs none f u k = k
absorb_first P l r rs (some u) f p k = f u p.0

pub absorb-AboveZero :
    (l : MashRange) (rs : List MashRange)
    → 0 < l.start
    → AboveZero rs
    → Keeps AboveZero (as_list (absorb l rs))
unfolding absorb
absorb-AboveZero l [] p a = tt
absorb-AboveZero l (r ∷ rs) p a =
    absorb_first AboveZero l r rs (union l r) (λ u q. (q, a.1)) (union-above l r p a.0)
      (absorb_next AboveZero l r (absorb l rs) (λ u ss b. (b.0, (a.0, b.1)))
        (absorb-AboveZero l rs p a.1))

abbrev pub ThenZero : List MashRange → Type 0
ThenZero [] = ⊥
ThenZero (u ∷ rs) = (0 < u.start) × HasZero rs

pub zero_after :
    (l r : MashRange) (o : Option (MashRange × List MashRange))
    → r.start ≡ 0
    → r.end ≡ 0
    → Keeps AboveZero (as_list o)
    → Keeps ThenZero (as_list (o >>= λ t. some (t.0, r ∷ t.1)))
zero_after l r none e f k = tt
zero_after l r (some (u, ss)) e f (p, a) = (p, inl (e, f, a))

pub absorb-HasZero :
    (l : MashRange) (rs : List MashRange)
    → 0 < l.start
    → HasZero rs
    → Keeps ThenZero (as_list (absorb l rs))
unfolding absorb
absorb-HasZero l [] p h = absurd h
absorb-HasZero l (r ∷ rs) p (inl (e, f, a)) =
    rw (union-zero_right l r f p, absorb)
      (zero_after l r (absorb l rs) e f (absorb-AboveZero l rs p a))
absorb-HasZero l (r ∷ rs) p (inr (q, h)) =
    absorb_first ThenZero l r rs (union l r) (λ u z. (z, h)) (union-above l r p q)
      (absorb_next ThenZero l r (absorb l rs) (λ u ss b. (b.0, inr (q, b.1)))
        (absorb-HasZero l rs p h))
