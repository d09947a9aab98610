-- ===== src/Rez/Handles.antt =====
-- The handles of a pool: how many are free, which are out, and what taking one and giving it up change.
use btrdb_server.Base.{
  ℕ, suc, ◌+◌, ◌≤◌, ◌<◌, ◌≡◌, refl, ap, Bool, false, Option, none, some, List, [], ◌∷◌, ◌++◌, ◌==◌,
  if◌then◌else◌, arith, if_both, ◌>>=◌,
}
use btrdb_server.Rez.{Resource, take_first, destroy, put_back}

abbrev pub free : List Resource → ℕ
free [] = 0
free (r ∷ rs) = (if r.available then 1 else 0) + free rs

abbrev pub one_if : Bool → ℕ
one_if b = if b then 1 else 0

-- How many handles with this number are out.
abbrev pub held : ℕ → List Resource → ℕ
held i [] = 0
held i (r ∷ rs) = (if r.id == i then (if r.available then 0 else 1) else 0) + held i rs

-- The numbers ascend, from lo on and below hi, so that no two handles share one.
abbrev pub IdsFrom : ℕ → ℕ → List Resource → Type 0
IdsFrom lo hi [] = lo ≤ hi
IdsFrom lo hi (r ∷ rs) = (lo ≤ r.id) × (r.id < hi) × IdsFrom (suc r.id) hi rs

pub free-append :
    (rs : List Resource) (r : Resource)
    → free (rs ++ r ∷ []) ≡ free rs + (if r.available then 1 else 0)
free-append [] r = omega arith
free-append (x ∷ rs) r = omega (arith, free-append rs r)

pub IdsFrom-append :
    (lo hi : ℕ) (rs : List Resource) (r : Resource)
    → IdsFrom lo hi rs
    → r.id ≡ hi
    → IdsFrom lo (hi + 1) (rs ++ r ∷ [])
IdsFrom-append lo hi [] r h e = (omega arith, omega arith, omega arith)
IdsFrom-append lo hi (x ∷ rs) r h e = (h.0, omega arith, IdsFrom-append (suc x.id) hi rs r h.2 e)

pub IdsFrom-weaken :
    (lo lo' hi : ℕ) (rs : List Resource) → lo' ≤ lo → IdsFrom lo hi rs → IdsFrom lo' hi rs
IdsFrom-weaken lo lo' hi [] l h = omega arith
IdsFrom-weaken lo lo' hi (r ∷ rs) l h = (omega arith, h.1, h.2)

pub held-below : (i lo hi : ℕ) (rs : List Resource) → i < lo → IdsFrom lo hi rs → held i rs ≡ 0
held-below i lo hi [] l h = refl
held-below i lo hi (r ∷ rs) l h = ground (arith, held-below i (suc r.id) hi rs)

-- What taking a handle changes.
abbrev pub Taken : ℕ → List Resource → List Resource → Type 0
Taken i rs rs' =
    (free rs ≡ free rs' + 1)
    × ((lo hi : ℕ) → IdsFrom lo hi rs → IdsFrom lo hi rs')
    × ((j : ℕ) → held j rs' ≡ held j rs + one_if (i == j))

abbrev pub TookFirst : List Resource → Option (ℕ × List Resource) → Type 0
TookFirst rs none = free rs ≡ 0
TookFirst rs (some (i, rs')) = Taken i rs rs'

TookFirst-cons :
    (r : Resource) (rs : List Resource) (res : Option (ℕ × List Resource))
    → r.available ≡ false
    → TookFirst rs res
    → TookFirst (r ∷ rs) (res >>= λ t. some (t.0, r ∷ t.1))
TookFirst-cons r rs none e h = ground arith
TookFirst-cons r rs (some (i, rs')) e (f, s, t) = (
  omega (arith, ap one_if e),
  λ lo hi w. (w.0, w.1, s (suc r.id) hi w.2),
  λ j. omega (arith, t j),
)

pub take_first-TookFirst : (rs : List Resource) → TookFirst rs (take_first rs)
unfolding take_first
take_first-TookFirst [] = refl
take_first-TookFirst (r ∷ rs) =
    if_both (TookFirst (r ∷ rs)) r.available
      (λ e. (rw e (omega arith), λ lo hi w. w, λ j. rw e (ground arith)))
      (λ e. TookFirst-cons r rs (take_first rs) e (take_first-TookFirst rs))

pub held-le : (i lo hi : ℕ) (rs : List Resource) → IdsFrom lo hi rs → held i rs ≤ 1
held-le i lo hi [] h = omega arith
held-le i lo hi (r ∷ rs) h =
    ground (arith, held-le i (suc r.id) hi rs, held-below i (suc r.id) hi rs)

destroy-none : (i lo hi : ℕ) (rs : List Resource) → i < lo → IdsFrom lo hi rs → destroy i rs ≡ rs
unfolding destroy
destroy-none i lo hi [] l h = refl
destroy-none i lo hi (r ∷ rs) l h = ground (arith, destroy-none i (suc r.id) hi rs)

-- What giving a handle up changes.
abbrev pub GivenUp : ℕ → ℕ → List Resource → List Resource → Type 0
GivenUp i k rs rs' =
    (free rs' ≡ free rs + k)
    × ((lo hi : ℕ) → IdsFrom lo hi rs → IdsFrom lo hi rs')
    × ((j : ℕ) → held j rs' + one_if (i == j) ≡ held j rs)

pub destroy-GivenUp :
    (i lo hi : ℕ) (rs : List Resource)
    → IdsFrom lo hi rs
    → held i rs ≡ 1
    → GivenUp i 0 rs (destroy i rs)
unfolding destroy
destroy-GivenUp i lo hi [] h k = absurd (omega arith)
destroy-GivenUp i lo hi (r ∷ rs) h k =
    if_both (GivenUp i 0 (r ∷ rs)) (r.id == i)
      (λ e. rw (destroy-none i (suc r.id) hi rs (ground arith) h.2) (
        ground (arith, held-below i (suc r.id) hi rs),
        λ lo' hi' w. IdsFrom-weaken (suc r.id) lo' hi' rs (omega arith) w.2,
        λ j. ground (arith, held-below i (suc r.id) hi rs),
      ))
      (λ e.
        let (f, s, c) = destroy-GivenUp i (suc r.id) hi rs h.2 (ground arith) in
        (omega (arith, f), λ lo' hi' w. (w.0, w.1, s (suc r.id) hi' w.2), λ j. omega (arith, c j)))

pub put_back-GivenUp :
    (i lo hi : ℕ) (rs : List Resource)
    → IdsFrom lo hi rs
    → held i rs ≡ 1
    → GivenUp i 1 rs (put_back i rs)
unfolding put_back
put_back-GivenUp i lo hi [] h k = absurd (omega arith)
put_back-GivenUp i lo hi (r ∷ rs) h k =
    if_both (GivenUp i 1 (r ∷ rs)) (r.id == i)
      (λ e. (
        ground (arith, held-below i (suc r.id) hi rs),
        λ lo hi w. w,
        λ j. ground (arith, held-below i (suc r.id) hi rs),
      ))
      (λ e.
        let (f, s, c) = put_back-GivenUp i (suc r.id) hi rs h.2 (ground arith) in
        (omega (arith, f), λ lo' hi' w. (w.0, w.1, s (suc r.id) hi' w.2), λ j. omega (arith, c j)))
