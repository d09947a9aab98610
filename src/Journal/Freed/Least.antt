-- ===== src/Journal/Freed/Least.antt =====
-- About canFreeCP of internal/cephprovider/jprovider.go after releases in any order.
use btrdb_server.Base.{
  All, ℕ, suc, ◌+◌, ◌≤◌, ◌<◌, ◌≡◌, refl, List, [], ◌∷◌, arith, ltb, leb, ◌&&◌, ◌==◌, if◌then◌else◌,
  Bool-cases, inl, inr,
}
use btrdb_server.Journal.Freed.{
  FreeList, new_free_list, push, add_freed_checkpoint_to_list, pop_ready,
  release_disjoint_checkpoint, release_each,
}

-- How often a checkpoint stands in a list.
abbrev pub times : ℕ → List ℕ → ℕ
times c [] = 0
times c (x ∷ xs) = (if x == c then 1 else 0) + times c xs

-- Strictly ascending, from lo on.
abbrev pub AscendsFrom : ℕ → List ℕ → Type 0
AscendsFrom lo [] = Unit {0}
AscendsFrom lo (x ∷ xs) = (lo ≤ x) × AscendsFrom (suc x) xs

-- Whether a checkpoint lies in [lo, hi).
abbrev between : ℕ → ℕ → ℕ → ℕ
between lo hi c = if leb lo c && ltb c hi then 1 else 0

AscendsFrom-weaken : (lo lo' : ℕ) (xs : List ℕ) → lo' ≤ lo → AscendsFrom lo xs → AscendsFrom lo' xs
AscendsFrom-weaken lo lo' [] h a = tt
AscendsFrom-weaken lo lo' (x ∷ xs) h a = (omega arith, a.1)

times-push : (c cp : ℕ) (xs : List ℕ) → times c (push cp xs) ≡ times c (cp ∷ xs)
unfolding push
times-push c cp [] = refl
times-push c cp (x ∷ xs) = ground (arith, times-push c cp xs)

push-AscendsFrom :
    (lo cp : ℕ) (xs : List ℕ)
    → lo ≤ cp
    → times cp xs ≡ 0
    → AscendsFrom lo xs
    → AscendsFrom lo (push cp xs)
unfolding push
push-AscendsFrom lo cp [] h n a = (h, tt)
push-AscendsFrom lo cp (x ∷ xs) h n a = ground (arith, push-AscendsFrom (suc x) cp xs)

abbrev Popped : ℕ → List ℕ → ℕ × List ℕ → Type 0
Popped can xs r =
    (can ≤ r.0)
    × AscendsFrom (suc r.0) r.1
    × ((c : ℕ) → times c xs ≡ times c r.1 + between can r.0 c)

pop_ready-Popped : (can : ℕ) (xs : List ℕ) → AscendsFrom can xs → Popped can xs (pop_ready can xs)
unfolding pop_ready
pop_ready-Popped can [] a = (omega arith, tt, λ c. ground arith)
pop_ready-Popped can (x ∷ xs) a = elim (Bool-cases (x == can)) [
  | inl e ↦
      let (le, asc, t) =
        pop_ready-Popped (suc can) xs
          (AscendsFrom-weaken (suc x) (suc can) xs (ground arith) a.1) in
      rw e (omega arith, asc, λ c. ground (arith, t c, e))
  | inr e ↦ rw e (omega arith, (ground arith, a.1), λ c. ground arith)
]

times-below : (c : ℕ) (xs : List ℕ) → AscendsFrom (suc c) xs → times c xs ≡ 0
times-below c [] a = refl
times-below c (x ∷ xs) a =
    ground (arith, times-below c xs (AscendsFrom-weaken (suc x) (suc c) xs (omega arith) a.1))

-- What is in the heap lies above canFreeCP, and what was released is in the heap or below canFreeCP.
abbrev Agrees : FreeList → (ℕ → ℕ) → Type 0
Agrees s released =
    (1 ≤ s.can_free_cp)
    × AscendsFrom (suc s.can_free_cp) s.freelist
    × ((c : ℕ) → times c s.freelist + between 1 s.can_free_cp c ≡ released c)

release-Agrees :
    (s : FreeList) (released : ℕ → ℕ) (cp : ℕ)
    → Agrees s released
    → 1 ≤ cp
    → released cp ≡ 0
    → Agrees (release_disjoint_checkpoint cp s) (λ c. released c + (if cp == c then 1 else 0))
unfolding release_disjoint_checkpoint add_freed_checkpoint_to_list
release-Agrees s released cp (one, asc, t) h z =
    let (le, asc', t') = pop_ready-Popped s.can_free_cp (push cp s.freelist) (
      push-AscendsFrom s.can_free_cp cp s.freelist (ground (arith, t cp)) (omega (arith, t cp))
        (AscendsFrom-weaken (suc s.can_free_cp) s.can_free_cp s.freelist (omega arith) asc)) in
    (omega arith, asc', λ c. ground (arith, t c, t' c, times-push c cp s.freelist))

-- Each checkpoint at most once, and none that is counted already.
abbrev Fresh : (ℕ → ℕ) → List ℕ → Type 0
Fresh released cps = (c : ℕ) → released c + times c cps ≤ 1

release_each-Agrees :
    (cps : List ℕ) (s : FreeList) (released : ℕ → ℕ)
    → Agrees s released
    → All (λ cp. 1 ≤ cp) cps
    → Fresh released cps
    → Agrees (release_each cps s) (λ c. released c + times c cps)
unfolding release_each
release_each-Agrees [] s released (one, asc, t) pos fresh = (one, asc, λ c. omega (arith, t c))
release_each-Agrees (cp ∷ cps) s released a pos fresh =
    let (one, asc, t) =
      release_each-Agrees cps (release_disjoint_checkpoint cp s)
        (λ c. released c + (if cp == c then 1 else 0))
        (release-Agrees s released cp a pos.0 (ground (arith, fresh cp))) pos.1
        (λ c. omega (arith, fresh c)) in
    (one, asc, λ c. omega (arith, t c))

-- After the release of any checkpoints from 1 on, in any order and each once, canFreeCP is the least
-- checkpoint that was not released: every checkpoint before it was, and it was not itself.
pub release_each-least :
    (cps : List ℕ)
    → All (λ cp. 1 ≤ cp) cps
    → ((c : ℕ) → times c cps ≤ 1)
    → (1 ≤ (release_each cps new_free_list).can_free_cp)
      × ((c : ℕ) → 1 ≤ c → c < (release_each cps new_free_list).can_free_cp → times c cps ≡ 1)
      × (times (release_each cps new_free_list).can_free_cp cps ≡ 0)
unfolding new_free_list
release_each-least cps pos once =
    let (one, asc, t) =
      release_each-Agrees cps new_free_list (λ _. 0) (omega arith, tt, λ c. ground arith) pos
        (λ c. omega (arith, once c)) in
    (
      one,
      λ c h l. ground (arith, t c, once c),
      ground (arith, t (release_each cps new_free_list).can_free_cp, times-below _ _ asc),
    )
