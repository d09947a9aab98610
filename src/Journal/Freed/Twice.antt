-- ===== src/Journal/Freed/Twice.antt =====
-- About ReleaseDisjointCheckpoint of internal/cephprovider/jprovider.go for a checkpoint before canFreeCP.
use btrdb_server.Base.{if_both, ℕ, ◌<◌, ◌≡◌, refl, ◌∙◌, List, [], ◌∷◌, arith, ltb}
use btrdb_server.Journal.Freed.{
  FreeList, push, add_freed_checkpoint_to_list, pop_ready, release_disjoint_checkpoint,
  release_each,
}

-- The least entry of the heap lies before canFreeCP.
abbrev Stuck : FreeList → List ℕ → Type 0
Stuck s [] = ⊥
Stuck s (x ∷ xs) = x < s.can_free_cp

push-least :
    (cp can : ℕ) (s : FreeList) (xs : List ℕ)
    → s.can_free_cp ≡ can
    → Stuck s xs
    → Stuck s (push cp xs)
unfolding push
push-least cp can s [] e h = absurd h
push-least cp can s (x ∷ xs) e h = if_both (Stuck s) (ltb x cp) (λ _. h) (λ f. ground arith)

push-early : (cp : ℕ) (s : FreeList) (xs : List ℕ) → cp < s.can_free_cp → Stuck s (push cp xs)
unfolding push
push-early cp s [] h = h
push-early cp s (x ∷ xs) h = if_both (Stuck s) (ltb x cp) (λ f. ground arith) (λ _. h)

pop_ready-Stuck :
    (s : FreeList) (xs : List ℕ) → Stuck s xs → pop_ready s.can_free_cp xs ≡ (s.can_free_cp, xs)
unfolding pop_ready
pop_ready-Stuck s [] h = absurd h
pop_ready-Stuck s (x ∷ xs) h = ground arith

release-Stuck :
    (cp : ℕ) (s : FreeList)
    → Stuck s (push cp s.freelist)
    → ((release_disjoint_checkpoint cp s).can_free_cp ≡ s.can_free_cp)
      × ((release_disjoint_checkpoint cp s).freelist ≡ push cp s.freelist)
unfolding release_disjoint_checkpoint add_freed_checkpoint_to_list
release-Stuck cp s h = rw (pop_ready-Stuck s (push cp s.freelist) h) (refl, refl)

Stuck-as :
    (s s' : FreeList) (xs ys : List ℕ)
    → s'.can_free_cp ≡ s.can_free_cp
    → ys ≡ xs
    → Stuck s xs
    → Stuck s' ys
Stuck-as s s' [] ys e f h = absurd h
Stuck-as s s' (x ∷ xs) [] e f h = absurd (cc)
Stuck-as s s' (x ∷ xs) (y ∷ ys) e f h = ground arith

release_each-Stuck :
    (cps : List ℕ) (s : FreeList)
    → Stuck s s.freelist
    → (release_each cps s).can_free_cp ≡ s.can_free_cp
unfolding release_each
release_each-Stuck [] s h = refl
release_each-Stuck (cp ∷ cps) s h =
    let p = push-least cp s.can_free_cp s s.freelist refl h in
    let (e, f) = release-Stuck cp s p in
    release_each-Stuck cps (release_disjoint_checkpoint cp s)
      (Stuck-as s (release_disjoint_checkpoint cp s) (push cp s.freelist) _ e f p)
    ∙ e

-- Once a checkpoint before canFreeCP is released, as by a second release of it, canFreeCP never moves again,
-- whatever is released afterwards.
pub release_each-twice :
    (cp : ℕ) (cps : List ℕ) (s : FreeList)
    → cp < s.can_free_cp
    → (release_each (cp ∷ cps) s).can_free_cp ≡ s.can_free_cp
unfolding release_each
release_each-twice cp cps s h =
    let p = push-early cp s s.freelist h in
    let (e, f) = release-Stuck cp s p in
    release_each-Stuck cps (release_disjoint_checkpoint cp s)
      (Stuck-as s (release_disjoint_checkpoint cp s) (push cp s.freelist) _ e f p)
    ∙ e
