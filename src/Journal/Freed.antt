-- ===== src/Journal/Freed.antt =====
-- ReleaseDisjointCheckpoint and addFreedCheckpointToList of internal/cephprovider/jprovider.go, with the heap of
-- internal/cephprovider/freelist.go: checkpoints are released in any order, and canFreeCP is the first that may
-- still be needed. container/heap keeps the least element in front; the list here is the heap in ascending
-- order. Checkpoints are counted from 1 and do not reach 2 ^ 64.
pub mod Least
pub mod Twice
use btrdb_server.Base.{ℕ, suc, List, [], ◌∷◌, ltb, ◌==◌, if◌then◌else◌}

pub record FreeList : Type 0 where
  pub can_free_cp : ℕ
  pub max_free_cp : ℕ
  pub freelist : List ℕ

-- What newJournalProvider sets.
unfoldable pub new_free_list : FreeList
new_free_list = record { can_free_cp = 1; max_free_cp = 0; freelist = [] }

-- heap.Push
unfoldable pub push : ℕ → List ℕ → List ℕ
push cp [] = cp ∷ []
push cp (x ∷ xs) = if ltb x cp then x ∷ push cp xs else cp ∷ x ∷ xs

unfoldable pub add_freed_checkpoint_to_list : ℕ → FreeList → FreeList
add_freed_checkpoint_to_list cp s = record s {
  max_free_cp = if ltb s.max_free_cp cp then cp else s.max_free_cp;
  freelist = push cp s.freelist;
}

-- The loop of pops: the new canFreeCP and what is left in the heap.
unfoldable pub pop_ready : ℕ → List ℕ → ℕ × List ℕ
pop_ready can [] = (can, [])
pop_ready can (x ∷ xs) =
    let rest = pop_ready (suc can) xs in if x == can then rest else (can, x ∷ xs)

unfoldable pub release_disjoint_checkpoint : ℕ → FreeList → FreeList
release_disjoint_checkpoint cp s =
    let s' = add_freed_checkpoint_to_list cp s in
    let (can, left) = pop_ready s'.can_free_cp s'.freelist in
    record s' { can_free_cp = can; freelist = left }

-- Releases one after the other.
unfoldable pub release_each : List ℕ → FreeList → FreeList
release_each [] s = s
release_each (cp ∷ cps) s = release_each cps (release_disjoint_checkpoint cp s)
