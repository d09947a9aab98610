-- ===== src/Pqm/Entries.antt =====
-- About the entries of one stream in the journal, and what ReleaseDisjointCheckpoint leaves of them.
use mathlib.Core.List.{append_assoc, append-nil}
use btrdb_server.Base.{
  ℕ, suc, zero, ◌≤◌, ◌≡◌, refl, ap, ◌∙◌, List, [], ◌∷◌, ◌++◌, ◌==◌, if◌then◌else◌, arith, if_both,
  All,
}
use btrdb_server.Qtree.Node.{Rec}
use btrdb_server.Pqm.{JournalRecord, release, release_all}

module _ {V : Type 0} where
  -- The entries of one stream.
  abbrev pub own : ℕ → List (JournalRecord V) → List (JournalRecord V)
  own uu [] = []
  own uu (j ∷ js) = if j.uuid == uu then j ∷ own uu js else own uu js

  -- The records of the entries of one version, in order.
  abbrev pub pending : ℕ → List (JournalRecord V) → List (Rec V)
  pending m [] = []
  pending m (j ∷ js) = if m == j.major_version then j.records ++ pending m js else pending m js

  own-release :
      (uu cp : ℕ) (js : List (JournalRecord V)) → own uu (release cp js) ≡ release cp (own uu js)
  unfolding release
  own-release uu cp [] = refl
  own-release uu cp (j ∷ js) = ground (arith, own-release uu cp js)

  pub own-release_all :
      (uu n : ℕ) (cps : List ℕ) (js : List (JournalRecord V))
      → own uu (release_all n cps js).1 ≡ (release_all n cps (own uu js)).1
  unfolding release_all
  own-release_all uu n [] js = refl
  own-release_all uu zero (cp ∷ cps) js = refl
  own-release_all uu (suc n) (cp ∷ cps) js =
      own-release_all uu n cps (release cp js)
      ∙ ap (λ (i : List (JournalRecord V)). (release_all n cps i).1) (own-release uu cp js)

  pub own-snoc :
      (uu : ℕ) (js : List (JournalRecord V)) (j : JournalRecord V)
      → j.uuid ≡ uu
      → own uu (js ++ j ∷ []) ≡ own uu js ++ j ∷ []
  own-snoc uu [] j e = ground (arith, e)
  own-snoc uu (x ∷ js) j e = ground (arith, own-snoc uu js j e)

  pub pending-snoc :
      (m : ℕ) (js : List (JournalRecord V)) (j : JournalRecord V)
      → m ≡ j.major_version
      → pending m (js ++ j ∷ []) ≡ pending m js ++ j.records
  pending-snoc m [] j e = ground (arith, e, append-nil j.records)
  pending-snoc m (x ∷ js) j e =
      ground (arith, pending-snoc m js j e, append_assoc x.records (pending m js) j.records)

  release-All :
      (m cp : ℕ) (js : List (JournalRecord V))
      → All (λ j. j.major_version ≤ m) js
      → All (λ j. j.major_version ≤ m) (release cp js)
  unfolding release
  release-All m cp [] h = tt
  release-All m cp (j ∷ js) (h, hs) =
      if_both (All (λ j. j.major_version ≤ m)) (j.checkpoint == cp) (λ e. release-All m cp js hs)
        (λ e. (h, release-All m cp js hs))

  pub release_all-All :
      (m n : ℕ) (cps : List ℕ) (js : List (JournalRecord V))
      → All (λ j. j.major_version ≤ m) js
      → All (λ j. j.major_version ≤ m) (release_all n cps js).1
  unfolding release_all
  release_all-All m n [] js h = h
  release_all-All m zero (cp ∷ cps) js h = h
  release_all-All m (suc n) (cp ∷ cps) js h =
      release_all-All m n cps (release cp js) (release-All m cp js h)

  -- A new version starts with no entry of its own.
  pub pending-new :
      (m : ℕ) (js : List (JournalRecord V))
      → All (λ j. j.major_version ≤ m) js
      → pending (suc m) js ≡ []
  pending-new m [] h = refl
  pending-new m (j ∷ js) (h, hs) = ground (arith, pending-new m js hs)

  pub All-suc :
      (m : ℕ) (js : List (JournalRecord V))
      → All (λ j. j.major_version ≤ m) js
      → All (λ j. j.major_version ≤ suc m) js
  All-suc m [] h = tt
  All-suc m (j ∷ js) (h, hs) = (omega arith, All-suc m js hs)

  pub All-snoc :
      (m : ℕ) (js : List (JournalRecord V)) (j : JournalRecord V)
      → All (λ j. j.major_version ≤ m) js
      → j.major_version ≤ m
      → All (λ j. j.major_version ≤ m) (js ++ j ∷ [])
  All-snoc m [] j h k = (k, tt)
  All-snoc m (x ∷ js) j (h, hs) k = (h, All-snoc m js j hs k)
