-- ===== src/Journal/Objects/Zero.antt =====
-- About the released ranges of an object of internal/cephprovider/jprovider.go and the range (0, 0) that
-- beginNewObject stores among them.
use mathlib.Core.Path.{subst}
use btrdb_server.Base.{
  Bool, ℕ, zero, suc, ◌<◌, ◌≡◌, ◌≢◌, refl, inl, inr, true, false, Option, none, some, List, [], ◌∷◌,
  arith, All, length, ltb, if_both, ◌>>=◌,
}
use btrdb_server.Cluster.{MashRange}
use btrdb_server.Journal.Objects.{
  begin_new_object, max_distinct_ranges, absorb, finding_changes, collapse, must_delete, Marked,
  deleted, marked, panicked, mark_or_delete,
}
use btrdb_server.Journal.Objects.Above.{
  AboveZero, HasZero, Keeps, ThenZero, absorb-AboveZero, absorb-HasZero, absorb-zero, as_list,
}

changes_next :
    (P Q : List MashRange → Type 0) (l : MashRange) (o : Option (List MashRange))
    → ((ss : List MashRange) → P ss → Q (l ∷ ss))
    → Keeps P o
    → Keeps Q (o >>= λ rest. some (l ∷ rest))
changes_next P Q l none f k = tt
changes_next P Q l (some ss) f k = f ss k

changes_first :
    (P Q : List MashRange → Type 0) (l : MashRange) (rs : List MashRange)
    (o : Option (MashRange × List MashRange))
    → ((ss : List MashRange) → P ss → Q ss)
    → Keeps P (as_list o)
    → Keeps Q (finding_changes rs >>= λ rest. some (l ∷ rest))
    → Keeps Q (elim o [
      | some t ↦ some (t.0 ∷ t.1)
      | none ↦ finding_changes rs >>= λ rest. some (l ∷ rest)
    ])
changes_first P Q l rs none f k n = n
changes_first P Q l rs (some t) f k n = f (t.0 ∷ t.1) k

finding_changes-AboveZero :
    (rs : List MashRange) → AboveZero rs → Keeps AboveZero (finding_changes rs)
unfolding finding_changes
finding_changes-AboveZero [] a = tt
finding_changes-AboveZero (l ∷ rs) a =
    changes_first AboveZero AboveZero l rs (absorb l rs) (λ ss b. b) (absorb-AboveZero l rs a.0 a.1)
      (changes_next AboveZero AboveZero l (finding_changes rs) (λ ss b. (a.0, b))
        (finding_changes-AboveZero rs a.1))

ThenZero-HasZero : (ss : List MashRange) → ThenZero ss → HasZero ss
ThenZero-HasZero [] t = t
ThenZero-HasZero (u ∷ ss) t = inr t

finding_changes-HasZero : (rs : List MashRange) → HasZero rs → Keeps HasZero (finding_changes rs)
unfolding finding_changes
finding_changes-HasZero [] h = absurd h
finding_changes-HasZero (l ∷ rs) (inl (e, f, a)) =
    rw (absorb-zero l rs f a, finding_changes)
      (changes_next AboveZero HasZero l (finding_changes rs) (λ ss b. inl (e, f, b))
        (finding_changes-AboveZero rs a))
finding_changes-HasZero (l ∷ rs) (inr (p, h)) =
    changes_first ThenZero HasZero l rs (absorb l rs) ThenZero-HasZero (absorb-HasZero l rs p h) (
      changes_next HasZero HasZero l (finding_changes rs) (λ ss b. inr (p, b))
        (finding_changes-HasZero rs h))

collapse_next :
    (fuel : ℕ) (rs : List MashRange) (o : Option (List MashRange))
    → ((ss : List MashRange) → HasZero ss → HasZero (collapse fuel ss))
    → HasZero rs
    → Keeps HasZero o
    → HasZero (elim o [ none ↦ rs | some rs' ↦ collapse fuel rs' ])
collapse_next fuel rs none ih h k = h
collapse_next fuel rs (some ss) ih h k = ih ss k

collapse-HasZero : (fuel : ℕ) (rs : List MashRange) → HasZero rs → HasZero (collapse fuel rs)
unfolding collapse
collapse-HasZero zero rs h = h
collapse-HasZero (suc fuel) rs h =
    collapse_next fuel rs (finding_changes rs) (collapse-HasZero fuel) h
      (finding_changes-HasZero rs h)

must_delete-HasZero :
    (full : MashRange) (rs : List MashRange)
    → 0 < full.end
    → HasZero rs
    → must_delete full rs ≡ false
unfolding must_delete
must_delete-HasZero full [] p h = absurd h
must_delete-HasZero full (r ∷ []) p (inl (e, f, a)) = ground arith
must_delete-HasZero full (r ∷ []) p (inr (q, h)) = absurd h
must_delete-HasZero full (r ∷ s ∷ rs) p h = refl

-- The marks of releases one after the other, until one deletes the object or panics.
pub mark_each : MashRange → List MashRange → List MashRange → Marked
mark_each full rel [] = marked rel
mark_each full rel (rng ∷ rngs) = elim (mark_or_delete rng full rel) [
  | deleted ↦ deleted
  | marked rs ↦ mark_each full rs rngs
  | panicked ↦ panicked
]

abbrev Remains : Marked → Type 0
Remains deleted = ⊥
Remains (marked rs) = HasZero rs
Remains panicked = Unit {0}

mark_or_delete-Remains :
    (rng full : MashRange) (rel : List MashRange)
    → 0 < full.end
    → 0 < rng.start
    → HasZero rel
    → Remains (mark_or_delete rng full rel)
unfolding mark_or_delete
mark_or_delete-Remains rng full rel p q h =
    let ranges = collapse (length (rng ∷ rel)) (rng ∷ rel) in
    let z : HasZero ranges = collapse-HasZero (length (rng ∷ rel)) (rng ∷ rel) (inr (q, h)) in
    if_both Remains (ltb max_distinct_ranges (length ranges)) (λ _. tt)
      (λ _.
        if_both Remains (must_delete full ranges)
          (λ e. false_ne_true (must_delete-HasZero full ranges p z) e) (λ _. z))
  where
    false_ne_true : {b : Bool} → b ≡ false → b ≡ true → ⊥
    false_ne_true e f = cc

mark_each-Remains :
    (full : MashRange) (rel rngs : List MashRange)
    → 0 < full.end
    → HasZero rel
    → AboveZero rngs
    → Remains (mark_each full rel rngs)
unfolding mark_each
mark_each-Remains full rel [] p h a = h
mark_each-Remains full rel (rng ∷ rngs) p h a =
    after (mark_or_delete rng full rel) (mark_or_delete-Remains rng full rel p a.0 h)
      (λ rs k. mark_each-Remains full rs rngs p k a.1)
  where
    after :
        (m : Marked)
        → Remains m
        → ((rs : List MashRange) → HasZero rs → Remains (mark_each full rs rngs))
        → Remains (elim m [
          | deleted ↦ deleted
          | marked rs ↦ mark_each full rs rngs
          | panicked ↦ panicked
        ])
    after deleted r k = r
    after (marked rs) r k = k rs r
    after panicked r k = r

-- An object that is never deleted: when a new object is released in ranges that all start above 0, be they the
-- whole of its range, no mark deletes it, because the range (0, 0) it starts with joins none of them.
pub mark_each-ne-deleted :
    (next_cp : ℕ) (rng : MashRange) (rngs : List MashRange)
    → 0 < rng.end
    → All (λ r. 0 < r.start) rngs
    → mark_each rng (begin_new_object next_cp rng).relrange rngs ≢ deleted
unfolding begin_new_object
mark_each-ne-deleted next_cp rng rngs p a e =
    subst Remains e (mark_each-Remains rng _ rngs p (inl (refl, refl, tt)) a)
