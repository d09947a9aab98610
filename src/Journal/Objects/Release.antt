-- ===== src/Journal/Objects/Release.antt =====
-- About ReleaseJournalEntries of internal/cephprovider/jprovider.go: which objects it deletes.
use btrdb_server.Base.{
  leb→le, sym, ℕ, ◌≤◌, ◌<◌, ◌≡◌, refl, ◌∙◌, true, Option, some, List, [], ◌∷◌, arith, All, All-imp,
  length, ltb, leb, if_both, ◌>>=◌,
}
use btrdb_server.Cluster.{MashRange, super_set_of}
use btrdb_server.Journal.Objects.{
  Object, max_distinct_ranges, collapse, must_delete, Marked, deleted, marked, panicked,
  mark_or_delete, put_marked, release_before, release_journal_entries,
}
use btrdb_server.Journal.Objects.Cover.{covered, Ascends, collapse-Collapsed}

-- Every hash of the range is released.
abbrev pub AllReleased : MashRange → List MashRange → Type 0
AllReleased r rs = (h : ℕ) → super_set_of r h ≡ true → covered h rs ≡ true

must_delete-AllReleased :
    (full : MashRange) (rs : List MashRange) → must_delete full rs ≡ true → AllReleased full rs
unfolding must_delete super_set_of
must_delete-AllReleased full [] e h p = cc
must_delete-AllReleased full (r ∷ []) e h p = ground arith
must_delete-AllReleased full (r ∷ s ∷ rs) e h p = cc

-- What a mark does to an object of that range with those released ranges.
abbrev pub MarksOf : MashRange → MashRange → List MashRange → Marked → Type 0
MarksOf rng full rel deleted = AllReleased full (rng ∷ rel)
MarksOf rng full rel (marked rs) = All Ascends rs × ((h : ℕ) → covered h rs ≡ covered h (rng ∷ rel))
MarksOf rng full rel panicked = ⊥

-- With ranges that do not end before they start, and fewer than MaxDistinctRanges released ones, the mark does
-- not panic. It deletes the object only if every hash of its range was released, by this call or before;
-- otherwise the ranges it stores cover exactly the hashes released by this call or before.
pub mark_or_delete-MarksOf :
    (rng full : MashRange) (rel : List MashRange)
    → Ascends rng
    → All Ascends rel
    → length rel < max_distinct_ranges
    → MarksOf rng full rel (mark_or_delete rng full rel)
unfolding mark_or_delete
mark_or_delete-MarksOf rng full rel p a l =
    let ranges = collapse (length (rng ∷ rel)) (rng ∷ rel) in
    let (done, asc, le, same) =
      collapse-Collapsed (length (rng ∷ rel)) (rng ∷ rel) (omega arith) (p, a) in
    if_both (MarksOf rng full rel) (ltb max_distinct_ranges (length ranges))
      (λ e. absurd (ltb-length (length ranges) (omega arith) e))
      (λ _.
        if_both (MarksOf rng full rel) (must_delete full ranges)
          (λ e h q. sym (same h) ∙ must_delete-AllReleased full ranges e h q) (λ _. (asc, same)))
  where
    ltb-length : (n : ℕ) → n ≤ max_distinct_ranges → ltb max_distinct_ranges n ≡ true → ⊥
    ltb-length n h e = ground arith

-- What the release makes of the objects, one by one: an object stays with its records and as many hashes
-- released as before or by this call, or it is gone, and then its records lie before upto and every hash of
-- its range is released.
pub data Fates (upto : ℕ) (rng : MashRange) : List Object → List Object → Type 0 where
  end : Fates upto rng [] []
  stays :
      (o : Object) (rs : List MashRange) {os ns : List Object}
      → ((h : ℕ) → covered h rs ≡ true → covered h (rng ∷ o.relrange) ≡ true)
      → Fates upto rng os ns
      → Fates upto rng (o ∷ os) (record o { relrange = rs } ∷ ns)
  gone :
      (o : Object) {os ns : List Object}
      → All (λ c. c < upto) o.checkpoints
      → AllReleased o.range (rng ∷ o.relrange)
      → Fates upto rng os ns
      → Fates upto rng (o ∷ os) ns

-- The records of an object come before the next object's, and few of its ranges are released so far.
abbrev pub IsJournal : ℕ → List Object → Type 0
IsJournal next [] = Unit {0}
IsJournal next (o ∷ os) =
    All (λ c. c < next) o.checkpoints
    × All Ascends o.relrange
    × (length o.relrange < max_distinct_ranges)
    × IsJournal o.starting_checkpoint os

abbrev HasFates : ℕ → MashRange → List Object → Option (List Object) → Type 0
HasFates upto rng os r = (ns : List Object) × (r ≡ some ns) × Fates upto rng os ns

put_marked-HasFates :
    (upto next : ℕ) (rng : MashRange) (o : Object) (os : List Object) (m : Marked)
    (rest : Option (List Object))
    → next ≤ upto
    → All (λ c. c < next) o.checkpoints
    → MarksOf rng o.range o.relrange m
    → HasFates upto rng os rest
    → HasFates upto rng (o ∷ os) (put_marked o m rest)
unfolding put_marked
put_marked-HasFates upto next rng o os deleted rest l b m (ns, e, f) =
    (ns, e, gone o (All-imp (λ c h. omega arith) o.checkpoints b) m f)
put_marked-HasFates upto next rng o os (marked rs) rest l b (a, c) (ns, e, f) =
    (record o { relrange = rs } ∷ ns, rw e, stays o rs (λ h t. sym (c h) ∙ t) f)
put_marked-HasFates upto next rng o os panicked rest l b m f = absurd m

keep-HasFates :
    (upto : ℕ) (rng : MashRange) (o : Object) (os : List Object) (rest : Option (List Object))
    → HasFates upto rng os rest
    → HasFates upto rng (o ∷ os) (rest >>= λ ns. some (o ∷ ns))
keep-HasFates upto rng o os rest (ns, e, f) =
    (o ∷ ns, rw e, stays o o.relrange (λ h t. ground (arith, t)) f)

release_before-HasFates :
    (upto : ℕ) (rng : MashRange) (next : ℕ) (os : List Object)
    → Ascends rng
    → IsJournal next os
    → HasFates upto rng os (release_before upto rng next os)
unfolding release_before
release_before-HasFates upto rng next [] p j = ([], refl, end)
release_before-HasFates upto rng next (o ∷ os) p (b, a, l, j) =
    let ih = release_before-HasFates upto rng o.starting_checkpoint os p j in
    if_both (HasFates upto rng (o ∷ os)) (leb next upto)
      (λ e.
        put_marked-HasFates upto next rng o os (mark_or_delete rng o.range o.relrange) _
          (leb→le next upto e) b (mark_or_delete-MarksOf rng o.range o.relrange p a l) ih)
      (λ _. keep-HasFates upto rng o os _ ih)

-- ReleaseJournalEntries up to upto for a range returns, and never deletes a record that may be needed: an
-- object that is gone had only records with checkpoints before upto, and every hash of its range was released
-- by this call or before. Every other object keeps its records, and no hash counts as released in it that was
-- not released by this call or before. The newest object always stays.
pub release_journal_entries-Fates :
    (upto : ℕ) (rng : MashRange) (o : Object) (os : List Object)
    → Ascends rng
    → IsJournal o.starting_checkpoint os
    → (ns : List Object) × (release_journal_entries upto rng (o ∷ os) ≡ some (o ∷ ns))
      × Fates upto rng os ns
unfolding release_journal_entries
release_journal_entries-Fates upto rng o os p j =
    let (ns, e, f) = release_before-HasFates upto rng o.starting_checkpoint os p j in (ns, rw e, f)
