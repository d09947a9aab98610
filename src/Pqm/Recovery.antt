-- ===== src/Pqm/Recovery.antt =====
-- About mashChangeProcessJournals of pqm.go, after any inserts and flushes of a stream.
use mathlib.Core.List.{append-nil}
use mathlib.Core.Path.{subst}
use btrdb_server.Base.{
  Option-cases, ℕ, ◌≤◌, ◌≡◌, refl, ap, sym, ◌∙◌, ◌⊎◌, inl, inr, Bool, true, false, Option, some,
  none, List, [], ◌∷◌, ◌++◌, ◌==◌, length, arith, if_both, Bool-cases, ==_iff, if◌then◌else◌, All,
}
use btrdb_server.Cluster.{MashRange, super_set_of}
use btrdb_server.Qtree.Node.{Rec}
use btrdb_server.Pqm.{
  JournalRecord, Stream, Calls, Result, ok, err, flush, insert, to_insert, insert_map, recover,
}
use btrdb_server.Pqm.Entries.{own, pending}
use btrdb_server.Pqm.Durable.{visible, IsSynced, Added, insert_lem, flush_lem}

abbrev pub is_ok : Result → Bool
is_ok (ok maj min) = true
is_ok err = false

if_same {ℓ} : {A : Type ℓ} (b : Bool) (x : A) → (if b then x else x) ≡ x
if_same true x = refl
if_same false x = refl

not_empty : (rng : MashRange) (h : ℕ) → super_set_of rng h ≡ true → (rng.start == rng.end) ≡ false
unfolding super_set_of
not_empty rng h p = ground (arith, p)

module _ {V : Type 0} where
  -- What may happen to a stream from s₀ on, with the inserts and whether each succeeded, the last first. Other
  -- streams of the node add and release entries of their own.
  pub data Run (start : Stream V) : List (List (Rec V) × Bool) → Stream V → Type 0 where
    opened : Run start [] start
    inserts :
        {history : List (List (Rec V) × Bool)} {s : Stream V}
        → Run start history s
        → (calls : Calls) (r : List (Rec V)) → length s.checkpoints ≤ calls.released
        → Run start ((r, is_ok (insert calls r s).0) ∷ history) (insert calls r s).1
    flushes :
        {history : List (List (Rec V) × Bool)} {s : Stream V}
        → Run start history s
        → (calls : Calls) → length s.checkpoints ≤ calls.released
        → Run start history (flush calls s).1
    others :
        {history : List (List (Rec V) × Bool)} {s : Stream V}
        → Run start history s
        → (js : List (JournalRecord V)) (k : ℕ) → own s.uuid js ≡ own s.uuid s.journal
        → Run start history (record s { journal = js; next_checkpoint = k })

  -- The records of a history behind those that were there: each insert that succeeded is there, in order, and
  -- each that failed is there as a whole or not at all.
  abbrev pub Recovered : List (Rec V) → List (List (Rec V) × Bool) → List (Rec V) → Type 0
  Recovered base [] rs = rs ≡ base
  Recovered base ((r, true) ∷ history) rs =
      (earlier : List (Rec V)) × Recovered base history earlier × (rs ≡ earlier ++ r)
  Recovered base ((r, false) ∷ history) rs =
      (earlier : List (Rec V)) × Recovered base history earlier
      × ((rs ≡ earlier) ⊎ (rs ≡ earlier ++ r))

  -- Inserting keeps both.
  Recovered-insert :
      (base : List (Rec V)) (history : List (List (Rec V) × Bool)) (r : List (Rec V)) (s : Stream V)
      (res : Result × Stream V)
      → Recovered base history (visible s)
      → Added r s res
      → IsSynced res.1 × Recovered base ((r, is_ok res.0) ∷ history) (visible res.1)
  Recovered-insert base history r s (ok maj min, s') h (y, v, _, _) = (y, (visible s, h, v))
  Recovered-insert base history r s (err, s') h (y, v) = (y, (visible s, h, v))

  Recovered-flush :
      (base : List (Rec V)) (history : List (List (Rec V) × Bool)) (s : Stream V)
      (res : Result × Stream V)
      → Recovered base history (visible s)
      → Added [] s res
      → IsSynced res.1 × Recovered base history (visible res.1)
  Recovered-flush base history s (ok maj min, s') h (y, v, _, _) =
      (y, subst (Recovered base history) (sym (v ∙ append-nil (visible s))) h)
  Recovered-flush base history s (err, s') h (y, inl v) =
      (y, subst (Recovered base history) (sym v) h)
  Recovered-flush base history s (err, s') h (y, inr v) =
      (y, subst (Recovered base history) (sym (v ∙ append-nil (visible s))) h)

  Run-Recovered :
      {start s : Stream V} {history : List (List (Rec V) × Bool)}
      → IsSynced start
      → Run start history s
      → IsSynced s × Recovered (visible start) history (visible s)
  Run-Recovered y opened = (y, refl)
  Run-Recovered y (inserts {history} {s} run calls r k) =
      let (z, h) = Run-Recovered y run in
      Recovered-insert _ history r s _ h (insert_lem calls r s z k)
  Run-Recovered y (flushes {history} {s} run calls k) =
      let (z, h) = Run-Recovered y run in Recovered-flush _ history s _ h (flush_lem calls s z k)
  Run-Recovered y (others {history} {s} run js k e) =
      let ((m, b, a), h) = Run-Recovered y run in
      (
        (
          m,
          ap (pending s.stored_version) e ∙ b,
          subst (All (λ j. j.major_version ≤ s.stored_version)) (sym e) a,
        ),
        h,
      )

  module _ (murmur : ℕ → ℕ) (rng : MashRange) (stream_major_version : ℕ → Option ℕ) where
    -- One round of the loop, given what StreamMajorVersion answers.
    abbrev taken : Option ℕ → JournalRecord V → List (JournalRecord V) → List (JournalRecord V)
    taken none j js = js
    taken (some maj) j js = if maj == j.major_version then j ∷ js else js

    to_insert-taken :
        (j : JournalRecord V) (js : List (JournalRecord V))
        → to_insert murmur rng stream_major_version (j ∷ js) ≡ (
            if super_set_of rng (murmur j.uuid)
            then taken
                (stream_major_version j.uuid)
                j
                (to_insert murmur rng stream_major_version js)
            else to_insert murmur rng stream_major_version js)
    unfolding to_insert
    to_insert-taken j js = elim (Option-cases (stream_major_version j.uuid)) [
      | inl e ↦ rw e refl
      | inr (maj, e) ↦ rw e refl
    ]

    -- Entries of other streams do not count.
    insert_map-other :
        (uu : ℕ) (b : Bool) (v : Option ℕ) (j : JournalRecord V) (js : List (JournalRecord V))
        → (j.uuid == uu) ≡ false
        → insert_map uu (if b then taken v j js else js) ≡ insert_map uu js
    unfolding insert_map
    insert_map-other uu false v j js e = refl
    insert_map-other uu true none j js e = refl
    insert_map-other uu true (some maj) j js e =
        if_both (λ i. insert_map uu i ≡ insert_map uu js) (maj == j.major_version) (λ _. rw e refl)
          (λ _. refl)

    insert_map-same :
        (uu maj : ℕ) (j : JournalRecord V) (js : List (JournalRecord V))
        → (j.uuid == uu) ≡ true
        → insert_map uu (taken (some maj) j js)
          ≡ (if maj == j.major_version then j.records ++ insert_map uu js else insert_map uu js)
    unfolding insert_map
    insert_map-same uu maj j js e = elim (Bool-cases (maj == j.major_version)) [
      | inl f ↦ rw (f, e) refl
      | inr f ↦ rw f refl
    ]

    insert_map-own :
        (uu maj : ℕ) (js : List (JournalRecord V))
        → super_set_of rng (murmur uu) ≡ true
        → stream_major_version uu ≡ some maj
        → insert_map uu (to_insert murmur rng stream_major_version js) ≡ pending maj (own uu js)
    unfolding insert_map to_insert
    insert_map-own uu maj [] p q = refl
    insert_map-own uu maj (j ∷ js) p q = elim (Bool-cases (j.uuid == uu)) [
      | inl e ↦
          let same : j.uuid ≡ uu = (==_iff j.uuid uu).0 e in
          let within = ap (λ (i : ℕ). super_set_of rng (murmur i)) same ∙ p in
          let found = ap stream_major_version same ∙ q in
          rw (e, to_insert-taken j js, within, found, insert_map-same uu maj j _ e)
            (ap (λ (i : List (Rec V)). if maj == j.major_version then j.records ++ i else i)
              (insert_map-own uu maj js p q))
      | inr e ↦
          rw (e, to_insert-taken j js)
            (insert_map-other uu _ _ j _ e ∙ insert_map-own uu maj js p q)
    ]

    insert_map-skipped :
        (uu : ℕ) (js : List (JournalRecord V))
        → (super_set_of rng (murmur uu) ≡ false) ⊎ (stream_major_version uu ≡ none)
        → insert_map uu (to_insert murmur rng stream_major_version js) ≡ []
    unfolding insert_map to_insert
    insert_map-skipped uu [] p = refl
    insert_map-skipped uu (j ∷ js) p = elim (Bool-cases (j.uuid == uu)) [
      | inl e ↦
          let p' =
            subst
              (λ (i : ℕ). (super_set_of rng (murmur i) ≡ false) ⊎ (stream_major_version i ≡ none))
              (sym ((==_iff j.uuid uu).0 e)) p in
          rw (to_insert-taken j js) (refused _ _ _ p' ∙ insert_map-skipped uu js p)
      | inr e ↦
          rw (to_insert-taken j js) (insert_map-other uu _ _ j _ e ∙ insert_map-skipped uu js p)
    ]
      where
        refused :
            (b : Bool) (v : Option ℕ) (x : List (JournalRecord V))
            → (b ≡ false) ⊎ (v ≡ none)
            → insert_map uu (if b then taken v j x else x) ≡ insert_map uu x
        refused b v x (inl e) = rw e refl
        refused b v x (inr e) = rw e (ap (insert_map uu) (if_same b x))

    -- A stream whose entry agrees with the storage and the journal, then any inserts and flushes of it, with
    -- calls that fail or not, as long as no release of a checkpoint does, while other streams change only
    -- their own entries. The node goes, and its buffer is lost; a node whose range has the stream processes the
    -- journal, and finds the version that is stored. Then the stream has what it had at first and behind it, in
    -- order, the records of each insert that succeeded, and of each that failed all or none.
    pub recover_lem :
        {start s : Stream V} {history : List (List (Rec V) × Bool)}
        → IsSynced start
        → Run start history s
        → super_set_of rng (murmur s.uuid) ≡ true
        → stream_major_version s.uuid ≡ some s.stored_version
        → Recovered (visible start) history (recover murmur rng stream_major_version s)
    unfolding recover
    recover_lem {start} {s} {history} y run p q =
        let (z, h) = Run-Recovered y run in
        let nonzero : (rng.start == rng.end) ≡ false = not_empty rng _ p in
        let same = insert_map-own s.uuid s.stored_version s.journal p q ∙ z.1 in
        rw nonzero
          (subst (Recovered (visible start) history) (sym (ap (λ rs. s.stored ++ rs) same)) h)

    -- Processing a journal adds nothing to a stream that is not in the node's range or is not found.
    pub recover-skipped :
        (s : Stream V)
        → (super_set_of rng (murmur s.uuid) ≡ false) ⊎ (stream_major_version s.uuid ≡ none)
        → recover murmur rng stream_major_version s ≡ s.stored
    unfolding recover
    recover-skipped s p =
        if_both (λ rs. rs ≡ s.stored) (rng.start == rng.end) (λ e. refl)
          (λ e.
            ap (λ rs. s.stored ++ rs) (insert_map-skipped s.uuid s.journal p) ∙ append-nil s.stored)
