-- ===== src/Pqm/Durable.antt =====
-- About the buffer, the journal and the tree of pqm.go over Insert, Flush and recovery.
use mathlib.Core.List.{append_assoc, append-nil}
use mathlib.Core.Path.{subst}
use btrdb_server.Base.{
  Option, some, none, if◌then◌else◌, ℕ, suc, zero, ◌+◌, ◌≤◌, ◌≡◌, refl, ap, sym, ◌∙◌, ◌⊎◌, inl, inr,
  true, List, [], ◌∷◌, ◌++◌, leb, ◌==◌, length, arith, if_both, All,
}
use btrdb_server.Cluster.{MashRange, union}
use btrdb_server.Qtree.Node.{Rec}
use btrdb_server.Pqm.Entries.{
  own, pending, own-release_all, own-snoc, pending-snoc, release_all-All, pending-new, All-suc,
  All-snoc,
}
use btrdb_server.Pqm.{
  max_pqm_buffer_size, JournalRecord, Stream, Calls, Result, ok, err, release, release_all,
  write_primary, flush, partial_commit, insert,
}

module _ {V : Type 0} where
  -- What a client sees: what is stored and what is in the buffer.
  abbrev pub visible : Stream V → List (Rec V)
  visible s = s.stored ++ s.buffer

  -- The entry agrees with the storage and with the stream's part of the journal, which has no entry of a
  -- later version.
  abbrev pub IsSynced : Stream V → Type 0
  IsSynced s =
      (s.major_version ≡ s.stored_version)
      × (pending s.stored_version (own s.uuid s.journal) ≡ s.buffer)
      × All (λ j. j.major_version ≤ s.stored_version) (own s.uuid s.journal)

  released-all :
      (n : ℕ) (cps : List ℕ) (js : List (JournalRecord V))
      → length cps ≤ n
      → (release_all n cps js).0 ≡ true
  unfolding release_all
  released-all n [] js h = refl
  released-all zero (cp ∷ cps) js h = absurd (omega arith)
  released-all (suc n) (cp ∷ cps) js h = released-all n cps (release cp js) (omega arith)

  -- What an operation that adds rs leaves: all of it if it succeeds, all or none of it if it fails.
  abbrev pub Added : List (Rec V) → Stream V → Result × Stream V → Type 0
  Added rs s (ok maj min, s') =
      IsSynced s'
      × (visible s' ≡ visible s ++ rs)
      × (maj ≡ s'.major_version)
      × (min ≡ length s'.buffer)
  Added rs s (err, s') = IsSynced s' × ((visible s' ≡ visible s) ⊎ (visible s' ≡ visible s ++ rs))

  write_primary-Added :
      (calls : Calls) (rs : List (Rec V)) (s : Stream V)
      → IsSynced s
      → length s.checkpoints ≤ calls.released
      → Added rs s (write_primary calls (s.buffer ++ rs) s)
  unfolding write_primary
  write_primary-Added calls rs s (m, b, a) k =
      if_both (Added rs s) calls.write_ok
        (λ e. rw (released-all calls.released s.checkpoints s.journal k) (
          (
            refl,
            subst (λ (js : List (JournalRecord V)). pending (suc s.stored_version) js ≡ [])
                (sym same) (pending-new s.stored_version _ kept),
            subst (All (λ j. j.major_version ≤ suc s.stored_version)) (sym same)
                (All-suc s.stored_version _ kept),
          ),
          rw append-nil (sym (append_assoc s.stored s.buffer rs)),
          refl,
          refl,
        ))
        (λ e. ((m, b, a), inl refl))
    where
      kept :
          All
            (λ j. j.major_version ≤ s.stored_version)
            (release_all calls.released s.checkpoints (own s.uuid s.journal)).1
      kept = release_all-All s.stored_version calls.released s.checkpoints (own s.uuid s.journal) a

      same :
          own s.uuid (release_all calls.released s.checkpoints s.journal).1
          ≡ (release_all calls.released s.checkpoints (own s.uuid s.journal)).1
      same = own-release_all s.uuid calls.released s.checkpoints s.journal

  partial_commit-Added :
      (calls : Calls) (r : List (Rec V)) (s : Stream V)
      → IsSynced s
      → Added r s (partial_commit calls r s)
  unfolding partial_commit
  partial_commit-Added calls r s (m, b, a) =
      if_both (Added r s) calls.journal_ok
        (λ e.
          if_both (Added r s) calls.wait_ok (λ e'. ((m, journaled, below), more, refl, refl))
            (λ e'. ((m, journaled, below), inr more)))
        (λ e. ((m, b, a), inl refl))
    where
      more : s.stored ++ (s.buffer ++ r) ≡ (s.stored ++ s.buffer) ++ r
      more = sym (append_assoc s.stored s.buffer r)

      next : JournalRecord V
      next = record {
        uuid = s.uuid;
        checkpoint = s.next_checkpoint;
        major_version = s.major_version;
        micro_version = length s.buffer + length r;
        records = r;
      }

      added : own s.uuid (s.journal ++ next ∷ []) ≡ own s.uuid s.journal ++ next ∷ []
      added = own-snoc s.uuid s.journal next refl

      journaled : pending s.stored_version (own s.uuid (s.journal ++ next ∷ [])) ≡ s.buffer ++ r
      journaled =
          ap (pending s.stored_version) added
          ∙ (pending-snoc s.stored_version (own s.uuid s.journal) next (sym m)
              ∙ ap (λ rs. rs ++ r) b)

      below : All (λ j. j.major_version ≤ s.stored_version) (own s.uuid (s.journal ++ next ∷ []))
      below =
          subst (All (λ j. j.major_version ≤ s.stored_version)) (sym added)
            (All-snoc s.stored_version (own s.uuid s.journal) next a (omega arith))

  -- Insert, given the union of the ranges.
  abbrev in_range : Calls → List (Rec V) → Stream V → Option MashRange → Result × Stream V
  in_range calls r s none = (err, s)
  in_range calls r s (some our_range) =
      if leb max_pqm_buffer_size (length r + length s.buffer)
      then write_primary calls (s.buffer ++ r) s
      else partial_commit calls r s

  insert-in_range :
      (calls : Calls) (r : List (Rec V)) (s : Stream V)
      → insert calls r s ≡ in_range calls r s (union calls.active calls.proposed)
  unfolding insert
  insert-in_range calls r s = refl

  in_range-Added :
      (calls : Calls) (r : List (Rec V)) (s : Stream V)
      → IsSynced s
      → length s.checkpoints ≤ calls.released
      → (o : Option MashRange) → Added r s (in_range calls r s o)
  in_range-Added calls r s h k none = (h, inl refl)
  in_range-Added calls r s h k (some our_range) =
      if_both (Added r s) (leb max_pqm_buffer_size (length r + length s.buffer))
        (λ f. write_primary-Added calls r s h k) (λ f. partial_commit-Added calls r s h)

  -- Insert on an entry that agrees with the storage and the journal, where no checkpoint fails to be
  -- released: the entry still agrees with them. If it succeeds, the clients see the records added behind
  -- those that they saw, and it returns the version and the length of the buffer. If it fails, they see either what they
  -- saw or that with the records added.
  pub insert_lem :
      (calls : Calls) (r : List (Rec V)) (s : Stream V)
      → IsSynced s
      → length s.checkpoints ≤ calls.released
      → Added r s (insert calls r s)
  insert_lem calls r s h k =
      subst (Added r s) (sym (insert-in_range calls r s))
        (in_range-Added calls r s h k (union calls.active calls.proposed))

  -- Flush on such an entry: it still agrees with the storage and the journal, and clients see what they saw,
  -- whether it succeeds or fails. If it succeeds it returns the version and the length of the buffer.
  pub flush_lem :
      (calls : Calls) (s : Stream V)
      → IsSynced s
      → length s.checkpoints ≤ calls.released
      → Added [] s (flush calls s)
  unfolding flush
  flush_lem calls s h k =
      if_both (Added [] s) (length s.buffer == 0)
        (λ e. (h, sym (append-nil (visible s)), refl, ground arith))
        (λ e.
          subst (λ b. Added [] s (write_primary calls b s)) (append-nil s.buffer)
            (write_primary-Added calls [] s h k))
