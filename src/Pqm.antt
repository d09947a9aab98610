-- ===== src/Pqm.antt =====
-- pqm.go: the buffer of one stream in front of the primary storage, and the journal that survives a crash.
-- The primary storage and the journal provider are behind interfaces: the model keeps the records that a
-- successful WritePrimaryStorage has stored, which is a new major version then, and the entries of the
-- node's journal, those of other streams included.
-- Which of their calls fail is a parameter of each operation. Locks, logs and the open time have no part.
pub mod Entries
pub mod Durable
pub mod Recovery
pub mod Merge
use btrdb_server.Base.{
  ℕ, zero, suc, ◌+◌, Bool, true, false, Option, none, some, List, [], ◌∷◌, ◌++◌, leb, ◌==◌,
  if◌then◌else◌, length,
}
use btrdb_server.Cluster.{MashRange, union, super_set_of}
use btrdb_server.Qtree.Node.{Rec}

abbrev pub max_pqm_buffer_size : ℕ
max_pqm_buffer_size = 32768

-- A journal record, with its checkpoint.
pub record JournalRecord (V : Type 0) : Type 0 where
  pub uuid : ℕ
  pub checkpoint : ℕ
  pub major_version : ℕ
  pub micro_version : ℕ
  pub records : List (Rec V)

-- streamEntry, and behind it what is stored and what is in the journal of the node.
pub record Stream (V : Type 0) : Type 0 where
  pub uuid : ℕ
  pub major_version : ℕ
  pub buffer : List (Rec V)
  pub checkpoints : List ℕ
  pub stored : List (Rec V)
  pub stored_version : ℕ
  pub journal : List (JournalRecord V)
  pub next_checkpoint : ℕ

-- What OurRanges returns, and which calls succeed; `released` is the number of ReleaseDisjointCheckpoint calls
-- before one fails.
pub record Calls : Type 0 where
  pub active : MashRange
  pub proposed : MashRange
  pub write_ok : Bool
  pub journal_ok : Bool
  pub wait_ok : Bool
  pub released : ℕ

pub data Result : Type 0 where
  ok : ℕ → ℕ → Result
  err : Result

module _ {V : Type 0} where
  -- ReleaseDisjointCheckpoint
  unfoldable pub release : ℕ → List (JournalRecord V) → List (JournalRecord V)
  release cp [] = []
  release cp (j ∷ js) = let rest = release cp js in if j.checkpoint == cp then rest else j ∷ rest

  -- The loop over the checkpoints; the Boolean says that no call failed.
  unfoldable pub release_all : ℕ → List ℕ → List (JournalRecord V) → Bool × List (JournalRecord V)
  release_all n [] js = (true, js)
  release_all zero (cp ∷ cps) js = (false, js)
  release_all (suc n) (cp ∷ cps) js = release_all n cps (release cp js)

  -- From the call of WritePrimaryStorage on, in flushLockHeld and at the end of Insert. A failed release
  -- returns before the entry is reset.
  unfoldable pub write_primary : Calls → List (Rec V) → Stream V → Result × Stream V
  write_primary calls rs s =
      let (all, js) = release_all calls.released s.checkpoints s.journal in
      let maj = suc s.stored_version in
      let written : Stream V = record s {
        stored = s.stored ++ rs;
        stored_version = maj;
        journal = js;
      } in
      if calls.write_ok
      then if all
        then (ok maj 0, record written { checkpoints = []; buffer = []; major_version = maj })
        else (err, written)
      else (err, s)

  unfoldable pub flush : Calls → Stream V → Result × Stream V
  flush calls s =
      if length s.buffer == 0 then (ok s.major_version 0, s) else write_primary calls s.buffer s

  -- The branch of Insert without a full commit.
  unfoldable pub partial_commit : Calls → List (Rec V) → Stream V → Result × Stream V
  partial_commit calls r s =
      let jr : JournalRecord V = record {
        uuid = s.uuid;
        checkpoint = s.next_checkpoint;
        major_version = s.major_version;
        micro_version = length s.buffer + length r;
        records = r;
      } in
      let s' : Stream V = record s {
        checkpoints = s.checkpoints ++ s.next_checkpoint ∷ [];
        buffer = s.buffer ++ r;
        journal = s.journal ++ jr ∷ [];
        next_checkpoint = s.next_checkpoint + 1;
      } in
      if calls.journal_ok
      then if calls.wait_ok then (ok s'.major_version (length s'.buffer), s') else (err, s')
      else (err, s)

  -- It is refused with WrongEndpoint while the node's two ranges neither share a place nor touch.
  unfoldable pub insert : Calls → List (Rec V) → Stream V → Result × Stream V
  insert calls r s = elim (union calls.active calls.proposed) [
    | none ↦ (err, s)
    | some our_range ↦
        if leb max_pqm_buffer_size (length r + length s.buffer)
        then write_primary calls (s.buffer ++ r) s
        else partial_commit calls r s
  ]

  -- QueryVersion and MuxContents of a stream that has an entry.
  unfoldable pub query_version : Stream V → ℕ × ℕ
  query_version s = (s.major_version, length s.buffer)

  unfoldable pub mux_contents : Stream V → ℕ × ℕ × List (Rec V)
  mux_contents s = (s.major_version, length s.buffer, s.buffer)

  -- The loop of mashChangeProcessJournals over the journal of a node: the entries in the range of streams that
  -- are found, of the major version that is stored. A stream that StreamMajorVersion does not find is none.
  unfoldable pub to_insert :
      (ℕ → ℕ) → MashRange → (ℕ → Option ℕ) → List (JournalRecord V) → List (JournalRecord V)
  to_insert murmur rng stream_major_version [] = []
  to_insert murmur rng stream_major_version (jrn ∷ iter) =
      let rest = to_insert murmur rng stream_major_version iter in
      if super_set_of rng (murmur jrn.uuid)
      then elim (stream_major_version jrn.uuid) [
        | none ↦ rest
        | some maj ↦ if maj == jrn.major_version then jrn ∷ rest else rest
      ]
      else rest

  -- insertmap of one stream.
  unfoldable pub insert_map : ℕ → List (JournalRecord V) → List (Rec V)
  insert_map uu [] = []
  insert_map uu (jrn ∷ toinsert) =
      let rest = insert_map uu toinsert in if jrn.uuid == uu then jrn.records ++ rest else rest

  -- What is stored of the stream when another node has processed the journal, after this one has gone: the
  -- buffer is lost.
  unfoldable pub recover : (ℕ → ℕ) → MashRange → (ℕ → Option ℕ) → Stream V → List (Rec V)
  recover murmur rng stream_major_version s =
      if rng.start == rng.end
      then s.stored
      else s.stored ++ insert_map s.uuid (to_insert murmur rng stream_major_version s.journal)
