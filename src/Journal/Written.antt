-- ===== src/Journal/Written.antt =====
-- The write path of the journal, internal/cephprovider/jprovider.go: Insert into the current buffer, the
-- write-back of its unwritten part, a new object, the workers that complete write-backs in any order, and
-- markCPRangeWritten. A record is its checkpoint. The buffer's data behind bytesWritten is the list of records
-- that no write-back has taken yet; a record has at least one byte. Ceph's writes succeed. Checkpoints are
-- counted from 1 and do not reach 2 ^ 64, so that writtencp == Start - 1 is Start == writtencp + 1.
pub mod Pending
pub mod Durable
use btrdb_server.Base.{
  ℕ, zero, suc, ◌+◌, ◌-◌, Bool, true, false, Option, none, some, List, [], ◌∷◌, ◌++◌, leb, ◌==◌,
  if◌then◌else◌, length, ◌>>=◌, ◌≡◌,
}

-- cprange and writeBackRequest, which also holds the data.
pub record CpRange : Type 0 where
  pub start : ℕ
  pub end : ℕ

pub record WriteBackRequest : Type 0 where
  pub range : CpRange
  pub records : List ℕ

-- CJournalProvider with its currentBuffer and what Ceph holds.
pub record Provider : Type 0 where
  pub next_cp : ℕ
  pub next_write_cp : ℕ
  pub unwritten : List ℕ
  pub writebacks : List WriteBackRequest
  pub written_cp : ℕ
  pub pending_cp : List CpRange
  pub stored : List ℕ

-- After the first beginNewObject.
unfoldable pub new_provider : Provider
new_provider = record {
  next_cp = 1;
  next_write_cp = 1;
  unwritten = [];
  writebacks = [];
  written_cp = 0;
  pending_cp = [];
  stored = [];
}

-- Insert, with the buffer's lock; it returns the checkpoint.
unfoldable pub insert : Provider → ℕ × Provider
insert p =
    (p.next_cp, record p { unwritten = p.unwritten ++ p.next_cp ∷ []; next_cp = p.next_cp + 1 })

unfoldable pub write_existing_buffer : Provider → Provider
write_existing_buffer p = if length p.unwritten == 0 then p else record p {
  writebacks =
      p.writebacks
      ++ record {
        range = record { start = p.next_write_cp; end = p.next_cp };
        records = p.unwritten;
      }
        ∷ [];
  unwritten = [];
  next_write_cp = p.next_cp;
}

-- The state behind beginNewObject; `none` is its panic.
unfoldable pub begin_new_object : Provider → Option Provider
begin_new_object p =
    if p.next_write_cp == p.next_cp then some (record p { unwritten = [] }) else none

unfoldable pub write_back_buffer_with_flip : Provider → Option Provider
write_back_buffer_with_flip p = begin_new_object (write_existing_buffer p)

-- A pending range that fits writtencp, and the others.
unfoldable pub take_fitting : ℕ → List CpRange → Option (CpRange × List CpRange)
take_fitting written [] = none
take_fitting written (r ∷ rs) =
    let rest = take_fitting written rs >>= λ t. some (t.0, r ∷ t.1) in
    if r.start == suc written then some (r, rs) else rest

-- The loop over pendingcp, on fuel: writtencp and what is still pending.
unfoldable pub process_pending : ℕ → ℕ → List CpRange → ℕ × List CpRange
process_pending zero written rs = (written, rs)
process_pending (suc fuel) written rs = elim (take_fitting written rs) [
  | none ↦ (written, rs)
  | some t ↦ process_pending fuel (t.0.end - 1) t.1
]

unfoldable pub mark_cp_range_written : CpRange → Provider → Provider
mark_cp_range_written r p =
    let pending = r ∷ p.pending_cp in
    let (written, left) = process_pending (length pending) p.written_cp pending in
    record p { written_cp = written; pending_cp = left }

-- A worker completes one write-back; the others stay.
unfoldable pub complete : WriteBackRequest → List WriteBackRequest → Provider → Provider
complete w others p =
    mark_cp_range_written w.range (record p { writebacks = others; stored = p.stored ++ w.records })

-- Whether waitForBufferWritten returns.
unfoldable pub is_written : ℕ → Provider → Bool
is_written equal_cp p = leb equal_cp p.written_cp

-- The steps of Insert, of WaitForCheckpoint, of the admission loop and of a worker.
pub data Step : Provider → Provider → Type 0 where
  inserts : (p : Provider) → Step p (insert p).1
  writes : (p : Provider) → Step p (write_existing_buffer p)
  flips : (p : Provider) {p' : Provider} → write_back_buffer_with_flip p ≡ some p' → Step p p'
  completes :
      (w : WriteBackRequest) (before after : List WriteBackRequest) (p : Provider)
      → p.writebacks ≡ before ++ w ∷ after
      → Step p (complete w (before ++ after) p)

pub data IsReachable : Provider → Type 0 where
  start : IsReachable new_provider
  next : {p p' : Provider} → IsReachable p → Step p p' → IsReachable p'
