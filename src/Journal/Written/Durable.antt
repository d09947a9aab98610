-- ===== src/Journal/Written/Durable.antt =====
-- About writtencp of internal/cephprovider/jprovider.go and the records that Ceph holds, in every state that
-- the steps of the write path reach.
use mathlib.Core.Path.{subst}
use btrdb_server.Base.{
  All-append, ℕ, suc, ◌+◌, ◌≤◌, ◌<◌, ◌≡◌, ◌≢◌, refl, ap, true, Option, some, List, [], ◌∷◌, ◌++◌,
  arith, All, length, leb, ltb, ◌&&◌, ◌==◌, length-append, Bool-cases, inl, inr,
}
use btrdb_server.Journal.Freed.Least.{times}
use btrdb_server.Journal.Written.{
  CpRange, WriteBackRequest, Provider, new_provider, insert, write_existing_buffer,
  begin_new_object, write_back_buffer_with_flip, mark_cp_range_written, complete, is_written, Step,
  inserts, writes, flips, completes, IsReachable, start, next,
}
use btrdb_server.Journal.Written.Pending.{
  IsCpRange, IsWriteBack, between, in_flight, in_flight-append, in_pending,
  process_pending-Processed, times-append,
}

record IsDurable (p : Provider) : Type 0 where
  first : 1 ≤ p.next_write_cp
  counted : length p.unwritten + p.next_write_cp ≡ p.next_cp
  buffered : (c : ℕ) → times c p.unwritten ≡ between p.next_write_cp p.next_cp c
  requests : All IsWriteBack p.writebacks
  ranges : All IsCpRange p.pending_cp
  settled : All (λ r. r.start ≢ suc p.written_cp) p.pending_cp
  handed_out :
      (c : ℕ)
      → between 1 (suc p.written_cp) c + in_pending p.pending_cp c + in_flight p.writebacks c
        ≡ between 1 p.next_write_cp c
  on_disk : (c : ℕ) → times c p.stored ≡ between 1 (suc p.written_cp) c + in_pending p.pending_cp c

new_provider-IsDurable : IsDurable new_provider
unfolding new_provider
new_provider-IsDurable = record {
  first = omega arith;
  counted = refl;
  buffered = λ c. ground arith;
  requests = tt;
  ranges = tt;
  settled = tt;
  handed_out = λ c. ground arith;
  on_disk = λ c. ground arith;
}

insert-IsDurable : (p : Provider) → IsDurable p → IsDurable (insert p).1
unfolding insert
insert-IsDurable p d = record {
  first = d.first;
  counted = omega (arith, d.counted, length-append p.unwritten (p.next_cp ∷ []));
  buffered =
      λ c. ground (arith, d.counted, d.buffered c, times-append c p.unwritten (p.next_cp ∷ []));
  requests = d.requests;
  ranges = d.ranges;
  settled = d.settled;
  handed_out = d.handed_out;
  on_disk = d.on_disk;
}

write_existing_buffer-IsDurable :
    (p : Provider)
    → IsDurable p
    → IsDurable (write_existing_buffer p)
      × ((write_existing_buffer p).next_write_cp ≡ (write_existing_buffer p).next_cp)
      × ((write_existing_buffer p).unwritten ≡ [])
unfolding write_existing_buffer
write_existing_buffer-IsDurable p d = elim (Bool-cases (length p.unwritten == 0)) [
  | inl e ↦ rw e (d, ground (arith, d.counted), nil p.unwritten (ground arith))
  | inr e ↦ rw e (
    record {
      first = omega (arith, d.first, d.counted);
      counted = omega arith;
      buffered = λ c. ground arith;
      requests =
          All-append IsWriteBack p.writebacks _ d.requests
            (((d.first, ground (arith, d.counted)), d.buffered), tt);
      ranges = d.ranges;
      settled = d.settled;
      handed_out = λ c. ground (
        arith,
        d.first,
        d.counted,
        d.handed_out c,
        in_flight-append c p.writebacks (
            record {
              range = record { start = p.next_write_cp; end = p.next_cp };
              records = p.unwritten;
            }
            ∷ []),
      );
      on_disk = d.on_disk;
    },
    refl,
    refl,
  )
]
  where
    nil : (xs : List ℕ) → length xs ≡ 0 → xs ≡ []
    nil [] h = refl
    nil (x ∷ xs) h = absurd (omega arith)

-- A new object begins with nothing to write.
flip-IsDurable :
    (p : Provider)
    → IsDurable p
    → (p' : Provider) × (write_back_buffer_with_flip p ≡ some p') × IsDurable p'
unfolding write_back_buffer_with_flip begin_new_object
flip-IsDurable p d =
    let (d', e, u) = write_existing_buffer-IsDurable p d in
    let q : Provider = write_existing_buffer p in
    (
      record q { unwritten = [] },
      ground (arith, e),
      record {
        first = d'.first;
        counted = ground (arith, e);
        buffered = λ c. ground (arith, e);
        requests = d'.requests;
        ranges = d'.ranges;
        settled = d'.settled;
        handed_out = d'.handed_out;
        on_disk = d'.on_disk;
      },
    )

split-requests :
    (before after : List WriteBackRequest) (w : WriteBackRequest)
    → All IsWriteBack (before ++ w ∷ after)
    → IsWriteBack w × All IsWriteBack (before ++ after)
split-requests [] after w a = a
split-requests (x ∷ before) after w a =
    let (v, b) = split-requests before after w a.1 in (v, (a.0, b))

complete-IsDurable :
    (w : WriteBackRequest) (before after : List WriteBackRequest) (p : Provider)
    → p.writebacks ≡ before ++ w ∷ after
    → IsDurable p
    → IsDurable (complete w (before ++ after) p)
unfolding complete mark_cp_range_written
complete-IsDurable w before after p e d =
    let (v, rest) = split-requests before after w (subst (All IsWriteBack) e d.requests) in
    let pending = w.range ∷ p.pending_cp in
    let (asc, fit, same) =
      process_pending-Processed (length pending) p.written_cp pending (omega arith)
        (v.0, d.ranges) in
    record {
      first = d.first;
      counted = d.counted;
      buffered = d.buffered;
      requests = rest;
      ranges = asc;
      settled = fit;
      handed_out = λ c. omega (
        arith,
        same c,
        d.handed_out c,
        ap (λ (ws : List WriteBackRequest). in_flight ws c) e,
        in_flight-append c before (w ∷ after),
        in_flight-append c before after,
      );
      on_disk = λ c. omega (arith, same c, d.on_disk c, v.1 c, times-append c p.stored w.records);
    }

some-injective : {x y : Provider} {o : Option Provider} → o ≡ some x → o ≡ some y → x ≡ y
some-injective e f = cc

Step-IsDurable : {p p' : Provider} → Step p p' → IsDurable p → IsDurable p'
Step-IsDurable (inserts p) d = insert-IsDurable p d
Step-IsDurable (writes p) d = (write_existing_buffer-IsDurable p d).0
Step-IsDurable (flips p {p'} e) d =
    let (q, f, k) = flip-IsDurable p d in subst IsDurable (some-injective f e) k
Step-IsDurable (completes w before after p e) d = complete-IsDurable w before after p e d

IsReachable-IsDurable : {p : Provider} → IsReachable p → IsDurable p
IsReachable-IsDurable start = new_provider-IsDurable
IsReachable-IsDurable (next r s) = Step-IsDurable s (IsReachable-IsDurable r)

-- In every state that inserts, write-backs, new objects and completions in any order reach, a checkpoint for
-- which waitForBufferWritten returns is on disk, and only once.
pub IsReachable-stored :
    {p : Provider} → IsReachable p → (c : ℕ) → 1 ≤ c → is_written c p ≡ true → times c p.stored ≡ 1
unfolding is_written
IsReachable-stored {p} r c h e =
    ground (arith, (IsReachable-IsDurable r).on_disk c, (IsReachable-IsDurable r).handed_out c)

-- In every reachable state a new object can be begun without a panic.
pub IsReachable-flip :
    {p : Provider}
    → IsReachable p
    → (p' : Provider) × (write_back_buffer_with_flip p ≡ some p') × IsReachable p'
IsReachable-flip {p} r =
    let (q, f, d) = flip-IsDurable p (IsReachable-IsDurable r) in (q, f, next r (flips p f))

-- A pending range that covers the next checkpoint begins before it.
covering :
    (c : ℕ) (rs : List CpRange)
    → All IsCpRange rs
    → All (λ r. r.start ≢ c) rs
    → 1 ≤ in_pending rs c
    → (k : ℕ) × (1 ≤ k) × (k < c) × (1 ≤ in_pending rs k)
covering c [] a s h = absurd (omega arith)
covering c (r ∷ rs) a s h = elim (Bool-cases (leb r.start c && ltb c r.end)) [
  | inl e ↦ (r.start, a.0.0, ground (arith, s.0), ground (arith, a.0.1))
  | inr e ↦ let (k, p, q, m) = covering c rs a.1 s.1 (ground arith) in (k, p, q, omega arith)
]

caught_up : (p : Provider) → IsDurable p → p.writebacks ≡ [] → p.next_write_cp ≤ suc p.written_cp
caught_up p d e = elim (Bool-cases (ltb (suc p.written_cp) p.next_write_cp)) [
  | inl l ↦
      let (k, a, b, m) =
        covering (suc p.written_cp) p.pending_cp d.ranges d.settled
          (ground (arith, d.handed_out (suc p.written_cp), none_in_flight (suc p.written_cp))) in
      absurd (ground (arith, d.handed_out k))
  | inr l ↦ ground arith
]
  where
    none_in_flight : (c : ℕ) → in_flight p.writebacks c ≡ 0
    none_in_flight c = ap (λ (ws : List WriteBackRequest). in_flight ws c) e

-- No wait is lost: in every reachable state without a write-back in flight, waitForBufferWritten returns for
-- every checkpoint that was given to a write-back.
pub IsReachable-is_written :
    {p : Provider}
    → IsReachable p
    → p.writebacks ≡ []
    → (c : ℕ) → c < p.next_write_cp
    → is_written c p ≡ true
unfolding is_written
IsReachable-is_written {p} r e c h = ground (arith, caught_up p (IsReachable-IsDurable r) e)
