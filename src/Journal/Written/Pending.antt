-- ===== src/Journal/Written/Pending.antt =====
-- About markCPRangeWritten of internal/cephprovider/jprovider.go: the loop over the pending ranges.
use btrdb_server.Base.{
  ℕ, zero, suc, ◌+◌, ◌-◌, ◌≤◌, ◌<◌, ◌≡◌, ◌≢◌, refl, Option, none, some, List, [], ◌∷◌, ◌++◌, arith,
  All, length, leb, ltb, ◌&&◌, ◌==◌, if_both, if◌then◌else◌, ◌>>=◌,
}
use btrdb_server.Journal.Freed.Least.{times}
use btrdb_server.Journal.Written.{CpRange, WriteBackRequest, take_fitting, process_pending}

-- Whether c lies in [lo, hi), as a number.
abbrev pub between : ℕ → ℕ → ℕ → ℕ
between lo hi c = if leb lo c && ltb c hi then 1 else 0

abbrev pub in_cp : CpRange → ℕ → ℕ
in_cp r c = between r.start r.end c

abbrev pub in_pending : List CpRange → ℕ → ℕ
in_pending [] c = 0
in_pending (r ∷ rs) c = in_cp r c + in_pending rs c

abbrev pub in_flight : List WriteBackRequest → ℕ → ℕ
in_flight [] c = 0
in_flight (w ∷ ws) c = in_cp w.range c + in_flight ws c

-- A range from 1 on that is not empty.
abbrev pub IsCpRange : CpRange → Type 0
IsCpRange r = (1 ≤ r.start) × (r.start < r.end)

-- A write-back takes exactly the records of its range.
abbrev pub IsWriteBack : WriteBackRequest → Type 0
IsWriteBack w = IsCpRange w.range × ((c : ℕ) → times c w.records ≡ in_cp w.range c)

pub times-append : (c : ℕ) (xs ys : List ℕ) → times c (xs ++ ys) ≡ times c xs + times c ys
times-append c [] ys = omega arith
times-append c (x ∷ xs) ys = omega (arith, times-append c xs ys)

pub in_flight-append :
    (c : ℕ) (xs ys : List WriteBackRequest)
    → in_flight (xs ++ ys) c ≡ in_flight xs c + in_flight ys c
in_flight-append c [] ys = omega arith
in_flight-append c (x ∷ xs) ys = omega (arith, in_flight-append c xs ys)

-- The pending ranges and what is written, counted by checkpoint, do not change when a range is folded in.
abbrev pub Took : ℕ → List CpRange → Option (CpRange × List CpRange) → Type 0
Took written rs none = All (λ r. r.start ≢ suc written) rs
Took written rs (some (r, rest)) =
    (r.start ≡ suc written)
    × IsCpRange r
    × All IsCpRange rest
    × (length rs ≡ suc (length rest))
    × ((c : ℕ) → in_pending rs c ≡ in_cp r c + in_pending rest c)

pub Took-next :
    (written : ℕ) (r : CpRange) (rs : List CpRange) (o : Option (CpRange × List CpRange))
    → r.start ≢ suc written
    → IsCpRange r
    → Took written rs o
    → Took written (r ∷ rs) (o >>= λ t. some (t.0, r ∷ t.1))
Took-next written r rs none ne w t = (ne, t)
Took-next written r rs (some (s, rest)) ne w (e, v, a, l, c) =
    (e, v, (w, a), omega arith, λ d. omega (arith, c d))

pub take_fitting-Took :
    (written : ℕ) (rs : List CpRange) → All IsCpRange rs → Took written rs (take_fitting written rs)
unfolding take_fitting
take_fitting-Took written [] a = tt
take_fitting-Took written (r ∷ rs) a =
    if_both (Took written (r ∷ rs)) (r.start == suc written)
      (λ e. (ground arith, a.0, a.1, refl, λ c. refl))
      (λ e.
        Took-next written r rs (take_fitting written rs) (λ f. ground arith) a.0
          (take_fitting-Took written rs a.1))

-- The end of the loop: nothing pending fits, and the same checkpoints are written or pending.
abbrev pub Processed : ℕ → List CpRange → ℕ × List CpRange → Type 0
Processed written rs (written', rs') =
    All IsCpRange rs'
    × All (λ r. r.start ≢ suc written') rs'
    × ((c : ℕ)
        → between 1 (suc written') c + in_pending rs' c
          ≡ between 1 (suc written) c + in_pending rs c)

pub process_step :
    (fuel written : ℕ) (rs : List CpRange) (o : Option (CpRange × List CpRange))
    → ((w : ℕ) (ss : List CpRange)
        → length ss ≤ fuel
        → All IsCpRange ss
        → Processed w ss (process_pending fuel w ss))
    → length rs ≤ suc fuel
    → All IsCpRange rs
    → Took written rs o
    → Processed written rs
        (elim o [ none ↦ (written, rs) | some t ↦ process_pending fuel (t.0.end - 1) t.1 ])
process_step fuel written rs none ih l a t = (a, t, λ c. refl)
process_step fuel written rs (some (r, rest)) ih l a (e, v, a', l', c) =
    let (b, s, d) = ih (r.end - 1) rest (omega arith) a' in (b, s, λ k. ground (arith, d k, c k))

pub process_pending-Processed :
    (fuel written : ℕ) (rs : List CpRange)
    → length rs ≤ fuel
    → All IsCpRange rs
    → Processed written rs (process_pending fuel written rs)
unfolding process_pending
process_pending-Processed zero written [] l a = (tt, tt, λ c. refl)
process_pending-Processed zero written (r ∷ rs) l a = absurd (omega arith)
process_pending-Processed (suc fuel) written rs l a =
    process_step fuel written rs (take_fitting written rs) (process_pending-Processed fuel) l a
      (take_fitting-Took written rs a)
