-- ===== src/Qtree/Insert/Groups.antt =====
-- The loop of InsertValues cuts the records into runs, one for each bucket that they fall into.
use mathlib.Core.List.{append_assoc}
use native.Mathlib.Nat.{le_trans, le-add_right}
use mathlib.Core.Path.{subst}
use native.Mathlib.Decide.{dec_lt}
use btrdb_server.Base.{
  ℕ, zero, suc, ◌+◌, ◌*◌, ◌≤◌, ◌<◌, ◌≡◌, refl, List, [], ◌∷◌, ◌++◌, arith, ◌==◌, length,
  length-append, ==_iff, if_both,
}
use btrdb_server.Bstore.Consts.{kfactor}
use btrdb_server.Qtree.Node.{Rec, Header}
use btrdb_server.Qtree.Window.{width, clamp_bucket, end_time, bucket_le, bucket_lt, clamp_bucket-lt}
use btrdb_server.Qtree.Leaf.Sorted.{SortedFrom, Below}
use btrdb_server.Qtree.Shape.Contents.{Below-append}
use btrdb_server.Qtree.Tally.{tally, tally-append}
use btrdb_server.Qtree.Insert.{run_groups, last_time}

-- A time in the node's window lies in its bucket.
in_bucket :
    (h : Header) (t : ℕ)
    → h.start ≤ t
    → t < end_time h
    → (h.start + clamp_bucket h t * width h.pw ≤ t)
      × (t < h.start + clamp_bucket h t * width h.pw + width h.pw)
unfolding end_time
in_bucket h t p q =
    (low (clamp_bucket h t) (omega arith), high (clamp_bucket h t) refl (clamp_bucket-lt h t))
  where
    low : (i : ℕ) → i ≤ clamp_bucket h t → h.start + i * width h.pw ≤ t
    low zero l = omega arith
    low (suc i) l = bucket_le h t (suc i) (omega arith) l

    high : (i : ℕ) → clamp_bucket h t ≡ i → i < 64 → t < h.start + i * width h.pw + width h.pw
    high i e l = elim (dec_lt (suc i) 64) [
      | yes k ↦ omega (arith, bucket_lt h t (suc i) k (omega arith))
      | no k ↦ let top : i ≡ 63 = omega arith in rw top (omega arith)
    ]

module _ {V : Type 0} where
  pub SortedFrom-prefix :
      (lo : ℕ) (xs ys : List (Rec V)) → SortedFrom lo (xs ++ ys) → SortedFrom lo xs
  SortedFrom-prefix lo [] ys s = tt
  SortedFrom-prefix lo (x ∷ xs) ys s = (s.0, SortedFrom-prefix x.time xs ys s.1)

  SortedFrom-suffix :
      (lo : ℕ) (xs : List (Rec V)) (r : Rec V) (rs : List (Rec V))
      → SortedFrom lo (xs ++ r ∷ rs)
      → SortedFrom r.time rs
  SortedFrom-suffix lo [] r rs s = s.1
  SortedFrom-suffix lo (x ∷ xs) r rs s = SortedFrom-suffix x.time xs r rs s.1

  SortedFrom-lower :
      (lo : ℕ) (xs : List (Rec V)) (r : Rec V) (rs : List (Rec V))
      → SortedFrom lo (xs ++ r ∷ rs)
      → lo ≤ r.time
  SortedFrom-lower lo [] r rs s = s.0
  SortedFrom-lower lo (x ∷ xs) r rs s = le_trans s.0 (SortedFrom-lower x.time xs r rs s.1)

  -- A group of a core node with header h: its records ascend within the bucket.
  abbrev pub IsGroup : Header → ℕ → List (Rec V) → Type 0
  IsGroup h b g =
      (b < kfactor)
      × (1 ≤ length g)
      × SortedFrom (h.start + b * width h.pw) g
      × Below (h.start + b * width h.pw + width h.pw) g

  abbrev pub AreGroups : Header → List (ℕ × List (Rec V)) → Type 0
  AreGroups h [] = Unit
  AreGroups h ((b, g) ∷ rest) = IsGroup h b g × AreGroups h rest

  abbrev pub tally_groups : (Rec V → ℕ) → List (ℕ × List (Rec V)) → ℕ
  tally_groups φ [] = 0
  tally_groups φ ((b, g) ∷ rest) = tally φ g + tally_groups φ rest

  run_groups-AreGroups :
      (h : Header) (b : ℕ) (g rs : List (Rec V))
      → IsGroup h b g
      → SortedFrom (h.start + b * width h.pw) (g ++ rs)
      → Below (end_time h) rs
      → AreGroups h (run_groups h b g rs)
  unfolding run_groups
  run_groups-AreGroups h b g [] k s w = (k, tt)
  run_groups-AreGroups h b g (r ∷ rs) k s w =
      let (low, high) =
        in_bucket h r.time (le_trans (le-add_right h.start _) (SortedFrom-lower _ g r rs s)) w.0 in
      if_both (AreGroups h) (clamp_bucket h r.time == b)
        (λ t.
          let s' : SortedFrom (h.start + b * width h.pw) ((g ++ r ∷ []) ++ rs) =
            rw append_assoc s in
          run_groups-AreGroups h b (g ++ r ∷ []) rs
            (
              k.0,
              rw length-append (omega arith),
              SortedFrom-prefix _ (g ++ r ∷ []) rs s',
              Below-append _ g (r ∷ []) k.3 (
                subst (λ i. r.time < h.start + i * width h.pw + width h.pw) ((==_iff _ b).0 t) high,
                tt,
              ),
            )
            s' w.1)
        (λ t. (
          k,
          run_groups-AreGroups h (clamp_bucket h r.time) (r ∷ []) rs
              (clamp_bucket-lt h r.time, omega arith, (low, tt), (high, tt))
              (low, SortedFrom-suffix _ g r rs s) w.1,
        ))

  pub tally-run_groups :
      (φ : Rec V → ℕ) (h : Header) (b : ℕ) (g rs : List (Rec V))
      → tally_groups φ (run_groups h b g rs) ≡ tally φ g + tally φ rs
  unfolding run_groups
  tally-run_groups φ h b g [] = omega arith
  tally-run_groups φ h b g (r ∷ rs) = ground (
    arith,
    tally-run_groups φ h b (g ++ r ∷ []) rs,
    tally-run_groups φ h (clamp_bucket h r.time) (r ∷ []) rs,
    tally-append φ g (r ∷ []),
  )

  -- The last record lies in the window.
  pub last_time-lt : (hi t : ℕ) (rs : List (Rec V)) → t < hi → Below hi rs → last_time t rs < hi
  unfolding last_time
  last_time-lt hi t [] p b = p
  last_time-lt hi t (r ∷ rs) p b = last_time-lt hi r.time rs b.0 b.1

  -- All groups of an insert into a core node over its records.
  pub first_groups :
      (h : Header) (r : Rec V) (rs : List (Rec V))
      → h.start ≤ r.time
      → SortedFrom r.time rs
      → Below (end_time h) (r ∷ rs)
      → AreGroups h (run_groups h (clamp_bucket h r.time) (r ∷ []) rs)
  first_groups h r rs p s w =
      let (low, high) = in_bucket h r.time p w.0 in
      run_groups-AreGroups h (clamp_bucket h r.time) (r ∷ []) rs
        (clamp_bucket-lt h r.time, omega arith, (low, tt), (high, tt)) (low, s) w.1
