-- ===== src/Cluster/Mash/Tiles.antt =====
-- About IdealMash of internal/configprovider/clustering.go and the ranges it hands out.
use btrdb_server.Base.{
  ap, if_both, ℕ, ◌+◌, ◌*◌, ◌/◌, ◌%◌, ◌^◌, ◌≤◌, ◌<◌, ◌≡◌, refl, List, [], ◌∷◌, arith, All, ltb,
}
use btrdb_server.Base.Word.{add64, div64}
use btrdb_server.Cluster.{hashrange_end}
use btrdb_server.Cluster.Members.{Member, is_in, active_members}
use btrdb_server.Cluster.Mash.{
  Share, insert_share, sort_shares, total_weight, hand_out, members_in, ideal_mash,
}

-- The ranges follow one another from loc to the end of the hash space, with no gap.
abbrev pub Tiles : ℕ → List Share → Type 0
Tiles loc [] = loc ≡ hashrange_end
Tiles loc (s ∷ ss) = (s.range.start ≡ loc) × (loc ≤ s.range.end) × Tiles s.range.end ss

abbrev weights : List Share → ℕ
weights [] = 0
weights (s ∷ ss) = s.weight + weights ss

abbrev pub member_weights : List Member → ℕ
member_weights [] = 0
member_weights (m ∷ ms) = m.weight + member_weights ms

-- One share: what is left for the others still fits.
share_fits :
    (t loc w rest : ℕ)
    → loc * t + (w + rest) * 2 ^ 32 ≤ t * 2 ^ 32
    → 0 < t
    → (loc + w * 2 ^ 32 / t) * t + rest * 2 ^ 32 ≤ t * 2 ^ 32
share_fits t loc w rest h p = grind arith

share_eq :
    (t loc w : ℕ)
    → w < 2 ^ 31
    → 0 < t
    → loc + w * 2 ^ 32 / t ≤ 2 ^ 32
    → add64 loc (div64 (w * 2 ^ 32 % 2 ^ 64) t) ≡ loc + w * 2 ^ 32 / t
unfolding add64 div64
share_eq t loc w hw p h = rw e (ground arith)
  where
    e : w * 2 ^ 32 % 2 ^ 64 ≡ w * 2 ^ 32
    e = omega arith

place_fits : (t loc w : ℕ) → loc * t + w * 2 ^ 32 ≤ t * 2 ^ 32 → 0 < t → loc ≤ 2 ^ 32
place_fits t loc w h p = grind arith

abbrev Small : List Share → Type 0
Small ss = All (λ s. s.weight < 2 ^ 31) ss

hand_out-Tiles :
    (t loc : ℕ) (s : Share) (ss : List Share)
    → Small (s ∷ ss)
    → 0 < t
    → loc * t + weights (s ∷ ss) * 2 ^ 32 ≤ t * 2 ^ 32
    → Tiles loc (hand_out t loc (s ∷ ss))
unfolding hand_out
hand_out-Tiles t loc s [] sm p h = (refl, place_fits t loc (s.weight + 0) h p, refl)
hand_out-Tiles t loc s (u ∷ ss) sm p h =
    rw eq ((refl, omega arith, hand_out-Tiles t (loc + s.weight * 2 ^ 32 / t) u ss sm.1 p fits))
  where
    fits : (loc + s.weight * 2 ^ 32 / t) * t + weights (u ∷ ss) * 2 ^ 32 ≤ t * 2 ^ 32
    fits = share_fits t loc s.weight (weights (u ∷ ss)) h p

    eq : add64 loc (div64 (s.weight * 2 ^ 32 % 2 ^ 64) t) ≡ loc + s.weight * 2 ^ 32 / t
    eq = share_eq t loc s.weight sm.0 p (place_fits t (loc + s.weight * 2 ^ 32 / t) _ fits p)

insert_share-weights :
    (s : Share) (ss : List Share) → weights (insert_share s ss) ≡ s.weight + weights ss
unfolding insert_share
insert_share-weights s [] = refl
insert_share-weights s (u ∷ ss) = ground (arith, insert_share-weights s ss)

insert_share-Small :
    (s : Share) (ss : List Share) → s.weight < 2 ^ 31 → Small ss → Small (insert_share s ss)
unfolding insert_share
insert_share-Small s [] h sm = (h, tt)
insert_share-Small s (u ∷ ss) h sm =
    if_both Small (ltb u.hash s.hash) (λ _. (sm.0, insert_share-Small s ss h sm.1)) (λ _. (h, sm))

sort_shares-weights : (ss : List Share) → weights (sort_shares ss) ≡ weights ss
unfolding sort_shares
sort_shares-weights [] = refl
sort_shares-weights (s ∷ ss) =
    omega (arith, insert_share-weights s (sort_shares ss), sort_shares-weights ss)

sort_shares-Small : (ss : List Share) → Small ss → Small (sort_shares ss)
unfolding sort_shares
sort_shares-Small [] sm = tt
sort_shares-Small (s ∷ ss) sm =
    insert_share-Small s (sort_shares ss) sm.0 (sort_shares-Small ss sm.1)

total_weight-eq : (ss : List Share) → weights ss < 2 ^ 63 → total_weight ss ≡ weights ss
unfolding total_weight add64
total_weight-eq [] h = refl
total_weight-eq (s ∷ ss) h = rw (total_weight-eq ss (omega arith)) (omega arith)

hand_out-Tiles_sorted :
    (t : ℕ) (ss : List Share)
    → Small ss
    → 0 < weights ss
    → t ≡ weights ss
    → Tiles 0 (hand_out t 0 ss)
hand_out-Tiles_sorted t [] sm p e = absurd (omega arith)
hand_out-Tiles_sorted t (s ∷ ss) sm p e =
    hand_out-Tiles t 0 s ss sm (omega arith) (omega (arith, ap (λ (u : ℕ). u * 2 ^ 32) e))

module _ (murmur : ℕ → ℕ) where
  members_in-weights : (ms : List Member) → weights (members_in murmur ms) ≤ member_weights ms
  unfolding members_in
  members_in-weights [] = omega arith
  members_in-weights (m ∷ ms) = ground (arith, members_in-weights ms)

  members_in-pos : (ms : List Member) → active_members ms ≤ weights (members_in murmur ms)
  unfolding members_in active_members is_in
  members_in-pos [] = omega arith
  members_in-pos (m ∷ ms) = ground (arith, members_in-pos ms)

  members_in-Small :
      (ms : List Member) → All (λ m. m.weight < 2 ^ 31) ms → Small (members_in murmur ms)
  unfolding members_in
  members_in-Small [] h = tt
  members_in-Small (m ∷ ms) h =
      if_both Small (is_in m) (λ _. (h.0, members_in-Small ms h.1)) (λ _. members_in-Small ms h.1)

  -- If some member is in, each weight is below 2 ^ 31 and all weights together are below 2 ^ 63, IdealMash
  -- covers the hash space: its ranges follow one another from 0 to HASHRANGE_END with no gap or overlap.
  pub ideal_mash-Tiles :
      (ms : List Member)
      → 0 < active_members ms
      → All (λ m. m.weight < 2 ^ 31) ms
      → member_weights ms < 2 ^ 63
      → Tiles 0 (ideal_mash murmur ms)
  unfolding ideal_mash
  ideal_mash-Tiles ms act sm tot =
      hand_out-Tiles_sorted _ _ (sort_shares-Small ss (members_in-Small ms sm))
        (omega (arith, sort_shares-weights ss, members_in-pos ms))
        (omega (
          arith,
          total_weight-eq ss (omega (arith, members_in-weights ms)),
          sort_shares-weights ss,
        ))
    where
      ss : List Share
      ss = members_in murmur ms
