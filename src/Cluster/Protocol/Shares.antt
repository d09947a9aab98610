-- ===== src/Cluster/Protocol/Shares.antt =====
-- Which nodes the maps of internal/configprovider/clustering.go name: IdealMash and CompatibleIntermediateMash name
-- only members that are in.
use mathlib.Core.Path.{subst}
use btrdb_server.Base.{
  ℕ, ◌≡◌, refl, sym, ap, Bool, true, false, ◌&&◌, ◌||◌, none, some, List, [], ◌∷◌, arith, All,
  All-imp, ltb, ◌==◌, ==_iff, if_both, if◌then◌else◌, ◌∙◌, ◌+◌, ◌>>=◌, Option-cases, Bool-cases,
  inl, inr,
}
use btrdb_server.Cluster.Members.{Member, is_in, scan_active}
use btrdb_server.Cluster.Mash.{
  Share, insert_share, sort_shares, hand_out, members_in, ideal_mash, gap,
}
use btrdb_server.Cluster.Space.{
  intersect_with_free_space, intermediate, all_clear, compatible_intermediate_mash,
}

some-inj : {x y : List Share} → some x ≡ some y → x ≡ y
some-inj e = cc

-- A member of that name is in.
abbrev pub has_in : ℕ → List Member → Bool
has_in n [] = false
has_in n (m ∷ ms) = if (m.nodename == n) && is_in m then true else has_in n ms

-- A member of that name has that active number.
abbrev pub has_current : ℕ → ℕ → List Member → Bool
has_current max n [] = false
has_current max n (m ∷ ms) =
    if (m.nodename == n) && (m.active == max) then true else has_current max n ms

-- P holds of the hash and the name of a share.
abbrev pub Named : (ℕ → ℕ → Type 0) → Share → Type 0
Named P s = P s.hash s.nodename

module _ (P : ℕ → ℕ → Type 0) where
  insert_share-Named :
      (s : Share) (ss : List Share)
      → Named P s
      → All (Named P) ss
      → All (Named P) (insert_share s ss)
  unfolding insert_share
  insert_share-Named s [] p a = (p, tt)
  insert_share-Named s (t ∷ ts) p a =
      if_both (All (Named P)) (ltb t.hash s.hash) (λ _. (a.0, insert_share-Named s ts p a.1))
        (λ _. (p, a))

  sort_shares-Named : (ss : List Share) → All (Named P) ss → All (Named P) (sort_shares ss)
  unfolding sort_shares
  sort_shares-Named [] a = tt
  sort_shares-Named (s ∷ ss) a =
      insert_share-Named s (sort_shares ss) a.0 (sort_shares-Named ss a.1)

  hand_out-Named :
      (total : ℕ) (ss : List Share) (loc : ℕ)
      → All (Named P) ss
      → All (Named P) (hand_out total loc ss)
  unfolding hand_out
  hand_out-Named total [] loc a = tt
  hand_out-Named total (s ∷ []) loc a = a
  hand_out-Named total (s ∷ t ∷ ss) loc a = (a.0, hand_out-Named total (t ∷ ss) _ a.1)

  intermediate-Named :
      (current ideal next : List Share)
      → intermediate current ideal ≡ some next
      → All (Named P) ideal
      → All (Named P) next
  unfolding intermediate
  intermediate-Named current [] next e a = subst (All (Named P)) (some-inj e) tt
  intermediate-Named current (s ∷ ideal) next e a =
      elim (Option-cases (intersect_with_free_space current s.range s.hash)) [
        | inl f ↦ cc (rw f at e)
        | inr f ↦ elim (Option-cases (intermediate current ideal)) [
          | inl g ↦ cc (rw (f.1, g) at e)
          | inr g ↦
              subst (All (Named P)) (some-inj (rw (f.1, g.1) at e))
                (a.0, intermediate-Named current ideal g.0 g.1 a.1)
        ]
      ]

  pub compatible_intermediate_mash-Named :
      (current ideal next : List Share)
      → compatible_intermediate_mash current ideal ≡ some next
      → All (Named P) ideal
      → All (Named P) next
  unfolding compatible_intermediate_mash
  compatible_intermediate_mash-Named current ideal next e a =
      elim (Option-cases (intermediate current ideal)) [
        | inl f ↦ cc (rw f at e)
        | inr f ↦ intermediate-Named current ideal next (f.1 ∙ same f.0 (rw f.1 at e)) a
      ]
    where
      same :
          (n : List Share)
          → (if all_clear n current then (gap n >>= λ g. some n) else none) ≡ some next
          → some n ≡ some next
      same n q = elim (Bool-cases (all_clear n current)) [
        | inl b ↦ elim (Option-cases (gap n)) [
          | inl g ↦ cc (rw (b, g) at q)
          | inr g ↦ rw (b, g.1) at q
        ]
        | inr b ↦ cc (rw b at q)
      ]

module _ (murmur : ℕ → ℕ) where
  abbrev pub FromMember : List Member → ℕ → ℕ → Type 0
  FromMember ms h n = (h ≡ murmur n) × (has_in n ms ≡ true)

  members_in-Named : (ms : List Member) → All (Named (FromMember ms)) (members_in murmur ms)
  unfolding members_in
  members_in-Named [] = tt
  members_in-Named (m ∷ ms) =
      if_both (All (Named (FromMember (m ∷ ms)))) (is_in m)
        (λ e. ((refl, first e), rest (members_in-Named ms))) (λ _. rest (members_in-Named ms))
    where
      first : is_in m ≡ true → has_in m.nodename (m ∷ ms) ≡ true
      first e = rw ((==_iff m.nodename m.nodename).1 refl, e) refl

      rest :
          All (Named (FromMember ms)) (members_in murmur ms)
          → All (Named (FromMember (m ∷ ms))) (members_in murmur ms)
      rest a =
          All-imp
            (λ s q. (
              q.0,
              if_both (λ (b : Bool). b ≡ true) ((m.nodename == s.nodename) && is_in m) (λ _. refl)
                  (λ _. q.1),
            ))
            (members_in murmur ms) a

  pub ideal_mash-Named : (ms : List Member) → All (Named (FromMember ms)) (ideal_mash murmur ms)
  unfolding ideal_mash
  ideal_mash-Named ms =
      hand_out-Named (FromMember ms) _ _ _
        (sort_shares-Named (FromMember ms) _ (members_in-Named ms))

scan_step :
    (max active count : ℕ) (allsame : Bool) (m : Member) (ms : List Member) (i : Bool)
    → is_in m ≡ i
    → scan_active max (m ∷ ms) (active, allsame, count)
      ≡ scan_active max ms (
          if i
          then (
            if active == 0 || ltb m.active active then m.active else active,
            if m.active == max then allsame else false,
            count + 1,
          )
          else (active, allsame, count))
unfolding scan_active
scan_step max active count allsame m ms i e =
    ap
      (λ (b : Bool). scan_active max ms (
        if b
        then (
          if active == 0 || ltb m.active active then m.active else active,
          if m.active == max then allsame else false,
          count + 1,
        )
        else (active, allsame, count)))
      e

-- If all are the same, each member that is in has the active number max.
pub scan_active-same :
    (max : ℕ) (ms : List Member) (active count : ℕ) (allsame : Bool)
    → (scan_active max ms (active, allsame, count)).1 ≡ true
    → (allsame ≡ true) × ((n : ℕ) → has_in n ms ≡ true → has_current max n ms ≡ true)
unfolding scan_active
scan_active-same max [] active count allsame e = (e, λ n h. cc)
scan_active-same max (m ∷ ms) active count allsame e = elim (Bool-cases (is_in m)) [
  | inl i ↦
      let (a, k) = scan_active-same max ms _ (count + 1) _ (
        sym (ap (λ (t : ℕ × Bool × ℕ). t.1) (scan_step max active count allsame m ms true i))
        ∙ e) in
      (ground (arith, a), λ n h. ground (arith, a, k n, i))
  | inr i ↦
      let (a, k) = scan_active-same max ms active count allsame (
        sym (ap (λ (t : ℕ × Bool × ℕ). t.1) (scan_step max active count allsame m ms false i))
        ∙ e) in
      (a, λ n h. ground (arith, k n, i))
]
