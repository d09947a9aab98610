-- ===== src/Qtree/Delete/Kept.antt =====
-- What a deletion keeps of a list of records.
use native.Mathlib.Decide.{dec_lt}
use btrdb_server.Base.{
  ℕ, ◌≤◌, ◌<◌, ◌≡◌, refl, List, [], ◌∷◌, ◌++◌, arith, ltb, leb, ◌||◌, ◌&&◌, length, if_both, false,
}
use btrdb_server.Qtree.Node.{Rec}
use btrdb_server.Qtree.Leaf.{keep_outside}
use btrdb_server.Qtree.Leaf.Sorted.{SortedFrom, Below, SortedFrom-weaken}
use btrdb_server.Qtree.Insert.{last_time}

module _ {V : Type 0} (start end : ℕ) where
  pub keep_outside-append :
      (xs ys : List (Rec V))
      → keep_outside start end (xs ++ ys) ≡ keep_outside start end xs ++ keep_outside start end ys
  unfolding keep_outside
  keep_outside-append [] ys = refl
  keep_outside-append (x ∷ xs) ys = ground (arith, keep_outside-append xs ys)

  pub keep_outside-before :
      (hi : ℕ) (rs : List (Rec V)) → hi ≤ start → Below hi rs → keep_outside start end rs ≡ rs
  unfolding keep_outside
  keep_outside-before hi [] h b = refl
  keep_outside-before hi (r ∷ rs) h b = ground (arith, keep_outside-before hi rs)

  pub keep_outside-behind :
      (lo : ℕ) (rs : List (Rec V)) → end ≤ lo → SortedFrom lo rs → keep_outside start end rs ≡ rs
  unfolding keep_outside
  keep_outside-behind lo [] h s = refl
  keep_outside-behind lo (r ∷ rs) h s = ground (arith, keep_outside-behind r.time rs)

  pub keep_outside-none :
      (lo hi : ℕ) (rs : List (Rec V))
      → start ≤ lo
      → hi ≤ end
      → SortedFrom lo rs
      → Below hi rs
      → keep_outside start end rs ≡ []
  unfolding keep_outside
  keep_outside-none lo hi [] p q s b = refl
  keep_outside-none lo hi (r ∷ rs) p q s b = ground (arith, keep_outside-none r.time hi rs)

  pub SortedFrom-keep_outside :
      (lo : ℕ) (rs : List (Rec V)) → SortedFrom lo rs → SortedFrom lo (keep_outside start end rs)
  unfolding keep_outside
  SortedFrom-keep_outside lo [] s = tt
  SortedFrom-keep_outside lo (r ∷ rs) (s, t) =
      if_both (SortedFrom lo) (ltb r.time start || leb end r.time)
        (λ e. (s, SortedFrom-keep_outside r.time rs t))
        (λ e. SortedFrom-keep_outside lo rs (SortedFrom-weaken r.time lo rs s t))

  pub Below-keep_outside :
      (hi : ℕ) (rs : List (Rec V)) → Below hi rs → Below hi (keep_outside start end rs)
  unfolding keep_outside
  Below-keep_outside hi [] b = tt
  Below-keep_outside hi (r ∷ rs) (b, bs) =
      if_both (Below hi) (ltb r.time start || leb end r.time)
        (λ e. (b, Below-keep_outside hi rs bs)) (λ e. Below-keep_outside hi rs bs)

  pub length-keep_outside : (rs : List (Rec V)) → length (keep_outside start end rs) ≤ length rs
  unfolding keep_outside
  length-keep_outside [] = omega arith
  length-keep_outside (r ∷ rs) = ground (arith, length-keep_outside rs)

  -- The last record bounds the others.
  pub Below-last_time :
      (t : ℕ) (rs : List (Rec V))
      → SortedFrom t rs
      → last_time t rs < end
      → (t < end) × Below end rs
  unfolding last_time
  Below-last_time t [] s p = (p, tt)
  Below-last_time t (r ∷ rs) (s, ss) p =
      let (q, b) = Below-last_time r.time rs ss p in (omega arith, (q, b))

  last_kept :
      (r : Rec V) (rs : List (Rec V))
      → end ≤ last_time r.time rs
      → 1 ≤ length (keep_outside start end (r ∷ rs))
  unfolding keep_outside last_time
  last_kept r [] p = ground arith
  last_kept r (r' ∷ rs) p = ground (arith, last_kept r' rs)

  first_kept :
      (r : Rec V) (rs : List (Rec V))
      → r.time < start
      → 1 ≤ length (keep_outside start end (r ∷ rs))
  unfolding keep_outside
  first_kept r rs p = ground arith

  -- A leaf that does not lose all its records keeps one.
  pub some_kept :
      (r : Rec V) (rs : List (Rec V))
      → leb start r.time && ltb (last_time r.time rs) end ≡ false
      → 1 ≤ length (keep_outside start end (r ∷ rs))
  some_kept r rs e = elim (dec_lt r.time start) [
    | yes p ↦ first_kept r rs p
    | no p ↦ last_kept r rs (ground arith)
  ]
