-- ===== src/Quasar/Guards/Accepts.antt =====
-- About InsertValues of quasar.go: the records that pass its checks, and the tree and the buffer behind them.
use btrdb_server.Base.{
  ◌+◌, ltb, leb, some, ◌≡◌, refl, Bool, false, ◌||◌, none, List, [], ◌∷◌, arith, Option-cases, inl,
  inr,
}
use btrdb_server.Qtree.Node.{Rec}
use btrdb_server.Qtree.Insert.{is_rejected, any_rejected}
use btrdb_server.Quasar.{minimum_time, maximum_time, tree_record}
use btrdb_server.Quasar.Guards.{check_record, check_records, to_tree}

-- The times of the tree's records, from MinimumTime on, are those of the client's.
abbrev pub HasTimes : {V : Type 0} → List (Rec V) → List (Rec V) → Type 0
HasTimes [] [] = Unit {0}
HasTimes (t ∷ ts) (r ∷ rs) = (minimum_time + t.time ≡ r.time) × (t.val ≡ r.val) × HasTimes ts rs
HasTimes [] (r ∷ rs) = ⊥
HasTimes (t ∷ ts) [] = ⊥

module _ {V : Type 0} (is_nan is_inf : V → Bool) where
  -- InsertValues of the tree panics on infinite and undefined values.
  abbrev pub is_bad : V → Bool
  is_bad v = is_inf v || is_nan v

  -- What a record that passes is.
  check_record-none :
      (r : Rec V)
      → check_record is_nan is_inf r ≡ none
      → ((is_inf r.val || is_nan r.val) ≡ false)
        × ((ltb r.time minimum_time || leb maximum_time r.time) ≡ false)
        × (is_rejected is_bad (tree_record r) ≡ false)
        × (minimum_time + (tree_record r).time ≡ r.time)
  unfolding check_record is_rejected
  check_record-none r e = (ground arith, ground arith, ground arith, ground arith)

  -- Records that pass the checks of InsertValues or writePrimaryStorage do not make InsertValues of the tree
  -- panic, neither on a value nor on a time below MinimumTime or from MaximumTime on, and the tree gets them
  -- all, with the same times and values.
  pub check_records-any_rejected :
      (rs : List (Rec V))
      → check_records is_nan is_inf rs ≡ none
      → (ts : List (Rec V)) × (to_tree is_nan is_inf rs ≡ some ts)
        × (any_rejected is_bad ts ≡ false)
        × HasTimes ts rs
  unfolding check_records any_rejected to_tree
  check_records-any_rejected [] e = ([], refl, refl, tt)
  check_records-any_rejected (r ∷ rs) e = elim (Option-cases (check_record is_nan is_inf r)) [
    | inl f ↦
        let (v, t, j, s) = check_record-none r f in
        let (ts, g, a, h) = check_records-any_rejected rs (rw (f, check_records) at e) in
        (tree_record r ∷ ts, rw (v, t, g) refl, rw (j, a) refl, (s, refl, h))
    | inr f ↦ cc (rw (f.1, check_records) at e)
  ]
