-- ===== src/Merger/Ranges.antt =====
-- mergeChangedRanges of merger.go. After a refill, left and right are the heads of what is left of the
-- parent's channel and of pqbuffer, so the model keeps these two lists and cur. A round of the model is one
-- of the loop. `none` is that the fuel ran out.
pub mod Correct
use btrdb_server.Base.{
  ℕ, zero, suc, Bool, true, false, ◌||◌, Option, none, some, List, [], ◌∷◌, ltb, if◌then◌else◌,
  ◌>>=◌,
}

pub record ChangedRange : Type 0 where
  pub start : ℕ
  pub end : ℕ

-- The test of intersect; ranges that touch do.
unfoldable pub intersects : ChangedRange → ChangedRange → Bool
intersects l r = if ltb l.end r.start || ltb r.end l.start then false else true

-- minStart and maxEnd
unfoldable pub intersect : ChangedRange → ChangedRange → ChangedRange
intersect l r = record {
  start = if ltb r.start l.start then r.start else l.start;
  end = if ltb l.end r.end then r.end else l.end;
}

unfoldable pub merge_changed_ranges :
    ℕ → Option ChangedRange → List ChangedRange → List ChangedRange → Option (List ChangedRange)
merge_changed_ranges zero cur parent pqbuffer = none
merge_changed_ranges (suc fuel) none [] [] = merge_changed_ranges fuel none [] []
merge_changed_ranges (suc fuel) none (l ∷ parent) [] = merge_changed_ranges fuel (some l) parent []
merge_changed_ranges (suc fuel) none [] (r ∷ pqbuffer) =
    merge_changed_ranges fuel (some r) [] pqbuffer
merge_changed_ranges (suc fuel) none (l ∷ parent) (r ∷ pqbuffer) =
    let left_first = merge_changed_ranges fuel (some l) parent (r ∷ pqbuffer) in
    let right_first = merge_changed_ranges fuel (some r) (l ∷ parent) pqbuffer in
    if ltb l.start r.start then left_first else right_first
merge_changed_ranges (suc fuel) (some cur) [] [] = some (cur ∷ [])
merge_changed_ranges (suc fuel) (some cur) (l ∷ parent) [] =
    let joined = merge_changed_ranges fuel (some (intersect cur l)) parent [] in
    let sent = merge_changed_ranges fuel none (l ∷ parent) [] in
    if intersects cur l then joined else (sent >>= λ rest. some (cur ∷ rest))
merge_changed_ranges (suc fuel) (some cur) [] (r ∷ pqbuffer) =
    let joined = merge_changed_ranges fuel (some (intersect cur r)) [] pqbuffer in
    let sent = merge_changed_ranges fuel none [] (r ∷ pqbuffer) in
    if intersects cur r then joined else (sent >>= λ rest. some (cur ∷ rest))
merge_changed_ranges (suc fuel) (some cur) (l ∷ parent) (r ∷ pqbuffer) =
    let joined_left = merge_changed_ranges fuel (some (intersect cur l)) parent (r ∷ pqbuffer) in
    let joined_right = merge_changed_ranges fuel (some (intersect cur r)) (l ∷ parent) pqbuffer in
    let sent = merge_changed_ranges fuel none (l ∷ parent) (r ∷ pqbuffer) in
    if intersects cur l
    then joined_left
    else if intersects cur r
    then joined_right
    else (sent >>= λ rest. some (cur ∷ rest))
