-- ===== src/Tests/Merging.antt =====
-- Ranges and windows.
use btrdb_server.Base.{ℕ, ◌+◌, ◌*◌, ◌/◌, ◌≡◌, refl, ltb, ◌||◌, none, some, List, [], ◌∷◌, arith}
use btrdb_server.Qtree.Stats.{Floats}
use btrdb_server.Merger.Ranges.{ChangedRange, intersects, intersect, merge_changed_ranges}
use btrdb_server.Merger.Ranges.Correct.{
  Apart, covered, merge_changed_ranges_lem, merge_changed_ranges-nil,
}
use btrdb_server.Qtree.Node.{Rec}
use btrdb_server.Merger.Create.{create_stat_windows}
use btrdb_server.Merger.Create.Count.{count_at, falls_into, create_stat_windows_lem}
use btrdb_server.Merger.Windows.{StatRecord, merge_windows}
use btrdb_server.Merger.Windows.Correct.{StrictFrom, window_at, combined, merge_windows_lem}

abbrev range : ℕ → ℕ → ChangedRange
range s e = record { start = s; end = e }

abbrev left : List ChangedRange
left = range 0 4 ∷ range 16 20 ∷ []

abbrev right : List ChangedRange
right = range 4 8 ∷ range 18 32 ∷ range 64 65 ∷ []

merge_changed_ranges_lem_example :
    (out : List ChangedRange) × (merge_changed_ranges 10 none left right ≡ some out)
    × Apart 0 out
    × ((t : ℕ) → covered t out ≡ (covered t left || covered t right))
merge_changed_ranges_lem_example =
    merge_changed_ranges_lem 10 left right (omega arith) (omega arith) (omega arith) (omega arith)

merge_changed_ranges-nil_example : merge_changed_ranges 3 none [] [] ≡ none
merge_changed_ranges-nil_example = merge_changed_ranges-nil 3

merged_ranges :
    merge_changed_ranges 10 none left right ≡ some (range 0 8 ∷ range 16 32 ∷ range 64 65 ∷ [])
unfolding merge_changed_ranges intersects intersect
merged_ranges = refl

abbrev numbers : Floats ℕ
numbers = record {
  zero = 0;
  add = λ a b. a + b;
  mul = λ a b. a * b;
  div = λ a b. a / b;
  lt = ltb;
  of_uint = λ n. n;
}

abbrev window : ℕ → ℕ → StatRecord ℕ
window t v = record { time = t; count = 2; min = v; mean = v + 1; max = v + 2 }

merge_windows_lem_example :
    StrictFrom 0 (merge_windows numbers (window 0 5 ∷ window 8 3 ∷ []) (window 8 9 ∷ []))
    × (window_at 8 (merge_windows numbers (window 0 5 ∷ window 8 3 ∷ []) (window 8 9 ∷ []))
        ≡ combined numbers 8
            (window_at 8 (window 0 5 ∷ window 8 3 ∷ []))
            (window_at 8 (window 8 9 ∷ [])))
merge_windows_lem_example =
    merge_windows_lem numbers 8 (window 0 5 ∷ window 8 3 ∷ []) (window 8 9 ∷ []) (omega arith)
      (omega arith)

abbrev buffered : List (Rec ℕ)
buffered =
    record { time = 9; val = 4 }
    ∷ record { time = 17; val = 2 }
    ∷ record { time = 11; val = 6 }
    ∷ record { time = 40; val = 1 }
    ∷ []

create_stat_windows_lem_example :
    (out : List (StatRecord ℕ)) × (create_stat_windows numbers 9 8 30 8 [] buffered ≡ some out)
    × StrictFrom 0 out
    × (count_at 8 out ≡ falls_into 9 8 30 8 8 buffered)
create_stat_windows_lem_example =
    create_stat_windows_lem numbers 9 8 30 8 (omega arith) (omega arith) 8 buffered (omega arith)
      (omega arith)

counted : falls_into 9 8 30 8 8 buffered ≡ 2
counted = refl

no_width : create_stat_windows numbers 9 8 30 0 [] buffered ≡ none
unfolding create_stat_windows
no_width = refl
