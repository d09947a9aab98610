-- ===== src/Merger/Create.antt =====
-- CreateStatWindows of merger.go: the windows of a buffer's records. The map from window indices and the
-- sort at the end are a list in the order of the times, which are one for one with the indices. A time is
-- the number of nanoseconds from the least int64 on, and w is below 2 ^ 63, so that int64(w) is w.
pub mod Count
use btrdb_server.Base.{
  Option, none, some, ℕ, ◌+◌, ◌-◌, ◌*◌, ◌/◌, List, [], ◌∷◌, ltb, ◌==◌, if◌then◌else◌, ◌||◌,
}
use btrdb_server.Base.Word.{add64}
use btrdb_server.Qtree.Node.{Rec}
use btrdb_server.Qtree.Stats.{Floats}
use btrdb_server.Merger.Windows.{StatRecord}

-- windowIdx * int64(w) + tStart, where the division rounds towards 0: before tStart it rounds up.
unfoldable pub window_time : ℕ → ℕ → ℕ → ℕ
window_time t_start w t =
    if ltb t t_start then t_start - (t_start - t) / w * w else (t - t_start) / w * w + t_start

module _ {V : Type 0} (F : Floats V) where
  -- A window that is not in the map yet.
  unfoldable pub first_of_window : ℕ → Rec V → StatRecord V
  first_of_window t r = record { time = t; count = 1; min = r.val; mean = r.val; max = r.val }

  unfoldable pub update_window : StatRecord V → Rec V → StatRecord V
  update_window ex r = record ex {
    min = if F.lt r.val ex.min then r.val else ex.min;
    max = if F.lt ex.max r.val then r.val else ex.max;
    mean = F.div (F.add (F.mul ex.mean (F.of_uint ex.count)) r.val) (F.of_uint (add64 ex.count 1));
    count = add64 ex.count 1;
  }

  unfoldable pub add_record : ℕ → Rec V → List (StatRecord V) → List (StatRecord V)
  add_record t r [] = first_of_window t r ∷ []
  add_record t r (ex ∷ wz) =
      let rest = add_record t r wz in
      if ltb t ex.time
      then first_of_window t r ∷ ex ∷ wz
      else if t == ex.time
      then (if ex.count == 0 then first_of_window t r else update_window ex r) ∷ wz
      else ex ∷ rest

  -- The loop panics at the first division if w is 0.
  unfoldable pub create_stat_windows :
      ℕ → ℕ → ℕ → ℕ → List (StatRecord V) → List (Rec V) → Option (List (StatRecord V))
  create_stat_windows t_cutoff_start t_start t_end w wz [] = some wz
  create_stat_windows t_cutoff_start t_start t_end w wz (r ∷ rz) =
      let skipped = create_stat_windows t_cutoff_start t_start t_end w wz rz in
      let added =
        create_stat_windows t_cutoff_start t_start t_end w
          (add_record (window_time t_start w r.time) r wz) rz in
      if ltb r.time t_cutoff_start || ltb t_end r.time
      then skipped
      else if w == 0
      then none
      else added
