-- ===== src/Quasar.antt =====
-- quasar.go: the server facade. An int64 is its distance from the least int64 here, so that the order of the
-- numbers is Go's; MinimumTime and MaximumTime are written that way. Contexts are not cancelled, and handles of
-- the pools are obtained. Whether this node holds the write lock is a parameter.
pub mod Guards
pub mod Changes
use btrdb_server.Base.{ℕ, ◌-◌, ◌+◌, ◌*◌, ◌^◌}
use btrdb_server.Qtree.Node.{Rec}

-- -(16 << 56) and 48 << 56.
abbrev pub minimum_time : ℕ
minimum_time = 2 ^ 63 - 16 * 2 ^ 56

abbrev pub maximum_time : ℕ
maximum_time = 2 ^ 63 + 48 * 2 ^ 56

-- The codes of package bte that the facade returns.
pub data Code : Type 0 where
  wrong_endpoint invalid_time_range bad_value invalid_point_width invalid_versions : Code

-- A record as the tree sees it, its time from MinimumTime on.
abbrev pub tree_record : {V : Type 0} → Rec V → Rec V
tree_record r = record r { time = r.time - minimum_time }
