-- ===== src/Qtree.antt =====
-- qtree: the tree of a stream. A time is its distance from MinimumTime = ROOTSTART = -(16 << 56), so
-- that the window of the root is [0, 64 * 2 ^ 56). Shifts and masks by at most 56 bits are the same
-- for both, as ROOTSTART is a multiple of 2 ^ 60.
pub mod Node
pub mod Window
pub mod Leaf
pub mod Shape
pub mod Read
pub mod Tally
pub mod Stats
pub mod Insert
pub mod Contract
pub mod Delete
pub mod Nearest
pub mod Changed
