-- ===== src/Merger.antt =====
-- merger.go: what a stream's tree and its buffer in the PQM answer, merged, and the windows of the buffer. A channel is the list of what it
-- carries until it is closed, and no error arrives on the error channels. Times are distances from
-- MinimumTime, as in Qtree.
pub mod Ranges
pub mod Windows
pub mod Create
