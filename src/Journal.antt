-- ===== src/Journal.antt =====
-- internal/cephprovider/jprovider.go: the journal of a node on Ceph.
pub mod Freed
pub mod Objects
pub mod Written
