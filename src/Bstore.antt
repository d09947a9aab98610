-- ===== src/Bstore.antt =====
-- internal/bstore: the block types and their codec.
pub mod Consts
pub mod Huff
pub mod Float
pub mod Delta
pub mod Vector
pub mod Core
pub mod Superblock
pub mod Cache
pub mod Versions
pub mod Link
