-- ===== src/Tests.antt =====
-- Runs of the model on concrete inputs.
mod Tree
mod Codec
mod Buffer
mod Merging
mod Pool
mod Cluster
mod Journal
mod Facade
mod Store
