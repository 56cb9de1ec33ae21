-- ===== src/Store.antt =====
-- src/store.rs: the graph of changesets, and the forms that changesets have in git and in Mercurial.
pub mod Dag
pub mod Heads
pub mod Lines
pub mod Metadata
pub mod Patch
pub mod Changeset
pub mod Tags
pub mod ManifestHeads
