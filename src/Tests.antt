-- ===== src/Tests.antt =====
-- Runs on concrete inputs, and the theorems applied to them.
pub mod Trees
pub mod RawTrees
pub mod Authors
pub mod Ids
pub mod Bundles
pub mod Texts
pub mod Headers
pub mod Streams
pub mod Revisions
pub mod Graphs
pub mod BranchHeads
pub mod Batches
pub mod TagSets
pub mod ManifestHeads
mod Metadata
mod Patches
mod Changesets
