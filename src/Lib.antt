-- ===== src/Lib.antt =====
-- git-cinnabar, a git remote helper for Mercurial repositories: models of its Rust code as functions, and
-- proofs of what they do.
--
-- The program reads bundles of changegroups from Mercurial (src/hg_bundle.rs), stores what is in them
-- as git objects (src/store.rs), and makes bundles of git objects for a push. Manifests and trees are
-- listings of entries with paths (src/tree_util.rs), which have a raw form in Mercurial
-- (src/hg/manifest.rs) and in git (src/git/tree.rs, src/cinnabar/manifest.rs). Files and manifests
-- travel as patches between texts (src/xdiff.rs). Authors and committers are converted between the two
-- forms (src/hg_data.rs). Ids name the objects of both sides (src/oid.rs).
--
-- Common: names that all modules share, lists over the native numbers, byte strings and their order.
-- Util: src/util.rs, `splitn_exact`, `rsplitn_exact`, `try_find_`, `filter_map_while`; Util.Number has
-- the decimal numbers of the standard library that `FromBytes` reads, Util.Utf8 its check of UTF-8.
-- Oid: src/oid.rs. An id is a list of bytes; every id of the program has the 20 bytes of SHA-1.
-- Tree: src/tree_util.rs. An iterator is a function to the next item and the state behind it; a
-- `Peekable` over a list is the list. Tree.Parse is `ParseTree` and `TreeIter`, Tree.Merge
-- `MergeJoinByPath`, Tree.Diff `DiffByPath`, Tree.Recurse `RecurseTreeIter`, with reading a tree as a
-- parameter.
-- HgData: src/hg_data.rs; HgData.Hash is `hash_data` and `find_file_parents`, with SHA-1 as a parameter.
-- The regular expression `WHO_RE` is a parameter, HgData.Who, with an instance of it.
-- FileMode: `FileMode` of src/libgit.rs.
-- Manifest: src/hg/manifest.rs. GitTree: src/git/tree.rs, `GitOid` of src/git/mod.rs, and the trees of
-- src/cinnabar/manifest.rs.
-- Bundle: src/hg_bundle.rs. A reader is the bytes that are left in it, a writer the bytes written to it.
-- Bundle.Part is the writer and the reader of a part, Bundle.Info the header of a part, Bundle.Spec
-- `BundleSpec` and the headers of bundles, Bundle.Stream `BundleReader` and `BundleWriter`, Bundle.Diff the
-- patches of a revision, Bundle.Rev `RevChunkIter` and `write_chunk`, with the object store and
-- `create_chunk_data` as parameters. The tables of Unicode and UTF-8 are a parameter, with what they do
-- on ASCII.
-- Store: src/store.rs. Store.Dag is `Dag`, with the graph as a list of nodes; what its traversals give is
-- compared with inductive relations that say what is reached. Store.Heads is `ChangesetHeads`,
-- Store.Metadata `GitChangesetMetadata` and its text, Store.Metadata.Extra `ChangesetExtra`, Store.Patch
-- `GitChangesetPatch`, Store.Changeset `RawHgChangeset` and `GeneratedGitChangesetMetadata`, by
-- which a changeset is kept as a commit and metadata, Store.Tags `TagSet` and Store.ManifestHeads
-- `ManifestHeads`. The lines of the crate `bstr`, the crate `percent_encoding`, SHA-1, the lines and
-- hunks of a difference, and the changesets that the parents of a commit stand for are parameters.
-- Xdiff: src/xdiff.rs. The library xdiff is a parameter, which gives the hunks; the lines of a text come
-- from the crate `bstr` and are a parameter too.
-- GitCommit: src/git/commit.rs, `Commit` and `RawCommit::parse`.
-- Connect: src/hg_connect.rs, `unescape_batched_output` only; its fuel is one more than the length of the
-- text, since every round takes two bytes away or goes further in them.
-- Tests: runs on concrete inputs.
--
-- `none` stands for an error or a panic where the code has only one of them; `Outcome` keeps them apart.
-- A u16, an i32 and a u32 keep their bounds written out; an i32 and the id of the
-- next part wrap around as in a release build.
-- A loop that is not structural runs on fuel. The loop of `write` takes a byte at least in every round
-- and that of `read` as well, so that one more than the number of bytes is enough; `TreeIter`,
-- `MergeJoinByPath` and `RevDiffIter` take as many calls as there are entries, and one more to end; the
-- loop over zero bytes at the end of a changeset takes a byte away in every round.
--
-- Not modelled: the objects of the store (src/store.rs), connections but for the above
-- (src/hg_connect.rs and its children), commands (src/main.rs, src/graft.rs), the version check, logging
-- and progress, bindings of C code and the C code itself, build scripts. They are input and output, or
-- work on the C data structures of git. Compression is done by crates, so that the parts of a bundle are
-- modelled uncompressed, and the cache of manifest trees (src/cinnabar/manifest.rs) by the crate `lru`.
pub mod Common
pub mod Util
pub mod Oid
pub mod HgData
pub mod FileMode
pub mod Tree
pub mod Manifest
pub mod GitTree
pub mod Bundle
pub mod Store
pub mod Connect
pub mod GitCommit
pub mod Xdiff
pub mod Tests
