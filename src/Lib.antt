-- ===== src/Lib.antt =====
-- Wayjournal: immutable journals of records, kept as files in Git repositories and synchronised by
-- union. This library models the core crate, crates/wayjournal-core/src.
--
-- Parts and files.
-- * causal.rs is Causal.antt: `new` is `CausalGraph::new` (`index_nodes`, `check_all_parents`,
--   `parent_counts`, `collect_children`, `drain` and `release` are its loops), `observes` and
--   `observes_bounded` are the reachability search, whose loop is `search_ancestors`. The files of
--   Causal/ hold the proofs: Drain and Release for the loop of `new`, Errors for its errors, Order
--   and Rank for its result, Ancestry, Completeness and Observes for the search, and Naturality for
--   graphs of mapped nodes.
-- * domains.rs is Domains.antt (the data), Domains/Fold.antt (`apply_operation`, as `apply_kind`, for
--   both accumulators), Domains/Run.antt (`fold`, the states of `fold_catalogs`,
--   `validate_loaded_builtin_fold`) and Domains/Views.antt (`register`, `values`, `fold_profile`,
--   `fold_catalogs` and `fold_catalog`). Domains/Effect says what one operation does,
--   Domains/Refinement compares the validation with the folds, Domains/WellFormed and
--   Domains/Antichain are about the states of folds, and Domains/Reads and Domains/Shows about views.
-- * layout.rs and the parsers of ids.rs are Layout.antt, over the splitting of text in Texts.antt;
--   Layout/Reserved and Layout/Paths hold the proofs.
-- * revision.rs and hash.rs are Revision.antt, with a proof in Revision/Order.
-- * batch.rs, with the record of record.rs, is Batch.antt: preparing a batch, checking its members and
--   the ownership of all records, and idempotency; the proofs are Batch/Replay, Batch/Ownership and
--   Batch/Idempotency.
-- * capability.rs is Capability.antt: offers, requirements and `negotiate_handshake`; the proofs are
--   Capability/Offers, Capability/Intersection and Capability/Negotiation.
-- * federation/history.rs is History.antt, with the lines and words of Texts/Lines.antt: `parse_graph`
--   and `validate_histories`, whose loops are `validate_lines`, `validate_parents` and `check_edges`;
--   History/Parents and History/Checked hold the proofs.
-- * federation/multi.rs is Multi.antt: `sync_stores` with its preflight, over a world that it reads and
--   changes by the operations of the record `Stores`; the proofs are Multi/Authority and Multi/Liveness.
-- * identity.rs is Identity.antt: `validate_store_identity` and `validate_replayed_identity`, with
--   an end of its own each. Of the proofs, Identity/Batches is about the batches that were checked,
--   Identity/Members and Identity/Owned about the members that were decoded, Identity/First about the
--   manifest that comes first, Identity/Derived about the identity that a genesis record gives in either
--   validation, and Identity/Genesis about the store whose identity is accepted.
-- * federation.rs gives Federation.antt the data of an admission checkpoint, object ids and the
--   reasons of a quarantine; ids.rs and identity.rs give Ids.antt the identifiers.
-- * Prelude.antt and Collections.antt are shared: `Outcome` is Rust's `Result` with a third value,
--   `fault`, for a panic or for used-up fuel; maps and sets are ordered lists, as `BTreeMap` and
--   `BTreeSet` are; `Ord` is the order that they rely on.
-- * Examples holds runs of the model, and each theorem at a concrete input.
--
-- The domain folds call the causal graph for the order of the operations and for what an operation
-- has observed; the two counters of the search, the budget and `exceeded`, are passed through.
--
-- Identifiers and digests are the numbers that their bytes spell, and a UUID is below 2 ^ 128 (`IsUuid`
-- of Layout.antt): the uuid crate is relied on for those alone. Strings are lists of bytes. Sums of
-- lengths are compared with the bound of a 64-bit `usize`, as `checked_add` does. `drain` has one
-- unit of fuel for each node, which is enough because every round puts out a node that was not out
-- before; `search_ancestors` recurses on the budget of the source.
--
-- Code from outside the repository is an argument: the uuid crate (the record `UuidCrate` of
-- Layout.antt), the blake3 hash as a function from the bytes that a hasher was fed, and serde_json,
-- by way of the codecs of records and manifests (the record `Codec` of Batch.antt). What reads files
-- is an argument too: the answers of Git (the record `Repository` of History.antt), the operations of
-- stores (the record `Stores` of Multi.antt), the loader of `validate_loaded_builtin_fold` and the
-- checkpoint that `negotiate_handshake` is given. Not modelled: the store and its transactions, the
-- processes of Git, the JSON forms, and the files of federation/ for pending operations, quarantine
-- and checkpoints.
pub mod Prelude
pub mod Collections
pub mod Ids
pub mod Texts
pub mod Layout
pub mod Federation
pub mod History
pub mod Revision
pub mod Batch
pub mod Causal
pub mod Domains
pub mod Capability
pub mod Multi
pub mod Identity
pub mod Examples
