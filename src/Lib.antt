-- ===== src/Lib.antt =====
-- Open Soverign Blog: a verification library for the Rust code of the repository.
--
-- The program is a self-hosted blog. crates/kernel holds what every part agrees on: documents and
-- revisions with their optional layers, the validation of all input, the hashes, the envelope in
-- which an agent proposes a revision, and the access policy. features/* are optional parts on top of
-- it. apps/server is the HTTP server: it admits requests, asks the policy, validates, stores through
-- crates/storage-sqlite, and serves public pages through a Redis cache that a mutation invalidates.
--
-- The files and the code they are about:
--   Prelude, Text         the standard library of Rust as far as it is used: Boolean tests, vectors,
--                         results (`?` is a do block), strings as lists of characters
--   Kernel/Policy         crates/kernel/src/policy.rs: the trait AccessPolicy is a record, and
--                         SingleOwnerPolicy::authorize is single_owner_authorize
--   Kernel/Content        crates/kernel/src/content.rs. Layers has the types, Errors the errors;
--                         Validation has validate_title to validate_embeds, under their own names,
--                         and its children say what each accepts. Hash has content_hash and
--                         ai_summary_source_hash with their preimages, Summary has
--                         validate_ready_ai_summary and publishable_ai_summary, Document has the two
--                         `validate` methods as validate_new and validate_proposed
--   Kernel/Ai2Ai          crates/kernel/src/ai2ai.rs; Ai2AiEnvelope::validate is validate_envelope
--   PluginApi/Names       the classes of names of crates/plugin-api/src/lib.rs
--   PluginApi/Json        canonical_json, of the same file, on the values of serde_json
--   PluginApi/Records     the records of an installation lock, of the same file
--   PluginApi/Validation  the `validate` methods of its parts; LockedEngine::validate is
--                         validate_engine, InstalledDlc::validate is validate_dlc, and so on
--   PluginApi/Intent      InstallationIntent::validate is validate_intent
--   PluginApi/Lock        InstallationLock::validate is validate_lock; record_engine_upgrade changes the
--                         lock in place, so the definition returns the lock as it is afterwards beside
--                         the result
--   Features/Rbac         features/rbac/src/lib.rs; RbacPolicy::authorize is rbac_authorize
--   Features/Comments     features/comments/src/lib.rs: a comment is passed on by value, so `moderate`
--                         returns the new comment
--   Features/ExternalAuth features/external-auth/src/lib.rs
--   Features/Monetization features/monetization-policy/src/lib.rs: ResourceGate::new and authorize are
--                         gate_new and gate_authorize. Its child FirstPartyAd is first_party_ad.rs; a
--                         string that is pushed to is the list of what has been pushed
--   Storage               crates/storage-sqlite/src/lib.rs, and RepositoryError of
--                         crates/kernel/src/ports.rs. Records has the tables as lists of rows, Queries
--                         the reads that several operations share, Revisions, Documents and Publish the
--                         functions that run in a transaction, under their own names, Load the reads of
--                         documents and revisions, Proposals the audits of agents, and Repository the
--                         methods around them. A statement of SQL is the function of the tables that it
--                         is, with the constraints and the trigger that it can run into
--   Storage/Steps         what one committed call changes, as a step relation on the documents, the
--                         revisions and the routes; Simulation shows that the operations are such
--                         steps, Requests that a sequence of calls is a sequence of steps, and
--                         Invariant, Guarantees and Journal are about those
--   Storage/Css, Normal   validate_custom_css and its scanner; the `normalize` and `validate` functions
--   Storage/Categories    create_category to promote_category_to_series, with the child Series
--   Storage/Sessions      create_session to revoke_session; Rotation has rotate_admin_control_plane
--   Server/Stylesheet     scoped_site_stylesheet of apps/server/src/community.rs
--   Server/Admission      apps/server/src/admission.rs; its hash map is the list of its entries in
--                         the order of iteration, whatever that order is
--   Server/Cache          apps/server/src/cache.rs: Word has the coherence word, Protocol has the
--                         guards, rotations, lookups and stores as a step relation on one state,
--                         with every atomic action a step of its own and every order allowed;
--                         Connection has the reconnect breaker, the manager slot, the health of the
--                         snapshot and the fixed-window limiter, and Connection/Leases the requests
--                         that share them as a step relation
-- A module Tests runs the definitions and has the theorems at concrete inputs.
--
-- Representation. Numbers are natural numbers. The coherence word and the generation of the manager
-- slot wrap at 2 ^ 64 as the code does, and the failures of the breaker stop at 2 ^ 32 - 1; the step
-- relations say where they use that a word has not come to its end. Every other counter is far from
-- its bound and does not wrap here, among them `active_mutations`. A time is a number of nanoseconds,
-- and a duration too; a UUID is the number of its bits; an f64 is the number of its bits, read by its
-- exponent and mantissa. Revision numbers, positions and epochs are natural numbers, and where the code
-- converts one to an i64 or a u64 the bound is written out; the block depth of the CSS scanner stops at
-- 2 ^ 32 - 1. A call on the storage is a function from the tables to an answer and the tables after the
-- commit, or to an error, which rolls back; the connection is behind one lock, so calls do not overlap. A text is the list of its code points, and its length in bytes is that of its
-- UTF-8. Vectors are lists. No definition takes fuel: every loop is recursion on the list that it runs
-- over, and the `while` of the limiter on its queue.
--
-- Parameters, code that is not in the repository: Url::parse and the accessors of a URL, the JSON
-- serialiser and SHA-256 (Kernel/Content/Layers: Library and Url; PluginApi/Records: Library, with
-- semver and Uuid::parse_str), the clock, and Uuid::now_v7, whose results never repeat. The input of a
-- hash is a definition of its own, and no hash is taken to be injective.
--
-- Of SQLite the meaning of each statement is taken as documented: a failed statement leaves the tables
-- as they were, and a uniqueness test is on the whole table.
--
-- Not modelled: of crates/storage-sqlite the migrations, users, sites and their appearance, home
-- pins, the offline import, the table of comments, and the listings over several tables; the routes
-- of apps/server/src/main.rs, the command line, the file system, the network and the TypeScript
-- packages. Redis is a store that may lose its epoch key and keeps everything else; a response that
-- Redis evicts is one that is not served.
pub mod Prelude
pub mod Text
pub mod Kernel
pub mod PluginApi
pub mod Features
pub mod Server
pub mod Storage
