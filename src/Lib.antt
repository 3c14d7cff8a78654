-- ===== src/Lib.antt =====
-- dep-scan checks the dependencies of a project before they are installed: it collects what
-- registries, advisory databases and git trees say of a package, asks a list of policies, and
-- aggregates their answers. With a lockfile it also walks the dependency graph below every direct
-- dependency and rolls the verdicts up to the root. The program fails closed: what could not be
-- scanned must never count as a pass, and this is what most of the theorems are about.
--
-- The files and the code that they model:
--
-- * Prelude and its children: names of the libraries, Boolean tests, lists, hash sets and maps as
--   lists over a key with a Boolean equality, the operations on str that the code uses, and Result.
-- * Policy (src/policy/mod.rs): PolicyResult, PolicyDetail and aggregate_results; Policy/Aggregate
--   has its laws, Policy/Context (src/types.rs) the scan context that every policy reads.
-- * Policy/Registry (src/policy/age.rs, popularity.rs, vulnerability.rs, dependency_confusion.rs),
--   Policy/Maintainer (maintainer.rs), Policy/Vcs (mutable_ref.rs, vcs_host.rs), Policy/Provenance
--   (npm_provenance.rs, pypi_provenance.rs, go_sumdb.rs), Policy/Scripts (install_script.rs,
--   obfuscation.rs): one evaluate function per policy, with its messages.
-- * Policy/Tree (src/types.rs, src/main.rs): the scan context of a fetched git tree and the
--   policies over it.
-- * Cache (src/cache.rs, src/main.rs): the cache row, the gates that a row passes before it is
--   served, and verified_cache_hit, which applies both to a package of the flat scan. Cache/Table
--   (src/cache.rs): the two tables and the operations of Cache on them; Table/Laws and
--   Table/RoundTrip have the theorems.
-- * SignedNote and SignedNote/Verify (src/signed_note.rs): the parser of signed notes and the two
--   verifiers; SignedNote/Laws has the theorems.
-- * Sigstore (src/sigstore_verify.rs, src/registry/npm_attestation.rs): the bundle types and the
--   errors. Sigstore/Merkle: the hashes and verify_merkle_path; Merkle/Layers has the tree that it
--   is measured against, Merkle/Loop the steps of its loop, Merkle/Pairs and Merkle/Collision the
--   pairs of nodes that are hashed. Sigstore/Rekor: verify_rekor_inclusion and its checks.
--   Sigstore/Chain: the Fulcio chain walk. Sigstore/Dsse: verify_dsse_bundle, whose parts
--   check_subject to check_issuer are its numbered steps; Dsse/Npm puts it in the place of the
--   verifier of the npm policy.
-- * Typosquat (src/typosquat.rs): the edit distance by rows; Typosquat/Script has the edits that it
--   is measured against. Typosquat/Closest (src/typosquat.rs, src/policy/typosquatting.rs): the
--   closest popular name and the policy on it.
-- * PackageNames (src/validation.rs, src/registry/go.rs, src/main.rs): the check of package names
--   that run_check makes first; PackageNames/Encoding: the case encoding of Go module paths.
-- * GitFetch and GitFetch/Materialise (src/vcs/fetch.rs): the walk of a fetched tree object that
--   writes the files out within the caps; GitFetch/Safe and GitFetch/Laws have the theorems.
-- * Transitive/Types (src/lockfile.rs, src/transitive/engine.rs) and Transitive/Rollup
--   (src/transitive/rollup.rs): nodes, verdicts, diagnostics, and the fold of verdicts through the
--   aggregate of the flat scan.
-- * Transitive/Engine (src/transitive/engine.rs): the walk. WalkState is the struct of that name;
--   enter, follow and leave are the parts of visit before, at and after its match on the edges.
--   Engine/Rule is the one induction that Engine/Worst, Engine/Settled and Engine/Rows use.
-- * Transitive/Budget (src/transitive/budget.rs): the node budget with its u32 arithmetic.
--   Transitive/Graph (src/lockfile.rs): DependencyGraph and DependencySource.
-- * Transitive/Report (src/transitive/scan.rs): the outcome of a scan and the loops that merge the
--   walks of the roots into it.
-- * Transitive/Scan and Scan/Run (src/transitive/scan.rs): run_transitive_scan. prepare is
--   everything up to the edges that the walks go by, invalidation_pass, walk_pass and digest_pass
--   are the parts behind it, each under its own guard on the breach. Scan/Laws and Scan/Warm have
--   the theorems.
-- * Transitive/Scanner (src/transitive/scanner.rs): scan_git, the git arm of the node scanner;
--   Scanner/Cached runs it on the operations of Cache/Table.
-- * Transitive/Pool (src/transitive/pool.rs): the semaphore, its condition variable and the threads
--   of run_bounded, as a step relation; every task returns. Pool/Laws counts the permits,
--   Pool/Wakeups the threads that are awake, Pool/Progress the steps that are left.
-- * Policy/Examples, PackageNames/Examples, GitFetch/Examples, SignedNote/Examples,
--   Sigstore/Dsse/Examples, Typosquat/Examples and the modules named Examples under Transitive run
--   the code on concrete inputs.
--
-- Source paths are from the root of the repository. An evaluate function takes the fields of its
-- policy as arguments. An instant is a number of nanoseconds. What the code calls outside the
-- repository is a parameter: the regex engine, the URL parser, hashes and signature schemes, X.509
-- certificates, base64, Unicode lower-casing, the operations on f64, JSON, and the statements of
-- SQLite with what SQL says of the rows that they leave. A statement that fails has changed
-- nothing. So are, as in the source, the edge provider and the node scanner of the walk; the
-- scanner threads a state of its own, since the source's scanner writes to a cache. A transitive
-- scan is given its services as a record: the git arm of the scanner, the cache rows, the digest,
-- the fetch of a tree and the edges of its manifest.
--
-- The walk is a recursion on fuel, as deep as the depth limit and one level more: a call at depth d
-- is made only if d is within the limit, so no call finds the fuel spent. materialise_tree counts
-- the levels left below its depth limit, so it needs no fuel. The inner loop of verify_merkle_path
-- halves a number that is not zero, so the number itself is fuel enough.
--
-- Not modelled: network and file access, argument parsing, output formats, the parsers of
-- lockfiles, manifests and attestation responses, and the cryptography.
mod Prelude
pub mod PackageNames
pub mod GitFetch
pub mod Policy
pub mod Cache
pub mod SignedNote
pub mod Sigstore
pub mod Typosquat
pub mod Transitive
