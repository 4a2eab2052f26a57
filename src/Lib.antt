-- ===== src/Lib.antt =====
-- hurry: saving and restoring in the Rust build cache, build script outputs and dep-info files, the
-- arguments of `cargo build`, and the server's organizations, sign-in, cached units and object
-- store.
--
-- hurry wraps `cargo build`. Before a build it asks its server for the units of the build plan, and
-- restores from the answer those that are not on disk; after a build it saves the units. The parts
-- here and how they interact:
--
--   Clients/Saved: what the server answers (packages/clients/src/courier/v1.rs and v1/cache.rs):
--   saved units, and the response as a map that the restore empties by `take`.
--   `Glibc` is a version of the C library, and `Requests` what the client asks for.
--   Cargo/Target and Cargo/Units: targets and the units of a plan
--   (packages/hurry/src/cargo/rustc.rs, workspace.rs and units/).
--   Cargo/Fingerprint: Cargo's fingerprints and `rewrite`
--   (packages/hurry/src/cargo/fingerprint.rs). `Rewrite` is about one call, `Relocate` and
--   `SaveRestore` about the loops that save.rs and restore.rs make of it over a plan, against what
--   Cargo itself would compute on the other machine.
--   Cargo/Restore (packages/hurry/src/cargo/cache/restore.rs): `Filter` is
--   `filter_units_with_incomplete_deps`, `Queue` the main loop of `restore_units`, which calls the
--   filter and `rewrite` and queues files, `Progress` the files of each unit that are still to come,
--   which both the loop and the workers change, and `Batch` is `restore_worker` and `restore_batch`,
--   which fetch and write the queued files. `Queue/Keeps` says what an invariant of the loop must
--   satisfy; `Mtimes` and `Pending` are two such invariants. `Cold` is a restore from nothing.
--   Cargo/Save (packages/hurry/src/cargo/cache/save.rs): `Units` has what `save_units` reads and sends
--   and `rewrite_fingerprint`, `Loop` its loop. `Same` is about what uploads leave alone, `Progress`
--   about the numbers that are reported, `Objects`, `Finish` and `Stocked` about the objects of the
--   saved units, and `Runs` and `Whole` about runs where the disk, the store and the server answer.
--   Cargo/BuildArgs: the arguments of `cargo build` (packages/hurry/src/cargo/build_args.rs):
--   `Parse` and `FromIter` read them, `Argv` writes them, `Access` holds the accessors.
--   Cargo/Path, Cargo/BuildScript and Cargo/DepInfo: paths, lines of a build script's output and of
--   rustc's dep-info files that are saved on one machine and written on another
--   (packages/hurry/src/cargo/path.rs, build_script.rs and dep_info.rs).
--   Courier: the server's organizations (packages/courier/src/db, auth.rs and api/v1): `Tables` are
--   the database's tables, `Calls` how a handler calls the database, where any call may fail,
--   `Members`, `Organizations`, `Me`, `Keys` and `Invitations` the statements and the endpoints,
--   `Serve` the endpoints of profiles, organizations and invitations as one function on requests; a
--   sign-in's changes of an account's email and username are in `Signin` and not among its requests. `Effect` lists the changes that a request may make and
--   what must justify them, `Serve/Refines` is about the endpoints against it, `Invariant` about what
--   the changes keep, `Reach`, `Safety` and `Authority` about requests one after another, and `Races`
--   about two that interleave.
--   Courier/Cache: the table of cached units and the endpoints on it (packages/courier/src/
--   db/cargo_cache.rs and api/v1/cache). `Select` and `Rows` are about the query and the loop over
--   its rows, `Laws` about what saves leave in the table, and `Answers` about restores.
--   Courier/Storage: the files of the object store (packages/courier/src/storage.rs), and Courier/Cas
--   the endpoints on it and the rows of access (packages/courier/src/api/v1/cas and
--   db/cargo_cache.rs): `Calls`, where any call may fail, `Bulk` the bulk endpoints, `Serve` all
--   endpoints as one function. `Storage/Laws`, `Sound` and `Handlers` are about what a write keeps, and
--   `Laws` about what is read.
--   Courier/Signin: the sign-in with GitHub and the sessions (packages/courier/src/oauth.rs, db/oauth.rs,
--   db/session.rs and api/v1/oauth): `Calls`, where any call may fail, `Statements` and `Accounts`,
--   and `Serve`, all endpoints as one function. `Triples` and `Leaves` have rules for what a handler
--   keeps and what one that succeeds leaves, `Serve/Callback` and `Serve/Requests` go through the
--   handlers by them, and `Codes`, `Sessions`, `Redirects` and `Lives` are about codes,
--   sessions, URLs, and a session that is opened.
--   Examples: tests and examples on small builds.
--
-- State is passed explicitly: `FilterState`, `RestoreState`, `BatchState` and `SaveState` are the
-- variables that the loops change, `World`, `CasServer` and `Site` what the server's handlers change,
-- and an operation that fails returns a `Result` with the error's kind, or an option where there is
-- one way to fail. A hash map is an association list that is searched from the front, a hash set a
-- list without repeats. Times are seconds after the epoch. The hasher, compression, the JSON, URL and
-- number parsers, what is on the client's disk, the writes to it, the object store as the client sees
-- it, and GitHub are parameters; a write, a read and a fetch may fail. No loop runs on fuel: all are recursions on the list they go through.
--
-- Not modelled: several workers at once, what remains on disk after an error, errors of the JSON
-- writer, and the wrap-around of 64-bit times and counts. Of the client, the arguments of rustc, the
-- building of a plan from cargo's output, cross builds, the daemon, the command line, and the files
-- and the transport themselves. Of the server, rate limits, lists, the details of audit events, gaps in
-- sequences of ids, the texts of headers and of errors, the names of temporary files, and an archive
-- that ends early.
pub mod Prelude
pub mod Clients
pub mod Cargo
pub mod Courier
pub mod Examples
