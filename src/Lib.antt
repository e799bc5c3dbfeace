-- ===== src/Lib.antt =====
-- A model of the Omnivore coverage dashboard.
--
-- The dashboard takes coverage reports in several formats over HTTP. `ingest_coverage` limits the
-- rate of a client, authenticates the request, finds the format, lets a parser turn the body into
-- one report with a snapshot, checks the scope of the key, and hands the snapshot to the storage,
-- which creates the project if it may, stores the snapshot, compares it with the ratchet floors
-- and prunes the series. Readers choose a series of snapshots, which badges, charts, exports and
-- pages show. Users log in with GitHub, and send forms for projects and settings that guards and
-- tokens protect.
--
-- Prelude: numbers, integers, lists, sorting and counting that the other parts share.
-- Text: `str` as the list of its code points, with the operations that the sources use. A `&str`
--   index that the code computes stands at a character, so it is a split of the list. Parsing of
--   integers refuses what does not fit the type.
-- Float: `f64` as an interface with no laws; each rate is a quotient that is kept symbolic.
-- Model: dashboard/crates/omnivore-core/src/model/coverage.rs. Target (`CoverageTarget`), Report
--   (the records), Plausible (`drop_implausible_lines`), Snapshot (`from_report`). Line numbers
--   and counts are integers (their `i32` and `i64` bounds are applied where text is parsed); a
--   sum of `i64` values wraps, as it does in a release build. Lengths of lists do not wrap:
--   memory bounds them.
-- Parsers: dashboard/crates/omnivore-core/src/parsers, a module for each file: Format (mod.rs),
--   Lcov, GoCoverprofile, LlvmCov, PythonCoverage, JacocoXml, OmnivoreJson. An error keeps its
--   kind and the line number that its message holds; the wording is left out. The decoders of
--   serde_json and quick-xml and the order of a `HashMap` are arguments. A loop over lines is a
--   recursion on their list, so no fuel is needed.
-- Storage: dashboard/crates/omnivore-core/src/storage/db.rs and the records of model/. Records
--   and Tables (projects, snapshots, settings), Keys (API keys), Ratchet (`RatchetPolicy`,
--   floors), Retention (`prune_snapshots`), Ingest (`ingest_snapshot`), Caches (sessions,
--   permissions, sources). A table is the list of its rows; a statement that breaks a key fails,
--   other database errors are left out. The order of rows with one timestamp, fresh identifiers,
--   ciphers, hashes and the clock are arguments.
-- Validation and Github: dashboard/crates/omnivore-core/src/validation.rs and github/source.rs.
--   Source is `fetch_source`, Tree the cache of file listings and `resolve_file_path`. The HTTP
--   client, the clock and the order of a `HashMap` are arguments; a request is one step before
--   and one after its answer.
-- Crypto: dashboard/crates/omnivore-core/src/crypto.rs. SHA-256, the cipher and base64 are a
--   record of functions, with what they promise as hypotheses; UTF-8 is decoded by Text/Utf8.
-- Server: dashboard/crates/omnivore-server/src. RateLimit (routes/rate_limit.rs), ApiAuth
--   (routes/api_auth.rs), Series, Ingest and Comment (routes/coverage.rs), Csrf (routes/csrf.rs),
--   Login (the guards of routes/auth.rs), Oauth (its login and callback), Projects
--   (routes/projects.rs), Badge and Embed (routes/badge.rs and routes/embed.rs, less the
--   drawing), Settings (the forms of routes/settings.rs behind the guards that lib.rs mounts),
--   Maintenance (maintenance.rs). The clock, the environment, the headers, the state of the lock,
--   digests, fresh identifiers and the answers of GitHub are arguments. A cookie jar holds the
--   three cookies that the server sets.
-- Pages: dashboard/crates/omnivore-server/src/routes/pages. Escape, Target, Composite and
--   FileTree (mod.rs), FileCoverage and SourceFragment (file_coverage.rs), ProjectDetail
--   (project_detail.rs, less its HTML). The building of the file tree is a recursion on fuel,
--   since the code need not end; more fuel than the longest path has characters is enough for
--   paths without a leading slash. `HashMap` and `BTreeMap` are association lists, in the order
--   of insertion where the code does not depend on one and in the order of the keys where it
--   does.
-- Export: dashboard/crates/omnivore-core/src/report.rs (`build_export_report`), and Route
--   (dashboard/crates/omnivore-server/src/routes/export.rs). Github/Comment is `build_file_table`
--   of dashboard/crates/omnivore-core/src/github/comment.rs, Storage/Queries the queries of
--   db.rs.
--
-- Not modelled: the wiring of the router, HTML templates and markdown, the HTTP client and the
-- requests that post comments, the routes that only hand out rows of the database as JSON, the
-- drawing of badges and charts, the SQL schema's migrations, and the Kotlin plugin.
pub mod Prelude
pub mod Text
pub mod Float
pub mod Model
pub mod Validation
pub mod Crypto
pub mod Export
pub mod Github
pub mod Pages
pub mod Parsers
pub mod Storage
pub mod Server
