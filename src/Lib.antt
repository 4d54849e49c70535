-- ===== src/Lib.antt =====
-- Wispdeck: a self-hosted server for static sites, with Wispist, an embeddable document engine.
--
-- The parts that are modelled, and the files that model them:
--   Login: internal/limit/login.go, the sliding windows on login attempts (`Allow` is `allow`,
--     `record` is `record_attempt`); Login/Sliding, Login/Runs and Login/Memory hold the proofs.
--   Wispist/Types: wispist/types.go, the documents, changes and requests of a Store.
--   Wispist/Limits: wispist/types.go and wispist/engine.go, `normalizeLimits` and
--     `normalizeRateLimits`.
--   Wispist/Cursor: wispist/cursor.go, change cursors.
--   Wispist/Sqlite: wispist/sqlite/store.go over the tables of wispist/sqlite/schema.go. Tables
--     has the rows and the transaction, Steps the helpers of store.go, Store the operations
--     `Get`, `Create`, `Put`, `Delete` and `HighWater`; Outcome says what a successful write
--     leaves, and Rows, Documents, Writers, Replay, Quota and Keys hold the proofs. Admin models
--     wispist/sqlite/admin.go (`ClearCollection`, `PurgeNamespace`, `Snapshot`);
--     Clearing, Selected and Cleared hold its proofs.
--   Wispist/Declaration: wispist/declaration.go, `ParseDeclaration` from the decoded file on and
--     `validateDeclaration`, with its proofs in Declaration/Maps, Access and Parsing;
--     Wispist/Authorization: the declarative authorizer of
--     wispist/types.go, with its proofs in Authorization/Decision.
--   Wispist/Limiter: wispist/limit.go, the token buckets and stream counts; Limiter/Buckets,
--     Counts and Streams hold the proofs. Wispist/Hub: wispist/hub.go, subscriptions and their channels;
--     Hub/Channels, Publishing, Sound, Calls and Runs hold the proofs.
--   Updater/Policy, Updater/Manager and Updater/Manager/Steps: internal/updatepolicy/types.go and
--     internal/updater/manager.go, the update manager as steps of its goroutine and its callers;
--     Manager/Runs holds the proofs. Updater/Version:
--     internal/updater/version.go.
--   Wispist/Json: wispist/json.go, the walk over the tokens of a document; Json/Trees has the documents
--     that it is to accept, and Walk and Documents the proofs.
--   Accounts: internal/auth/service.go, users.go, username.go, onboarding.go and token.go, over
--     internal/store/users.go, sqlite.go and the session statements of mfa.go. Types and Names are the values, Tables the
--     rows and the transaction, Users, Setup and Sessions the statements, Service and Management
--     the calls. Rows, Sound, Kept, Calls and Runs hold the invariant, SignIn, Lifetime, Tokens and Revoked
--     the proofs on sessions and setup tokens.
--   Links: internal/shortlink/service.go over internal/store/shortlinks.go and public_names.go.
--     Types and Rules are the values and their checks, Tables the rows, Names, Store and Visits the
--     statements and the visit counter, Service the calls. Counting, Keyed, Stored and Totals hold
--     the proofs on visits, Owners, Owned, Held, Runs and Slugs those on names.
--   Prelude: shared names; Tests: every property at a concrete input, and runs of the code.
--
-- The limiter and the authorizer read the `Binding` of a request, whose declaration an engine has
-- validated under its normalized limits. The hub carries the changes that the Store returns. The
-- Store takes its limits from an engine's `mutationLimits` and names its changes by cursors.
--
-- The rows of short links belong to the users of Accounts, and a link is made only for an active one.
--
-- Conventions. A Go string or byte slice is the list of its bytes, a Go map an association list,
-- a Go int an integer where the code tests its sign and a number where it cannot be negative, an
-- instant a number of nanoseconds since 1970. An operation on shared state takes the state and
-- returns the new one: the code holds a mutex, or a transaction, around each. Where it gives the lock
-- up in between, as the update manager does, each part is a step of its own; the drain of the hub's
-- `reset`, which readers disturb, takes their receives as an argument. A transaction that ends in an
-- error, or without a commit, leaves the database as it was. Only the walk over JSON tokens has
-- fuel, two calls for each token, since a token starts at most one value and continues at most one
-- object or array; every other loop is a recursion on a list or on a count.
--
-- float64, Base64, JSON, SHA-256, Argon2, `strings`, `unicode/utf8` and `url.Parse` are records of functions.
--
-- Not modelled: the errors of the SQL driver, which end a call with the transaction rolled back;
-- the CHECK constraints on the lengths of columns, which the HTTP layer makes sure of; the rest
-- of the repository, which PROJECT.json lists with reasons.
pub mod Prelude
pub mod Login
pub mod Links
pub mod Wispist
pub mod Updater
pub mod Accounts
mod Tests
