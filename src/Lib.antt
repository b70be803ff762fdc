-- ===== src/Lib.antt =====
-- SentryCode scans a repository with a set of scanners and decides from their findings whether a
-- release may go out. This library models its core: how it is configured, how a scan is run, which
-- policy applies to it, which findings are waived, what the decision is, who may demand which
-- scanners, and what of the result is sent to whom.
--
-- Parts, with the source they follow:
--   Core        src/core/types.ts (Enums, Findings, PolicyTypes, Config, Settings), the defaults of
--               src/config/defaults.ts (Defaults) and `stableId` of src/utils/hash.ts (Platform).
--               Core.Json has JSON values and `JSON.stringify`.
--   Policy      src/policy: documents.ts (Documents; its validation in Documents.Parsing),
--               resolve.ts (Resolve), waivers.ts (WaiverFile for `parseWaiver` and `loadWaivers`,
--               Waivers for the search), evaluate.ts (Evaluate), opa.ts (Opa), release.ts (Release).
--   Configuration  src/config/load.ts: the readers of single values (Outcome, Reading), the sections
--               of `mergeConfig` (Consumers, Sections, Scanning, Services), their checks (Merge), the
--               variables of the environment (Environment) and `loadConfig` (Load).
--   Consumers   src/consumers: registry.ts (Registry), selection.ts (Selection), envelope.ts
--               (Envelope), cra-adapter.ts and cyber-adapter.ts (Adapters), messages.ts (Messages) and
--               delivery.ts (Enqueue, Delivery), and the queue of deliveries in
--               src/application/postgres.ts (Outbox).
--   Compliance  src/compliance: scope.ts (Scope), auth.ts (Auth) and cra-reporting.ts (CraReporting).
--   Dependencies  src/dependencies: versions.ts (Versions) and diff.ts (Diff).
--   Engine      src/core/engine.ts: `classifyScannerFailure` (Classify), `runOne` (RunOne) and
--               `runScan` (ScanRequest for what it is given, RunScan).
--   Enterprise  src/enterprise/audit.ts (Audit: appending, reading and verifying the chain of
--               events).
--   Execution   src/execution/runner-lease.ts (RunnerLease: one step for each call of the file
--               system, and whatever other runners do between two of them) and runner-server.ts
--               (RunnerServer: one step of a request for each time that `handle` waits, in any
--               interleaving with the steps of the other requests; Requests has the reading and the
--               checks of a request, Responses the answers).
--   Incremental src/incremental/plan.ts (Plan), `affectedServices` of src/monorepo/discover.ts
--               (Affected) and src/git/changes.ts (Git).
--   Common      booleans, lists, texts, numbers in decimal, URI encoding, sorting and the result monad
--               that all parts share.
--   Tests       concrete hosts, policies and scans, and the theorems applied to them.
--
-- `load_config` gives the configuration that all parts read. `run_scan` runs the scanners, loads and
-- resolves the policy with the floor that Consumers and the managed runner profiles give, loads the
-- waivers, evaluates the policy, asks OPA, and keeps the stricter decision. A report then becomes the
-- messages of Consumers, which Delivery sends. Every function is named as in the source, in snake case.
--
-- A function that throws returns a `Result`, with the text of its error. What a program reads (files,
-- the directory of policies, the clock, the OPA process, random identifiers) is an argument of the
-- model, in the order in which the source asks for it. A `Record` of the source is an association
-- list in key order; a lookup does not see the keys of the prototype. Texts are well-formed Unicode.
--
-- The audit file is the list of its lines that are not empty, and a signing or a verifying key is a
-- function on the text of a hash. A runner of the lease goes through phases; the phase `start k` is
-- before the attempt number k, of five. The timer that repeats the heartbeat is not modelled, and
-- neither is a damaged `owner.json`, which no runner writes.
--
-- Parameters, fields of `Platform`: the parser and printer of dates, SHA-256, `localeCompare`,
-- `JSON.parse` and the decoder of UTF-8. A time is a number of milliseconds from the earliest date
-- that JavaScript has; an unreadable date is none, and every comparison with it is false. The
-- duration of a waiver is compared in milliseconds, which agrees with the division by 86400000 of
-- the source for durations below 2^27 days; `maxDurationDays` is a whole number.
--
-- Further parameters: `TokenHost` has base64url, HMAC and the ceiling of a time of expiry, `LoadHost`
-- what JavaScript says of a number that is no whole number, of a text as a number and of a text as a
-- regular expression, and the lower and upper case of a text are functions. The numbers that a
-- configuration keeps are whole, and the components of versions are natural numbers, without the
-- rounding of JavaScript above 2^53. `licenses.unknown` and the Gerrit `notify` may be the array of one
-- text, which the checks of the source let through: the constructor `listed`.
--
-- A request to the server of the runner has a URL that parses. Its events carry what came in: the
-- chunks of its body, the profile that the registry gave, whether the input files were written, and
-- how the executor ended, with the diagnostic in its bounded form. Making and removing the directories
-- of a job succeeds.
--
-- Loops are structural recursion, but for two that have fuel. Printing a number in decimal is given
-- one step more than the number, which is at least its count of digits. The rounds of a delivery
-- need one more than the messages that wait, since a round without a failure leaves fewer of them;
-- that is what the interface of the store asks for. The batch size is a natural number. `run_opa` is
-- a fold over the events of the child process. Whether the timer of `runOne` fires before the
-- scanner returns is a field of the run; the signal that tells a scanner to stop is not modelled,
-- since it changes no result. The texts of two failure-mode records are equal exactly when the
-- records are, entry by entry, which is how the lock on `scannerFailureModes` compares them.
--
-- Not modelled: the scanners themselves and the discovery of dependencies, services and files, the
-- command line, the console, the HTTP servers but for the one above, the clients and publishers, the
-- container executor with the input files of a job, providers, printers, backups and the other
-- tables of the store, which are input and output around this core.
pub mod Common
pub mod Core
pub mod Policy
pub mod Compliance
pub mod Dependencies
pub mod Configuration
pub mod Consumers
pub mod Engine
pub mod Execution
pub mod Incremental
pub mod Enterprise
mod Tests
