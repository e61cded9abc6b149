-- ===== src/Lib.antt =====
-- scintx: a gateway that takes submissions of software artifacts, has providers scan them, merges
-- what they find and lets a policy decide. This library models the parts that carry its decisions
-- and its state, and proves what they guarantee.
--
-- Parts and files:
--   Api        api/types.go, api/merged.go: the wire types. `*T` is `Option T`, `map[string]T` is
--              an association list, a time is a number of nanoseconds, and a float64 score is of
--              a type `S` with the interface `Score`, since there are no floats here.
--   Policy     extensions/policies/yaml/document.go and evaluate.go: `validate` is Validate,
--              `evaluate_doc` evaluateDoc, `evaluate_merged_doc` evaluateMergedDoc. Rank has
--              escalate and decisionOr, Rules has matchFinding, whenMatches and topSeverity.
--              Asks says without a loop what one result asks for. Example has
--              extensions/policies/example/policy.go.
--   Jobs       internal/scintx/job_queue_memory.go: `claim_job` is ClaimJob, and so on.
--   LocalPool  internal/workers/dispatcher.go, the in-process pool: `reserve`, `commit`,
--              `release`, `submit`, `close`, and the channel side of its workers. Any interleaving
--              of callers and workers is a sequence of steps, one per call under the mutex.
--              Settings has ConfigFromEnv, on numbers of 64 bits.
--   Store      internal/scintx/memory_store.go: every method as a function on the state.
--   Matching   api/matching.go: `requirement_satisfied` is requirementSatisfied,
--              `matching_capability` MatchingCapability. The canonical form of a purl and its
--              type are arguments.
--   Merging    internal/scintx/aggregator.go: `aggregate` is Aggregate, `reconcile_assessment`
--              reconcileAssessment, `compute_severity` computeSeverity, `merge_identifiers`
--              mergeIdentifiers. Groups has the maps of Go that keep the order of their keys beside.
--   Purl       api/purl.go: `parse_purl` is parsePurl, with its regular expression written out as
--              two searches, and `canonical_purl` CanonicalPurl.
--   Orchestrator  internal/scintx/orchestrator.go: `process` is Process, `adjudicate` Adjudicate.
--              Events has events.go, Results the choice of providers, cache_key.go,
--              artifact_content.go and api/blob.go, Forward adjudication_forward.go.
--   Server     internal/server/server.go: `create_submission` is createSubmission,
--              `resume_submission` resumeSubmission, and so on, with fingerprint.go. A handler takes
--              the decoded request and returns the state after it and the answer.
--   QueuePool  internal/workers/queue.go, the pool on the job queue: `claim_round` is a round of
--              claimLoop, `run_claimed` runClaimed, over any function that processes a submission.
--   SqlQueue   internal/store/job_queue.go: the job queue on a table of rows; `claim_row` is ClaimJob,
--              and so on. `before` says how the texts of two times sort in the database,
--              which is as the times only where they have whole seconds.
--   SqlStore   internal/store/sql_ops.go: every method of the store on SQL tables, whose documents
--              encoding/json writes and reads (`Codecs`). Calls has the interface of
--              internal/scintx/store.go, on tables and in memory; results come in any order.
--   Registry   api/registry.go: `load_providers` is LoadProviders, over what each factory returns.
--   Auth       internal/auth: `sign_request` is SignRequest, `verify_hmac` verifyHMAC, in Sign, with
--              its parsers in Parsing; `config_from_env` ConfigFromEnv, in Environment; `middleware`
--              Verifier.Middleware, in Middleware. Text and Numbers have what they use of Go's
--              strings and strconv. SHA-256, HMAC, base64 and strconv.Quote are arguments (`Crypto`).
--   Base       the helpers that these share: tests on numbers, lists, maps and text.
--   Tests      the theorems at concrete data.
-- The store holds the job queue; a worker of a pool claims a job and calls Process, which asks the
-- providers that match, stores and merges their results, and has the policy decide over them. A
-- deferred submission is claimed for a resume, and a consumer may resolve a decision (Adjudicate).
--
-- Loops are structural recursion on the list that they range over, so no fuel is needed; only the
-- printing of a number has fuel, the number plus one, which is above the number of its digits. Go ranges
-- over a map in no fixed order: here it is the order of the association list, which is
-- arbitrary. Numbers are unbounded, since the counters that are modelled (attempts, slots,
-- lengths) stay far below the width of Go's int, but for the numbers that a user writes into the
-- environment or a header, which have 64 bits.
--
-- Arguments stand for time.ParseDuration (`parse_duration`), the format of a time (`format_time`),
-- the clock (`now`, `later`), random ids (`random_hex`), SHA-256 in hexadecimal digits (`hash`), the
-- providers, the cache, the aggregator and the policy engine of the orchestrator, and the places
-- where its context may be cancelled (`Interrupts`). What they return may differ from call to call.
-- A statement of the database reports no error, and a transaction is one step, but that others may
-- commit while a submission is created (`between`).
-- `meanwhile` is what heartbeats and other workers do to the state while a job is processed.
-- A handler runs without others in between but for the pool, to which others may do anything
-- between a reservation and its commit (`between`).
-- The goroutines that ask the providers run one after the other, in an order that is an argument
-- (`schedule`): their events may interleave more freely than that. The orchestrator works on the
-- in-memory store, whose methods report no errors.
--
-- Not modelled: reading YAML and files, the HTTP transport, migrations and
-- drivers of SQL, the delivery of webhooks, the cache libraries, credentials and commands, and the
-- providers of third-party services.
pub mod Base
pub mod Api
pub mod Policy
pub mod Jobs
pub mod LocalPool
pub mod Store
pub mod Matching
pub mod Merging
pub mod Purl
pub mod Orchestrator
pub mod Server
pub mod QueuePool
pub mod SqlQueue
pub mod SqlStore
pub mod Registry
pub mod Auth
pub mod Tests
