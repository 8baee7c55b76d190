-- ===== src/Lib.antt =====
-- A verification library for the off-chain services of the Refract protocol.
--
-- The backend watches data feeds, keeps an evidence trail of what it read, decides claims and keeps
-- the books of the operators that serve the feeds. Modelled are parts of it that hold state and
-- carry its guarantees, each from its source:
--
-- - Staking (src/services/staking.ts): Staking.antt has the rows of operator_bonds, unbond_requests
--   and slashing_proposals; Slash has slashAmountFor, allocateSlash and isBondEligible, Findings has
--   detectSlashableConditions, Bonds has recordBond, requestUnbond, withdraw and getStatus,
--   Proposals has createProposal and evaluateSubmission, Review has approve, reject, appeal and
--   executeProposal. Funds, Execution, Lifecycle, Replays and Safeguards hold the proofs.
-- - Evidence (src/oracle/evidence/oracle-evidence-buffer.ts, evidence-record.ts): Evidence.antt has
--   the buffer with start and the two halves of append, Drain the flusher as two half steps and the
--   line of calls that wait for the spool. Trail, Waiting, History and Recovery hold the proofs.
-- - Trigger (src/claim/trigger/trigger-stability.ts): Trigger.antt has the state of a key, the
--   validation and the guards, Evaluate has evaluate, the phases and the events. Guards, Candidates,
--   Streaks and Store hold the proofs.
-- - Ledger (src/oracle/consensus/evidence.types.ts, evidence-ledger.ts, ledger-view.ts,
--   evidence-completeness.ts): Ledger.antt has the events, Store the append, View, Readings
--   and Late the lookups at a time, Gaps assessEvidenceCompleteness, Hashes the payload store's test
--   of a hash. Increasing and Cutoff hold the proofs.
-- - Holds (src/oracle/consensus/claim-hold.service.ts), which writes to and folds the ledger:
--   Holds.antt has foldHolds, Service has gate, place, dispose and markSettled, Review has
--   reevaluateAll. Gate, Repeat, Rounds and Transitions hold the proofs.
-- - Limits (src/oracle/admin/actor-rate-limiter.ts): Limits.antt has FixedWindowLimiter, Budget the
--   proofs.
-- - Rpc (src/stellar/rpc-endpoint-pool.ts): Rpc.antt has the endpoints and their health, Call
--   candidateOrder and call, LastResort the proofs.
-- - Consensus (src/oracle/consensus/consensus.ts): Consensus.antt has the types, median and the
--   checks, Screening the grouping and screening of reports, Evaluate the rest of
--   evaluateConsensus. Totals, Listing, Outcome and Publish hold the proofs; Publish joins it to Encoding.
-- - Encoding (src/oracle/oracle-encoding.ts): Decimal has parseFixedDecimal, formatFixedDecimal and the
--   composite payload, Provenance the packing into a u128, Payload scaleOracleValue and
--   buildPublishPayload. RoundTrip, Composite, Fields, Packing and Injective hold the proofs.
-- - Ingestion (src/oracle/sources/oracle-ingestion.pipeline.ts, nonce-store.ts, webhook-signature.ts,
--   oracle-source.ts): Nonces has InMemoryNonceStore, Signature the signed headers and
--   verifyWebhookSignature, Pipeline ingestWebhook and ingestPull with accept and check. Replay,
--   Authentic and Order hold the proofs.
-- - Money (src/common/fixed-point.ts, src/pool/share-price.math.ts): Money.antt has the functions,
--   Rounding, Amounts and Shares the proofs.
-- - Pages (src/common/pagination.ts): Pages.antt has paginateDesc, Walk a client that follows the
--   cursors; Order and Sorted hold the lemmas.
-- - Disputes (src/claim/dispute/dispute.service.ts with src/db/migrations/007_claim_disputes.sql):
--   Disputes.antt has the rows and the table of transitions, Rows the statements with the tables'
--   constraints, Moves open, transition and get, Consistency the steps and the invariant. Update,
--   Inserts, Transition and Lifecycle hold the proofs.
-- - Prelude: the shared types, tests, list and dictionary lemmas. Tests: witnesses and runs.
--
-- Conventions. A handler takes the clock and the answers of the outside (the database's new keys,
-- whether a write succeeded) as arguments. It returns the new state with its result; an exception
-- is an `err`, and a handler in a transaction leaves the tables alone then. Times are milliseconds.
-- bigint amounts are numbers that are not negative; ids, hashes and reasons are texts. A table is
-- the list of its rows in the order of insertion.
--
-- Numbers with a fraction (readings, thresholds, penalties, weights) are of a type that is a
-- parameter; Trigger and Consensus take their operations as a record, and Consensus has its times in it
-- as well. A message with values in it is a constructor
-- that holds the values. The ledger is passed along with the number of calls of the clock and the
-- disk, whose answers are functions of that number. The consensus engine that claim holds ask is a
-- parameter, since its service has no code here; so are the hash of a hold's id, the comparison of
-- texts by locale and the bodies in the payload store.
--
-- A text that is taken apart is the list of its character codes. A JavaScript number that is scaled
-- for the chain is of a parameter type, with its product rounded to a bigint, if `BigInt` takes it.
--
-- Bounds. `walk` counts requests; one more than there are rows are enough, since each page that is
-- not the last holds a row. `digits_of` has the number itself as fuel, which each division lowers.
-- `drain` counts rounds; as many as there are pending records are enough, since each takes
-- at least one.
--
-- Not modelled: HTTP controllers, NestJS modules, metrics and logging, the database driver and the
-- file system; the parsing of the environment; and the components that PROJECT.json lists as such.
pub mod Prelude
pub mod Staking
pub mod Evidence
pub mod Trigger
pub mod Ledger
pub mod Holds
pub mod Limits
pub mod Rpc
pub mod Consensus
pub mod Encoding
pub mod Money
pub mod Pages
pub mod Disputes
pub mod Ingestion
mod Tests
