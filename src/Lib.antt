-- ===== src/Lib.antt =====
-- ahead: the protocol of a local-first sync engine. A client keeps a local copy of records that are
-- streamed by channel; the server commits changes per scope and answers pulls with pages. Each page
-- states, for every channel, the range of cursors that it covers.
--
-- The parts, and the files that model them:
-- - Core/Json, Core/Counter, Core/Record, Core/Page, Core/Push, Core/Subscribe: the wire protocol of
--   crates/core/src/protocol.rs and `canonical_json` of crates/core/src/lib.rs. A decoder takes the
--   parsed JSON value, but for the frames that the source parses into a struct, which take the bytes. Parsing, the text of a scalar and the quoting of a key are serde's: the record
--   `Serde` of Core/Json, an argument of every definition that uses them.
-- - Core/Encode: the `encode` methods of the same messages, over JSON values.
-- - Core/Schema: crates/core/src/schema.rs. Core/Schema normalizes values, states, patches and record
--   keys; Core/Schema/Check validates a descriptor; Core/Schema/Compatibility compares two of them. The
--   crates uuid and chrono and the rounding of f64 are the record `Scalars`, an argument.
-- - Client/Connection: the connection driver of crates/client/src/connection.rs, which decides when a
--   lane may start an attempt, with its retry delays. The methods are the functions of the same names.
-- - Client/Pulls, Client/Report, Client/State: the pull ledger, the reports, the fenced write and the
--   subscriptions of crates/client/src/lib.rs and crates/client/src/ledger.rs.
-- - Client/Queue, Client/Push, Client/Rejected: the queue of mutations of crates/client/src/queue.rs, with
--   `insert_mutation` and the constraints of its tables, and
--   from crates/client/src/push.rs `freeze`, which selects a batch and encodes it, and `mark_rejected`,
--   which drops rejected mutations with their dependents. The tables of crates/client/src/ddl.rs are
--   fields of a row; an error carries no state, since the caller's transaction rolls back.
-- - Client/Authority, Client/Rebase: the stamp gate of a delivered record and `apply_records` of
--   crates/client/src/authority.rs, and `apply_to_row` and `rebuild` of crates/client/src/mutate.rs. The
--   tables, `descendants` and `refresh_pending` are the records `Tables` and `Queue`, arguments with the
--   laws that a proof needs. An error of one record undoes the tables, but not the set of held keys.
-- - Client/Acknowledge: `acknowledge` of crates/client/src/push.rs, which completes the push in flight from
--   its receipt: it stages the records beneath the queue, drops the mutations and rebuilds what they touched.
-- - Client/Downlink: what becomes of one page, crates/client/src/downlink.rs and the receiving half of
--   crates/client/src/transport.rs.
-- - Client/Live: the live session of crates/client/src/live.rs. It asks the driver when to open a socket,
--   sends its subscription, and feeds each page it receives to Client/Downlink. A method returns the
--   lane (session, client, actions so far) beside its result, also where the result is an error, since
--   the changes made before an error stay. The host gets the actions only where the result is a success.
-- - Server/Live: the state machine of a socket on the server, crates/server/src/live.rs: which scopes
--   have an unsent commit, which pull is outstanding, and the cursors streamed so far.
-- - Server/Config, Server/Host, Server/Slots, Server/Readback, Server/Push, Server/Pull, Server/External:
--   crates/server/src/lib.rs, host.rs, readback.rs and error.rs beside it. Server/Config/Check is what
--   `Config::decode` checks once serde has read the configuration. `process_push` decodes the slots
--   of each mutation, runs it at the host in a savepoint, reads its records back and stores the receipt;
--   `process_pull` scans the channels and loads the records. A host is a state and a function from each
--   request to its answer, already typed; a computation passes the host's state along and ends with a
--   result or the code of an error, whose message is left out.
-- - Common: results with the source's errors as constructors, sorted association lists for `BTreeMap`,
--   texts as lists of code points with the two orders that the source sorts by, saturating arithmetic.
--
-- Numbers: milliseconds are `u64` with the saturating operations of the source. Cursors, stamps and
-- batch sequences are checked against 2^53 - 1 where the source does so. The ledger's epochs and a
-- live session's epochs are `u64` counters that are only ever incremented, and are unbounded here.
-- Every loop is over a list, but for the one of `mark_rejected`: it runs on fuel, as many turns as the
-- queue is long, and each turn that goes on rejects a mutation more.
--
-- Not modelled: the SQL of the tables of records, enqueueing and direct writes, the walk over cascades,
-- the storage engine and its I/O errors, the notification of watchers, the sync cycle, the wire forms of
-- a host's answers, the compiler, the simulator and the bindings. Of a downlink the tables are an
-- argument (`Applier`), which Client/Rebase fills.
pub mod Common
pub mod Core
pub mod Client
pub mod Server
mod Examples
