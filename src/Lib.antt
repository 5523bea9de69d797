-- ===== src/Lib.antt =====
-- mcpglass: the core of a transparent MCP proxy.
--
-- mcpglass stands between an MCP client and a server, forwards their JSON-RPC frames, records them,
-- judges requests against a policy and can inject faults. This library models the parts of it that
-- decide something; paths are from the root of the repository.
--
-- - `Base`: lists, options, text as character codes, and `run`, which folds a step that yields
--   output over a list of inputs. Numbers are the native naturals; a machine word keeps its wrap
--   (`% 2 ^ 64`), and ℤ of `Base.Int` stands for `i64` where no arithmetic is done with it.
-- - `Framing`: how bytes become frames. `Framing.Line` is `LineSplitter` and `Framing.Sse` is
--   `SseSplitter` (crates/proxy-core/src/lib.rs, crates/proxy-core/src/sse.rs), and `Framing.Framed`
--   is `FramedStream` (crates/cli/src/security.rs). Each is a record with the fields of the struct;
--   `push` takes and returns it. The `while let` over the newlines of a read is `run on_head` over
--   `lines`, and what follows the last newline goes to `on_rest` or `buffer_line_bytes`.
-- - `Json`, `Message`: JSON values with the fields of an object as an ordered list, and `parse_line`
--   with `Direction` (crates/proxy-core/src/lib.rs).
-- - `Policy`: crates/policy/src/lib.rs. `Config` is `Policy` and its loading from TOML, `Rules` are
--   the deny and allow lists, `Mask` and `Secrets` the secret scan, `Evaluate` is `evaluate_request`,
--   `Canonical` is `write_canonical` and `to_hex`, `Fingerprint` the tool fingerprints and the hash of
--   a server's identity.
-- - `Security`: `decide_c2s_frame` of crates/cli/src/security.rs, where `Policy.Evaluate` meets
--   `Message`: whether a frame of the client is forwarded, answered in the server's place or
--   dropped, and the events that are written for it.
-- - `Inject`: crates/policy/src/inject.rs. `Config` is the configuration and its check, `Rng` the
--   generator, `Injector` the decision for one frame with its counters. `Float` is the part of `f64`
--   that they use: a finite number is the exact multiple of 2^-1074 that it is, so comparisons are
--   those of integers, and the quotient `k / 2^53` is exact for the 53-bit `k` of the code.
-- - `Event`: the records that the proxy stores, and the tokens of their enumerations
--   (crates/storage/src/lib.rs).
-- - `Storage`: crates/storage/src/lib.rs. `Sql` is what is used of a SQLite connection: a statement
--   takes effect as a whole or fails, by a violated constraint or because the disk fails it, and one
--   transaction can be open. `Database` has the tables and their writers, `Fingerprints` is
--   `record_fingerprint` with `tool_fingerprints` as a list of rows in the order of their ids, and
--   `Prune` deletes sessions and counts what it would delete: `Prune.MaxSize` is the loop that deletes
--   the oldest until a size is reached, over the pragmas of the file, and `Prune.Estimate` its dry run.
-- - `Tap`: the storage thread, crates/cli/src/tap.rs. `Pending` are the requests that wait for their
--   response, `State` is what the thread keeps, `Loop` one message of the loop and the fold over the
--   messages, `Session` the whole of `storage_loop`: it calls `Message`, `Policy.Fingerprint` and
--   `Storage`.
-- - `Proxy`: the two pumps of a wrapped session, crates/cli/src/main.rs. `World` is what they act on:
--   the standard input of the server, the standard output to the client, and the channel to the
--   storage thread; its `Env` says how the outside answers (the clock, writes that fail behind some
--   bytes, a full channel), by the number of the interaction. `Reads` is the loop that both pumps are,
--   over `Framing.Framed`, `ClientPump` is `pump_c2s` with `Security.Decide`, `ServerPump` is
--   `pump_s2c`, and `Faults` applies the hits of `Inject`. A read error is the end of the list of
--   reads, and the delay of a fault takes no time.
-- - `Clients`: `attach` and `detach`, crates/cli/src/clients.rs and crates/cli/src/gateway_config.rs.
--   `Table` is `GatewayConfig`, `Route` the routes in a client's URLs, `Entry` and `Document` the
--   transforms of an entry and of a document, `Files` the reading and replacing of a file on a disk,
--   and `Run` the phases of a run with its exit code.
-- - `Gateway`: the gate of the HTTP gateway against rebinding, and the headers that it sends upstream
--   (crates/cli/src/gateway.rs).
-- - `Command`: crates/cli/src/prune.rs. `Units` reads durations and sizes, `Prune` is the command over
--   the database of `Storage`.
-- - `Replay`: the arguments and the transport of a recorded session, crates/cli/src/replay.rs.
-- - `Tests`: runs on small inputs, and the instances of the theorems.
--
-- Code that is not in the repository is a parameter: serde_json's reader and writer (`Serde`,
-- `Encode`), the regular expressions, SHA-256, the decimal and the debug text of the formatter
-- (`Libs`), the TOML reader, `String::from_utf8_lossy`, the clock and its entropy, the file stem of a
-- path, and how each call on a file, a stream or the channel ends. Only the theorems on the rewriting of
-- clients assume laws of them, those of `Clients.Entry.Plain.Documented`: numbers have different texts
-- without a slash, and a field that was appended to a map is removed without a trace. The faults of the
-- disk are a list of Booleans, one for each statement to come. The hash map of the pending requests is a
-- list in its order of iteration, which the map leaves open.
--
-- Loops are structural recursion over the list that the code iterates over, but for two that run on
-- fuel: the search for a free route (`Clients.Route.probe`) has one round more than the table has
-- entries, and the deletion of the oldest sessions (`Storage.Prune.MaxSize.prune_loop`) one round more
-- than there are sessions. Both are proved to end within it; the counter of routes, a `u32`, does not
-- wrap for a table of fewer than 2^32 - 2 entries.
--
-- Not modelled: argument parsing, the spawning of processes and the shutdown of a session
-- (crates/cli/src/main.rs), the interleaving of the two pumps, the handlers
-- and streams of the HTTP gateway (crates/cli/src/gateway.rs), the dashboard (crates/dashboard), the exchange of a replay (crates/cli/src/replay.rs), and
-- the reports that commands print: they are glue around system calls or third-party frameworks. Of the
-- database, the readers for the dashboard, the foreign keys and the schema migrations are not modelled.

pub mod Base
pub mod Framing
pub mod Json
pub mod Message
pub mod Event
pub mod Policy
pub mod Security
pub mod Storage
pub mod Inject
pub mod Tap
pub mod Proxy
pub mod Clients
pub mod Command
pub mod Gateway
pub mod Replay
mod Tests
