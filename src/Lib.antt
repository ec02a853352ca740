-- ===== src/Lib.antt =====
-- Norma runs scenarios against a network of blockchain nodes: an executor starts and stops nodes and
-- applications step by step, monitors collect time series while they run, and checks judge what
-- the network did. This library models the parts that carry that logic.
--
-- Parts and files (paths from the repository's root):
--
-- - Base: names of the libraries, Boolean tests, lists, Go's maps as association lists (Map), Go's int
--   (Int), and values or errors (Results).
-- - Series: driver/monitoring/series.go and synced_series.go. `append`, `get_range` and `get_latest`
--   are the methods of SyncedSeries; Search is the binary search of Go's sort package, on
--   fuel of one round for each index, which is more than the halving needs.
-- - Tracker: driver/monitoring/transactions/tracker.go and samples.go. The methods of Tracker are
--   functions on the record of its maps: `submitted` is OnTransactionSubmitted, `mark_emitted`
--   MarkEmitted, `mark_block` MarkBlock, `mark_block_limits` MarkBlockLimits, `mark_included`
--   MarkIncluded, `release` and `release_nonce` releaseNonce, `extend_run` extendRun, `add` the
--   method of sampleSet. Populations, Composed and Repeats hold what is shown of them. The
--   sender of a transaction and its hash come with it. Reading Counts creates an application in Go,
--   which only shows in the listing of applications. Inclusions is the observer of
--   driver/monitoring/transactions/inclusions.go, which reports the blocks to the tracker.
--   Emissions is the observer of emissions.go, which walks the DAG of events: its set of visited
--   events is a list, and a tick of its loop has the answers of the client at that time.
-- - Dag: what such walks have in common: a relation between the events visited and pending at the
--   start, the events read, and the events visited at the end. The fuel of a walk is bounded by the
--   heads and the parents of the events that are not visited.
-- - Genesis: the patches of network rules in genesis/rules_patch.go, as records, and their
--   application, with the JSON encoder and opera.UpdateRules as the interface `Opera`.
-- - Parser: driver/parser. Functions holds the names of the functions of steps and checks, Scenario
--   the data, Rates, Names and Check the semantic checks, Yaml the interface of the YAML library,
--   CheckSpecs and Steps the UnmarshalYAML methods with their two passes over the keys. Errors that
--   Go joins are a list.
-- - Node: driver/node. Lifecycle cuts each action of an OperaNode where it waits for the container:
--   `begin` is an action up to its first wait, `resume` what follows an answer. Lifecycle/Steps lets
--   the actions of one node overlap in any order, with the watchers of its clients.
-- - Local: driver/network/local/local.go. The nodes that the network lists by their ids, those that
--   are suspended, and the notices to the listeners; Dialing is the choice of a node for a
--   connection.
-- - Checking: driver/checking. Timing is the observation window; Blocks the two block production
--   checks on the series that the monitoring yields; Heights the block height check; Hashes the
--   block hash check; Validators the check of the active validators; GasRate the gas rate check, with
--   a comparison of gas rates as an argument; Rules the network rules check; Snapshots and
--   Throttling the event throttler check, with the operations on rates as an interface;
--   Configuration the settings of a check; Poll the loop that polls until a deadline; Failures the comparison of
--   failed nodes with the expected ones. What a node answers is an argument.
-- - Executor: driver/executor. Run is the loop over the steps, with Run/Production the wait for a
--   block; Checks is execCheck; Nodes and Stops are the steps on nodes and applications, with the
--   names of instances in Names and what is shown of them in Recorded and Identity; Activation is
--   ensureValidatorsActive, on what the network answers (Activation/Joined); State is the
--   state of a run and the interface of the registry; Delegations the steps that move and verify
--   stakes.
-- - Load: load/controller/controller.go and load/shaper. Connections is the connection of a controller with the
--   retries of GetReceivedTransactions and what Run closes; Shapes is ParseRate and the automatic shape of load/shaper. The
--   operations on floats are interfaces, and a float32 keeps its value as a float64. Calls of
--   GetReceivedTransactions are taken one after the other.
-- - Tests: the definitions and theorems at concrete inputs.
--
-- The parts meet in these places: the checks read the `Series` of the monitored nodes; the tracker
-- holds sample sets, accounts and block compositions; the executor's loop takes the handlers of the
-- steps as an `Env`; the stake steps take the chain as a `Registry`, with `IsLedger` for the
-- documented effect of its operations; the configuration that the executor makes of a parsed check
-- is what the checkers' Configure reads; ParseRate reads the rates that the check of a scenario
-- accepts.
--
-- Words: nonces, gas and stakes are 64-bit words and wrap as written out; observation windows are
-- signed 64-bit words; counters and heights are Go's int without its bounds. Times are
-- nanoseconds, 0 for the zero time, as numbers. Loops that poll run on fuel: a deadline that passes
-- in round d makes d + 1 rounds enough. Every method of a locked object is one step.
--
-- Not modelled: containers, RPC, the YAML library and the command line, which are input and output;
-- generated contract bindings; the logging; the arithmetic of floating-point rates, and with it the pacing of the
-- load controller.
pub mod Base
pub mod Dag
pub mod Series
pub mod Genesis
pub mod Parser
pub mod Node
pub mod Local
pub mod Checking
pub mod Tracker
pub mod Executor
pub mod Load
pub mod Tests
