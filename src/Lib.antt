-- ===== src/Lib.antt =====
-- probes: a prober of memcached nodes ("mempoke"). It finds the nodes through a consul agent, probes each
-- of them with one set and one get per interval, and exposes what it sees as prometheus metrics.
--
-- Paths are from the root of the repository.
--
-- How the parts interact. `init_probing` (src/probes/mod.rs) runs the discovery loop of `ProbeServices`:
-- each turn takes 60 tokens from a `TokenBucket` (src/token_bucket/mod.rs), asks `ConsulClient`
-- (src/consul/mod.rs) for the nodes of the services with a tag, starts a task for each new node, and sends
-- a stop to the task of each node that is gone. The task of a node (`ProbeNode`, src/probes/mod.rs)
-- connects a memcached `Client` (src/memcached/mod.rs) and probes with it until its channel tells to stop.
-- A client sends commands (src/memcached/command.rs) over a `Connection` and reads responses
-- (src/memcached/response.rs, src/memcached/header.rs) from its buffer; each request, failure and stop
-- touches the metrics of src/probes/prometheus.rs. `main` (src/bin/mempoke.rs) reads the command line,
-- spawns the task of the metrics endpoint, and blocks on `init_probing`.
--
-- Files.
--   Prelude, Prelude/*: the shared names and lemmas: lists and tests over the native numbers, bytes and
--     their big-endian numbers, text, UTF-8, decimal numbers and `i64`, maps, results, and `Float`, the
--     interface for the few operations on `f64`.
--   TokenBucket: src/token_bucket/mod.rs. `new`, `available_token_since`, `update_counter`,
--     `compute_wait_duration`, `need_to_wait` and `wait_for` under their own names; `after_check` is the
--     `match` of `wait_for`. Admission is about one call, Rate about whole calls and rows of calls.
--   Memcached/Cursor: `Cursor<&[u8]>` and `Buf`, the interface for the crate `bytes`.
--   Memcached/Header: src/memcached/header.rs; Header/Layout is the layout of the protocol.
--   Memcached/Command, Command/Set, Command/Get: src/memcached/command.rs; Command/Decode is a server's
--     view of a request.
--   Memcached/Response: src/memcached/response.rs; Response/Verdict is what `check` answers.
--   Memcached/Connection: `Connection` of src/memcached/mod.rs. `send_request`, `parse_response` and
--     `read_response` under their own names. Parsing, Framing and Ending are about them.
--   Memcached/Client: `connect` and `Client` of src/memcached/mod.rs: `set` and `get` are `set_call` and
--     `get_call`, since the commands have these names. Accounting, Service, Failing, Polite, Panics,
--     Verdict and Wire are about them: Polite about what a request leaves for the next one, Verdict about
--     what a probe counts for the answers that it gets, Wire about the bytes that go out.
--   Metrics, Metrics/Endpoint: src/probes/prometheus.rs: the calls on the metrics as data, `SeriesVec` as
--     the interface for a vector of series, the two handlers, and the start of the web server, whose
--     answers are an argument. Metrics/Requests and Metrics/Failures hold the calls that count requests and failures.
--   Consul/Node, Consul/Extract, Consul/Http: src/consul/mod.rs: its types, its pure functions, and its
--     calls of the agent; Consul/Json is the interface for the crate `serde_json`. Node/Keys,
--     Extract/Matching, Extract/Panics, Extract/Ranges, Http/Ensures, Http/Index, Http/Panics, Http/Calm,
--     Http/Keys, Http/Found, Http/Ranges and Http/Query are about them; Calm has the agents with which no
--     discovery panics.
--   Probes/Node: `ProbeNode` of src/probes/mod.rs. The task is a record with a phase, and `step` is one
--     turn of the outer or the inner loop of `start`; Lifecycle, Cleanup, Tidy, Removal, Running, Steady,
--     Safe, Counting, Failures, Counters, Conversation and Heeding are about it. Node/Series is what calls
--     on the metrics leave in the request counters. Safe has the servers with which no probe panics,
--     Counting and Failures the requests and the failures that a task counts, Counters what that makes of
--     the counters, Conversation what it says on a connection, and Heeding what it does once it hears a stop.
--   Probes/Services: `ProbeServices`; `sync` is what a turn of the loop does with a discovery. Sync, Ledger,
--     Spawning, Channels, Probed, Stopping and Held are about it.
--   Probes/Watch: `watch_matching_services` and `init_probing`; Turns, Endless and Pace are about
--     them.
--   Probes/System: the map of `ProbeServices` beside the tasks that `start_node_probe` has spawned, under any
--     order of discoveries and turns of tasks. Coherent holds their invariant, Refines the table of nodes
--     that they implement, Places what each task ever spawned is doing, Latest what all that is where keys
--     tell nodes apart, Loop the discovery loop as a source of its events, Departed what becomes of the task
--     of a node that is gone, Order that the order of the maps does not matter, and Apart and Tame the
--     agents and the servers with which all this holds.
--   Mempoke: `main` of src/bin/mempoke.rs; Endings is about how it ends, Probing about what is probed
--     while it runs.
--   Tests, Tests/*: concrete functions for the interfaces, and the definitions and theorems at concrete
--     inputs.
--
-- How the code is read.
--   A `u8`, `u16`, `u32` or `u64` is a number with its wrap-around written out, as in the release build;
--   an `i64` is a signed number. A panic is the outcome `panics`, an error is a value.
--   What a call from outside gives is an argument: the readings of the clock, the events of a stream, the
--   answers of the agent, the messages of a stop channel. So every order and every failure of these is
--   covered. A stream that stays silent is a script that ends; the timeout of a request cuts off there.
--   A `HashMap` is a list of entries in the order in which it is walked. What is stated of it is stated
--   for every such order, and System/Order compares two of them.
--   A stop channel is a number. The tasks of different nodes share no state but the metrics; in
--   Probes/System a turn of a task is one event, and what it hears of a stop may come late.
--
-- Fuel. No definition runs on fuel that cuts off a result: `read_response` and `watch_matching_services`
-- recurse on the events that there are, and `run` makes as many turns of a task as it is told to. How many
-- turns are enough for a task to finish is part of what is shown of it.
--
-- Not modelled: what the crates do that the code calls: `argparse`, `tokio`, `hyper`, `serde_json`, `axum`,
-- `prometheus`, `bytes` and the console subscriber; their answers are arguments. The registration of the
-- metrics in src/probes/prometheus.rs and the log messages are left out: they only call libraries.
pub mod Prelude
pub mod TokenBucket
pub mod Memcached
pub mod Metrics
pub mod Consul
pub mod Probes
pub mod Mempoke
pub mod Tests
