-- ===== src/Lib.antt =====
-- lading: a load generator for measuring long-running programs. Generators take blocks of payload
-- from a cache, wait on a throttle for the capacity to send them, and stop at a signal that the main
-- task waits to be acknowledged. One of the generators is a filesystem of rotating logs, whose
-- contents are read from a block cache; another speaks to Splunk and polls for acknowledgements, and
-- others write rotated files or files as below /proc. An observer reads the files of the target's
-- processes, and its metrics are scraped.
--
-- Parts and files. A state is a record with the source's fields; an operation takes the state and
-- returns the next one beside its result.
-- - Prelude: the names of the libraries, tests on numbers, `Outcome` (a result, or the panic of an
--   assertion, an index or an `expect`), lists, texts, and association lists for the maps (Prelude/Map).
-- - Random: the trait `Rng` of the `rand` crate, a parameter with the laws that its ranges obey.
-- - Throttle (lading_throttle/src/lib.rs, stable.rs): `Throttle/Valve` is `Valve::request`;
--   `Throttle/Stable` is the loop of `wait_for` over a clock, a parameter with the laws that it does
--   not fall and that a wait lasts as long as asked for. `Throttle` is the type of both kinds of
--   throttle. Proofs: Budget, Wait, Start.
-- - Block (lading_payload/src/block.rs): `Block/Cache` is `peek_next`, `next_block` and `spin`,
--   `Block/Read` is `read_at`, `Block/Construct` is `fixed` with the serializer as a parameter.
--   Proofs: Turns for the order of the blocks, Seek and Cycle for `read_at`, Sizes, Fixed and Progress
--   for the construction.
-- - Payload (lading_payload/src): `Payload/Strings` is the pool of random strings (common/strings.rs),
--   `Payload/Ascii` the plain text payload (ascii.rs). Of the other payloads it is `to_bytes`, over a
--   parameter that generates and encodes a member: `Payload/Members` for those that write a line for
--   each (json.rs, apache_common.rs, splunk_hec.rs, syslog.rs, dogstatsd.rs), `Payload/Frame` for frames
--   of dogstatsd, `Payload/Halving` and `Payload/Traces` for those that generate too much and halve it
--   (datadog_logs.rs, fluent.rs, trace_agent.rs), `Payload/Records` for statik.rs and the OpenTelemetry
--   requests (opentelemetry_log.rs, opentelemetry_trace.rs, opentelemetry_metric.rs), whose protobuf
--   encoder is a parameter with the lengths of its messages as laws. `Payload/Tags` is the generator of
--   dogstatsd tags (dogstatsd/common/tags.rs, and `ConfRange` of dogstatsd.rs), with floats and the
--   seeded random generator as parameters. Proofs: Pool, Lines, Cached, which puts the plain text into
--   `Cache::fixed`, Fitting, Framing, Halved, Traced, Recorded, and Tagging, Tagsets, Repeats, Calls and
--   Cycle for the tags.
-- - Signal (lading_signal/src/lib.rs): the operations of a `Watcher` on the shared count, with the
--   broadcast channel as a flag that it is closed and `Notify` as a number of calls that are due.
--   `Signal/Exchange` is the loop of `decrease_peer_count` with the other threads' changes between the
--   attempts; `Signal/System` is the step relation of `signal_and_wait` and all watchers, one step for
--   each access to shared state. Proofs: Peers, Wakeup.
-- - Logrotate (lading/src/generator/file_gen/logrotate_fs/model.rs): `Logrotate/File` is `File` and its
--   methods, `Logrotate/State` the data of the filesystem and what only looks at it,
--   `Logrotate/Advance` is `advance_time` with rotation and `gc`, `Logrotate/Handles` is `open_file`,
--   `close_file`, `lookup`, `getattr` and `read`, `Logrotate/Setup` is `State::new`,
--   `Logrotate/Operations` any sequence of operations. The order
--   in which the map of nodes yields its keys is a parameter. Proofs: Growth for one file, Every,
--   Passing and Sound for what holds of all files, Chain, Shift, Rotation and Turnover for the
--   peers of a group, Served for reads, Opened for handles and `gc`, Built, Paths and Groups for
--   `State::new`. The reads go to `read_at` of Block.
-- - Ack (lading/src/generator/splunk_hec/acknowledgements.rs): `Ack/Channels` is `Channel` and
--   `Channels`, `Ack/Service` the loop of `AckService::spin` over the events that it selects, and
--   `ack_request` over what the request to the server comes to. Proofs: Retries.
-- - Observer (lading/src/observer/linux/procfs: memory.rs, memory/smaps.rs, stat.rs): `Observer/Tokens` is
--   `next_token` and what is used of `str` and of parsing numbers, `Observer/Smaps` is `Region`,
--   `AggrMeasure` and `aggregate_by_pathname`, `Observer/Regions` the parser, and `Observer/Stat` the
--   parser of stat.rs. Proofs: Measures, Totals, Command.
-- - Procfs (lading_payload/src/procfs.rs, procfs/proc.rs): `Procfs/Numbers` has the signed numbers, what
--   the `rand` crate draws of the primitive types, a parameter with their ranges, and the identifiers
--   and masks; `Procfs/Proc` is `State`, `Io` and `Statm`, `Procfs/Stat` is `Stat` and its generator,
--   `Procfs/Status` is `Status` with its text, the types of whose fields are in `Procfs/Masks`,
--   `Procfs/StoreBypass` and `Procfs/IndirectBranch`, `Procfs/StatusGenerator` its generator, and
--   `Procfs/Process` is `ProcessGenerator` and `fixed`, which take strings from the pool of Payload.
--   Proofs: Digits, Words and Fields, which read a written stat file with the parser of Observer,
--   Plausible and Generated.
-- - FileGen (lading/src/generator/file_gen/logrotate.rs): `FileGen/Disk` is the files by their names,
--   `FileGen/Child` is the names of a child, `write_bytes` and `spin`, `FileGen/Server` is
--   `Server::new`. `FileGen/History` is what a rotated log promises: a log that is written and those
--   that were closed. Proofs: Shift, Written and Named, which show that the files are the latest part
--   of the history, and Created.
-- - Prometheus (lading/src/target_metrics/prometheus.rs): `Prometheus/Strings` is what is used of `str`,
--   `Prometheus/Scrape` is `scrape_metrics` on the text of a response, with floats as a parameter.
--   Proofs: Splitting, Samples, Calls and Families, which read the lines of a metric that was written.
-- - ProcessTree (lading/src/generator/process_tree.rs): `ProcessTree/Tree` is the configuration and
--   `generate_tree`, `ProcessTree/Walk` is `spawn_tree` with `goto_next_sibling`, by the commands that
--   the processes run. Random strings and the choice of an executable are parameters. Proofs: Shape,
--   Walked.
-- - Codec (lading/src/codec.rs): `Codec/Decode` is `decode`, with the decoders of the libraries as a
--   parameter. Proofs: Encoded.
-- - Program (lading/src/bin/lading.rs): `Program/KeyValues` is `CliKeyValues`, with its regular expression
--   as a search, and `Program/Configuration` is `get_config` from the deserialized configuration on, with
--   the targets of lading/src/target.rs and the telemetry of lading/src/config.rs. The groups of options of
--   which clap takes exactly one are predicates on the options. Proofs: Labels, Displayed, Parsed.
-- Each part has its tests and witnesses in a module Tests; Payload has more of them in Examples
-- and TagTests, and Logrotate in Setups.
--
-- Integers. A `u64` or `usize` has 64 bits; the source's saturating operations saturate in the model
-- and its wrapping ones wrap. Counts of open handles, the sum of an offset and a length of a string
-- handle, and the values of memory regions and their sums are taken not to overflow. The sum of the
-- blocks of a cache as a `u32` panics where it overflows, as in a build with overflow checks, and
-- so does the capacity for the names of a rotated log, a `u8`.
--
-- Fuel. `read_at` has one round more than there are bytes to read, since each round reads a byte at
-- least; `fixed` ends within one round more than there are bytes and blocks that come out
-- empty, and results that do not need it hold for every fuel; `to_bytes` of the
-- plain text has one round more than there are bytes; the loop along the peers of a rotated file has
-- 257 rounds more than there are nodes, where no file is met twice. That the fuel of the last two
-- runs out counts as a panic. The payloads of lines, the frames and the OpenTelemetry requests have one
-- round more than there are bytes, fluent two more, and what is shown of trace_agent.rs holds for every
-- number of rounds. The search of datadog_logs.rs has one round more than there are members.
-- `generate_tree` has a round for each process, and the walk of a process one for each node. The search
-- for keys on the command line has a round for each character of the text.
--
-- Not modelled: I/O, the HTTP, gRPC and socket generators, the blackholes, metrics, the start of the
-- processes, and the random values that payloads hand to a serialization library. The other parsers of
-- procfs and of cgroup are not modelled either. Of the rotated files
-- it is the errors of the file system; of the Prometheus text what is not ASCII. Of the process tree
-- it is the reading of the configuration, the start of the helper program and the waiting for
-- processes.
pub mod Prelude
pub mod Throttle
pub mod Random
pub mod Block
pub mod Signal
pub mod Logrotate
pub mod Ack
pub mod Observer
pub mod Payload
pub mod ProcessTree
pub mod Procfs
pub mod FileGen
pub mod Prometheus
pub mod Codec
pub mod Program
