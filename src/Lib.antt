-- ===== src/Lib.antt =====
-- Cantal is a monitoring agent. Every two seconds it scans the machine and the files that
-- applications publish, keeps what it read as a compressed in-memory history, answers queries over
-- that history, and exchanges what it knows with its peers. This library verifies the history store,
-- the query engine that reads from it, the protocol by which agents find one another, the
-- subscriptions of web clients, and the loop of the scanner that feeds the store.
--
-- The program's parts and the files that model them:
-- - cantal_history/src/deltabuf.rs, `DeltaBuf`, the byte string that holds the differences of an
--   integer metric: History/DeltaBuf. `push`, `truncate`, `deltas` and `next` have the names of the
--   methods; the loops of `push` are `push_gaps` and `push_groups`, its branch for a zero difference
--   is `push_zero`, and `_truncate_bytes` is `truncate_scan`. DeltaBuf/Decode gives the meaning of
--   the bytes independently of the iterator, as a list of deltas.
-- - cantal_history/src/backlog.rs, `Inner` with its buffers and iterators: History/Inner. The trait
--   `ValueBuf` is a record of its two methods, filled for `DeltaBuf` and for the deque of floats.
-- - cantal_history/src/backlog.rs, `Value` and `Backlog`: History/Backlog. A hash map is an
--   association list without duplicate keys, and a panic (`assert!`, `unreachable!`) is `none`.
-- - cantal_history/src/lib.rs and key.rs, `Key`: History/Key, the encoded bytes of a key and their
--   equality; History/Key/Pairs has `from_iter`, `get_with` and the decoding of keys.
-- - cantal_values/src/lib.rs: `Value` is in History/Values, the rest in Metrics: `Metadata::read` in
--   Metrics/Descriptors, with what it does to texts in Metrics/Parse, and `read_data` in
--   Metrics/Reading. Opening a file, its `stat`, JSON, and the making of floats and texts from bytes
--   are parameters.
-- - cantal_history/src/tip.rs and `History` of lib.rs: History/Tip.
-- - cantal_history/src/tstamp.rs: History/Timestamps. cantal_history/src/chunk.rs: History/Chunk.
--   cantal_history/src/merge.rs: History/Merge.
-- - cantal_query/src/rule.rs and dataset.rs: Query/Rule and Query/Dataset.
-- - cantal_query/src/query.rs, `extract_single` and `extract_multi`: Query/Extraction. An iterator
--   over a history is collected before the adaptors work on it.
-- - cantal_query/src/condition.rs: Query/Condition, with the regex library as a parameter.
-- - cantal_query/src/functions/sum.rs and derive.rs: Query/Functions and Query/Functions/Derive.
-- - cantal_query/src/query.rs, `query_history`, functions/mod.rs, `exec`, and `sum_by` of
--   functions/sum.rs: Query/Run. A hash map of groups is in the order of first occurrence.
-- - src/id.rs: Gossip/MachineId. src/gossip/mod.rs and config.rs: Gossip/Config. src/gossip/peer.rs:
--   Gossip/Peer, with the clock that a method reads as an argument.
-- - src/gossip/info.rs and the packets of proto.rs: Gossip/Info. src/gossip/public.rs: Gossip/Public.
-- - src/gossip/proto.rs, `Proto`: Gossip/Proto has its state and its commands,
--   Gossip/Proto/Hearing what it does with packets, and Gossip/Proto/Timers what it does as time
--   passes, and the rounds of the loop in `poll`. The methods keep their names; `entry`,
--   `hear_ping`, `hear_pong` and `apply_friend` are parts of `consume_gossip` and
--   `apply_friends`. What it sends, triggers and stores is a list or a count in the state.
--   Clocks, random choices and the texts of addresses are a record of functions (`Env`), whose
--   readings are numbered by the state; a lock is held for each part that reads or writes the
--   table of peers, and all of these run on one thread.
-- - src/incoming/mod.rs: Incoming, with the connections in a store that all who have one share.
--   dispatcher.rs: Incoming/Dispatcher. channel.rs: Incoming/Channel. The libraries that read
--   messages and parse and run queries are parameters, and what is sent to a client is a list. A
--   connection whose token is dropped sends no frames any more.
-- - src/scanner.rs: Scanner, one round of `scan_loop` as a step on its variables and on what it
--   writes of the shared statistics; what the readers of the machine give is an argument, and so is
--   whether the lock of the statistics can be taken.
--   src/storage.rs: Storage.
-- - src/carbon/util.rs and appmetrics.rs: Carbon, with what is sent as a list.
--
-- A backlog holds for each key a `Value`, which is an `Inner`: the newest value, the age (the
-- number of the scan) at which it was read, and a buffer of what was before. `Backlog::push` gives
-- every metric of a scan to `Inner::push`, which gives the old and the new value to the buffer;
-- reading goes through `Inner::history`.
--
-- Numbers: u64 and i64 are 64-bit patterns (History/Word), and additions, subtractions and shifts
-- wrap at 2 ^ 64 as the release build does. f64 is a parameter (History/Float): a type with a NaN
-- and the operations that the source uses. The CBOR library is a parameter too (`Cbor`), of which the
-- theorems on keys assume that its decoder reads what its encoder wrote (`IsCodec`) within the
-- limits of `Config::default()`, with which the source makes every decoder of keys: 1000 pairs in an
-- object and 5242880 bytes in a text. Texts are UTF-8 (Common/Utf8).
--
-- Bounds and fuel: the loops over bytes are structural. The loop that writes groups of seven bits
-- has ten rounds, of which a word needs at most nine. The loop that writes gaps has as many rounds
-- as missed scans, and a round covers at least one. Collecting an iterator takes a number of calls
-- that is at most 31 a byte, and one more than it yields are enough. The loop that tries new hosts
-- again has as many rounds as the attempts that its hosts have left, and one. Ages are at most 2 ^ 63 apart,
-- since the source casts a difference of ages to i64.
--
-- Not modelled: the `info` methods, which only report sizes; encoders that macros write; input and
-- output, such as the bytes and the size of packets; and the parts of the program around these
-- (the readers of /proc and of cgroups, the HTTP frontend, the rest of the carbon sender, the
-- Python and JavaScript parts).
pub mod Carbon
pub mod Common
pub mod Gossip
pub mod History
pub mod Incoming
pub mod Metrics
pub mod Query
pub mod Scanner
pub mod Storage
