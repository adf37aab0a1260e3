-- ===== src/Lib.antt =====
-- Aether-Stream: a message broker in one process, with an optional write-ahead log.
--
-- A program publishes values into a bounded queue and consumes them from it. The queue is a lock-free
-- ring for one producer and one consumer; `Broker` and `BatchBroker` put statuses and counters in
-- front of it. `PersistentBroker` first appends the bytes of each value to a log in a memory-mapped
-- file, and only then queues it; after a crash the log is replayed. The files and what they model:
--
-- Core: include/aether/core/{status,expected,types,config}.hpp, src/core/status.cpp and the
-- validation of src/broker.cpp. A `Status` is its code and detail; an `Expected` is a value or a
-- status; a number of `w` bits is a natural number, and what wraps is written out.
-- Metrics/Counters: include/aether/metrics/counters.hpp and snapshot.hpp. Each atomic counter is a
-- number that wraps at `2 ^ 64`.
-- Metrics/Histogram: src/metrics/latency_histogram.cpp. The arithmetic of `double` is a parameter, the
-- record `Doubles`; the laws of IEEE 754 that `percentile` relies on, which hold of ordered values,
-- are a hypothesis of its theorem. A cast that is not defined, as that of a NaN, is `none`.
-- Utils: include/aether/utils/spin_wait.hpp and thread_utils.hpp.
-- Ring: include/aether/spsc_ring_buffer.hpp. A slot is `some x` while an object lives in it; reading
-- or destroying what is not there is `none`, which stands for undefined behaviour. `try_emplace` is
-- given the value that its arguments construct. Ring/Threads takes both calls apart into their
-- loads, stores and slot accesses: a schedule says whose access is next. Each counter has one
-- writer, and its stores are release stores read by acquire loads, so one memory is enough; the
-- weaker orders of other code are not modelled.
-- Broker and Batch: include/aether/broker.hpp and batch_broker.hpp, each call with its statuses and
-- counters. The copying and the moving overload of a call are one definition.
-- Io: include/aether/io/mmap_file.hpp and src/io/mmap_file.cpp, without the branches for Windows.
-- The system calls and the clock are a parameter, the record `Os`, and act on a world that the
-- model does not look into. A mapping is the list of its bytes, which stores change at once; what
-- is on the disk before a flush is not modelled.
-- Io/Mmap/Ledger gives a file an operating system that counts descriptors and mappings, and the calls
-- that failed to give one back.
-- Wal: include/aether/wal, src/wal and include/aether/message.hpp. Record has the header and its 40
-- bytes, Checksum the CRC-32, Writer and Reader the two classes. Wal/Log says what the bytes of a
-- log mean: entries one behind the other, then zeros or damage.
-- ZeroCopy: include/aether/zero_copy_spsc.hpp. The queue is a ring with a flag, a reservation names its
-- slot; Protocol says what a client with one reservation variable sees, Session runs its calls.
-- `construct` has no test that there is a reservation: without one it is undefined behaviour, and
-- not to call it then is up to the client.
-- ZeroCopy/Threads takes the calls apart into accesses as Ring/Threads does, and shares its consumer.
-- Persistent: include/aether/persistent_broker.hpp. A trivially copyable type is a parameter, its
-- bytes and the copy back.
-- Cli: include/aether/cli/args.hpp and src/cli/args.cpp. A text is the list of its codes.
-- Apps: apps/aether_inspect_wal.cpp, aether_replay.cpp, aether_sub.cpp, aether_pub.cpp and
-- aether_bench.cpp, by the numbers that they print and their exit codes. A price is the number of its
-- quarters; in a log the type of the events is a parameter, and what aether_pub asks of the file
-- system is another. The times that aether_bench takes, and its file, are left out;
-- whether `create_directories` returns or throws is its parameter.
-- Tools/Stress: tools/stress_spsc.cpp. For it and aether_bench a schedule says which of the two threads
-- makes the next round of its loop; the accesses inside a call are those of Ring/Threads.
-- Common has the shared helpers, Tests the concrete inputs.
--
-- The loop of `replay` runs on fuel, one more than the bytes that are left: a record takes at least
-- 40. The loops of the parsers run on fuel, the number of arguments: a round moves on by at least
-- one. The loop of `destroy_remaining` runs on the capacity. The loops of the programs over a log run
-- on fuel, one more than the bytes of the file. All other loops are structural.
--
-- Not modelled: the clock, affinity and layout headers, which wrap the platform; the benchmarks,
-- which measure times; the examples and the tests. Exceptions that a constructor of the value type
-- throws are left out.
pub mod Common
pub mod Core
pub mod Metrics
pub mod Ring
pub mod ZeroCopy
pub mod Utils
pub mod Apps
pub mod Tools
pub mod Broker
pub mod Batch
pub mod Io
pub mod Wal
pub mod Persistent
pub mod Cli
pub mod Tests
