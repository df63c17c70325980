-- ===== src/Lib.antt =====
-- GraphStreamingCC keeps the connected components of a graph whose edges come and go as a stream. It
-- stores no edge: every vertex has a supernode, a row of linear sketches of the vector of the edges
-- at it, and components are found by rounds that sample an edge from every component's supernode and
-- merge the supernodes that the edges join.
--
-- Parts, and how they interact:
--   * Util (src/util.cpp) codes an undirected edge as one number. A graph hands codes to its
--     supernodes and decodes what they sample.
--   * Bucket (include/bucket.h) is the pair of values that an index is added to by exclusive or, with
--     the tests of a bucket. Bytes is how a number lies in memory, which the hashes and files read.
--   * Sketch (include/l0_sampling/sketch.h, src/l0_sampling/sketch.cpp): Defs has the state, updates,
--     sums and comparison, Query the query, Io the binary form. Cells to Contents say which entries an
--     update writes and what the entries hold after a stream; Batch and Parity, that the order and
--     pairs of updates do not matter; Answers and Samples, what a query returns.
--   * Supernode (include/supernode.h, src/supernode.cpp): Defs has the state and all operations.
--     Represents defines what it means for a supernode to hold a stream, Streams shows that the
--     operations keep it, Sampling and Reset follow the query state.
--   * Forest is the parent array with path compression (get_parent in src/graph.cpp, find_set in
--     include/dsu.h); Dsu is the class of include/dsu.h.
--   * Graph (include/graph.h, src/graph.cpp): State has the state, a constructor and update; Update the
--     batches of the workers, Update/Ingest whole streams, Update/Cut what a set of vertices holds
--     together; Plan is supernodes_to_merge, which decides a round of merges; Rounds the loop of
--     boruvka_emulation, Components what is around it: copies, connected_components, files.
--     Plan/Sampled and Rounds/Sampled gather the edges that a round and a whole query sample,
--     Components/Linked is connectivity by edges, and Components/Answers what a query returns;
--     Rounds/Streams and Rounds/Ready follow the streams that the supernodes hold from round to round,
--     Rounds/Last is about the last round, Rounds/Throws and Components/Failures the exceptions;
--     Components/Restoring follows the supernodes through the copies, the merges and cleanup_copy;
--     Crossing is about what the supernode of a set of vertices samples.
--   * Workers (include/graph_worker.h, src/graph_worker.cpp): Threads has one worker and the loops over
--     all of them, System the steps of the workers and of the thread that starts, pauses, resumes and
--     stops them, Invariant what every reachable state keeps; Pausing, Progress, Exclusion and
--     LostWakeup are the consequences. The workers apply their batches by Graph/Update.
--   * Configuration (src/util.cpp) is configure_system: Text has what it uses of the string library,
--     Defs the settings and the lines that change them, Bounds the settings that can come out, and
--     Writing the file that the tests write (include/test/write_configuration.h).
--   * Streams (include/binary_graph_stream.h) is BinaryGraphStream, which reads the file of a stream.
--     Shared is BinaryGraphStream_MT with its readers, and Shared/Pool the threads that read one stream
--     together, in any order of their calls (tools/benchmark/graphcc_bench.cpp).
--   * Prelude, Bits and Arrays are shared: tests, lists under native indices, bitwise operations.
--   * Tests has concrete instances.
--
-- Exceptions are values (Exceptions). A step that C++ leaves undefined, or a failed assertion, is
-- `none` or the value undefined_behaviour. Integers are natural numbers with the wrap-around of the
-- source written out: u32 and u64 are the casts, and sketch indices are computed in 32 bits. The
-- static parameters of sketches and supernodes are a record Config, an argument of what reads them.
-- Parallel loops write disjoint objects and are sequences here.
--
-- From outside the repository come, as parameters (Platform): the widths of the id and index types, the
-- two hashes, and the operations on doubles. IsDocumented states the widths the source relies on. The
-- guttering system is the list of edges handed to it, and the batches it gives back are arguments; for
-- the workers it is a record of the operations they call (Workers/Guttering), with what the source says
-- of them as laws.
--
-- Threads: a step of a worker or of the calling thread is one access to what the threads share; only
-- the tests of shutdown and of paused after get_data found nothing are one step together. The
-- mutex is free when no worker stands at a place that holds it; what the calling thread does under the
-- mutex is one step, as nothing else may change then what it reads. A wait can end without a
-- notification, as the C++ standard permits. A batch is applied in one step: a worker builds its delta
-- in memory of its own, and supernodes are updated under their own mutex. While the workers are
-- stopped or paused, no new batch comes, and the caller leaves the graph holding its streams.
--
-- Fuel: a search for a root has one unit more than there are nodes, and a forest never needs more. The
-- loops over sketches, columns and guesses have a fixed number of rounds. The rounds of
-- boruvka_emulation have one unit more than there are sketches left to query in all supernodes: a
-- round that goes on has sampled a supernode, which uses a sketch up.
--
-- The failure factor of the sketches, which the source leaves at 100, is an argument of make_graph. The
-- constructors of a graph start after configure_system: its settings are arguments, and an exception of
-- its own is outside.
--
-- connected_components and write_binary start from the state after the guttering system was flushed
-- and the workers paused. A file is the list of its bytes.
--
-- Reading a shared stream takes as parameter the system call pread; the theorems assume that no read is
-- cut short, and two rounds of the loop are then enough.
--
-- The build modelled is the one without the macro VERIFY_SAMPLES_F, which adds calls of a verifier and
-- a flag that makes a query fail.
--
-- Not modelled: printing, the destructors, the random generators and verifiers of the tests, and the
-- programs under tools.
pub mod Prelude
pub mod Bits
pub mod Arrays
pub mod Platform
pub mod Util
pub mod Bytes
pub mod Bucket
pub mod Exceptions
pub mod Sketch
pub mod Supernode
pub mod Forest
pub mod Dsu
pub mod Graph
pub mod Workers
pub mod Configuration
pub mod Streams
mod Tests
