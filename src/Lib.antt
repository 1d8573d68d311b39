-- ===== src/Lib.antt =====
-- GraphStreamingCC keeps the connected components of a graph whose edges come and go as a stream.
-- This library models its C++ code and proves it.
--
-- The parts and how they interact. The driver (include/graph_sketch_driver.h) hands each update to
-- CCSketchAlg::pre_insert, which keeps an eager forest in a DisjointSetUnion_MT, and then to the
-- gutters. Worker threads (include/worker_thread_group.h) take batches of one vertex from the
-- gutters and call apply_update_batch, which adds them to the vertex's Sketch by way of a delta
-- sketch of the thread. A query whose answer is not cached flushes the workers and runs Boruvka
-- rounds (src/cc_sketch_alg.cpp): each round samples an edge of every component from its sketch,
-- and merges the ends in the disjoint sets. The answers are the types of src/return_types.cpp.
--
-- Files and code:
--   Prelude: shared names, tests, lists, xor and bit fields. No code of the repository.
--   Util: src/util.cpp, the indices of edges. Words keep their wrap-around, % 2 ^ 32 and % 2 ^ 64;
--     the square root is the whole part of the exact one.
--   Bucket: include/bucket.h. Buckets form a group under exclusive or (Bucket/Group).
--   Sketch: include/sketch.h and src/sketch.cpp; Update the two forms of update, Sample sample and
--     exhaustive_sample, Merge the merges and zero_contents, Fresh the empty sketches. A Sketch
--     record has a Shape, the fields that never change, sample_idx and the array of buckets.
--   Binary: the bytes of words in a file; Sketch/Binary is serialize and the constructor that reads,
--     Cc/Binary write_binary and construct_from_serialized_data.
--   Config: src/cc_alg_configuration.cpp and src/driver_configuration.cpp, the setters.
--   Dsu: include/dsu.h. One state for both classes; merge_mt is the thread-safe merge as a sequence
--     of attempts, with a list that says which compare-and-swap fails without a cause.
--   Graph: the edges that a stream leaves, and the walks in them. Independent of the code.
--   Cc: include/cc_sketch_alg.h and src/cc_sketch_alg.cpp: the state, pre_insert, the batches;
--     Stored the stored forest, Eager the eager forest, Ingest the batches, Direct the calls around the
--     worker threads, Query sample_supernode, run_round_zero and the start of boruvka_emulation,
--     Partition the division among threads, Round merge_global and perform_boruvka_round with a
--     record for each thread, Instructions create_merge_instructions, Boruvka the loop of
--     boruvka_emulation and the queries, with their exceptions as values.
--   Components: src/return_types.cpp and include/return_types.h.
--   Driver: include/graph_sketch_driver.h, process_stream_until, prep_query and batch_callback.
--     process_stream_until takes the buffers of each stream thread and a list of events, which are
--     the updates of stream threads and the batches of workers in the order in which they happen.
--     prep_query is a relation: a flush of the gutters, and the batches of the workers until
--     flush_workers returns. Incident says what the sketch of a vertex is to hold, Pending what the
--     gutters still hold of it, Shuffles that their order does not matter, Refines that the steps of
--     the driver keep the two together; Buffers and Threads are about one stream thread, Stream about
--     all of them, Prepare about prep_query and Whole about both calls, one after the other;
--     Construct is the constructor.
--   Workers: include/worker_thread_group.h, the worker threads as a step relation, with
--     batch_callback of include/graph_sketch_driver.h. A step reads at most one flag that others
--     set. The state of the sketching algorithm and its apply_update_batch are a parameter. Flush is
--     about what a flush leaves, Hang and Stale about two of its races.
--   Tests modules: runs on small inputs.
--
-- Parameters. The hash functions of xxhash are the record Hashes, without any assumption. The
-- gutters are the record GutteringSystem, whose laws say that get_data hands out what was held and
-- returns false only when nothing is held. For the driver they are the record Gutters: what they
-- hold for each vertex, which an insertion adds to, a batch takes from and a flush leaves. The stream
-- is the list of the buffers that get_update_buffer gives to each thread. Random priorities, the number of samples (floating
-- point) and the order of a parallel loop are arguments.
--
-- Doubles are the words that hold them; the test that a setter makes of one, the constant 1 and
-- calc_cc_samples and a product are the record Doubles, which assumes that 1 is above zero.
--
-- Fuel and bounds. The loop of find_root has the number of items plus one as fuel, and the theorem
-- says that it ends, as every parent outranks its child. The count of trailing zeros goes through
-- the 64 bits of a word, the logarithm of a length through 64 powers of two.
--
-- A round of threads takes a schedule, a list of the threads in the order of their steps; what the
-- schedule leaves out runs after it, so every run is that of some schedule. boruvka_emulation has
-- fuel for two rounds more than a sketch has samples, as a sketch whose samples are used up throws. An
-- access out of bounds has no result in a round, and neither has a find_root that does not come to
-- an end; a query then has the result no_result.
--
-- A double of get_ith_partition is a mantissa of 53 bits and a scale, rounded to the nearest with
-- halves to even; 128 steps reach the scale of any quotient of 64-bit numbers. The binary search has
-- the number of instructions as fuel, and the theorem says that it is enough.
--
-- The product of calc_vector_length is rounded to 53 bits as a double is. The conversion of log2(0) in
-- calc_bkt_per_col, which the language leaves undefined, is taken as 1.
--
-- Locks. A piece of code that holds a lock for all that it changes is one step. A parallel loop
-- runs its iterations in any order. A merge of two items that are not in the graph, which the code
-- would read out of bounds, has no result.
--
-- An apply_update_batch of a vertex without a sketch, or of a thread without a delta sketch, is an
-- access out of bounds, which is a result of its own.
--
-- Not modelled: the clocks of the driver, the graph verifier of the
-- tests, the tools, and printing.
pub mod Prelude
pub mod Util
pub mod Binary
pub mod Bucket
pub mod Sketch
pub mod Config
pub mod Dsu
pub mod Components
pub mod Workers
pub mod Driver
pub mod Graph
pub mod Cc
