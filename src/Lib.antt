-- ===== src/Lib.antt =====
-- A model of statsite, a daemon that aggregates metrics, and the theorems on it.
--
-- The daemon reads lines and binary commands from TCP, UDP and standard input into a circular
-- buffer per connection (src/networking.c). The connection handlers take commands out of that
-- buffer, and put the samples into metrics that they find by name in hash tables (src/hashmap.c).
-- Quantiles of a timer are estimated with two heaps (src/heap.c).
--
-- Base holds the numbers, lists and options that the parts share: Base/Tests the Boolean tests,
-- Base/Lists the lists over machine numbers, Base/Words arithmetic modulo 2 ^ 32 and 2 ^ 64. Memory
-- is a block of bytes with memcpy and memchr.
--
-- Circbuf is the `circular_buffer` of src/networking.c with each function on it under its own name;
-- Circbuf/Queue gives its contents as a list of bytes, the abstract view that the theorems of
-- Circbuf/Extract, Circbuf/Read and Circbuf/Write are about. Circbuf/Valid holds the invariant on
-- the cursors, and Circbuf/EndOfBuffer the one place that breaks it. Connection has the reads that
-- fill the buffer: `read_client_data`, and the receiving part of `handle_udp_message`. What readv and
-- recv return is an argument.
--
-- PriorityHeap is src/heap.c. The comparison function is a parameter, of which the theorems ask that
-- it is a total order, and so is the number of entries in a page. The loops are bounded by the index
-- that they start from, so they need no fuel that could run out.
--
-- Hashmap is src/hashmap.c. A chain is a linked list whose pointers may be null or freed, so that a
-- use of freed memory is a result of its own (`none`). The hash is a parameter, and the comparison of
-- keys one that decides their equality. `hashmap_put` calls itself after a resize and takes fuel for
-- it: two rounds are enough for any map in order. Hashmap/Bucket proves the operations of one
-- chain equal to those of a list of pairs, Hashmap/View reads a table as a map.
--
-- Radix is src/radix.c, the prefix tree that the configuration keeps for its histograms: nodes and
-- edges as a mutual pair of types, and the loops as recursion on the node that they stand at. `none`
-- is an index outside the array of edges. Radix/Insert reads an insertion as an update of a map, and
-- Radix/Longest compares `radix_longest_prefix` with a search for every prefix.
--
-- Hll is src/hll.c up to the estimate: the packed registers (Hll/Registers), the rank of a hash
-- (Hll/Leading) and the update (Hll/Add). SampleSet is src/set.c, an array of hashes that becomes such
-- a sketch when it is full.
--
-- Doubles is a record of the operations on `double` that the code uses; a development on doubles
-- takes it as a parameter. Counter is src/counter.c over it.
--
-- ConnHandler is src/conn_handler.c: the text protocol (ConnHandler/Ascii, with its strings in
-- ConnHandler/Text), the binary one and the choice between them (ConnHandler/Binary). A handler is
-- written over two interfaces, `Input` for the calls on a connection and `MetricsOps` for those on
-- the metrics. ConnHandler/Inputs gives two inputs: a queue of bytes, and the circular buffer, which
-- refines it; ConnHandler/Refine carries that over to the handlers, so that the other theorems are on
-- the queue. The loop takes fuel: a command that is handled takes bytes off the queue, so that one
-- turn more than there are bytes is enough (ConnHandler/Loop, ConnHandler/Rounds). A read behind the
-- end of a command is a verdict of its own (`overran`). ConnHandler/Numerals and ConnHandler/Wire
-- write out numbers and lines, and ConnHandler/Lines reads them back.
--
-- BinaryStream is the binary output of src/conn_handler.c: stream_bin_writer and
-- stream_formatter_bin over a pipe whose fwrite is a parameter. BinaryStream/Sink is a reader of the
-- format that README.md gives to sinks; BinaryStream/Readback, BinaryStream/Written and
-- BinaryStream/Roundtrip lead from the one to the other. BinaryStream/LongName is about a name that is
-- too long for the format.
--
-- CmQuantile is src/cm_quantile.c: the list of samples with its two cursors, which are indices of it,
-- and an interface for the two buffers, which CmQuantile/HeapBuffers fills with heaps of
-- PriorityHeap. CmQuantile/Insert and CmQuantile/Compress are its two passes, CmQuantile/Sketch the
-- calls on it, CmQuantile/Sound and the modules that end in Keeps what they keep true. The loops are
-- bounded by the number of values in a buffer or by the code's own count, which is their fuel;
-- `cm_flush` takes fuel of its own.
--
-- Timer is src/timer.c over an interface for src/cm_quantile.c. Metrics is src/metrics.c: a hash table
-- maps a name to a pointer into a store of structs (Metrics/Structs), and Metrics/StructLaws proves
-- that no two names share a struct. Metrics/Sampled and Metrics/Samples state what a sample changes,
-- Metrics/Histogram where it is counted, with the number of bins of src/config.c, and Metrics/Handler
-- puts the text handler on top of the metrics. What the bins need of the arithmetic of doubles is a
-- record of laws (IsGraded).
--
-- Numbers are natural: cursors, counters and indices of the code are never negative. Differences that
-- the code takes in unsigned types wrap in the model; the signed sizes do not overflow below the
-- bounds that the theorems name. Allocation succeeds. The heap's and the table's counters are not
-- bounded. Not modelled: the estimate of a HyperLogLog sketch, the text formatter of the
-- output, the swap of the metrics at the end of an interval and the rest of the configuration. Sockets, the event
-- loop, signals and the process that runs a sink only call the system, and are left out.
pub mod Base
pub mod Memory
pub mod Circbuf
pub mod Connection
pub mod PriorityHeap
pub mod Hashmap
pub mod Radix
pub mod Hll
pub mod SampleSet
pub mod Counter
pub mod Timer
pub mod CmQuantile
pub mod Metrics
pub mod Doubles
pub mod ConnHandler
pub mod BinaryStream
