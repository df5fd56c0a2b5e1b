-- ===== src/Lib.antt =====
-- KiteSQL stores rows, indexes and its catalog in an ordered key-value store. A query on a column
-- becomes ranges of values, the ranges become bounds on keys, and the rows that a scan of the bounds
-- yields are decoded from their bytes. This library models that path: values and rows as bytes
-- (src/types), predicates as ranges (src/expression/range_detacher.rs), and keys and bounds
-- (src/storage/table_codec.rs); and the sketch that estimates how many rows a range yields.
--
-- Prelude: the shared names; Prelude/Results is `Result<_, DatabaseError>` of src/errors.rs with a
--   panic as an outcome of its own, Prelude/Int the signed machine integers over natural numbers,
--   Prelude/Bytes and Prelude/Bits lists of bytes and exclusive or.
-- Types/Logical: `LogicalType` of src/types/mod.rs; Types/Logical/Combine its implicit casts and the
--   combination of two numeric types.
-- Types/Bytes, Types/Utf8: what the code uses of byteorder, `Cursor` and `String`: words in both byte
--   orders, reads that fail at the end, the validity of UTF-8, padding and trimming by blanks.
-- Types/Value: `DataValue` of src/types/value.rs with `eq`, `partial_cmp`, `logical_type`;
--   Types/Value/Raw has `to_raw` and `from_raw`, Types/Value/Memcomparable has
--   `memcomparable_encode` and `encode_bytes`; RoundTrip and KeyOrder are their proofs.
--   Types/Value/Cast is `cast` from NULL, booleans and integers with `check_len`, the casts of other
--   values being an argument.
-- Types/Tuple: `serialize_to`, `deserialize_from` and `primary_projection` of src/types/tuple.rs. Below
--   it Bitmap is about the null marks, Written and Read about the two loops, RoundTrip about both.
-- Expression/Range: `Range` and the merges of src/expression/range_detacher.rs, and `scans`, which
--   cells a range yields. Order has the laws of a column's order and Column the columns that obey
--   them; Scope, Point and OrPoint are the cases of Merge.
--   Detach has `new_range`, the range of one comparison.
-- Types/Evaluator: `EvaluatorFactory` of src/types/evaluator/mod.rs. Numeric has the macro's
--   evaluators on machine integers, Time those of time32.rs with `pack` and `unpack` of value.rs,
--   Machine what the evaluators read of a value and ask of the crates, Eval `binary_eval` and
--   `unary_eval` with the other files. Soundness, Words, Clock, Kleene and Filter are about integers,
--   times, booleans, and comparisons against the ranges that replace them.
-- Serdes: `ReferenceTables` and `ReferenceSerialization` of src/serdes; Scalars, Containers and Columns
--   have the implementations, Names is about the tables of names.
-- Execution/Sort: `radix_sort` of src/execution/dql/sort.rs; Passes is about one pass, Stable about all.
-- Execution/Aggregate: the accumulators of src/execution/dql/aggregate with create_accumulators, and
--   `execute` of simple_agg.rs from the values of the calls' arguments. Column and Update are about
--   one column, Summary about the executor.
-- Execution/Limit: `Limit` of src/execution/dql/limit.rs as a function of the rows of its input.
-- Utils/Lru: `LruCache` of src/utils/lru.rs, its nodes in a store. Chain is about the links that
--   `detach` and `attach` change, Expelled about the order that `put` leaves, Invariant and Put
--   about the operations of the cache.
-- Storage/TableCodec: keys and bounds of src/storage/table_codec.rs with `Index` of src/types/index.rs
--   and the range that `eq_to_res` of src/storage/mod.rs builds. Bounds is about ranges of bytes,
--   Prefix about what an encoding leaves in front, Keys about what each key begins with, Scans about
--   what each bound holds, Lookup about row keys and index equality.
-- Storage/Transaction: `Transaction` of src/storage/mod.rs on a store of keys and values. Store is
--   about a store that does not fail, Drop about what removals leave, with the scans of TableCodec,
--   Rows about rows under their keys, Unique about unique indexes.
-- Storage/Iter: `TupleIter` and `IndexIter` of src/storage/mod.rs with the loops over them of
--   src/execution/dql/seq_scan.rs and index_scan.rs, whose rounds are counted; Scan and Stream show
--   that one round more than there are rows is enough.
-- Execution/NestedLoopJoin: `NestedLoopJoin` of src/execution/dql/join/nested_loop_join.rs, which yields
--   a sequence of rows and an end. Emit is about the row of a pair, Rows about the condition on a
--   pair, Loops and Joined about the loops, Indexes and Full about the bitmap of a full join.
-- Optimizer/CmSketch: `CountMinSketch` of src/optimizer/core/cm_sketch.rs, by which the optimizer
--   counts the rows of a value. Rows is about its loops, Estimate about a sequence of increments.
--
-- Machine words stand as natural numbers below their range, signed ones as integers with a
-- bound; floats stand by their bit patterns and texts by their bytes. The crates' functions are
-- arguments: the comparison of floats and decimals and the wire format of decimals (`Foreign`),
-- RocksDB (`KeyValue`), fixedbitset (`BitSet`), `sip_hash`, the hashes of the sketch, the key of a
-- decimal (`serialize_decimal`), bincode, and the arithmetic of floats and decimals, chrono's
-- instants and regular expressions (`Machine`). The cache of tables is an argument of `drop_table`,
-- the evaluation of expressions one of the join.
-- The cast of a value to an index's type is an argument of the iterators.
-- Every loop is a recursion on the list or the count that it walks; no fuel is used but the rounds of
-- the two loops over iterators, those of `digits` (Types/Value/Cast/Text shows them enough), the
-- number of groups in `encode_groups`, which is the number of rounds of the loop, and the six rounds
-- of `carry` and `borrow`, which are enough for any `u32` of nanoseconds. An overflow of `-value`
-- and of a count is the panic of a build with overflow checks, `unreachable_unchecked` a panic. The bump
-- arena is left out, since nothing reads an allocation after it was released.
--
-- Of the debug assertions, that of `SumAccumulator::new` is a panic and that of `range` in
-- src/storage/rocksdb.rs, that the bounds share a prefix, is asked for by the store's law; those of
-- src/types/tuple.rs, of the octets in src/types/value.rs and of the sketch's width are left out.
--
-- Not modelled: the binder and the parser (over the types of the crate sqlparser), the planner,
-- the rest of the optimizer and of execution, the functions, the catalog, the serialisation of
-- columns that reads the catalog and the derived one, RocksDB, the server; in src/types the casts
-- of floats, texts, dates, decimals and tuples; in src/expression the expressions
-- themselves and the rest of the detaching of ranges from them.
pub mod Prelude
pub mod Types
pub mod Expression
pub mod Storage
pub mod Optimizer
pub mod Serdes
pub mod Execution
pub mod Utils
