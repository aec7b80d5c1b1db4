-- ===== src/Lib.antt =====
-- LeafDB: a relational database in one file, in Python (leafdb/*.py). A statement is parsed to an
-- AST, planned, and executed over B+ trees whose nodes are the pages of a pager; a commit appends
-- the images of the pages it wrote to a write-ahead log, from which other sessions refresh and a
-- crash is recovered.
--
-- The files, and the code that each models:
--   * Bytes, Value: what the program uses of `struct` and of Python's values. Floats, `re`, utf-8,
--     `struct`'s doubles and str.lower are parameters (`Runtime`); `CodecLaws` states what is
--     documented of the codecs. zlib.crc32 is a parameter of the log.
--   * Prelude: lists and integers over native numbers; `Result` with Python's exceptions by class.
--   * File: a file as a size and bytes by position.
--   * Rows (leafdb/rows.py): encode_row, decode_row, coerce_value.
--   * Pager (leafdb/pager.py): BufferPool is Pager/Pool; Pager's methods have the source's names
--     without underscores. Pager/View is what a session sees of a page, Pager/Txn a transaction as
--     a sequence of get, write and allocate, and Pager/Calls says what such calls write to a page
--     without the pager (`last_write`). Pager/Disk is the data file page by page.
--   * Wal (leafdb/wal.py): _frame, append_batch, read_batches_from; Wal/Recover is recover.
--   * Durability: a pager's transactions through the log, and recovery after a crash. Its invariant
--     `IsLogged` is between transactions; that pages reach the data file before the next checkpoint
--     (eviction, flush) is not part of it.
--   * BTree (leafdb/btree.py): BTree/Codec is Leaf, Internal and node_from_bytes; BTree is search,
--     insert and upsert with the splits; BTree/Delete is delete with borrowing and merging,
--     BTree/Scan is range_scan, BTree/Bulk is bulk_load, vacuum and stats, and BTree/Leaves takes
--     a leaf as a map from keys. `find_leaf`, `insert_below` and `delete_below` are the loops and
--     recursions of search, _insert and _delete.
--   * FreeList (leafdb/freelist.py): FreeList and collect_tree_pages. FreeList/Tree
--     describes the pages of a tree (`Tree`) apart from the walk.
--   * Catalog (leafdb/catalog.py): TableMeta and Catalog, without save; load is in
--     Engine/Reload, with the reading of JSON as a parameter.
--   * Expr, Statement (leafdb/sqlparse.py): the nodes of expressions, walk_func_nodes, statements.
--   * Parser (leafdb/sqlparse.py): class Parser on a list of tokens, in the source's order of
--     methods; Parser/Expressions is parse_expression and what it calls, Parser/Select and
--     Parser/Statements the statements and scripts. The modules Ends below them and Parser/Fuel
--     are about fuel.
--   * Planner (leafdb/planner.py): flatten_and, _conjunct_tables, assign_filter_stages;
--     Planner/Access is build_select_plan and find_join_equi.
--   * Executor (leafdb/executor.py): Scope; Executor/Values is _eq, _order_cmp, _kleene and
--     arithmetic; Executor/Eval is eval_expr; Executor/Compile is compile_expr, its closures as
--     functions of the row parts and the aggregate environment; Executor/Aggregate is _accumulate
--     and the keys of groups and sorting. Executor/Join is _join, Executor/Group _aggregate,
--     Executor/Select run_select and _scan. Executor/Buckets is Python's dict of lists, by a test
--     for equal keys; that a NaN is found in a dict by its identity is not modelled. `list.sort` is
--     a stable insertion sort.
--   * Engine (leafdb/engine.py): Database's begin, commit, rollback, checkpoint and
--     refresh_from_wal, with the log and its published end shared by the sessions. The tables and
--     indexes in memory are of any type, and reading them from the pages is a parameter, which
--     Engine/Reload gives as Catalog.load, scan_table and _rebuild_indexes.
--     Engine/Tables is CREATE TABLE and Engine/Drop DROP TABLE, on the catalog and the pages;
--     saving the catalog is a parameter.
--   * Tests: runs on concrete inputs.
--
-- State is passed explicitly: a method of Pager or BTree takes a `Pager` and returns it. A method
-- that raises returns the exception's class; the state that it leaves behind is not kept.
--
-- Fuel: the loops over the log have fuel for one round more than the log has bytes, and a round
-- takes at least the sixteen bytes of a frame's header. The walks down a B+ tree take fuel as an
-- argument, and a chain of pages that is longer is the error `out_of_fuel`. The parser's loops and
-- nestings have fuel for two more than there are tokens.
--
-- Not modelled: the tokenizer, the engine's statements (INSERT, UPDATE, DELETE, CREATE and
-- DROP INDEX; what the executor calls of the engine is the record `Database`), its locks and caches,
-- BTree.check, the catalog's JSON, the C++ core of native/, the shell, the web front end and the
-- benchmarks. Also left out: message texts, fsync and file handles, the regular-expression cache,
-- EXPLAIN texts, and what an exception in the middle of `recover` leaves in the data file.
--
-- The operations of BTree load nodes without the node cache of _load: a node is what its page's
-- bytes say. BTree/Cache is _load with the cache. The code's cache goes by the identity of the bytes
-- object and its nodes are changed in place, so after a rollback, which puts old bytes objects
-- back, the code can differ from the model.
pub mod Prelude
pub mod Bytes
pub mod Value
pub mod Rows
pub mod Catalog
pub mod Expr
pub mod Statement
pub mod Durability
pub mod Executor
pub mod File
pub mod Wal
pub mod Pager
pub mod Parser
pub mod Engine
pub mod Planner
pub mod BTree
pub mod FreeList
pub mod Tests
