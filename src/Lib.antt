-- ===== src/Lib.antt =====
-- cachyDB, a key-value database engine in Python: the parts of its engine as functions, and what is
-- proved of them.
--
-- The engine and its model, file by file (paths from the repository's root):
--   src/cachyDB/index/btree.py: the in-memory index. BTree.antt has `BTreeNode` and the routines on
--     nodes (search_node is `_search`, find_node is `_find_node_and_index`, split_child, prepare and
--     insert_non_full are `_split_child` and `_insert_non_full`, in_order is `_in_order`), and
--     BTree/MemTable.antt the class `BTreeMemTable` over them. The children of BTree are about what the
--     pieces of a node contribute to the sorted entries (Flat, Sorted, Places, Effects), the shape
--     (Shape), and the operations (Search, Find, Prepare, Insert).
--   src/cachyDB/cache/cache.py: the LFU cache, in Cache.antt; its invariant is in Cache/Valid.antt.
--   src/cachyDB/pager/pager.py: the slotted page, in Pager.antt, with its methods' names (repack is the
--     second loop of compact, load_slots the loop of from_bytes). Pager/Valid.antt has the invariant and
--     the abstract view, the list of records by slot; View, Compact and Codec relate the methods to it
--     and Fetch to each other.
--   src/cachyDB/storage/table_handler.py: the file of pages, in Table.antt; the file is its bytes.
--   src/cachyDB/recovery/wal.py: the write-ahead log. Wal.antt has the buffer and the format of headers
--     and entries (write_batch is the part of _write_batch_to_disk on the open file), Wal/Disk.antt the
--     flush of the buffer and the marks, Wal/Recovery.antt what a start reads (read_wal,
--     restore_global_tx_id); its children are about what a write leaves for a reader (Writes, Older, Batch).
--   src/cachyDB/recovery/checkpoint.py: the archiving of log files, in Checkpoint.antt.
--   src/cachyDB/storage/router.py: the engine's core, in Router and its children. Router/Packing.antt has
--     _pack_record and _unpack_record, State.antt the state, _init_disk_index and _get_table_state,
--     Disk.antt _read_from_disk, Flush.antt flush_memtable_to_disk, Write.antt _set_internal and
--     set_many, Read.antt _get_internal and _get_raw_manifest, Chunks.antt set, get and shutdown.
--     Router/View.antt is the specification: the map from keys to values that the two memtables and
--     the pages with their index implement, and when the cache agrees with it.
--   src/cachyDB/database.py: the facade, in Database.antt, with the recovery from the log.
--   src/cachyDB/record/record.py: the encrypted record format, which the engine does not call, in
--     Record.antt.
-- The facade calls the router and the log. The router calls the tree, the cache, the table and the log.
-- The table file stores pages, the log and the checkpoint share the log's files: Table.antt calls the
-- page, Checkpoint.antt the log's format. Bytes.antt has bytes, slices, struct formats and the CRC.
-- Utf8.antt is the encoding of texts. Json.antt is the interface of Python's json module, with its laws,
-- and Json/Plain.antt an instance for concrete runs; Overflow in Router/Chunks.antt is that of zlib,
-- base64 and the manifests, Cipher in Record.antt that of ChaCha20Poly1305.
-- Base.antt holds the shared names: Python's lists, texts as lists of code points with their order,
-- dicts, and exceptions as the errors of a result.
--
-- Conventions. A method that changes an object returns the new object; a method that may raise
-- returns a `Result`; a method of the router, which may raise after it has changed the state, is an
-- `Exec` (Base/Exec.antt), the state with a result. A subtree has one owner, so it is a value, and the
-- place of a node is a path of child indices. Methods that run under a lock are one step.
-- Fuel: insert_non_full takes the height of the tree plus one, since each call goes one level down;
-- bisect_loop takes the length of the interval, which every step shortens.
-- In the chunks of a value, digits takes its number plus one and chunks_of the length of its bytes, one
-- more than the divisions, and no less than the slices, that they make.
-- The other loops follow a list or a count that the data gives.
--
-- Not modelled: the logging package, threads and timing (a flush runs as one step, when the code waits
-- for it or when the executor takes it), the file system's errors, the close of the facade, and the
-- compactor, which fails before it changes anything.
pub mod Database
pub mod Record
pub mod Base
pub mod BTree
pub mod Cache
pub mod Bytes
pub mod Pager
pub mod Table
pub mod Wal
pub mod Checkpoint
pub mod Utf8
pub mod Json
pub mod Router
