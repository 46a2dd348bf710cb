-- ===== src/Lib.antt =====
-- The storage engine of the observer (miniob), a small relational database server, and the
-- containers it stands on.
--
-- Rows are stored in slots of pages of fixed size. A page
-- (src/observer/storage/record/record_manager.cpp) begins with a header and a bitmap of the
-- slots in use (deps/common/lang/bitmap.cpp). An index
-- (src/observer/storage/index/bplus_tree.cpp) finds the places of records by their keys. A
-- table (src/observer/storage/common/table.cpp) changes rows through the pages and reports each
-- change to its transaction (src/observer/storage/trx/trx.cpp), which logs it, marks the row
-- with its identifier, and calls the table back when it ends.
--
-- Prelude passes on the names all parts share: Boolean tests on numbers (Prelude/Tests), memory
-- as a function from addresses to bytes (Prelude/Memory), bits of a byte (Prelude/Bits) and
-- code that may leave defined behaviour (Prelude/Run). Rc has the return codes of
-- src/observer/rc.h that the modelled code returns.
--
-- Lang/Bitmap is deps/common/lang/bitmap.cpp, over the bytes of a memory: next_setted_bit and
-- next_unsetted_bit with their scan of bytes, and -1 as none; Lang/Bitmap/Bits,
-- Lang/Bitmap/Bytes and Lang/Bitmap/Search prove their theorems. Lang/LowerBound is lower_bound
-- of deps/common/lang/lower_bound.h, on fuel that is the length of the range, which each round
-- at least halves.
--
-- Record/Layout has the sizes and capacities, and Record/Page the class RecordPageHandler, both
-- of record_manager.cpp: a page is its header and the bytes of its frame, and an operation
-- returns a code and the page. Record/Page/Valid has the invariant and the view of a page as a
-- partial map from slots to records; the other children of Record/Page have one group of
-- operations each. A copy of a new record that goes on behind the data of the page is a fault.
-- The page is seen alone here: that the buffer pool is to dispose of it is a flag in the
-- answer.
--
-- Record/Scan has RecordPageIterator and RecordFileScanner of record_manager.cpp over a file
-- that does not change, with fuel above the number of pages and of slots in a page;
-- Record/Scan/Slots is about one page, Record/Scan/Fetch about the file, and Record/Scan/All
-- about a whole scan as the loop of Table::scan_record makes it, for a reader that succeeds.
-- The condition is a parameter (keep).
--
-- Trx is trx.cpp and trx.h: the log is a list of tables with a list of operations each, in any
-- order, and the identifier of a row is its bit pattern of 32 bits. Trx/Word is about that
-- field, Trx/Operations about the log as a map, and Trx/Steps about the three calls that log an
-- operation. Table has the operations of table.cpp that change a row or end an operation, and
-- the loops of Trx::commit and Trx::rollback; a row is at a place that is a table and a record
-- identifier. What the indexes and the commit log answer are parameters (delete_entries,
-- write_clog). Table/Commit and Table/Rollback say what the end of a transaction does to every
-- row.
--
-- Buffer is src/observer/storage/default/disk_buffer_pool.cpp: a store has the frames of all
-- files, the one used last in front, and the pages on disk; the operating system is a record of
-- answers (Env). Buffer/Cache has the frames as a map, Buffer/Frames the invariant and what a
-- page shows, Buffer/Flush the flush of a frame, Buffer/Room the loop of allocate_frame with
-- its rounds as a step relation (Evicts), on fuel that is more than the number of frames since
-- each round gives a frame back, Buffer/Pages (with Buffer/Fetch) get_this_page and
-- Buffer/Purge purge_page. Buffer/File adds the header of a file with its bitmap:
-- Buffer/File/Header its invariant and the iterator, and Buffer/File/Recover,
-- Buffer/File/Allocate and Buffer/File/Dispose the operations. lseek is taken to succeed; a
-- write that fails leaves anything in its page.
--
-- Index is the B+ tree of src/observer/storage/index/bplus_tree.cpp. Index/Key has the
-- comparison of keys, with the word of 32 bits for an int (src/observer/util/comparator.cpp,
-- RID::compare of src/observer/storage/record/record.h); the comparison of attributes is a
-- parameter, and Index/Key/Near takes compare_int for it on values from -2^30 to 2^30 - 1.
-- Index/Array has the moves of items within and between nodes, Index/Node the header and the
-- fields of a node, Index/Leaf the class LeafIndexNodeHandler and Index/Internal what
-- InternalIndexNodeHandler does within a node; Index/Leaf/Contents, Index/Leaf/Order,
-- Index/Leaf/Removal, Index/Leaf/Keys and Index/Internal/Order compare them with lists and
-- sorted lists. Index/Tree has the handler with the frames of its pages and the search for a
-- leaf; here the comparison of keys and the buffer pool are an interface (Env: the comparator,
-- for which the program has KeyComparator over compare_int, compare_float or the comparison of
-- CHARS; which pages can be fetched, what allocate_page answers), a frame has a dirty mark and
-- a count of pins, and dispose_page is recorded. Index/Scan has the steps of BplusTreeScanner
-- and the loop of get_entry, Index/Scan/Open the opening of a scanner (for attributes other
-- than CHARS) and get_entry, and Index/Scan/Chain is about the loop over a chain of leaves; a
-- null frame that is read is a fault. Index/Validate has the validation of nodes, of the links
-- between leaves and of a tree, with Index/Validate/Keys, Index/Validate/Place,
-- Index/Validate/Inner and Index/Validate/Below about the validation of nodes; its printing of
-- a tree is left out. Index/Insert and Index/Delete have insertion and deletion with splits,
-- redistribution and merging; their fuel is the number of levels. Index/Tree/Search,
-- Index/Insert/Room, Index/Insert/Split (with Index/Insert/Halves) and Index/Delete/Room are
-- about the operations on a search tree, by Index/Tree/Nodes, Index/Tree/Write,
-- Index/Tree/Keep, Index/Tree/Grow and Index/Tree/Shrink, which say what a change of one leaf
-- does to the tree. A size below zero, which the code excludes by assertions, is not modelled,
-- and the memory of a key is there. The theorems about ordered nodes and search trees assume
-- that the comparator is an order; compare_float is none, and compare_int is one only on values
-- that are near enough to one another. Their examples are over KeyComparator with compare_int
-- on such values. The theorems about insertion and deletion in a whole tree are about leaves
-- that have room and leaves that keep enough items; the split is taken on its own.
--
-- Clog is src/observer/storage/clog/clog.cpp, by which the storage engine logs its changes
-- before the pages are written, and Db::recover of src/observer/storage/common/db.cpp.
-- Clog/LogRecord has CLogRecord with its bytes; Clog/LogRecord/Copy has the image of a record
-- in the log and the copies of its parts, and Clog/LogRecord/Image the way back. Clog/LogBuffer
-- has CLogBuffer and the blocks of the file; offsets of blocks are counted in blocks, writes to
-- the file succeed, and the fuel of append_log_record counts its calls of itself, of which each
-- block takes at most two. Clog/LogBuffer/Total says what the log is, the data of the blocks in
-- the file followed by those in the buffer; Clog/LogBuffer/Append, Clog/LogBuffer/Rounds,
-- Clog/LogBuffer/Loop and Clog/LogBuffer/Flush are about one part of a record, one round, a
-- whole record and the flush. Clog/Manager has clog_append_record, with Clog/Manager/Durable.
-- Clog/Redo has CLogMTRManager and the redo of the changes by Db::recover; the tables are an
-- interface (Tables: is there a table of a name, what does it make of a change), and
-- Clog/Redo/Committed, by Clog/Redo/Marks, compares the redo with the list of committed
-- changes; Clog/Redo/Unfinished and Clog/Redo/Reused are about transactions that had not ended.
-- Clog/Recover reads the file by chunks of 8 blocks and the blocks by records, with fuel above
-- the number of records in a block and above the number of chunks; Clog/Recover/Whole is about
-- the whole records of a block, Clog/Recover/Spanning and Clog/Recover/Lost about records that
-- span two. The record that a caller logs comes from the pages and transactions above, but the
-- calls themselves are parameters there (write_clog).
--
-- Rc is a part of the enumeration. Threads are not modelled: the lock of the frame manager is
-- left out, and every operation runs alone. The linked list behind the cache of frames, the
-- opening and closing of files, the creation of the log file, the SQL layer and the server are
-- not modelled; jsoncpp and libevent are copies of other projects.
pub mod Prelude
pub mod Rc
pub mod Lang
pub mod Record
pub mod Trx
pub mod Table
pub mod Buffer
pub mod Index
pub mod Clog
pub mod Tests
