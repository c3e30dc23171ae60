-- ===== src/Lib.antt =====
-- CurioDB: a small SQL database. SQL text is lexed, parsed, planned and executed over tables that are
-- kept in memory or in a file of pages.
--
-- The parts and the files that model them. Types has src/types and include/curiodb/types: the data
-- types, the values, the order of doubles by their 64-bit patterns (Types/Double.antt), `operator<=>` and
-- `operator==` (Types/Order.antt). A C++ int64_t is an integer in range; `std::to_chars` of a double is a
-- parameter of `to_string`.
--
-- Storage/Serialization has src/storage/serialization.cpp. A `Reader` is the bytes not yet read with the
-- offset of the first; `read_u8`, `read_u32` and `read_u64` are `read_uint` at their widths.
--
-- Storage/SlottedPage has src/storage/slotted_page.cpp. A page is its 4096 bytes; an operation returns the
-- new page, and where it fails the page is the old one. `Defs` has the code, `Validity` what a page
-- holds, `Spec` the promise of the operations over the list of slots.
--
-- Catalog has src/catalog/catalog.cpp. A `std::unordered_map` is an association list (Prelude/Dict.antt).
-- Storage/Validation has src/storage/row_validation.cpp, and Storage/Memory has
-- src/storage/in_memory_table.cpp and in_memory_storage.cpp, where a predicate is a function of the row.
--
-- Storage/BufferPool has src/storage/buffer_pool.cpp over a disk manager that is an argument, the record
-- `DiskManager`; the map of the frames is a list of them, each with the number of its page, and what the
-- pool relies on is stated by `IsDisk` (Storage/BufferPool/Coherent.antt).
--
-- Storage/DiskManager has src/storage/disk_manager.cpp, which fills that argument. A `PageFile` is the file
-- with `page_count_`; `std::fstream` and `std::filesystem` are arguments, the records `FileStream` and
-- `FileSystem`. `Laws` takes what a stream does on a file that nothing else writes, `IsStream`, and has `IsDisk`
-- from it; `ByteFile` is a stream for which this holds.
--
-- Sql has src/sql/token.cpp, src/sql/lexer.cpp and include/curiodb/sql/ast.hpp. The scanner reads the list
-- of the bytes that are left. Sql/Parser has src/sql/parser.cpp: the tokens from `current_index_` on are
-- what is left to read, and a function fails with the error that is reported, or, if it reads past the last
-- token or runs out of rounds, with a failure that the source has no value for, or with the exception of
-- `decode_sql_string`. Each loop may make as many
-- rounds, and WHERE nest as deep, as there are tokens left. `std::from_chars` of a double is an argument.
-- Print and Sentences have the tokens that a statement is written with.
--
-- Execution has src/execution/operators.cpp and planner.cpp: a predicate is a function of the row, a shared
-- pointer to a plan is the plan, and the executor's choice between an index scan and a full scan is
-- `scanned_key` (Execution/Planner/Index.antt). Execution/Executor has
-- src/execution/statement_executor.cpp: a `Session` is what an executor refers to, the catalog and one of
-- the two storages. Each `execute_*` returns the session after it with its result; a SELECT may return
-- none, for an exception of `std::get` or a read outside a row, and an UPDATE in memory for the exception of
-- `Row::set`. `Copies` has the functions that statement_executor.cpp declares again. The disk storage is an
-- argument, the record `DiskOperations` of its operations. The reads `row[index]` of WHERE and of the check
-- for duplicates are not checked in the source; where a row has no value there, the model takes the test as
-- false.
--
-- A function carries the name of its C++ function; a loop or a block of one has a name of its own. Errors
-- carry the codes and the messages of the source. Loops are recursions on a list or on the number of
-- rounds left. Fuel is taken by the printing of a decimal numeral, one more than the number, which has no
-- more digits than that; by the scanner's main loop, one more than the bytes of the input, of which each
-- round but the last reads one; and by the parser's loops, as many as there are tokens, of which each round
-- but the last reads one.
--
-- Not modelled: the table heap, the B+ tree, the stored catalog and the disk storage, and
-- the moves of a page guard. The shell is terminal input and output.
pub mod Catalog
pub mod Execution
pub mod Prelude
pub mod Sql
pub mod Storage
pub mod Types
