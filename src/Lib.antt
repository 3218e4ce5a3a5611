-- ===== src/Lib.antt =====
-- rawth, a key-value database in Go: a B+ tree in one file of 4096-byte pages, an engine that adds
-- deadlines to its keys, a query language, and servers for it.
--
-- The program's parts. internal/storage/pager.go keeps a file of pages, a buffer over them, a file
-- header and a list of free pages. internal/storage/btree.go keeps a B+ tree on these pages: nodes
-- are serialized to pages, leaves hold the entries and are linked from left to right, internal
-- nodes hold separator keys and page numbers. internal/storage/engine.go adds deadlines and
-- counters to the tree. internal/rql reads statements (lexer.go, parser.go) and runs them on the
-- engine (executor.go). internal/server takes statements from TCP lines, HTTP requests and
-- WebSocket frames, and cmd/rawth starts it all.
--
-- What is modelled. Base.antt: shared names, lists over the native numbers, and `Outcome`, a
-- result, an error, a panic or the end of the fuel. Bytes.antt: byte slices, little-endian words
-- (`binary.LittleEndian`), `bytes.Compare`, texts in UTF-8, decimal numerals. Storage/Node.antt:
-- `node`, `serializeNode`, `deserializeNode` and the sizes of nodes. Storage/Disk.antt: the file,
-- with calls that can fail at any time. Storage/Pager.antt: the methods of `Pager` under their
-- names in snake case. Storage/Store.antt: what the tree asks of its pages, as operations and
-- laws. Storage/Tree.antt: the methods of `BPlusTree`, over any such store; `put` is `Put`,
-- `insert_leaf` is `insertLeaf`, `adopt` is the end of `insertInternal`, `scan_leaves` is the loop
-- that `Keys` and `ForEach` share. Storage/PageStore.antt: `readNode` and `writeNode`, which make
-- the pager such a store. Storage/Entries.antt: the specification, a list of entries with
-- ascending keys. The files under Storage/Tree/ relate the two: Shape has the trees that pages
-- form, Contract the relation `Represents` between a database and its entries.
--
-- Storage/Engine.antt: the methods of `Engine` over the tree on the pager;
-- Storage/Engine/Deadlines has `visible`, the entries that are not dead at a time, which the
-- theorems of Reads, Writes, Restart, Lifetimes and Figures are about; Runs has sequences of calls
-- at rising times. Rql/Token, Rql/Lexer, Rql/Parser and Rql/Executor: the files of internal/rql
-- under their names; `read_quoted` is `readString` and `readSingleQuotedString`, `parse_key` is
-- `parseYoink`, `parseYeet` and `parsePeek`, `parse_word` the four statements without a key.
-- Rql/Lexer/Scan describes tokens without positions, Rql/Parser/Grammar the statements.
-- Server/Frame: `wsReadFrame` and `wsWriteFrame`, with the layout of a client's frame in
-- Server/Frame/Client; Server/Tcp, Server/Upgrade with Server/WebSocket, and Server/Http: one TCP
-- connection, one WebSocket connection, one request. Server/Tcp/Talks, Server/WebSocket/Converses
-- and Server/WebSocket/Exchanges describe the sessions, line by line, frame by frame and message
-- by message, with the executor's `Execute` but without the loops of the source. The modules named
-- Tests have the theorems at concrete databases and texts.
--
-- How it corresponds. A method that changes its receiver and returns an error is a function from a
-- state to an outcome and a state, and what was changed before an error stays changed. A Go slice
-- or string is a list of bytes, a `uint32` a number below 2 ^ 32 that the serializer reduces, a
-- map an association list. A missing element of a slice is a panic. The clock is an argument, in
-- nanoseconds since Go's zero time; a lifetime in seconds becomes nanoseconds with the wrap-around
-- of 64 bits. What Go's packages and the operating system answer is an argument too (`Platform`,
-- `Answers`). The source recurs from page to page without a bound; the model has fuel, and the
-- methods give it the number of pages of the database, more than the height of any tree whose
-- nodes stand on different pages of it. The lexer's loops have one step more of fuel than the
-- input has bytes, the WebSocket loop one more than bytes come.
--
-- What is not modelled: locks (the engine's lock holds through each method), the text of the
-- storage's error messages, package json, sockets, listeners and routing, and the entry point. The
-- theorems are about a file that does not fail; the definitions have the failing calls too.
pub mod Base
pub mod Bytes
pub mod Storage
pub mod Rql
pub mod Server
