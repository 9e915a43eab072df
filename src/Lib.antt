-- ===== src/Lib.antt =====
-- Verification library of Redon, a key-value store with a write-ahead log, a disk engine, replication,
-- leader election and sharding (src/*.h and src/*.cpp).
--
-- A client's line reaches src/server.cpp, which either runs it here by `execute_line` of
-- src/command.cpp or, on a router, forwards it to the shard of its key (src/router.cpp). A command
-- calls the store of src/storage.cpp, which logs to src/wal.cpp before it changes its cache, or hands
-- everything to the disk engine of src/disk_store.cpp, and queues each write for the followers
-- (src/replication.cpp), where a follower runs it as a client's line. In a cluster src/raft.cpp elects
-- the node that takes writes. The gateway of src/web.cpp hands a browser's command to the server.
--
-- Which file models what:
--   Prelude         shared types, Boolean tests, lists over the native numbers
--   Text            whitespace, decimal numbers, `std::stol`, addresses and words
--   Stream, Output  the standard streams: reading a file's bytes, and writing and opening files
--   Assoc           the hash maps, as association lists
--   Wal             src/wal.cpp: `encode` is the bytes of `append_set` and `append_del`, `read_record`
--                   one round of the loop of `replay_into`, `replay_loop` the loop
--   Disk            src/disk_store.cpp; Disk.Recover is `recover`, `compact` and the constructor
--   Storage         src/storage.cpp, one function per method; Storage.Replay is `replay_into`
--                   and Storage.Snapshot `snapshot_locked`
--   Replication     src/replication.cpp: the wire lines, the queues and the locked regions of
--                   `sender_loop`; Replication.Sender has them as steps, among the leader's commands
--                   and the lines that the follower runs, and Replication.Lines what a line does there
--   Command         src/command.cpp: `execute_line`, with what it changes by its pointers as `World`
--   Raft            src/raft.cpp: one function per region that holds the mutex; Raft.Election is the
--                   loops that talk to the peers, Raft.Cluster all nodes together, with every locked
--                   region of any node as a step of a step relation
--   Router          src/router.cpp
--   Server          src/server.cpp: the tokenizer and the routing; Server.Setup is the start of `run`,
--                   Server.Accept its accept loop, Server.Client `handle_client`
--   Web             src/web.cpp: the request, the routes and the response, one function per function or
--                   loop; Web.Json has a reader of JSON literals to compare with
--   Main            the command line of src/main.cpp
--   Metrics         the counters of src/metrics.cpp
--   ThreadPool      src/thread_pool.cpp, with the threads' acts as a step relation
--   Tests           the theorems at concrete inputs
--
-- How the code is read. A class is a record, a method a function from the old state to the new one
-- and the result; the mutex of a class makes each method, or each locked region, one step. Bytes are
-- natural numbers. A node of the list has an id for its address, and an iterator is that id. Failures
-- of the operating system are data: the outcomes of coming flushes, with the bytes that reached the
-- file, and of coming opens, renames and resizes. The network is a parameter: what a peer answers, or
-- the pieces that `recv` returns. A `long` and a `size_t` have 64 bits and an `int` 32; the term of a
-- node is a natural number, since it starts at 0 and only grows, and its increment at 2 ^ 63 - 1,
-- which is undefined in the source, is not bounded here.
--
-- Fuel. The loops over a file's bytes have the number of bytes as fuel, since each record takes a
-- byte at least; the eviction loops have the size of the index, since each eviction shrinks it; the
-- words of a line and the lines of a buffer have its length.
--
-- The sender of src/replication.cpp. The sockets decide which steps happen: a line is on the wire when
-- it was sent, is run later or never, and a connection may end at any point, with its lines still to be
-- run by another thread of the follower. The store of the leader that a follower agrees with is the
-- in-memory one; the follower has no bound and no log of its own.
--
-- Not modelled: the listening socket of src/server.cpp; the texts of src/metrics.cpp; the listeners and
-- the threads of src/web.cpp and src/metrics.cpp; the sockets of src/net.h; src/client_main.cpp and
-- src/web_main.cpp. They are input and output.
pub mod Assoc
pub mod Command
pub mod Disk
pub mod Main
pub mod Metrics
pub mod Output
pub mod Prelude
pub mod Raft
pub mod Replication
pub mod Router
pub mod Server
pub mod Storage
pub mod Stream
pub mod Tests
pub mod Text
pub mod ThreadPool
pub mod Wal
pub mod Web
