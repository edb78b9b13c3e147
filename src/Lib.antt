-- ===== src/Lib.antt =====
-- PikiwiDB, a server for Redis commands in C++. A client's bytes go through the protocol parser to
-- a command function, which looks keys up in the key store, changes their values through pointers,
-- and appends a reply to a buffer of bytes.
--
-- The files and the code:
--   Base, Base/*          lists, maps, sets, numbers and texts that all parts share. A `PString` is a
--                         list of bytes; `std::unordered_map` and `std::unordered_set` are lists whose
--                         order stands for the iteration order, which C++ leaves open.
--   Common                src/common.h: the enums of types and errors.
--   Common/Number         src/common.cc: `GetIntUntilCRLF` and `TryStr2Long`; an `int` wraps around at
--                         32 bits. Common/Number/Strtol: `Strtol` over `strtol` with base 0, and `atoi`;
--                         a `long` has 64 bits. Common/Number/Print: `%ld` and `%lu`.
--   Common/Reply          src/common.cc: the `Format` functions and `ReplyError`. A function that
--                         appends to the reply is a function that returns what it appends.
--   Common/Index          src/common.h: `AdjustIndex`.
--   ProtoParser           src/proto_parser.h and src/proto_parser.cc: `PProtoParser`. `ptr` is a cursor,
--                         the bytes up to `end` and the distance from the start.
--   Store                 src/store.h and src/store.cc: `PObject` and `PStore`. The store is passed
--                         explicitly; `Env` is what it reads from outside: the backends, the clock,
--                         and whether a child process is saving.
--   Store/View            the abstract database: for each key the value that a client can see.
--   Store/Fetch, Store/Writes, Store/Expiry   the operations of the store against that view.
--   Command               what all command functions share. A pointer to a value is the key: a write
--                         through it is `write_value`. Command/Refines and Command/Rules: the rules by
--                         which a command is shown to answer as the view says.
--   Buffer                src/net/unbounded_buffer.h and src/net/unbounded_buffer.cc: the vector with a
--                         position to read at and one to write at. Buffer/Queue: its content.
--   Hash, Set, Lists      src/hash.cc, src/set.cc and src/list.cc. `none` in place of a response stands
--                         for a failed assertion or undefined behaviour.
--   Strings, Strings/*    src/pstring.cc, and `BitCount` of src/helper.cc. Strings/Laws: the commands
--                         against the view. Strings/Ranges: `setrange` and `setbit` on texts.
--   Keys, Keys/Rename     src/key_command.cc. `fnmatch` and the random key are arguments.
--   Clients               src/client.h and src/client.cc: what a client keeps for its transaction.
--                         Clients/Inline: `processInlineCmd`.
--   Multi                 src/multi.h and src/multi.cc: `PMulti`, the clients that watch a key. Clients
--                         are numbers in a table that stands for the heap.
--   Execute, Execute/*    src/command.cc: `ExecuteCmd`; src/store.cc: `Propagate`; src/client.cc: `Exec`
--                         and the last part of `handlePacket`; src/multi.cc: the five commands. The
--                         table of commands, the store and the slaves are a record of operations.
--   SlowLog               src/slow_log.h and src/slow_log.cc, and `slowlog` of src/server_command.cc.
--   SortedSet, SortedSet/*  src/sorted_set.h and src/sorted_set.cc: `PSortedSet` and its commands.
--                         Doubles are a record of operations.
--   Dump, Dump/*          src/db.h and src/db.cc: `PDBSaver` and `PDBLoader`, and the reads of
--                         src/std/memory_file.cc. A file is its bytes. Dump/Save and Dump/Load: the
--                         objects; Dump/File: the loops of `Save` and `Load`; Dump/Effects:
--                         what `Save` does to the store; Dump/Number: `Number2Str`
--                         of src/common.h; the others are about what a saved store is when it is loaded.
--   Tests                 the theorems at concrete inputs.
--
-- Bounds and fuel: the digits of a number n are printed with fuel n + 1, and each step divides by
-- 10, so the fuel is enough. The loop of `Load` has fuel for the bytes of the file and one more,
-- and each round takes one at least; the loop of `Save` over the databases has one round more than
-- there are databases. The vector of a buffer grows with fuel for the bytes that are to be
-- written, and each round adds one at least. All loops of the parser and of the commands are
-- recursions on the bytes, the parameters or the elements, and need none. What an operation needs
-- of the store is `IsValid`: the selected database exists, and its queue of dirty keys too if
-- there are backends.
--
-- Parameters: the backends are functions from keys to objects, and the member that `RandomMember`
-- picks is an argument, since LevelDB and the random numbers are not part of the program. The type of
-- the sorted sets is an argument of the store, the doubles are one of the sorted sets, and the command
-- table, the database and the slaves are one of the transactions. The table holds `exec`, which reads
-- the table: the table that it reads is one without `exec`, with the same other commands. LZF, the zip lists, the intsets,
-- `crc64` and the formats of doubles are a record that the dump files take.
--
-- Not modelled: floats (`hincrbyfloat`, `incrbyfloat`), scans and `sort`, authentication, publish
-- and subscribe, clients that wait for a list and so the pushes, replication, the LevelDB backend,
-- configuration, sockets and the event loop, and the copies of other projects' code (LZF, zip lists,
-- `std`). Of the dump files the temporary file and its renaming are left out. Allocation does not fail. Counts of elements are below 2^31.
pub mod Base
pub mod Common
pub mod ProtoParser
pub mod Store
pub mod Command
pub mod Hash
pub mod Set
pub mod Lists
pub mod Strings
pub mod Keys
pub mod Clients
pub mod Multi
pub mod Execute
pub mod SortedSet
pub mod SlowLog
pub mod Dump
pub mod Buffer
pub mod Tests
