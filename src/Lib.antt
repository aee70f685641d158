-- ===== src/Lib.antt =====
-- Two programs. SNFS, the network file system of lab2: a FUSE client that sends one request at a time
-- to a server over nanomsg, and the server that serves a directory of its own machine. And chloros,
-- the user-level threads of lab1.
--
-- The parts, from the bottom up, with the files of the repository that they model:
-- - Base: shared names, byte strings, and the monad of the C functions: a state, and a result, the
--   end of the process (`err_exit`, `exit`), or no result within the rounds that are given.
-- - Proto: lab2/include/common/{ftypes,requests,replys}.h, the sizes of lab2/include/server/main.h,
--   and the texts of lab2/src/common/strings.c. A request or a reply is a tagged union, the tag
--   and the member of the C union that belongs to it. Enumerations keep room for unlisted numbers.
-- - Platform: what the programs call and this development takes as parameters: system calls,
--   Berkeley DB, nanomsg and the clock, each a record of operations on a state of its own.
--   Platform.Laws states what a theorem may assume of them, each law by its name.
-- - Comm: lab2/src/common/comm.c, `send_data` and `receive_data`.
-- - World: the state of a server process (lab2/src/server/fhandledb.c's DBP,
--   lab2/src/server/main.c's `terminated`, the states of the three libraries), and a log of the
--   replies that were handed to `send_data`, which is there for the theorems.
-- - Fhandledb: lab2/src/server/fhandledb.c. Entries is the abstract view of the database: a
--   function from keys to values, with the invariant that handles and names lead to each other.
-- - Server: lab2/src/server/handlers.c (Attr, Reply, Files, Readdir, Data, Setattr, Names) and the
--   loop and the signal handler of lab2/src/server/main.c (Loop). Theorems on all handlers stand in
--   Answers, Halts, Handles and Unknown, theorems on what a reply says in Says and Leads, on the
--   signal in Sigterm, on the open descriptors in Descriptors, and on the name buffer in Buffer.
-- - Client: lab2/src/client/request.c (Request), lab2/src/client/fuseops.c (Path, Attr, Files,
--   Names), and the callbacks `snfs_init` and `snfs_destroy` of lab2/src/client/main.c (Request).
-- - Start: `parse_number`, `parse_command_line` and `server_main` of lab2/src/server/main.c, with the
--   opening of the socket in its `serve_loop` (Number, Server, and Jail and Port on them), and
--   `parse_command_line` and `client_main` of lab2/src/client/main.c (Client, and Mounts on it).
--   Options is what `getopt` gives them.
-- - Chloros: the user-level threads of lab1. Thread is lab1/include/chloros.h; Scheduler has the
--   parts of `Spawn`, `Yield`, `Wait`, `GarbageCollect`, `GetThreadCount` and `ThreadEntry` of
--   lab1/src/chloros.cpp; System puts them together, a step at a time, for any number of kernel
--   threads; Machine is lab1/src/context_switch.S. Effect, Advance and Invariant carry the theorems
--   in Safety; Turns and Collect are about single operations, Switch about registers and stacks, and
--   Solo about one kernel thread.
-- - Journey: a path on its way from the client's `lookup` to the server's `handle_lookup`.
-- - Tests: a small machine, a network that answers, and the theorems at concrete inputs.
--
-- The parts meet in three places. A handler of the server calls Fhandledb for the path of a handle
-- or the handle of a path, the system for the file, and Comm for the reply. The loop receives a
-- request and calls one handler. A callback of the client calls Comm through `send_request`.
--
-- Loops without a bound of their own take a number of rounds: `send_data` and `receive_data`, which
-- wait at least 300 and 250 microseconds a round for 550 and 1250 milliseconds, the search for a
-- handle that is not in use, which draws again only if a random 64-bit handle is taken, and the
-- server's loop. A theorem about a result under `Post` holds of a call that returns.
--
-- What is read as it is compiled on 64-bit Linux: words have their least byte first, and
-- `stat_to_fattr` leaves the microseconds as they are. A signal is taken at the test of the server's
-- loop and while the server waits. `get_file` gives the whole value that is stored, and its callers
-- take the C string in it.
--
-- In lab1 a step of a kernel thread is what it does under `queue_lock`, or between two such places;
-- the release of the lock in `Yield` and `ContextSwitch` are two steps. What a thread's context and
-- stack lead to stands in the field `resume`; the registers themselves are in Machine, whose memory
-- has a cell for each store of the two routines. Thread numbers wrap at 2^64, so the theorems on all
-- runs are on fewer steps than that.
--
-- Not modelled: what is printed (`debug`, `verbose`, `print_err`, printbuf), `free` and
-- `nn_freemsg`, failures of `malloc` inside `find`, reads behind the end of a string (the bytes
-- there are a parameter, `memory`), arrays of the size of a request on the stack, the copy of nanomsg
-- in lab2/libs, the tests, and the logging of lab1.
pub mod Base
pub mod Proto
pub mod Platform
pub mod Comm
pub mod World
pub mod Fhandledb
pub mod Server
pub mod Client
pub mod Start
pub mod Chloros
pub mod Journey
mod Tests
