-- ===== src/Lib.antt =====
-- A model of Connector, the library that exchanges messages between applications over local
-- connections, with theorems about it: its core, in C, and the layers for C++, Qt and Python
-- applications.
--
-- The program. An application initialises the library through its table of functions
-- (core/src/external_api.c, a state machine in one word that compare-and-exchange guards), opens
-- or connects contexts, registers trampolines and writes messages. The contexts stand in a table
-- of 32 (core/src/details/context_queue.c); their identifiers come from a lock-free queue of free
-- ones (core/src/details/uint_queue.c) and wait in a second such queue for a read thread
-- (core/src/details/available_queue.c). Messages wait in two linked queues under locks
-- (core/src/details/locked_queue.c, core/src/details/message_queue.c), are built by
-- core/src/details/message.c, and go over a socket as a header in network order and a text
-- (core/src/details/connection_utils.c, core/src/details/network/readwriteutils.c). Read threads
-- (core/src/details/threadimpl) poll the contexts that they take from the second queue, put what
-- arrives into the inbound queue, and release the contexts that end; write threads write what is
-- in the outbound one; a dispatch thread (core/src/details/dispatch.c) answers handshakes and
-- passes the other messages to the trampolines (core/src/details/callbacks.c). The sockets are
-- TCP or Unix ones (core/src/details/connection.c, connection_unix.c); an open TCP port has a
-- file named after it in a directory that other applications scan to connect
-- (core/src/details/network/autoconnect.c). On top of the core a layer for C++ applications
-- (module-cpp/src/framework) binds functions to the types of messages and writes structures as
-- JSON texts, and objects of Qt (module-qt/src) use that layer; a module for Python
-- (module-python/src) uses the core.
--
-- The files. Base has the shared names, lists over the native numbers, Boolean tests and the
-- check of a table of values. Retcode is SubstanceConnectorError.
-- UintQueue: `step` is one shared access of connector_uint_queue_push or _pop, `push` and `pop`
--   are whole calls of a thread alone; Fifo is the bounded list that Calls refines to, Create has
--   what connector_uint_queue_create makes, Threads the runs of several threads.
-- Uuid, Message, Wire: comparison of identifiers, building and identifying messages, and the
--   reading and writing of a message on a socket.
-- AvailableQueue, Contexts: the operations of the two files named above, one function each, under
--   the C name without `connector_`; Contexts/Types has the table and the structures, Open and
--   Close the operations, Config the arithmetic of the configuration bits, the others the proofs.
-- LockedQueue: the linked queue in a heap of nodes; an access to a released node gives no result.
-- MessageQueue: core/src/details/message_queue.c, the two queues of messages on LockedQueue and
--   their state machine.
-- ReadThread, WriteThread, Dispatch: the routines of the threads, a function for a round of each
--   loop; what another thread may have done meanwhile is an input. Configuration: the
--   application's name.
-- System, Threads: the locks, conditions and threads of the system that exist, and the functions
--   of core/src/details/communication.c and of the threads' files that start, flag and join them;
--   Threads/Lifecycle has a whole run.
-- Sockets: the tables of core/src/details/connection.c by type of connection, and the functions
--   of connection_unix.c and network/openconnectionimpl.c; Tcp, Local and Table have what they do
--   on their branches, Filing the directories that they work, Descriptors what they leave open, Opened and Unknown what a context sees.
-- Strings, Ports, Files, Autoconnect: core/src/details/string_utils.c and system/pathutils.c; the
--   names of the files of ports; system/fileutils.c and system/connectiondirectory.c; the
--   automatic connection.
-- Framework: module-cpp/src/framework. Uuids has the texts of identifiers, Callbacks and
--   Applications what is bound to the types of messages, Core the start and the end of the layer,
--   Schemas the structures and their JSON, Senders the messages that carry them.
-- Qt: module-qt/src, the objects that hold the applications of that layer; Single has their rule.
-- Python: module-python/src, the references that the module holds to objects of the interpreter,
--   and its functions in Wrappers.
-- StringMap, Memory: core/src/details/string_map.c, which nothing uses, and the functions of the
--   allocator and shared memory in core/src/details/memory.c.
-- Delivery: the way of messages from one application to another, over the parts above, for a
--   connection that carries what is sent.
-- Trampolines: the list of user functions. Api: the state machine and the guarded functions; Race
--   has the threads whose exchanges interleave.
--
-- Conventions. A 32-bit value keeps its wrap (`u32`). A pointer that can be null is an Option, a
-- flag stands for a test of a pointer that has no other use, and the out parameter of a call is
-- part of its result, `none` when nothing is written. Where a function has a flag for the memory of
-- the allocator, the model has both cases; elsewhere the allocator has memory. The operating system,
-- the byte order functions and the layout of a structure are arguments with their documented
-- behaviour as hypotheses. A thread that is joined is taken to end when its shutdown flag is set and
-- its condition is broadcast under its lock. The connection of a context and the subsystems that the public
-- functions start are records of operations over a state of the outside. The JSON library of the
-- C++ layer is a record of values and calls with their laws, what is written being read back for
-- values of ASCII texts, and the interpreter of Python a record of calls.
--
-- Bounds and fuel. `run` of a queue call takes the number of its shared accesses, five for a push
-- and four for a pop; the retries of the available queue are the code's own five; clearing a
-- linked queue takes one round more than it has nodes, and so does the loop of a write thread.
-- The number of times that a thread waits is that of the values given for its flag. The theorems
-- of UintQueue/Threads count the pushes, which must stay below 2^32, where the indices of the
-- queue wrap. The tables of Config run over the 256 types and over the 4096 configurations, that
-- of Files over the 4096 permissions of a file. Ten digits hold a port, as they hold any unsigned
-- int.
--
-- Not modelled: the Windows variants, the wrappers of threads, and the bindings in
-- core/bindings, which only pass calls on or are unfinished. Releasing memory is modelled where
-- a pointer survives it. The routines of the threads are modelled one thread at a time, apart
-- from the queues of UintQueue and the exchanges of Api/Race, whose accesses interleave.
pub mod Base
pub mod Retcode
pub mod UintQueue
pub mod Uuid
pub mod Message
pub mod Wire
pub mod AvailableQueue
pub mod Contexts
pub mod LockedQueue
pub mod Api
pub mod Trampolines
pub mod MessageQueue
pub mod ReadThread
pub mod WriteThread
pub mod Autoconnect
pub mod Files
pub mod Ports
pub mod Strings
pub mod Sockets
pub mod Configuration
pub mod Dispatch
pub mod System
pub mod Threads
pub mod Framework
pub mod Qt
pub mod StringMap
pub mod Memory
pub mod Python
pub mod Delivery
