-- ===== src/Lib.antt =====
-- lz_lib: a C library of data structures and event handling for a network server.
--
-- Parts, and the file that models each (paths are from the root of the repository):
--
--   Base      what the others share: Boolean tests and lists over native numbers, integers, machine
--             words, byte strings, and `Run`, the outcome of code that may leave defined behaviour.
--   Hash      src/hashfn.c: `ReallySimpleHash`, `SuperFastHash`, `dm_hashfn`.
--   Dict      src/dict.h and src/dict.c. Dict/Store: `data_t` with its reference count on a heap.
--             Dict/Table: `dict_t`, whose pairs stand in a chain per bucket and in one list; a bucket is
--             found by `SuperFastHash`. Its children relate the two views of the pairs. Dict/Wire: the
--             serialized form, its words in the byte order of ByteOrder. Dict/Typed: numbers as values, by
--             their digits; Dict/Access: these by key.
--   ByteOrder src/byte-order.h: the pointers `hton16`, `hton32` and `hton64`.
--   Checksum  src/checksum.c: the weak checksum of rsync, and the strong one over the calls of src/md5.c.
--   ListHead  src/list.h: circular lists of nodes, by address.
--   CommonUtils
--             src/common-utils.c: numbers from strings (CommonUtils/Numbers), `lz_trim`,
--             `lz_strsplit` and, in CommonUtils/Flags, the small tests. What they call of the C library is a parameter.
--   Timer     src/timer.h and src/timer.c: the active and the stale list, the mutex, the thread.
--   Event     src/event.h and src/event.c: the array of descriptors; Event/Poll and Event/Epoll have the
--             functions for `poll` and for `epoll`, the kernel's interest list being a parameter.
--   MemPool   src/mem-pool.h and src/mem-pool.c: a block cut into chunks by address.
--   IoBuf     src/iobuf.h and src/iobuf.c: arenas of buffers on three lists. IoBuf/Transfer has the way of
--             a buffer out and back, IoBuf/Lending and IoBuf/Returning what it makes of the pool, IoBuf/Iobref the
--             sets of referenced buffers.
--   RbtHash   src/rbthash.h and src/rbthash.c: a table whose buckets are trees, with the calls of src/rb.c as a
--             record of operations and the laws that they document.
--   Socket    src/socket.h and src/socket.c: `__socket_rwv`, which reads or writes a vector of blocks.
--             Socket/Proto has the states of a message that comes in, Socket/Queue what waits to be sent, and
--             Socket/Handler what the event registry calls when a descriptor is ready, and `socket_receive`.
--             Socket/Handler/Release lists what a transport gives back, as a log of calls.
--             The system calls, the allocator, the buffers and the registry are a record of operations on a
--             state of the world; what the theorems need of them is a record of laws.
--
-- A definition has the name of its function, in lower case and without leading underscores; a helper
-- says which lines it stands for. A mutable object is a record that a function takes and returns. What
-- an allocator, the clock or the kernel returns is an argument. A pointer that may be null is an
-- `Option`. A lock that one function holds for all that it does makes the function one step; only the
-- timer's mutex is modelled, since its thread locks it twice.
--
-- Counters of type `int` are bit patterns below 2 ^ 32, with the wrap written out; the counts of `Event.Pool`
-- and the sizes of `MemPool` are numbers without a bound, for registries of less than 2 ^ 31 entries and
-- objects of less than 2 ^ 31 bytes. Addresses do not wrap
-- within a block. Eight loops run on fuel: the loops of the timer thread (one more round than there are
-- active events is enough to fire what is due, in Timer/Dispatch; readings of the clock bound the outer
-- loop), the walk of a circular list (one more round than there are nodes), and the two loops of
-- `lz_strsplit` (two more rounds than the string has bytes), `log_base2` (64 rounds), the loop of
-- `__socket_rwv` (one more round than there are bytes and interrupts), and the states of a message (6
-- rounds, since each is met once). Every other loop is structural, on a list or on
-- a count.
--
-- Not modelled: the rest of src/dict.c (values that are doubles, pointers or strings, the older textual
-- form, iovecs), and of src/common-utils.c what searches strings and sums files, which none
-- of the parts above calls; src/rb.c and src/md5.c, copies of other libraries; of src/socket.c how connections
-- are made, accepted and configured, src/name.c, src/transport.c and src/logging.c, which are system calls
-- for the most part; the endless loops around
-- `poll` and `epoll_wait` in src/event.c; what is logged.
pub mod Base
pub mod ByteOrder
pub mod Checksum
pub mod CommonUtils
pub mod Dict
pub mod Event
pub mod Hash
pub mod IoBuf
pub mod ListHead
pub mod MemPool
pub mod RbtHash
pub mod Socket
pub mod Timer
