-- ===== src/Lib.antt =====
-- Verification of the programs of this repository that have logic of their own: exercises on threads,
-- files, pipes, users, error messages and memory, each a file of C. The programs do not call one
-- another, but for the clients and servers of Pipes, which meet over a FIFO, a socket or a queue, and
-- are modelled together; all else that they share is the error functions and, within a directory, the
-- ways in which they use threads and files.
--
-- Common            tests, lists, options and integers over the native numbers; sums over families of
--                   threads (Family), integers with a sign (Int), texts as lists of bytes (Text) and
--                   decimal numbers as texts (Decimal).
-- Concurrency       programs of threads. Threads defines a run: any number of threads, each at a place
--                   in its code, of which one takes a step at a time, in any order. A component has the
--                   shared state as a record, the places (Pc) and the steps (Move), one constructor for
--                   each access to shared state. In Counter, Increment, Buffer and Zemaphore the load
--                   and the store of an increment are two steps; Barrier and the two reader and writer
--                   locks take an increment, with the test behind it, as one step. ApproxCounter is no
--                   step relation: its calls come one after another, without the locks.
--   Counter         os-three-easy-pieces/concurrency/counter.c: init, inc, dec, get, incloop.
--   Buffer          os-three-easy-pieces/concurrency/buffer.c: put, get, producer, consumer; Steps and
--                   Ring are the parts of its invariant.
--   ApproxCounter   os-three-easy-pieces/concurrency/approximate_counter.c: init, update, get, worker.
--   LockedList      os-three-easy-pieces/concurrency/lock_coupling.c: list_init, list_insert,
--                   list_delete, list_print and list_free over a memory of nodes.
--   ReadersWriters, FairReadersWriters, Barrier, Zemaphore, QueueMutex, Rendezvous
--                   os-three-easy-pieces/concurrency/sema: reader-writer.c, reader-writer-nostarve.c,
--                   barrier.c, zemaphore.c, ns_mutex.c, randezvous.c.
--   OnceInit, Basename
--                   linux-api-kerrisk/POSIXthreads-thrdsf-lclstrg: one_time_init.c and
--                   pathmanip_threadsafe.c (my_basename).
--   SignalMask      linux-api-kerrisk/POSIXthreads-further-details/independant_thrd_sigmask.c, with the
--                   runs counted by their steps and their spurious wake-ups.
--   Increment       linux-api-kerrisk/POSIXthreads-sync/thread_incr.c.
-- Files             linux-api-kerrisk: fbufio/tail.c, fileio/mytee.c (Tee, its arguments and files),
--                   fileio/atomic_append.c, dirsrefs/filetrend.c, dirsrefs/getcwd.c, fileattrs/chattr.c,
--                   fileattrs/chmoda+rX.c, inotify/dirwatch.c,
--                   xattrs/userxattrchg.c (UserXattr), mmaps/cp.c (MmapCopy), fileio/dups.c.
-- Pipes             linux-api-kerrisk/pipesFIFOs: to_uppercase.c (Uppercase, and its Conversation for the
--                   two processes over both pipes) and seqnum/fifo_seqnum_server.c, alone (SeqNum) and
--                   with fifo_seqnum_client.c (SeqExchange, and its Numbers);
--                   POSIX-mqueue/msg_exchange.c, a parent with the child that it sends to; and
--                   sockets-UNIX-domain/us-xfr (Transfer), client.c and server.c over one connection,
--                   where failures are steps of their own.
-- Users             linux-api-kerrisk: procid/initgroups.c and getpwnam.c.
-- Processes         linux-api-kerrisk: process-execution/execlp.c, the argument vector and the search;
--                   signals-intro/sig_receiver.c (SigReceiver, Blocked for the
--                   run with an argument); procfs/userfsact.c (FdUsers) and
--                   procfs/useract.c (UserProcs); procpri/rtshed.c; and GroupChange, for
--                   pgrps-sessions-taskmngmnt/chg_pgid_for_diff_descendants.c with helper.c.
-- Errors            linux-api-kerrisk/error_functions.c: a call is the list of what it does.
-- Memory            os-three-easy-pieces/mem_api/vector.c; linux-api-kerrisk/proc/envmanip.c
--                   (Environment), setenv with its shared buffer.
--
-- What the system answers is an argument of the definitions: the bytes that reads return, whether a
-- call succeeds, the entries of a database, the address that malloc returns. Where a file says that a
-- call succeeds, the branch for its failure only ends the program with a message.
--
-- Fuel: the search of tail.c runs on one more than the length of the file, and each round reads at
-- least one byte; the walks over the list of lock_coupling.c run on any fuel above the length of the
-- list, which their theorems ask for; the climb of getcwd.c on any fuel above the depth of the
-- directory; the loop over the events of dirwatch.c on one more than their number;
-- the digits of userfsact.c on the number itself, and its exchange of bytes on their count.
--
-- Bounds: the numbers of the sequence server are ints of 32 bits that wrap round, the buffer of setenv
-- has its 1024 bytes, and a line of msg_exchange.c is read in pieces that fit into a message. Elsewhere
-- counters are unbounded, and stay far below the limits of int in the programs.
-- BUFSIZ of tail.c is 1024, as the file defines it.
--
-- Not modelled: output formatting, and the programs that only show one system call each: signals,
-- processes, single messages, TCP sockets, priorities, limits.
pub mod Common
pub mod Concurrency
pub mod Files
pub mod Pipes
pub mod Users
pub mod Errors
pub mod Memory
pub mod Processes
