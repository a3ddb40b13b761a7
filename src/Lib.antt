-- ===== src/Lib.antt =====
-- A verification library of the programs under more01. The C programs are small and stand alone;
-- the library models those that keep state of their own, each as a module tree.
--
-- - Db: the hashed database of more01/apue.3e/db/db.c. Db/State has the DB structure, its
--   constants, the locks of more01/apue.3e/lib/lockreg.c and the monad of a call that returns,
--   ends the process (err_dump, err_quit) or runs out of fuel. Db/Record has _db_readptr,
--   _db_readidx, _db_readdat and their writers, Db/Ops the search along a hash chain, db_fetch,
--   db_delete, db_store, db_rewind and db_nextrec, Db/Open db_open. A function keeps its name
--   without the prefix, db_store its own. Db/Pointer, Db/Entry and Db/Readidx are about one field
--   or one record, Db/Chain and Db/Fetch about the records of a hash chain, Db/Frame, Db/Append,
--   Db/Free, Db/Store and Db/Insert about db_store with a key that is not there. Db/Without,
--   Db/Patch and Db/Spread are about a chain that loses a record, a pointer written into a
--   record, and records that do not overlap; Db/Unlink, Db/Unlinked, Db/Freed and Db/Dodelete
--   about the writes of _db_dodelete, Db/Delete about db_delete, Db/Replace and Db/Rewrite about
--   db_store over a record. Db/Tests runs sessions of several calls.
-- - MemStream: fmemopen, mstream_read, mstream_write and mstream_seek of
--   more01/apue.3e/exercises/fmemopen.c. MemStream/Valid is about the positions, MemStream/Mode
--   about mode strings, MemStream/Full about a write that fills the buffer.
-- - Relay: fsm_driver and relay of more01/apue.3e/advio/fsm.c. The field pos is called offset.
--   Relay/Copy is about what is copied. Relay/Poll is relay of more01/apue.3e/advio/fsm_poll.c
--   over the same driver, Relay/Polled the proofs about it, Relay/Select relay of fsm_select.c
--   beside it, and Relay/Selected compares that with relay of fsm.c, by what Relay/Alike says of
--   two machines.
-- - Tbf: the token buckets of more01/apue.3e/threads/mytbf.c. The field pos is called slot.
--   Tbf/Bounds is about one bucket, Tbf/Table about the array of buckets.
-- - OpenServer: the open server of more01/apue.3e/ipc2/opend. OpenServer/Args is buf_args of
--   more01/apue.3e/lib/bufargs.c, OpenServer/Clients is client.c, OpenServer/Request is cliargs.c
--   and request.c; OpenServer/Words, OpenServer/Slots and OpenServer/Replies have the proofs
--   about them. OpenServer/Select is loop.select.c, with OpenServer/Accepted, OpenServer/Selected
--   and OpenServer/Scanned about its turns; OpenServer/Poll is loop.poll.c, OpenServer/Rounds the
--   proofs about it. OpenServer/Passing is send_fd, send_err and recv_fd of more01/apue.3e/lib,
--   OpenServer/Passed the proof about them.
-- - Transfer: readn and writen of more01/apue.3e/lib. Refs: the objects with reference counts of
--   more01/apue.3e/threads/mutex3.c. Each function keeps its name, and its loop is a function of
--   its own.
-- - Links: doubly linked lists in a store, for Jobs and Printer: the list of nodes that pointers
--   stand for, and in Links/Ends what a node more or less makes of it.
-- - Jobs: the queue of jobs of more01/apue.3e/threads/rwlock.c. Jobs/Contents has what a queue
--   holds and what each function makes of a job by where it stands, Jobs/Order what it makes of
--   the list, Jobs/Runs any sequence of calls.
-- - Printer: the spooling daemon of more01/apue.3e/printer/printd.c. Printer/Queue has
--   get_newjobno, add_job, replace_job and remove_job; Printer/Contents, Printer/Order and
--   Printer/Removal are about the list of jobs, Printer/Runs, Printer/Kept and Printer/Refines
--   about the interleaving of client threads and the printer thread, Printer/Numbers about the
--   job numbers. Printer/Workers has add_worker, kill_workers and client_cleanup, Printer/Lost
--   what they do with a second thread. Printer/Client is client_thread over the files that it
--   creates, writes and unlinks, Printer/Copied the loop that stores the data, Printer/Stored
--   what client_thread leaves. Printer/Turn is a turn of printer_thread, and Printer/Safe,
--   Printer/Spool and Printer/Service are about the files of the jobs that wait. Printer/Start is
--   build_qonstart, Printer/Started what it finds. Printer/Options is the request that
--   printer_thread sends, Printer/Read what a printer reads of it.
-- - Shell: the shell of more01/smsh1.c. Shell/Lines is about next_cmd, Shell/Split about
--   splitline, Shell/Session about main.
-- - SigSet: the signal sets of more01/apue.3e/signals/setops.c. SigSet/Digits is about binary
--   digits, SigSet/Members about the set of signals that a word stands for.
-- - Text and File: the functions of the C library on strings, and lseek, read and write on a
--   regular file, as far as the programs call them. Prelude: helpers on numbers, integers and
--   lists.
--
-- The programs share no state: Db uses File and Text, MemStream the same, OpenServer, Printer and
-- Shell use Text, Jobs and Printer use Links, the others stand alone. The witnesses stand in
-- modules whose name is Tests or ends so, and in Db/Witnesses.
--
-- Numbers are natural numbers or integers without a width. The hash of the database wraps at 2^64
-- as unsigned long does; offsets of the database are below PTR_MAX where they are written, which
-- the code checks; positions in a memory stream are assumed to fit an int; a sum of tokens wraps
-- at 2^32, and Tbf/Bounds has bounds under which it does not. A char is the number of its byte.
--
-- The walk along a chain and along the free list and the scan of db_nextrec run on fuel, one more
-- than the number of bytes of the index file; the records of a chain stand at distinct offsets
-- inside the file, so that is enough where the chains are well formed. args_loop of OpenServer
-- has fuel above the number of characters. client_add has fuel for one search before and one
-- behind the growth of the array, where it finds a new entry. The rounds of Relay, and those of
-- Transfer, are a list of answers. The scan of loop.poll.c has as many rounds as entries, and
-- where they are used up says so; split_loop and main_loop of Shell have one more than the number
-- of characters, of which each round takes one. The walks along the chains of Refs and along the
-- lists of Jobs and Printer take fuel as an argument; as much as the list has nodes is enough.
--
-- In Printer a thread changes the list of jobs or of workers under its lock, so each change is
-- one step, and threads are interleaved by steps. Printer/Service takes a whole client thread and
-- a whole turn of the printer thread as one step each, though in between their locks they may
-- overlap. A job number is one of 32 bits and wraps.
--
-- Not modelled: malloc failures; descriptors and memory that are released (db_close,
-- mstream_close); interleavings of processes on the database files and of threads inside a
-- critical section, since each function of Tbf holds the mutexes over its whole effect; the
-- limits IDXLEN_MIN to DATLEN_MAX and the command CL_OPEN, whose headers are not in the
-- repository and which are parameters, as are the names of ipp.h, IBUFSZ, HBUFSZ, struct printreq
-- of print.h and BUFSIZ; the remaining programs, which show one system call each or are input and
-- output.
pub mod Prelude
pub mod Printer
pub mod Text
pub mod File
pub mod Db
pub mod MemStream
pub mod Relay
pub mod Tbf
pub mod OpenServer
pub mod Links
pub mod Transfer
pub mod Refs
pub mod Jobs
pub mod Shell
pub mod SigSet
