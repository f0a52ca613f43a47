-- ===== src/Lib.antt =====
-- A model of the Yalnix file system, YFS: the file server (yfs.c, yfs.h), the library of its clients
-- (iolib.c, iolib.h) and the formatter of its disk (mkyfs.c).
--
-- The program. A client process calls Open, Read, Link and so on in iolib.c, which keeps the table of
-- its open files and its current directory, and sends one message for each call. The server receives
-- a message in main, runs the handler for the message's code, and replies with a number. A handler
-- looks path names up in directories, which are files of directory entries; reads and writes blocks
-- and inodes through two write-back caches; and takes free blocks and inodes from two free lists,
-- which make_free_lists builds from the disk when the server starts. A cache is an LRU queue of its
-- items, with a hash table that finds an item by its number.
--
-- The files, with the functions that they model.
--   Prelude        shared names, Boolean tests, lists indexed by native numbers, signed integers
--   Env            comp421/filesystem.h, yalnix.h and iolib.h, which are not in the repository: the
--                  constants, the byte layout of the structures, which user memory may be copied, and
--                  what malloc leaves in fresh memory. It is a parameter of every definition below.
--   HashTable      insert_ht, evict_ht, query_ht; its laws in HashTable/Chains and HashTable/Laws
--   Queue          left_dequeue, right_dequeue, right_enqueue over a heap of cache items; segments of
--                  the linked list in Queue/Seg, the moves in Queue/Moves and Queue/Remove
--   Cache          one cache: queue, table and count, and the steps of get_b, get_i, evict_b, evict_i
--   Machine        the state of the server and the monad of its functions
--   Buffer         get_b, evict_b, get_i, evict_i, handle_sync, and accesses through their pointers
--   File           the free lists, get_nth_b, clear_file
--   Dir            get_dir_entry
--   FilePath       get_proc_path, isPathnameValid, get_next_path_part, get_path_i_num, get_super_dir
--   Lookup         handle_open, handle_chdir, handle_stat, handle_seek
--   Transfer       handle_read, handle_write
--   Create         handle_create, handle_link, handle_unlink
--   Folders        handle_mkdir, handle_rmdir
--   Boot           make_free_lists
--   Server         the messages of iolib.h, the switch and the loop of main, init, handle_shutdown
--   IoLib          the procedures of iolib.c, over a kernel that is a parameter
--   MkYfs          the disk that mkyfs.c writes
--   Tests          a small file system, runs of the server on it, and the theorems at its states
-- A cache is refined to the list of its items in Cache/Cells, Cache/Steps, Cache/Access and Cache/Start;
-- get_b to such a list in Buffer/Evict and Buffer/Blocks; get_i in Buffer/LoadInode and Buffer/GetInode, with Buffer/Pieces
-- on pieces of buffers, Buffer/Slots on the places of inodes in a block, Buffer/Put on writes to a cached
-- block, Buffer/Table on the table of inodes, Buffer/Inodes on evict_i and Buffer/MarkInode on the dirty
-- flag; handle_sync in Buffer/Sync, Buffer/FlushInode,
-- Buffer/SyncInodes and Buffer/Durable, from which Server/Shutdown takes
-- what is on the disk when the server ends. File/Contents says what a file holds, File/Overwrite and
-- File/Patch what it holds once bytes were replaced, File/Locate is on get_nth_b, and Machine/Memory on the
-- memory of a process. On these stand Transfer/Rounds, Transfer/Copy, Transfer/Read, Transfer/ReadFile,
-- Transfer/HandleRead and Transfer/ReadErrors for handle_read, and Transfer/Store, Transfer/Write, Transfer/WriteFile,
-- Transfer/HandleWrite and Transfer/RoundTrip for handle_write. Boot/Free is on the list of free blocks,
-- Dir/Names on the comparison of names, FilePath/Split on the cut of a path, Lookup/Seek on positions,
-- Create/Link on handle_link, MkYfs/Pieces and MkYfs/Inodes on the disk of the formatter, and IoLib/Table
-- and IoLib/Transfer on the table of open files.
-- A directory is read as the list of its entries in Dir/Entries: Dir/ScanBlock, Dir/Steps, Dir/Answer,
-- Dir/ScanBlocks and Dir/GetEntry refine get_dir_entry to the search of that list. FilePath/Tree says where a path leads
-- in the tree of such lists; FilePath/Entry, FilePath/First and FilePath/Walk refine get_path_i_num to it,
-- FilePath/Super get_super_dir, and Lookup/Resolve takes
-- handle_open and handle_stat from there, Create/Refused the errors of handle_unlink and handle_link,
-- Folders/Refused the one of handle_mkdir for a name that exists. Buffer/Kept and Buffer/HasInode are on
-- steps that change no file. Server/Saved composes handle_write, the loop of main and
-- handle_sync, and Server/Reads takes handle_read to sequences of messages.
-- An X/Ends module shows that the functions of X end.
--
-- State and errors. The server's state is the record Sys: the disk, the two caches, the free lists and
-- the memory of the processes. A function of the server is a function from the state to a Run: a
-- result with the new state, an Exit, a fault (a use of memory that C leaves undefined: NULL, a freed
-- item, an index outside an array, a failed assert, an int overflow), or out_of_fuel. A pointer to an
-- inode or a block is the address of its cache item, so a use of it after its eviction is a fault, as
-- the item is freed then. In the queue and the table, `none` is a fault.
--
-- Fuel. The loops over the blocks of a file have one unit for each block number that an inode can hold,
-- and one more; the walk along a path one for each character, and one more; the
-- loop over the entries of a block one for each byte, and one more. The loops of handle_sync run along the queues, with one
-- unit for each item that the cache counts, and one more.
--
-- Numbers. Where a number of the source is an int, its model is an integer or, if it is never below 0, a
-- natural number, and an overflow of the positions in files is a fault. The number of a cached inode
-- is its 32 bits, as get_i takes negative numbers too. What nlink and reuse hold after a count is a
-- parameter, since comp421/filesystem.h gives their types.
--
-- Not modelled: the output of TracePrintf, the start of the first client by Fork and Exec, the
-- command line and the file errors of mkyfs.c, and the failure of malloc but for a negative size. A
-- path whose buffer has no NUL, which iolib.c never sends, is a fault if the handler reads the path at
-- all, though some would stop before its end. The test programs
-- (yfs-tests.c, s, t) and scrap.c, an earlier draft of main, are no part of the system.
pub mod Prelude
pub mod Env
pub mod HashTable
pub mod Queue
pub mod Cache
pub mod Machine
pub mod Buffer
pub mod File
pub mod Dir
pub mod FilePath
pub mod Lookup
pub mod Transfer
pub mod Create
pub mod Folders
pub mod Boot
pub mod Server
pub mod IoLib
pub mod MkYfs
pub mod Tests
