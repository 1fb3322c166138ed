-- ===== src/Lib.antt =====
-- Nachos, the teaching operating system of courses/su/cis657, in its last stage.
--
-- All paths below are from courses/su/cis657/Final Project/code/. The kernel runs user programs on a
-- simulated MIPS computer (machine/), keeps files on a simulated disk (filesys/) and uses a small
-- library (lib/). Allocation of inodes and fragments goes through bitmaps; the file system answers
-- names by directories; a table of inode usage decides when a removed file may be deleted.
--
--   Base           shared names, lists, faults and bit laws
--   Bitmap         lib/bitmap.cc: Bitmap::Mark, Clear, Test, FindAndSet, NumClear and the constructor
--   Directory      filesys/directory.cc: Directory::FindIndex, Find, Add, Remove
--   MetaTable      filesys/metatable.cc: every operation, each one critical section of its lock, and
--                  what OpenFile::OpenFile and ~OpenFile of filesys/openfile.cc do to the table
--   Disk           machine/disk.cc and filesys/synchdisk.cc: latency, requests, and the synchronous
--                  reads and writes, over a file of the host that is a parameter
--   FileSystem     filesys/filesys.cc: Place has NextAlignedFragments and NextPlaceForSmallFragments,
--                  over Bitmap; Allocate has FileSystem::Allocate over the free maps of the cylinder
--                  groups and the inode of Inode (filesys/filehdr.h, filesys/indirect.h); Unlink has
--                  FileSystem::Unlink and the search of Create for an inode; ReadAt has
--                  OpenFile::ReadAt and Read of filesys/openfile.cc, over Disk; WriteAt has
--                  OpenFile::WriteAt and Write, over Allocate, MetaTable and Disk, with
--                  FileHeader::writeBack of WriteBack; WriteDir has what
--                  OpenFile::WriteDir does with data that fits in the file, over the loop of
--                  Fragments; Layout has the superblock of a formatted disk and
--                  FileHeader::firstSector of filesys/filehdr.cc
--   Interrupt      machine/interrupt.cc: the pending interrupts and simulated time, with
--                  SortedList::Insert of lib/list.cc; Timer has the handlers of machine/timer.cc and
--                  threads/alarm.cc
--   Semaphore      threads/synch.cc: Semaphore::P and V, with List::Append, RemoveFront and IsInList of
--                  lib/list.cc and Scheduler::ReadyToRun of threads/scheduler.cc; Wakeups has any
--                  interleaving of threads on one semaphore
--   HashTable      lib/hash.h and lib/hash.cc: HashTable and HashIterator, over the list operations
--   Network        machine/network.cc and network/post.cc: packets and mailboxes
--   LinkedList     lib/list.h and lib/list.cc: List<T> with its elements on a heap
--   Lock           threads/synch.cc: Lock::Acquire and Release as steps of threads in any order
--   Paging         Assignment2/code/userprog/addrspace.cc (beside the Final Project):
--                  MemoryManager::PageReplacement, over Bitmap and a swap file of the host; Space has
--                  AddrSpace::Translate
--   Condition      threads/synch.cc: Condition::Wait, Signal and Broadcast, over Semaphore and Lock
--   Machine        machine/translate.cc and the state of machine/machine.h: Translate, ReadMem,
--                  WriteMem, DelayedLoad, RaiseException; Machine/Mult, Machine/Instruction and
--                  Machine/Execute have machine/mipssim.cc: Mult, Decode and OneInstruction
--
-- A class is a record with the fields of the code; an operation is a function from the old object to
-- the result and the new object. An int that is not negative is a native number; a register is its
-- pattern of 32 bits, with the wrap-around written out. `none`, `fault` and `stopped` stand for a
-- failed ASSERT or an access that C++ leaves undefined; a trap to the kernel is a value with its cause.
--
-- Loops count the rounds left, or run on fuel: NextAlignedFragments gets one round more than there are
-- fragments and each round passes at least one; CheckIfDue gets one round for each pending interrupt,
-- which is enough as a handler adds none that is due; Remove gets one round for each old entry, and each
-- round passes one.
--
-- The build that is modelled defines SIM_FIX, and neither USE_TLB nor HOST_IS_BIG_ENDIAN. Not
-- modelled are the context switch, console, sockets, the transfer of records other than an inode to
-- the disk, the reads of inodes from it, Create and Open as wholes, user programs' loading, and
-- printing.
pub mod Base
pub mod Bitmap
pub mod Condition
pub mod Directory
pub mod Disk
pub mod FileSystem
pub mod HashTable
pub mod Interrupt
pub mod LinkedList
pub mod Lock
pub mod Machine
pub mod MetaTable
pub mod Network
pub mod Paging
pub mod Semaphore
