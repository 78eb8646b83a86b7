-- ===== src/Lib.antt =====
-- The kernel of CS439 and its file system.
--
-- CS439/Project1 to CS439/Project4 are four copies of a small kernel, each with the work of one
-- project. This library is about three of them: the threads of CS439/Project1, the virtual memory of
-- CS439/Project3, and the file system of CS439/Project4.
--
-- The threads are ordered by priority in lists that lib/kernel/list.c keeps. A thread that waits for
-- a lock donates its priority to the thread that holds it, and on along the chain of holders; a
-- thread that sleeps waits for a semaphore that the timer interrupt puts up; whoever puts up a
-- semaphore wakes the waiter of highest priority, which runs at once if its priority is the higher.
--
-- A page of a process is in a frame, in a slot of the swap device, or still in its file. A process
-- keeps a list of its pages; when one has to come in, the clock over the frames chooses a frame,
-- whose page goes to a free slot if it has to be kept.
--
-- The file system, from the bottom up: a bitmap, the map of free sectors that keeps one bit per
-- sector, the device, and the inodes, whose files are chains of index blocks that name data
-- sectors. byte_to_sector takes sectors from the free map when it meets a hole, inode_write_at
-- takes index blocks from it when a file grows, and the free map stores itself in a file of its
-- own. On top of the inodes, a directory is a file of entries of 40 bytes, each with a name and
-- the sector of an inode; a path leads from one directory to the next, and filesys_create,
-- filesys_open and filesys_remove take paths. Names go through the functions of lib/string.c.
--
-- Files:
--   Prelude    shared names: tests, lists with native indices, binary digits, runs that may panic
--   Bitmap     CS439/Project4/lib/kernel/bitmap.c: `put` is bitmap_set, `no_bit` is bitmap_none,
--              every other operation has the name of its function without `bitmap_`. Bits is one
--              bit, Ranges is the operations on ranges, Scan is the search for a run
--   FreeMap    CS439/Project4/filesys/free-map.c: `init`, `allocate`, `release` are free_map_init,
--              free_map_allocate, free_map_release. Alloc and Release prove what they promise,
--              Room counts the free sectors, Init is the map of a fresh device
--   Disk       the device (CS439/Project4/devices/block.c) and what its sectors hold
--   Inode      CS439/Project4/filesys/inode.c: `read_at` and `write_at` are inode_read_at and
--              inode_write_at, byte_to_sector has its own name and the pieces walk, fill, place.
--              Layout is how a file lies on the device, Fill and Locate are byte_to_sector, File is
--              the invariant, Slice, Splice and Bytes are contents, Reads and Read are
--              inode_read_at. Patch, Writes, Write and Store are the loop of inode_write_at, Extend,
--              Grow and Head are how a file grows, WriteAt and Written put them together, RoundTrip
--              is a write and a read, Stuck is a write on a full device. Present is reading where
--              no sector is missing, Create is inode_create. Whole runs it for the bytes of
--              one index block. Sample and Examples are a file to run them on
--   Lifetime   the openers of an inode, in the same source file: inode_reopen, inode_remove,
--              inode_deny_write, inode_allow_write, inode_close. Deny is the denial of writes, Chain
--              and Close are the release of a file's sectors, Removed is inode_close as a whole
--   OpenInodes open_inodes and inode_open of the same source file; Table is the list as a finite
--              map. Files is the device with the list, and the calls on an inode in it
--   OpenFile   CS439/Project4/filesys/file.c: an open file with its inode. Position is about reads
--              and writes at the position, DenyWrite about the denial of writes
--   BitmapFile bitmap_read, bitmap_write and bitmap_file_size of lib/kernel/bitmap.c, through an
--              open file; Words is words as bytes, RoundTrip both together
--   Strings    CS439/Project4/lib/string.c. Bytes is about memmove, Copy about strlcpy, Order about
--              strcmp, Tokens and Words about strtok_r
--   Directory  CS439/Project4/filesys/directory.c: `traverse` is the loop of lookup over the path,
--              `find` is lookup, find_entry its inner loop; Entries is its beginning, the entries as
--              bytes. OnDisk is what the bytes of a directory's file say, Search is about find_entry.
--              Change is dir_add (add_entry behind the search), dir_length and dir_remove
--              (remove_open is its tail): Slots and Added are about a new entry, Refused about a bad
--              name, Removal about dir_remove. Names is dir_readdir and dir_split_name, with Listing
--              and Paths about them. Sample and Examples are directories to run them on
--   Filesystem CS439/Project4/filesys/filesys.c and dir_create. Examples runs a fresh device
--   KernelList CS439/Project1/lib/kernel/list.c on sequences: an operation has the name of its
--              function without `list_`, find_run is find_end_of_run, and max_from, min_from and
--              unique_from start from an element. Order is the comparisons and sorted lists, Insert
--              and Merge are what they say, Sort is list_sort (Runs and Pass are its runs and one
--              pass), Max is the greatest, the least and duplicates, Queue is a list kept in order
--   Threads    the state of threads/thread.c, threads/synch.c and devices/timer.c in CS439/Project1:
--              threads, locks and semaphores by address, the lists, the thread that runs. Schedule
--              is the scheduler and the interrupt's end (Queue is the order of the ready list, Yield
--              and Unblock are thread_yield and thread_unblock), Semas the semaphores (Up is
--              sema_up), Donation is donate (Give is one step, Chain the recursion), Locks the locks
--              (Inversion, Release with a waiter, RoundTrip without), Condition the condition variables, Timer is sleeping and
--              the tick (Wake is the loop over sleepers, Tick the interrupt), Life the start and end
--              of a thread (Boot is thread_init), Priority is thread_set_priority (Change)
--   Pages      CS439/Project3/vm/supplemental-table.c; Lookup is the table as a finite map
--   Swap       CS439/Project3/vm/swap.c. Transfer is the two loops over the sectors of a page,
--              RoundTrip is a page that goes out and comes back
--   Frames     CS439/Project3/vm/frame-table.c; Clock is clock_algorithm, Evict is evict_frame, Place is
--              insert_page, Room and Insert are insert_page_into_frame
--
-- The free map's file. free_map_allocate and free_map_release write the map to a file on the same
-- device. A data sector of that file is kept as which part of the file it is (`map_part`) and reads
-- as that part of the words stored last, so that a write of the map changes just these sectors:
-- `on_device` is what a sector holds.
--
-- Files and their index blocks. A file is well formed (`IsFile`) where its chain of index blocks lies
-- in sectors of its own that are in use, ends at `end`, and covers its bytes. inode_write_at adds
-- new_size / 64512 - length / 64512 index blocks. That covers the new size where the file has
-- more than length / 64512 blocks; inode_create makes one block fewer for a length that is a positive
-- multiple of 64512 bytes, and what is then written past the last block would go to its slots again.
-- So a theorem about a write has the condition that the blocks cover the range (`Covers`).
--
-- State and faults. A function that changes state takes the state and returns the new one. `none`
-- is a run that does not return: a failed ASSERT, a panic, a read of a sector as what it does not
-- hold, or a wait that nothing ends. An answer that the code returns is a value: `none` inside
-- `some` is false with no sector.
--
-- Switching. An operation of the threads that switches ends in the state in which the next thread
-- goes on. What the old thread still has to do when it runs again is a definition of its own:
-- sema_down is one round of its loop, lock_wait is lock_acquire from sema_down on, cond_resume is
-- cond_wait behind the release of the lock. Each operation is one step, as with interrupts off; the
-- interrupt level is not part of the state, whether a handler runs is.
--
-- Numbers. A priority is a number from PRI_MIN 0 up, the -1 of a lock is `none`; ticks do not
-- overflow their 64 bits. A size_t and a block_sector_t have 32 bits; sums of the bitmap wrap (`size_add`).
-- Offsets and sizes of inodes are not negative and their sums fit off_t: beyond that C defines
-- nothing. A map has fewer than 2 ^ 32 - 31 bits, so that its number of words does not wrap.
--
-- Bounds and fuel. A loop over a range takes the number of its rounds. The loops of inode_read_at
-- and inode_write_at take at least one byte a round, so as many rounds as bytes asked for suffice;
-- running out would be `none`. `close` takes a bound on the index blocks of the file,
-- and any bound above the number of the last block is enough. A pass of list_sort takes as many rounds
-- as the list has elements, list_sort one pass more than that. donate takes one call more than the
-- kernel has threads, since every call raises a thread that was below the running one. The clock takes
-- one round more than there are frames, since every round clears a bit that was set. A loop over the
-- entries of a directory takes as many rounds as its bytes have room for, and one more; the tokens
-- of a path take one call of strtok_r more than the path has bytes. inode_create makes an index block
-- for every 126 sectors of its length, and two more rounds are given. An inode that is closed has
-- its blocks released with the sectors of the device as the bound.
--
-- Left out: memory that malloc cannot give; other threads that run between the steps of a call
-- (the lock and the counts of readers and writers are there, and a caller who would have to wait
-- for another thread does not return); the registry of devices; the start of the file system
-- (filesys_init, do_format) and the system calls; thread_create, the idle thread and stacks; the
-- pointers of the lists; the page fault handler and the user programs of the other projects; the
-- labs of CS429 and the database project of CS347.
pub mod Prelude
pub mod Bitmap
pub mod FreeMap
pub mod Disk
pub mod Inode
pub mod Lifetime
pub mod OpenInodes
pub mod OpenFile
pub mod BitmapFile
pub mod Strings
pub mod Directory
pub mod Filesystem
pub mod KernelList
pub mod Threads
pub mod Pages
pub mod Swap
pub mod Frames
