-- ===== src/Lib.antt =====
-- A model of the PeachOS 64-bit kernel (paths below are from the repository's root).
--
-- Parts and files:
--
-- - Memory: the byte routines of PeachOS64Bit/src/memory/memory.c (memset, memcpy, memcmp) over
--   a memory that is a function from addresses to bytes.
-- - Heap: the block heap of PeachOS64Bit/src/memory/heap/heap.c. Heap.antt has the state
--   (struct heap with its table) and heap_create; Heap.Search the first-fit search and the
--   walks; Heap.Alloc marking, heap_malloc, heap_zalloc and heap_free; Heap.Resize
--   heap_realloc; Heap.Totals the reported sizes. Heap.Count states the invariant of the
--   counters.
-- - Paging: PeachOS64Bit/src/memory/paging/paging.c. Paging.antt has the tables, the map
--   functions, the lookups and the alignment; Paging.Walk the page walk of the processor, by
--   the present bits and the rights of every level, and the tree of tables, which is the
--   specification; Paging.Ensure and Paging.Write the two kinds of step of paging_map,
--   Paging.Map the whole of it, Paging.Range the ranges, Paging.Get the lookups, Paging.Align
--   the alignment.
-- - E820: the firmware's memory map in memory.c, and paging_map_e820_memory_regions.
-- - Strings: PeachOS64Bit/src/string/string.c.
-- - PathParser: PeachOS64Bit/src/fs/pparser.c: Split has what one part is, Parse the paths that
--   parse back, Total what every path leads to.
-- - Vector: PeachOS64Bit/src/lib/vector/vector.c over the memory of Memory. Vector.Elements
--   says where an element lies, Access is reading and overwriting, Push growing, Reorder the
--   sort, Search and Remove taking an element out.
-- - Keyboard: the key buffer of a process, PeachOS64Bit/src/keyboard/keyboard.c, as a queue.
-- - Streamer: reads of PeachOS64Bit/src/disk/streamer.c over the sectors that its cache and the
--   disk give: Read has the loop, Whole the whole read. Cache has the three levels of buckets
--   and the round robin: Places says where a sector is kept, Walk and Fetch what a search
--   gives, Again that it is found again, Through what a read through the cache delivers.
-- - Task: the list of tasks and the choice of the next one, PeachOS64Bit/src/task/task.c. Chain
--   has the list in memory, New and Remove its changes, Schedule the choice, Live which tasks
--   come to run.
-- - File: the open files of PeachOS64Bit/src/fs/file.c over a table of functions for each file
--   system. Table has the slots, Open and Close the two calls that change them, Refine
--   sequences of calls, Session what is done with one file.
-- - Fat16: the file system of PeachOS64Bit/src/fs/fat/fat16.c over the reads of Streamer.
--   Fat16.antt has the table and the reads, Chain which clusters it leads to, Read and Calls
--   the bytes of a file; Directory the items, with Names, Search and Total, and opening and
--   resolving.
-- - Process: the allocations, the check of addresses and the window events of a process,
--   PeachOS64Bit/src/task/process.c: Check, Blocks and Events.
-- - Disk: the disks of PeachOS64Bit/src/disk/disk.c and the partitions of disk/gpt.c. Bounds
--   has what a read may reach, Gpt the mounting of partitions, Mount which disks they become.
-- - Status: the codes of PeachOS64Bit/src/status.h and the results that carry them.
-- - Common: shared names, tests on numbers, lists with native indices.
--
-- The parts meet in the memory: Vector and Strings use the routines of Memory, E820 maps
-- through Paging, and the allocators come in as parameters, `krealloc` and the addresses or
-- frames that `kzalloc` returns, or whether it succeeds. Fat16 and Disk.Gpt read through
-- Streamer, whose sectors Streamer.Cache gives; Streamer.Cache asks Disk where a sector lies.
-- File takes each file system as a table of functions, and Process takes a map function of the
-- type of paging_map_to. What a theorem needs of a parameter stands in its hypotheses:
-- Vector.Push.IsRealloc, the fields `fresh` and `apart` of Paging.Walk.IsTree, and
-- Streamer.Read.Serves.
--
-- Conventions. A function that changes state returns the new state. A C array is a function of
-- its index, so a read out of range sees what lies there. `size_t` and `uint64_t` arithmetic
-- wraps at 2^64. The position of a stream and the positions that its cache is asked for are
-- `int`s that are not negative; a read whose end is no `int` delivers nothing, and
-- Streamer.Read.Serves is about sectors below 2 GiB. A negative status is `err`, NULL is 0 or
-- `none`. A loop with a bound recurs on the number of rounds left. The loops of strlen and
-- strcpy, which have none, take fuel, and a terminator within it is enough, for strlen one
-- before 2^31; itoa and the path parser take fuel that is enough for every int and every path.
--
-- Not modelled: assembly, port I/O and the tables of the hardware; disk drivers, the loading of
-- processes, windows and system calls; user programs.
pub mod Common
pub mod Disk
pub mod E820
pub mod Fat16
pub mod File
pub mod Heap
pub mod Keyboard
pub mod Memory
pub mod Paging
pub mod PathParser
pub mod Process
pub mod Status
pub mod Streamer
pub mod Strings
pub mod Task
pub mod Vector
