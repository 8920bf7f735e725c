-- ===== src/Lib.antt =====
-- A dynamic memory allocator: segregated lists of free blocks, with headers,
-- footers and 16-byte mini blocks, over a simulated heap.
--
-- The parts and their files:
--
-- * Base holds what the others share: Boolean tests, masks and 64-bit words
--   (Base/Tests, Base/Words, Base/Bits, Base/Digits) and functions on lists.
-- * Machine is the store the C code runs on: State (the heap's bytes, the
--   break, the variables mini_list and seg_list), Cmd, a monad of commands
--   that end in a result, a fault or too few rounds (Machine/Command,
--   Machine/Ends), and the little-endian reads and writes of memlib.c
--   (Machine/Memory; round trips in Machine/ReadWrite).
-- * Memlib is the dense mode of memlib.c: mem_init, mem_reset_brk, mem_sbrk,
--   mem_heap_lo, mem_heap_hi, mem_heapsize, mem_memcpy, mem_memset; load and
--   store (Memlib/Word) are the accesses to a 64-bit word of the heap.
-- * Block is the helpers of mm.c on headers and footers, from max and round_up
--   to write_pack, write_prev_alloc and find_prev. Offsets of the C structs
--   are payload_offset, prev_offset, next_offset and mini_next_offset.
-- * FreeList is find_class, insert_free, remove_free and find_fit of mm.c. The
--   branches of the C functions are insert_mini, insert_seg, remove_mini,
--   remove_seg; its loops are remove_mini_loop, search_class and search_from.
--   FreeList/Chain and FreeList/Segregated say when lists of addresses are the
--   singly and doubly linked lists in memory, and FreeList/Listed when the
--   lists together hold just the blocks of a set.
-- * Allocator is coalesce_block, extend_heap, split_block, mm_init, malloc,
--   free, realloc and calloc of mm.c, each case of them a definition.
-- * Heap is the heap as a list of pieces, blocks without their contents:
--   IsHeap says that headers, footers and flags in memory are theirs, IsReady
--   that the free pieces are the blocks in the lists and no two of them are
--   neighbours, IsSound that the break is within its limit too. IsOpen is a
--   heap with a gap, where an operation is at work. Heap/Packed, Heap/Fields
--   and Heap/Walk are about the helpers of mm.c, Heap/Take and Heap/Fill about
--   the steps on a gap, Heap/Coalesce about coalesce_block, Heap/Release and
--   Heap/Dispose about free, Heap/Pick, Heap/Place, Heap/Find and
--   Heap/Allocate about malloc (Heap/Place/Split is split_block), Heap/Extend
--   and Heap/Grow about extend_heap, Heap/Begin about mm_init, Heap/Move about
--   realloc, Heap/Cleared about calloc. Heap/Used and Heap/Blocks are what is
--   in use, Heap/Write is about a client's writes. Heap/Served says that each
--   payload that a client holds has a block of its own, and Heap/Client has
--   the states that a client reaches by mm_init, malloc, free, realloc, calloc
--   and writes to payloads it holds.
-- * Check is mm_checkheap of mm.c with its helpers, without the messages.
--   Check/Blocks and Check/Lists are about its two halves, Check/Reached about
--   the checker on a client's heap.
-- * Naive is the allocator of mm-naive.c.
-- * Tree is the splay tree of stree.c: nodes with parent pointers in a store,
--   left_rotate, right_rotate, splay (its loop body is splay_step),
--   tree_insert, tree_find, tree_find_nearest, tree_remove.
-- * Traces is tracefile.c: the types of a trace, reinit_trace and read_trace
--   with its helpers (its header is read_header, its loop read_requests).
--   Traces/Bounds is what the reader has checked of a trace, Traces/Rounds is
--   about the rounds of its loop, Traces/Text is the text of a trace file, and
--   Traces/Lines and Traces/Print are about reading it.
-- * Ranges is the set of payload ranges of mdriver.c: new_range_set, add_range
--   (its tail is track_range), remove_range.
-- * Payloads is the random data of mdriver.c: randomize_block, check_index.
-- * Replay is the runs of a trace in mdriver.c: eval_mm_util and eval_mm_speed;
--   eval_mm_valid is in Replay/Valid, eval_libc_valid and eval_libc_speed are
--   in Replay/Libc (compared in Replay/Libc/Matched). The body of each loop is
--   a definition of its own (util_request, speed_request, valid_request and its
--   cases). They run on a Package, the operations that the driver is linked
--   with; Replay/Packages has those of mm.c and of mm-naive.c. Replay/Live says
--   which traces are proper and that the blocks a trace holds are served by
--   blocks of their own (with Heap/Room, how they bound the heap), Replay/Held
--   what a trace holds by its requests alone; Replay/Accepted,
--   Replay/Utilization and Replay/Timed are about the three runs, Replay/Judged
--   and Replay/Counted about single requests in the first two.
-- * Tests runs the code on small heaps and applies the theorems.
--
-- The allocators call memlib.c for every byte they read or write, as the
-- sources do through macro-check.pl; the driver calls the allocators and keeps
-- the ranges of the payloads they give, in a list and in the tree.
-- Words are natural numbers below 2^64 with the wrap-around of the source
-- written out. An access outside the heap, which the source reports or which
-- is undefined in C, is a fault, and so is an access of the driver outside the
-- arrays of a trace, which have num_ids entries. The contracts of mm.c (dbg_requires and the
-- like) expand to nothing in the build without DEBUG, which is the one
-- modelled.
--
-- Loops: memcpy and memset get one round for each byte. Walks over lists, of
-- blocks and of free blocks, get `rounds` rounds, the heap's size plus one: as
-- the blocks of a list are distinct addresses in the heap, no list is longer
-- than that. Walks down the tree and splaying get one round
-- more than the tree has nodes. The requests of a trace file are read with one
-- round for each line that is left and one more, and the ranges are walked
-- with one round for each request of the trace and one more.
--
-- Parameters: the address that mmap gives, the page size that sysconf gives
-- and whether mprotect succeeds; the addresses that malloc of the C library
-- gives the driver for nodes and ranges; what random() gives; the lines that
-- getline gives, what strtoul makes of a text, and whether calloc gives the
-- arrays of a trace; the allocator of the C library.
--
-- Not modelled: the sparse mode of memlib.c, statistics and printing,
-- mem_deinit and hprobe, accesses of 128 bits, the driver's options, timing,
-- messages and scores (input, output and measurement), free_trace and
-- free_range_set, the scripts and the build. setUBCheck does nothing in the
-- dense mode.
pub mod Base
pub mod Machine
pub mod Memlib
pub mod Block
pub mod FreeList
pub mod Allocator
pub mod Heap
pub mod Check
pub mod Naive
pub mod Tree
pub mod Traces
pub mod Ranges
pub mod Payloads
pub mod Replay
pub mod Tests
