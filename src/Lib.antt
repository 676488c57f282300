-- ===== src/Lib.antt =====
-- Verification of Symphony, the kernel of OrchestrOS.
--
-- Base: shared names, Boolean tests, lists, 64-bit words with ALIGN_UP (include/symphony/mm.h),
-- the bits of a byte, signed integers, and the outcome of kernel code (`Run`): a result with a new
-- state, or a panic, which halts the machine, or the end of a loop's fuel.
-- Memory: byte memory as a function from addresses, with memcpy, memset, memmove and memcmp of
-- symphony/string.c. Strings: strlen, strcmp and strncmp of the same file.
-- ErrorCode: the error codes in pointers of include/symphony/error.h.
-- BootProto: symphony/boot_proto.c and include/symphony/boot_proto.h. The responses of the
-- bootloader and the constants of limine.h, which is no part of the repository, are the fields of
-- the record `Limine`, a parameter of all that uses them.
-- Pmm: the page frame allocator, symphony/mm/pmm.c. `Pmm.State.Pmm` holds the statics `bitmap` and
-- `bitmapSize` and the memory, in which the bitmap lies and which `pmm_free` poisons; State has
-- pmm_bitmap_set and pmm_bitmap_clear, Find pmm_find_free_pages, Frames pmm_alloc and pmm_free, and
-- Init pmm_bitmap_last_tracked_page and pmm_init.
-- Debug: symphony/debug.c. Digits and Integer are debug_print_int, with Parts about sign,
-- prefix and fill, Format is debug_vprintf, Log is
-- debug_log and what a panic prints. The output is the list of the characters that are given to
-- debug_putchar.
--
-- X86: symphony/arch/x86_64/gdt.c and interrupt.c, but for the instructions that load the tables; the
-- addresses of the tables, of the interrupt stubs and of the exceptions' messages are parameters.
-- Serial: symphony/serial.c on x86_64, with debug_putchar and the loop of debug_print that feed it;
-- the device's answers to the polls are a sequence, and the bytes written are recorded in order.
-- Memory.Words: the 64-bit words of byte memory. KHeap: symphony/mm/kheap.c. `KHeap.KHeap` holds the
-- statics of the file and the frame allocator below, in whose memory the block headers lie
-- (KHeap.Header). A list of blocks describes a heap at work (Blocks, Invariant): the headers are
-- linked both ways, no byte is in two blocks, and the pages below are in use. Split, Merge and Mark
-- are what kheap_create_block, kfree and kmalloc write, Steps these as steps of the heap; Free is
-- kfree with its merges in Coalesce, Find and Malloc the loop of kmalloc, Append, Fresh and Extend are
-- kheap_extend, Allocate is kmalloc, Zeroed kzalloc, Init kheap_init. `uses f` sums a measure `f` of address and size over the blocks in
-- use, so an equation for every `f` says which blocks are in use. What kfree logs on a block that
-- is free already is left out.
-- Paging: symphony/arch/x86_64/mm.c. Index has the indexes of an address, Entry the changes of an
-- entry, Walk page_from_index and the functions on tables in byte memory: NewTable is about
-- arch_vmm_new_pt, Present about walks where all tables are there, Destroy about arch_vmm_destroy_pt.
-- Tables is the tree of tables by the paths of indexes that lead to them (`TableAt`): page tables at
-- work (`IsPaging`) have a page of their own for every table, and map pages by entries (`Maps`).
-- Frame, Made, Grow, Next and Added follow the tree through the making of one table, Reach through
-- page_from_index, Write and Change through the write of an entry, Map through the functions, and
-- Empty is about a new tree. `Pmm.Room.Ends` is a run that returns or panics for want of memory, and
-- then says that few pages are left; `Pmm.Pages` has the bytes of pages in use.
-- Vmm: symphony/mm/vmm.c. Vmm has the calls of vmm_map that vmm_map_range makes, Init vmm_init with
-- `kernelPT` and the register that vmm_switch loads, Calls what a sequence of calls leaves, Needs
-- counts the tables that calls need and Served gives them out, Mapped and Pages what vmm_init leaves.
--
-- Boot: `_start` of symphony/kernel.c with symphony/arch/x86_64/init.c, over a `Kernel` of all the
-- statics and the ports, and a `Platform` of what the bootloader and the linker give. All that is
-- printed goes through the serial driver. Print is about what is printed, Rest about what the steps
-- leave alone, Memory about the set-up of the memory, Started about `_start`. Paging.Tables.Keep
-- and KHeap.Ready say what the heap's set-up leaves of the page tables.
--
-- Bounds and fuel. Words are natural numbers, and each operation that may wrap is taken modulo
-- 2^64. Page counts, `int` in the source, are natural numbers below 2^31; the product of a page
-- count and the page size in pmm_free, an `int` as well, wraps as it does there. The digit loop
-- runs on 64 rounds, enough for a 64-bit number in any base from 2; the loop over a format string
-- on one round for each character and one more; a loop over a string on a fuel that the laws take
-- above the string's length; a poll of the serial device on as many reads as the device may be
-- busy; the loop of vmm_map_range on one round more than it has pages; kmalloc on a fuel of at
-- least four more than the heap has blocks, since it extends the heap once at most.
--
-- Not modelled: the reload of the page tables' register and caches, what a panic
-- prints in the boot sequence, inline assembly, the interrupt entry stubs, the build files.
pub mod Base
pub mod Memory
pub mod BootProto
pub mod Pmm
pub mod Debug
pub mod Strings
pub mod ErrorCode
pub mod X86
pub mod Serial
pub mod Paging
pub mod Vmm
pub mod KHeap
pub mod Boot
