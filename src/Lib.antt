-- ===== src/Lib.antt =====
-- TupleOS: the memory managers, the process table, the scheduler, the interrupts, the text screen, the
-- printers and the shell of the kernel, and kernel_main over all of them, as functions on explicit states.
--
-- The program. kernel/kernel.c starts the parts in order. kernel/pmm.c hands out physical frames from a
-- bitmap. kernel/paging.c keeps the page directory and the page tables, and takes frames for new tables
-- from pmm.c. kernel/kheap.c is a first-fit heap in one range of virtual addresses, which grows by frames
-- that it maps through paging.c. kernel/vmm.c keeps the regions of address spaces in sorted lists, maps
-- and unmaps their pages, and takes the address spaces themselves from the heap. kernel/process.c is the
-- process table, whose kernel stacks come from the heap; kernel/scheduler.c rotates over its slots and
-- switches stacks by boot/context_switch.asm. kernel/kprintf.c prints to the text screen of
-- kernel/kernel.c, kernel/serial.c to a serial port. kernel/keyboard.c turns scancodes into characters for
-- the command line of kernel/shell.c. kernel/idt.c programs the interrupt controllers and calls the handlers
-- of the timer (kernel/timer.c), the keyboard and the page fault (kernel/vmm.c).
--
-- The files. Each part is a module with the state as a record and one function for each function of
-- the source, and its child modules hold the proofs:
--   Common      words of 32 bits with their wrap-around, bits as arithmetic, memory as functions,
--               searches for the least index
--   Pmm         kernel/pmm.c: pmm_init is init, pmm_alloc_frame alloc_frame, pmm_free_frame free_frame,
--               and so on; Bitmap, Scan, Frames, Reuse, Init and Walk prove
--   Paging      kernel/paging.c; Entries, Tables, Mapping, Data and Start prove
--   Kheap       kernel/kheap.c; Blocks is the abstract view as a list of blocks, Fit, Live, Coalesce,
--               Merge and Grow are about that list and its chain of headers, Correct, Expand, Alloc, Free,
--               Cycle, Init and Frames prove
--   Vmm         kernel/vmm.c up to vmm_map_region, Vmm.Spaces the rest of it, and Vmm.Report what
--               it prints; Regions, Gaps, Lists, Start, Layout, Page, Pages,
--               Grant, Unmapping, Undo, Rollback, Recycle, Cycle, Removal, Fault and Report.Ends prove
--   Process     kernel/process.c; Slots, Pids and Room prove
--   Scheduler   kernel/scheduler.c and boot/context_switch.asm; Rotation, Fairness, Switch, Threads
--               and Start prove
--   Terminal    the text screen of kernel/kernel.c; Screen proves
--   Format      kernel/kprintf.c and kernel/serial.c; Digits, Printers and Ends prove
--   Shell       kernel/shell.c and kernel/keyboard.c; Line, Choice and Keys prove, Texts
--               holds their constants
--   Descriptors the entries of kernel/gdt.c and kernel/idt.c, the divisor of kernel/timer.c; Fields proves
--   Interrupts  kernel/idt.c: idt_init is init, idt_register_handler register_handler, pic_remap has its name;
--               Controllers describes the interrupt controllers and proves, Gates proves
--   System      kernel_main of kernel/kernel.c, kernel/timer.c, keyboard_init, serial_init, and
--               interrupt_handler of kernel/idt.c; Texts holds messages, Memory, Threads, Booted, Start, Boot,
--               Dispatch and Ticks prove
--   Examples    concrete states, and the theorems at them
--
-- The states are nested as the parts call each other: a Kernel holds the Vmm, which holds the Heap,
-- which holds the Machine of paging.c, which holds the Pmm. A function of the source that changes a
-- static takes the record and gives it back changed. NULL is 0, or none where the model has no address.
--
-- Memory. A uint32_t is a natural number and every operation that can wrap around says so. The bitmap is a
-- function on byte numbers, page tables are functions on the address of their frame, heap headers a
-- function on their address (a header is one cell of it, and the bytes that callers own are kept apart
-- from the headers), and kernel stacks a function on addresses of words. PHYS_TO_VIRT is
-- the translation that paging_init makes of the first 16 MB: a page table is named by its physical address, and
-- a write to one behind the 16 MB sets the flag faulted of the machine, which stands for the page fault. The
-- heap maps the addresses from 4 MB behind the base anew, so the theorems on page tables ask for tables in
-- frames of the first 4 MB, and those on vmm_map_region for a range that leaves the first 4 MB behind the
-- base alone. A lookup through a table further up is outside of them too.
--
-- Fuel. The loops of kernel/kheap.c along the chain of headers, and that of pmm_init along the memory map,
-- run on fuel: a chain has at most one header for twelve bytes of the heap, a map at most one entry for a
-- byte; the digits of a number run on 33 rounds. None stands for fuel that ran out, in
-- heap_expand also for a page that paging_map_page left without a table, whose first access is a page fault,
-- and the theorems on these functions say that neither comes about. Other loops are recursion on the rounds that are left.
--
-- Interrupts. The writes to ports are a list, and the controllers are a function of it. An interrupt is one
-- call of interrupt_handler, whose writes
-- are run on the controllers with the line in service; where the timer's handler switches to another thread, the rest of it is
-- finish, which runs when the thread that was interrupted is resumed.
--
-- Parameters. The memory map is a function from addresses to entries; the addresses that the linker gives,
-- the return address in schedule, the scancode, CR2 and the masks that ports give are arguments.
--
-- Not modelled. The messages that the memory managers, the process table and the scheduler print change only
-- the screen, and the calls are left out, in kernel_main too: there the screen shows the messages of
-- kernel_main itself. Interrupts while kernel_main still starts the parts, the TLB, CR3 as hardware and the
-- boot code (boot/*.asm but for context_switch.asm) are not modelled.
pub mod Common
pub mod Pmm
pub mod Paging
pub mod Kheap
pub mod Vmm
pub mod Process
pub mod Scheduler
pub mod Terminal
pub mod Format
pub mod Shell
pub mod Descriptors
pub mod Interrupts
pub mod System
pub mod Examples
