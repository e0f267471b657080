-- ===== src/Lib.antt =====
-- HARLAN OS, a kernel for x86-64: a verification library of its core, the parts that decide who owns
-- which memory, who runs, and what is let in from outside.
--
-- The firmware's memory map says what memory there is. The frame allocator hands frames out of it;
-- the heap and the page tables are built from frames. A process is loaded from an ELF file and owns
-- ranges of memory, frames and open files. The scheduler keeps the processes in a table of slots,
-- switches the CPU from one to another, and passes messages between their mailboxes.
--
-- Base                     what the modules share: Rust's 64-bit arithmetic, arrays as lists, tests,
--                          bits of a word, text.
-- Hal.Addr, Hal.Frame      hal/src/addr.rs, hal/src/frame.rs: `PhysAddr`, `VirtAddr`, `PhysRange`
--                          (`end` is `end_of`), `PhysFrame`.
-- Hal.MemoryMap            hal/src/memory_map.rs: `MemoryMap` with `push`, `iter` and the totals, and
--                          the classification of the firmware's descriptors.
-- Hal.Elf                  hal/src/elf.rs: `parse`, with one function for each stage of it:
--                          `read_table`, `read_segments`, `check_segment`, `keep`, `finish`.
-- Hal.Fat                  hal/src/fat.rs: `DirectoryEntry` in Directory, `BootSector` and `Entry` in
--                          Boot, `decode_slot` and `encode_name` in Names, and `Volume` with `mount`,
--                          `next_cluster` and `read_file` in Volume. The device is a parameter: a
--                          function from its state and a sector to the state after it and an error
--                          or the bytes.
-- Hal.Paging               hal/src/paging.rs: `Page`, `PageFlags`, `MappedRange` and the errors.
-- Memory.FrameAllocator    kernel/src/memory/frame_allocator.rs: `BitmapFrameAllocator`. Its bitmap
--                          is in BitWords, the rounding of regions in Regions, `FramePurpose` in
--                          Purposes, and giving back, the purpose table and
--                          `reclaim_boot_services` in Release.
-- Memory.FreeList          kernel/src/memory/heap/free_list.rs: `FreeListHeap`, with the hole headers
--                          in a memory that maps an aligned address to the header there. Its `check`
--                          is in Check. Holes says what the list means: extents in address order, and
--                          the bytes that they make free.
-- Paging                   arch/x86_64/src/paging.rs: `PageTables` with `translate`, `map`, `unmap` and
--                          `new_table`; the bits of an entry in Entries, `adopt` and
--                          `new_process_space` in Spaces, `free_lower_half` in Freeing, with the
--                          closure that takes a frame as a parameter. The memory of the tables is a function of
--                          a table's address and an index, which is what the trait `TableAccess`
--                          reads and writes. The allocator behind the trait `FrameAllocator` is a
--                          parameter: Descent says what the tables ask of one (`Promises`), and
--                          Bitmap that `BitmapFrameAllocator` keeps it.
-- Keyboard                 arch/x86_64/src/keyboard.rs: `ScancodeQueue`, `Decoder` and
--                          `read_key_from`. Machine has `push` and `pop` as steps, one for each load
--                          and store, for one producer and one consumer; the atomics behave as if
--                          sequentially consistent.
-- Ipc                      kernel/src/ipc.rs: `Mailbox`; Ipc.Contract is the slot that it implements.
-- Process                  kernel/src/process.rs: `Process`; `OpenFiles` in OpenFiles, `owned_by` and
--                          `fixed` in Ranges, `Building` in Building.
-- Scheduler                kernel/src/scheduler.rs: `Scheduler` and its methods; `State` and
--                          `next_runnable` in States, messages and `running` in Messages, and the
--                          functions that switch in Switching, over the registers that
--                          arch/x86_64/src/switch.rs and `prepare_cpu_for` write.
--
-- State is passed explicitly: a method is a function that answers and returns the object after it,
-- and a function that ends in a switch returns the machine as the other side finds it. Options and
-- results are the source's; where a call panics, the answer is `none`. `usize` and `u64` are numbers
-- below 2^64, and `+`, `-` and `*` keep the low 64 bits as a release build does. An array is a list,
-- and the theorems carry its length as an invariant.
--
-- Loops over a range recurse on the rounds left, which is their bound. `allocate_from` and `seek`, the
-- walks of the free list, take one round more than the heap has granules; a valid heap has no more
-- holes than granules, so they end. `read_chain` takes one round more than the volume has clusters,
-- where the source gives up with `ChainLoops`, and `read_key_from` one more than there are scancodes
-- waiting. The walk of the page tables goes over the four indices of an address.
--
-- Not modelled: of the page tables, `rebuild_identity`, `map_physical_window`, `keep_only` and
-- `take_over`, and with them what drives the tables in a process (`spawn`, `destroy`); of the FAT
-- volume, the walk of the root directory and all writing; the ports of the keyboard's controller
-- and the other devices, the interrupt and system-call entries, the console, the boot loader, the
-- build tools and the user programs. Log and audit lines are no part of the state. A switch is the
-- effect of the assembly on the stack pointer and the table register: the registers that it pushes
-- and pops lie in the 72 bytes between the two.
pub mod Base
pub mod Hal
pub mod Memory
pub mod Paging
pub mod Keyboard
pub mod Ipc
pub mod Process
pub mod Scheduler
