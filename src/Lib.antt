-- ===== src/Lib.antt =====
-- Verification of TrollOS, a kernel for a 68040 machine.
--
-- Parts and how they interact. A system call (kernel/syscall.c) reaches the virtual file system
-- (kernel/vfs.c), which
-- keeps the tables of open files, file system types and mount points, and calls drivers through
-- function pointers. Each process has numbers of its own for the open files, which kernel/syscall
-- hands out. Processes (kernel/process.c) live in a table of 1024 slots; the timer
-- interrupt calls the scheduler, which picks the next one. Both use the strings of kernel/util.
-- Devices are registered in kernel/device.c; the file system looks them up and reads and writes
-- them, character devices through kernel/modules/chardev.c, which blocks the process that waits.
-- The terminal (kernel/modules/chardev/console.c) reads escape sequences and drives a backend that
-- draws into a framebuffer. memblk.c offers memory as a block device, and romfs.c reads directories
-- and files from one. kernel/mmu/mmu040.c gives out the frames of memory and keeps the tables of user
-- spaces, which a fork copies and into which kernel/modules/binformat/elf.c loads an executable.
--
-- Files:
--   Base, Base/...: lists, searches and Boolean tests; Base/Outcome: what a C function does with a
--     state (it returns, fails with a number of include/errno.h, faults or never ends), and `Ends`,
--     which says that it returns or fails and with what; Base/Int: signed integers.
--   CString, CString/Number: kernel/util/string.c and `int_to_string` of kernel/util/printf.c;
--     CString/Compare and CString/RoundTrip hold their theorems; CString/Copy: the copies and searches
--     of string.c; CString/Token: `strtok_r` and `str_extract_arg`.
--   Stat: include/sys/stat.h, include/sys/types.h and include/dirent.h. Device/Types: the types of
--     include/device.h.
--   Vfs/Types: include/trollos/vfs.h and the tables of kernel/vfs.c; Vfs/Path: `_extract_component`,
--     `_is_mountpoint`, `_resolv_ino`, `vfs_stat`, `vfs_stat_inode`; Vfs/Files: `_alloc_file` and
--     the operations on open files; Vfs/Mounts: `vfs_fs_register` and `vfs_mount`. Vfs/Valid states
--     what holds of the tables between two calls, Vfs/Keep which calls keep it; Vfs/Entry describes
--     the entry of a file; Vfs/Resolve, Open, Close, Read, Register, Directory and Mounting are about
--     one operation each.
--   Process: kernel/process.c; Process/Scheduler, Create and Exit are about its operations,
--     Process/Zombie about an exit and the scheduler together.
--   Device: kernel/device.c, with Device/Register; Device/Character: kernel/modules/chardev.c, with
--     Device/Character/Blocking, which meets the scheduler.
--   Console, Console/Types: kernel/modules/chardev/console.c and console.h; Console/Sequence is about
--     what sequences do, Console/Text about plain text on the framebuffer.
--     Console/Framebuffer: kernel/modules/chardev/console-fb.c, with Scroll and Draw.
--   Printf: `vprintf` of kernel/util/printf.c, with Printf/Output.
--   Memblk: kernel/modules/blockdev/memblk.c, with Memblk/Bounds. Romfs: kernel/modules/fs/romfs.c,
--     with Romfs/Directory.
--   Syscall: kernel/syscall/, on the state that processes and files make up together, with
--     Syscall/Files, Fork and Abandon; Syscall/Handlers: the handlers and the table of kernel/syscall.c, with
--     Syscall/Stub.
--   Mmu: the frames and the mapper of kernel/mmu/mmu040.c, with Mmu/Frames; Mmu/Tables: its start
--     and its user spaces; Mmu/Alloc: `mmu040_alloc_at`; Mmu/Copy: the copies to and from the user.
--   Heap: the allocator of kernel/util/mem.c. Heap/Links reads its linked headers as lists of blocks;
--     Heap/Fit, Part, Take and Malloc are about an allocation from a list and a free; Heap/Quick,
--     Filled and Refill about a new page that is split into pieces.
--   Elf: kernel/modules/binformat/elf.c and include/elf.h.
--   File: kernel/file.c and kernel/file.h. Module: kernel/module.c and kernel/modules/module.c.
--   Tests: concrete tables, and the theorems at them.
--
-- Conventions. A table is a function from its index; access goes through its bounds, and an access
-- outside them, through a null pointer or to a variable that was never set is a `fault`. A success
-- and a negated error number are two constructors. `int`, `off_t` and `pid_t` are integers; where
-- repeated input or use drives one over its end (`_process_last`, an argument of an escape sequence),
-- the overflow, which C leaves undefined, is a fault. Unsigned words wrap where the code can reach
-- their end. The out parameters of a function are part of its result.
--
-- Bounds and fuel. The loop of `_resolv_ino` has one round more than the path has bytes: each round
-- consumes a byte or more. The searches of `scheduler` and `process_exit` have 1024 rounds, after
-- which they come back to where they started; `process_create` and `scheduler` take the number of
-- rounds as an argument, so that it can be said how long their loops go on. The loops of romfs over the files of a directory take rounds as well, and one more than
-- there are files is enough. `int_to_string` has 64 rounds, one for each binary digit of its number.
--
-- `kmalloc` takes rounds for its endless loop, of which two are enough for the small sizes, and for
-- its search, of which one more than the list has blocks is enough; `kfree` takes rounds for its
-- merges. The loop of `strtok_r` over delimiters has one round more than the string has bytes, that of
-- `str_extract_arg` one more than there can be tokens.
--
-- `_fork` gives `process_create` 1024 rounds: within them each slot is looked at once, so that more
-- find no more. The loops over tables of descriptors, files and modules run over their constant
-- sizes, and the copies over the bytes that are left.
--
-- The allocator's headers are a function from addresses, apart from the bytes of the blocks: no
-- caller writes outside its block. Sizes wrap at 32 bits, and so do the addresses of what is left of
-- a block and of the end of the heap; those of the pieces of a page lie in the page.
--
-- Physical memory is a function from the addresses of words. The kernel reaches it through the ten
-- pages of the mapper, and a pointer is such a page with an offset: what it reaches follows from the
-- frame that the page shows at the time. A descriptor is a word, its fields are ranges of bits.
--
-- Pointers to devices are numbers of objects, queues and lists of links are lists, a framebuffer is a
-- function from places to bytes, and the output of `vprintf` is the list of its bytes. A device that
-- romfs reads holds an image, a function from places to bytes, of which it copies as many bytes as
-- it is asked for; what a driver returns is not looked at by that code.
--
-- Parameters. The drivers behind `struct VFSFSType`, kernel/device.c and kernel/modules/chardev.c
-- as the file system calls them (`DeviceLayer`), the allocator and MMU as kernel/process.c
-- calls them (`Machine`), and as the system calls and the loader do (`MemoryCalls`, `PageCalls`), what
-- the machine finds in its tables for a user's address (`get_physical`), the backend of the terminal (`ConsoleBackend`) and the drivers in the device
-- objects are arguments, with no law asked of them but for those that a theorem names.
--
-- Not modelled: messages to the log, which change no state of these parts; the flags of `vfs_open`,
-- which the code does not read; boot, interrupts and assembly, the drivers of the bus,
-- the serial line and the SD card, devfs and the vendored stub of the debugger. The
-- records of operations through which processes see the MMU and the allocator are not filled with
-- the models of Mmu and Heap.
pub mod Base
pub mod CString
pub mod Stat
pub mod Device
pub mod Elf
pub mod File
pub mod Heap
pub mod Syscall
pub mod Vfs
pub mod Process
pub mod Console
pub mod Printf
pub mod Memblk
pub mod Mmu
pub mod Module
pub mod Romfs
pub mod Tests
