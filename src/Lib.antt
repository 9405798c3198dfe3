-- ===== src/Lib.antt =====
-- RedFox32: a model of the kernel's C code, with the theorems that make it correct.
--
-- The program is a small 32-bit kernel (RedFox32/Source/Kernel). `KMain` sets up the interrupt
-- table, the system calls, the allocator, the screen and the keyboard, and then waits for keys.
-- The parts share the memory of the machine, and reach the devices by port instructions.
--
-- Base: the library names that the parts share, the tests on numbers, 32-bit words (`word` is
-- 2^32; `add32` and `sub32` wrap), tables that are checked row by row, loops over a range.
-- Machine: Memory has the memory, a function from addresses to bytes, with little-endian 32-bit
-- fields. Ports has IO.c: each instruction appends an action to a trace, and a `Device` answers a
-- read from the trace so far; it is a parameter wherever a device is read.
-- Console: TextMode.c. `Console` is the memory with `ScreenPos`; each function keeps its name.
-- `putch` calls itself for a space only, so that a depth of 2 is enough; Console/Putch proves
-- that it satisfies the equation of the C body.
-- Allocator: Memory.c and Memory.h. `Allocator` has the static variables and the memory, in which
-- the packed headers stand and from which the memory map is read. `malloc` and
-- `CanSafelyAllocate` call each other: `malloc`, `can_safely_allocate` and `check_entries` (its
-- loop) take a unit of fuel for a call or a round; more than the number of entries and two is
-- enough where no entry is in the way. `Outcome` tells a return from the halt of the machine and
-- from a call that is still running. Chain describes the heap as a list of blocks; Client is
-- about any sequence of calls and of writes to the blocks.
-- Idt: IDT.c and IDT.h. The entries and the handlers are lists; the addresses that the linker
-- chooses are the record `Linked`.
-- Keyboard: Keyboard.c, Keyboard.h and KeyboardLayouts/GB.h. The loops of `UpdateLEDS` take a
-- unit of fuel for each read of the status; one is enough on a controller that is ready. The
-- loops that halt take the sequence of the interrupts that wake them. Keyboard/Earlier has the
-- tables of the earlier drivers (RedFox32/Old/Source/Drivers/Keyboard).
-- Kernel: Kernel.c and Syscalls.c, the setup in its order and the treatment of an event.
-- Interrupts that come during the debug output are left out. Kernel/Blocks is about the two
-- blocks that KMain fills and frees: the allocator and the screen on one memory. Kernel/Loop is
-- the main loop: the interrupts are those that end the waits of each call of `Keyboard_GetEvent`,
-- one list for a call; Loop/Typing has the keys that a person types, the lock keys and the prefix
-- 0xE0 left out, and what they are to come to.
-- Floppy: Floppy.c. The counter is the byte of a signed char; the wait takes the sequence of the
-- interrupts that wake it.
-- Stage2: the earlier second stage and file system (RedFox32/Old/Source). Gates is Interrupts.c,
-- Calls is Syscall.c with the wrappers that raise its interrupt, Screen is Video.c, Fdc is FDC.c,
-- SectorMap is the sector map of FileSystem.c, which keeps it in memory. A `Board` has the
-- devices, the interrupt line of the floppy controller and the rounds that each loop of Fdc is
-- given; one round is enough on a controller that is ready.
-- Files: Stage2.c and the rest of FileSystem.c. Boot is the whole of `Stage2_CEntry`, Loader its
-- loop that loads the kernel, which reads the two functions of the disk from memory for each
-- sector. The two functions of FDCInterface are a parameter (`FdcInterface`), with their laws in
-- `IsLawful`, and may print; a `Station` has the screen with the memory, and the disk. Copy is
-- the loop that copies an object, Sectors the map and the root directory, Mount FS_Initialize,
-- Kernel the earlier Kernel.c up to its test file, Drive the functions of FDC.c as the two of the
-- interface, on controllers that are a parameter (`Hardware`: what they do to memory and disk by
-- the end of a call, `Board`: what they answer), Directory and Reading the functions of these
-- names. Fuel is for each round of a loop and each call; the theorems say how much is enough.
-- What ReadFile prints goes to the position of the kernel's own copy of Video.c, which is an
-- argument; the `malloc` of that kernel is no part of the repository and a parameter, which may
-- not return.
-- Vesa: VESA.c. The frame buffer and the description of the mode are in memory. Rows is about the
-- bytes that are written, Pixels about the picture, Rectangles and Glyph about the drawing
-- functions, Bios about the initialization, Strobe about one frame of the test pattern; the BIOS
-- and the font are parameters.
-- Tests: concrete runs.
--
-- A pointer is its address, a char the byte of it; a function pointer is the address of the
-- function, 0 for null. The assembly files (the bootloader, IDTA.asm, KEntry.asm) are not
-- modelled: what they leave in memory and the addresses of their functions are parameters. Of the
-- earlier version, the fonts, the driver for VGA, which is commented out, and the call of the
-- BIOS by the kernel are not modelled.
pub mod Base
pub mod Machine
pub mod Console
pub mod Allocator
pub mod Idt
pub mod Keyboard
pub mod Floppy
pub mod Kernel
pub mod Files
pub mod Vesa
pub mod Stage2
pub mod Tests
