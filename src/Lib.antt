-- ===== src/Lib.antt =====
-- cezos, a small kernel for 32-bit x86: its memory management, its console and its command line.
--
-- Paths below are from the repository's root.
-- - Mmu: src/inc/mmu.h and src/inc/memlayout.h, the parts of a linear address and the layout.
-- - Kmap: src/kernel/kmap.c and src/kernel/kmap.h. Kmap/State is the state of kmap.c as a record:
--   the array `pages`, `page_free_list`, the counts, and physical memory as a table of 32-bit
--   words, by page and index. A function of kmap.c is a command on this state with three outcomes:
--   a result and a state, the endless loop of MEM_ERROR_LOOP, or an access through a pointer to no
--   object. Kmap/Addr has the conversions of kmap.h, Kmap/Boot boot_alloc, Kmap/Pages the page
--   allocator, Kmap/Table the page tables, Kmap/Setup the sizes of memory and the first directory,
--   and Kmap/Entrypgdir src/kernel/entrypgdir.c. Kmap/Check is check_page_list, which sorts the
--   free list in place and fills its pages, and Kmap/Directory check_kern_pgdir, each with its
--   proofs below it. The others are in Kmap/Addr/Laws, Kmap/FreeList, Kmap/Alloc and Kmap/Init for
--   the allocator, and below Kmap/Vm for the page tables: get_page_table takes pages from the
--   allocator, insert_page counts references, remove_page gives pages back to it.
--   Kmap/References says what the allocator promises to clients that count their references.
--   Kmap/Memory is initialize_memory, which calls all of these in turn, and
--   check_kern_pgdir_installed. Its parts below are in the order of the code: Prepared up to
--   check_page_list (Listed has the free list), Regions the three regions, Checked the test of the
--   directory, then Paging (the flags of CR0), Selftest, Inserted, Cleanup and Installed the last
--   test, and Whole all of it.
-- - Str: src/lib/string.c. Str/Compare has the functions that only read, on strings as lists of
--   bytes; Str/Memory those on memory, a table of bytes by address; Str/Number strtol, which reads
--   what the printing of numbers writes.
-- - Console: src/kernel/console.c. Console/Ring is the input buffer, Console/Screen the output to
--   the serial line, the printer and the screen. What the hardware answers is a parameter.
--   Console/Keyboard is kbd_proc_data with the key tables of src/kernel/console.h; it is a device
--   for the console_interrupt of Console/Ring, as the serial line is; Console/Getc is
--   console_getc, which polls both. Console/Setup is console_init and clrscr.
-- - Command: src/kernel/command.c, the table of commands, and run_command and wait_input by the
--   results of the commands. Command/Display has the commands with what they print, and
--   Command/Terminal wait_input with the keys that are typed and the console: it puts the commands
--   and readline together.
-- - Readline: src/lib/readline.c. Readline/Edit is about the line in its buffer; Readline/Shown and
--   Readline/Echo put what it gives to cputchar on the screen of Console/Screen.
-- - Printfmt: src/lib/printfmt.c. Printfmt itself is printnum; Printfmt/Escape reads what follows
--   a `%`, Printfmt/Convert does a conversion, Printfmt/Format is the loop of vprintfmt, and
--   Printfmt/Buffer snprintf over a memory of bytes. The arguments are a list of words and
--   strings; what is printed is the list of the characters given to `putch`, since no `putch` of
--   the program reads what vprintfmt does later. Printfmt/Format/Pieces is about formats of text,
--   `%s` and `%08x`.
-- - Printf: src/kernel/printf.c, vprintfmt on the console.
-- - Proc: src/kernel/proc.c and src/inc/uproc.h, the free list of tasks and the lookup of a task;
--   Proc/Gdt the segment descriptors of src/inc/mmu.h and the table of proc.c, Proc/Vm the page
--   directory of a task, which takes a page from the allocator of Kmap.
-- - Bootloader: src/bootloader/main.c over a memory of bytes. Bootloader/Sector says what is
--   relied on of the drive, Bootloader/Segment is about readseg, Bootloader/Image about kload. The
--   fields of the headers are those of src/bootloader/inc/elf.h.
-- - Kclock: src/kernel/kclock.c. Ports says what the clock and the display's controller have in
--   common: registers that one port selects and another one reads and writes.
-- - Base and Bits: shared names, Boolean tests, integers and lemmas on bits.
--
-- Bounds and fuel. Words are natural numbers below 2 ^ 32 with the wrap-around written out. The
-- loops of kmap.c run a number of rounds that the code computes before them. strcpy runs on fuel,
-- and as many rounds as the string is long, and one, are enough, as they are for both loops of
-- strcat; printnum runs on fuel for the depth of its recursion, and as many rounds as the number
-- has binary digits are enough, which are 64 in vprintfmt; the loop of vprintfmt runs on fuel for
-- the length of the format. The loops of check_page_list run on fuel for the free pages, those of
-- check_kern_pgdir as many rounds as the code computes, readseg on fuel for the sectors that its
-- bytes touch, kload for the number of program headers, and waitdisk for the polls that the drive
-- needs. console_interrupt, readline and wait_input run over the list of the characters or lines
-- to come, and the string in readline's buffer is read on fuel for the size of the buffer.
--
-- Not modelled: what the functions of kmap.c and proc.c print, the message of kbd_proc_data
-- before a reboot, assembly, and the 64-bit arithmetic, which is a copy of another library.
-- Start-up is left out, since it only calls the others. Memory is reached by its page, so that a
-- kernel address which the loaded directory does not map is not a fault, but for the read of
-- check_kern_pgdir_installed; for the time before the kernel's directory is loaded, when the
-- first 4 MB are mapped, build_directory-IsChecked says where the pages lie that the code writes.
-- The addresses that the loops of the string functions reach do not wrap around.
pub mod Base
pub mod Bits
pub mod Mmu
pub mod Kmap
pub mod Str
pub mod Console
pub mod Command
pub mod Readline
pub mod Printfmt
pub mod Proc
pub mod Ports
pub mod Kclock
pub mod Printf
pub mod Bootloader
