-- ===== src/Lib.antt =====
-- zeros: a 32-bit hobby operating system (kernel/, user/) and the small Python that runs on it and on
-- a host (py/). This library models the parts with logic of their own and proves what makes them
-- correct.
--
-- How the parts interact. The page allocator hands out the pages that processes and windows live in.
-- The process table holds the processes; killing one closes its windows, reaps its children and
-- returns memory. A program is loaded at its fixed address, after the image that is there has been copied
-- to pages of its own; its parent waits until it exits or yields. Files in the kernel's tree keep their
-- contents in pages, too; they are unpacked from an archive at boot. The window server is a process that
-- gets pixels and events by the calls of kernel/gui/display.c. The Python has its own file system in RAM and a lexer that feeds its parser.
--
-- Files and the code they model:
--   Base: shared names, Boolean tests, lists measured by native numbers.
--   Memory: flat memory as a function from addresses to bytes; kmemset and kmemcpy of
--     kernel/core/string.c.
--   Str: C strings (lists of bytes without the NUL) and the string functions of kernel/core/string.c.
--   Mm: kernel/core/mm.c. `Mm` holds its three globals and the memory.
--   Mpfs: py/fs.c with the limits of the build without MP_HOST. `Mpfs` holds its two globals; each
--     operation of the file is a function of the same name, which returns its result and the state.
--     A descriptor or offset is the bit pattern of the C integer.
--   Lex: py/lex.c. `Lexer` is MpLexer, with the indent stack as a list with the top first; Lex.Scan
--     has one definition for each part of the main loop.
--   Parse: py/parse.c, py/ast.h and mp_alloc of py/heap.c. `Node` is the tree; a step of the parser is a
--     function of `Parser` (MpParser without its lexer, which is a parameter, and with heap_off), and
--     the functions have their names in the source. The recursive calls of a function are arguments
--     of its parts.
--   Proc: kernel/proc/proc.c, with the table as a list and a pointer to a process as an index. Proc.Cons
--     is the console of a process, Proc.Kill what ends one, with display_destroy_pid of
--     kernel/gui/display.c, Proc.Swap the images that share an address, Proc.Slices the parents that
--     wait, Proc.Spawn the start of a process from a file. Proc.Elf is kernel/proc/elf.c, for a file whose
--     bytes stand in a buffer that nothing writes to, and whose reads past its end are of the memory
--     there. The jumps to user code and the registers that they save are not modelled.
--   Gui: kernel/gui/display.c. `Display` holds its globals and the kernel's other state. Gui.Window has the
--     records and the ring of events of one window, Gui.Windows the calls on windows, Gui.Events and
--     Gui.Launch the others, each under its name in the source; Gui.Calls makes one type of those that
--     change something.
--   Vfs: kernel/fs/vfs.c. `Vfs` holds its three globals and the page allocator; a pointer to a node is its
--     index. Vfs.Tree makes and removes nodes, Vfs.Files has descriptors and contents (names that end in
--     _here take what is not the FAT driver's), Vfs.Calls the functions of kernel/fs/vfs.h over an
--     interface to kernel/fs/fat.c.
--   Initrd: kernel/fs/initrd.c over the calls of Vfs, and the archive that scripts/pack_initrd.py writes.
--     `unpack_from` is the loop, on fuel: `none` is out of fuel. Bytes after the end of the archive are 0.
--   Tests: runs at concrete inputs.
--
-- Slices. A run of a process is a relation on `Slices`: ticks, changes of the foreground, and waits for
-- children that run in the same way.
--
-- Loops. A loop with a counter is recursion on the rounds that are left. The lexer's main loop and the
-- recursion of proc_kill_one take fuel, and so do the loops of vfs_normalize and vfs_lookup, one round
-- for each byte of the path, which Vfs.Rounds compares with runs that have no fuel. The lexer is given one round for each character and one more, and
-- is shown never to need more. The pid counter bounds the depth of a kill, since a child's pid is above
-- its parent's. The parser's loops take a round for each token, and its calls of
-- parse_expr and parse_stmt nest at most that deep: Parse.Total shows that this suffices.
--
-- Not modelled: assembly, port I/O and drivers; the network stack, FAT and the system calls; the
-- objects and the evaluator of the Python; the user programs.
pub mod Base
pub mod Memory
pub mod Str
pub mod Mm
pub mod Mpfs
pub mod Lex
pub mod Parse
pub mod Proc
pub mod Vfs
pub mod Tests
pub mod Gui
pub mod Initrd
