-- ===== src/Lib.antt =====
-- Verification of MyKernel, a small i386 kernel.
--
-- The parts that are modelled, and how they meet:
--   Kmalloc   src/kmalloc.c: the kernel heap, a first-fit allocator with coalescing on the window
--             0x200000 .. 0x300000. The linked headers are a list of blocks, each with its address.
--   Sched     src/sched.c with src/context_switch.s: eight tasks, round robin. `current` is the index
--             of the running task. Sched/Spawn is `sched_spawn`, which takes the stack of the new
--             task from Kmalloc and writes the first frame on it.
--   Ramfs     src/fs.c: the RAM file system. `nodes` is a list of 256 nodes, `parent` and `cwd` are
--             indices, -1 is `none`. Ramfs/Node has the table and the searches, Ramfs/Create the
--             operations that make, rename and enter a node, Ramfs/Content reading and writing,
--             Ramfs/Remove the deletion of subtrees, Ramfs/Path the operations on whole paths,
--             Ramfs/Listing the working directory and its entries.
--   Keyboard  src/keyboard.c: from scan codes to characters, and the ring buffer between the
--             interrupt and the reader. Keyboard/Ring reads the buffer as a queue.
--   Vfs       src/vfs.c: the mount table and the lookup of the file system of a path. A FAT32 mount
--             makes its directory in Ramfs.
--   Syscall   src/syscall.c: the calls behind int 0x80. Syscall/Descriptors has the table of files and
--             the calls on it, Syscall/Paths those on names, Syscall/Arena brk, mmap and the thread
--             area, Syscall/System the rest, Syscall/Handler `syscall_handler` itself. The calls reach
--             Ramfs, Sched and the statistics of Kmalloc. Syscall/Safe is the invariant,
--             Syscall/Keeps goes through the calls one by one, Syscall/Buffers has
--             the buffers they write.
--   UserHeap  user/lib/malloc.c: the heap of a process, on the break of Syscall.
--   Elf       src/elf.c: the loader of static programs.
--   Calc      src/calc.c: the calculator of the shell. Calc/Syntax has the expressions, their values and
--             their texts, apart from the parser.
--   Mylang    src/mlang.c: the interpreter of MyLang, whose expressions go to Calc. Mylang/Command
--             has lines, Mylang/Script conditions, blocks and scripts, Mylang/Texts the expressions
--             with variables and Mylang/Programs the programs of nested blocks, both apart from the
--             interpreter.
--   Part      src/part.c: the partition tables, on the interface `Ata` of a disk with the laws `IsDisk`.
--   Fat32     src/fat32.c: the FAT32 volume, on the same interface. Fat32 itself is the file allocation
--             table, Fat32/Names the names of eight and three characters, Fat32/Directory entries
--             and the search for them, Fat32/Files reading, Fat32/Changes writing, making and
--             removing, Fat32/Volumes mount and mkfs.
--   Snake     src/snake.c: the rules of the game, with the keys of Keyboard. Snake/Rules has the
--             games as sequences of keys and steps.
-- Base has the tests on numbers, the operations on lists and the bytes in memory that the parts share.
--
-- User and kernel share one memory, a function from the address to the byte, and a pointer argument
-- of a system call is an address that is not checked further than the code checks it. The tables of the
-- kernel lie in that memory too, but are records of the model apart from its bytes: a call whose buffer
-- overwrites them is not described. Syscall/Buffers says which buffers each call writes, with a
-- predicate for the addresses of the kernel's own data. A store to a buffer does not wrap at 2^32,
-- apart from the loop of sys_mmap2. The headers of both heaps are lists and not bytes of memory. A descriptor
-- keeps the node that its bytes come from; what stands in the buffer of a node behind the end of its
-- content is the parameter `stale` of the calls that read.
--
-- Each operation is a function from the state to its result and the new state, named as in C. The
-- files below a part hold its invariant and its theorems: Kmalloc/Chain (the chain tiles the window),
-- Sched/Inv (one running task), Ramfs/Tree (the nodes in use are a tree).
--
-- Numbers: a `size_t` or `uint32_t` is a number with its wrap-around written out (`u32`). An address
-- is a number. A string is the list of its bytes without the NUL.
--
-- Loops: the walk over `next` and the walks over a table are recursions on the list or on the number
-- of rounds left. The queue of `fs_rm_subtree` and the walk of `fs_cwd_in_subtree` up to the root
-- run on fuel 257, one more than there are nodes; the theorems show that it is enough. A result
-- `none` of these functions says that the fuel is spent or that the C code leaves an array.
--
-- The parser of the calculator runs on fuel four times the length of the text and four more; that it
-- is spent is a result of its own, `spent` (Calc/Ends). The loop of its power has 31
-- rounds, one for each bit of an exponent.
--
-- The loop of a script and the scripts made of its blocks run on fuel, one more than the most lines;
-- a `while` counts its 10000 rounds down (Mylang/Terminates).
--
-- The loops over a chain of clusters run on fuel 2^28, the number of values of an entry; a chain that
-- ends needs less (Fat32/Chains), and `endless` or `never` stand for a walk that does not end. The loops
-- over the bytes of a file have one unit of fuel for each byte.
--
-- The search for a free cell for the food of the snake runs on fuel; `none` says that it is spent.
--
-- The loops of the system calls need no fuel: `each_vec` counts the vectors, the strings that a call
-- is given are read up to their NUL or for 2^32 bytes at most.
--
-- Calls are atomic: the scheduler runs with interrupts off, and the lock of the file system is left
-- out. Most operations take it around their whole body; `fs_write_bin` and `fs_append` let it go
-- around `fs_touch`, and `fs_read`, `fs_size`, `fs_read_path` and `fs_mkdir_p` take none. What another
-- task might do in between is not modelled.
--
-- Not modelled: the drivers, the display, the shell and pong, which are port I/O and output; and
-- so far the dynamic linker.
pub mod Base
pub mod Calc
pub mod Elf
pub mod Fat32
pub mod Keyboard
pub mod Kmalloc
pub mod Mylang
pub mod Part
pub mod Ramfs
pub mod Sched
pub mod Snake
pub mod Syscall
pub mod UserHeap
pub mod Vfs
