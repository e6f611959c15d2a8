-- ===== src/Lib.antt =====
-- elfboot: a model of the elfboot boot loader, with theorems about it.
--
-- Parts and files
--  * Base: shared types, Boolean tests on numbers, lists, integers, and `Run`, the result of code that
--    can touch memory outside its objects, trap, or run out of fuel.
--  * Core: src/include/elfboot/core.h, the rounding and clamping macros, and 32-bit sums and
--    differences.
--  * Math: src/core/math.c, src/arch/x86/math.c and src/arch/x86/include/asm/bitops.h.
--  * Memblock: src/mm/memblock.c. Its `bootmem` and `kernmem` tables are records; the array of regions
--    is a function of the index, and an access outside the eight slots is a fault.
--  * PageAlloc: src/mm/page_alloc.c and src/include/elfboot/page.h, the buddy allocator. A page pointer
--    is an index into the page map of 256 entries; a free area is a list of indices and a counter.
--  * Slub: src/mm/slub.c, the caches of objects of one size, on slabs from the page allocator. A cache and
--    an object are their addresses, a slab the index of its page, and the links of the free objects of a
--    slab the list of their addresses.
--  * Bmalloc: src/mm/slub.c and src/mm/util.c, the caches by size, the creation of caches, the copies of
--    strings. The bounds of the section of constants are arguments.
--  * Str: src/core/string.c and the character tests of src/include/elfboot/string.h. A string is the
--    list of its bytes, a pointer into it the rest of the list, a buffer a list of bytes that a copy
--    overwrites from the front.
--  * Printf: src/core/printf.c, the formatted output. The text written so far is a list, and the
--    variable arguments are a list of tagged values.
--  * Input: src/core/input.c, the buffer of typed characters. The keys that interrupts store while
--    `bgetch` waits are a list.
--  * Kbd: src/drivers/input/kbd.c, the keyboard interrupt with the German layout. The scan code read
--    from the port is an argument; the status word and the buffer are the state.
--  * Loader: src/core/loader.c, the parser of the configuration file. A list of Booleans says which of the
--    allocations to come succeed.
--  * Menu: src/core/loader.c, the array of the boot entries, the keys and the timeout of the menu, and
--    the choice of a loader. The screen is a function from an entry to how it is shown; opening a module
--    is a parameter.
--  * Vfs: src/fs/fs.c with src/include/elfboot/tree.h, the tree of the file system nodes, the lookup of
--    paths and mounted character devices. A node is its number; what a file system finds in a directory
--    is a parameter.
--  * File: src/fs/file.c, open files, and where reads, writes and `ioctl` of a node go.
--  * Symbol: src/core/symbol.c, the imported symbols. An address is a number.
--  * Modules: src/core/module.c, the sections, symbols and relocations of a module. Memory is a byte at
--    each address; the tables of the ELF file are functions of the index, apart from it.
--  * Crc32: src/crypto/crc32.c, the checksum. The table is a function of the index.
--  * Super: src/fs/super.c and bdev_read of src/core/bdev.c, reading blocks and byte ranges. The
--    driver's read function is a parameter. A buffer is a function of the offset; whether there is
--    memory for one block is an argument.
--  * Tty: src/drivers/char/tty.c and the console of src/include/elfboot/console.h. The frame buffer is a
--    function of the index of a cell; the cursor and the colours are a record.
--
-- How the parts interact: the memory block table rounds its ranges with the macros of Core and
-- serves the early allocations. Its regions become the first blocks of the page allocator, which
-- takes their orders from Math. A slab is a block of the page allocator, which keeps the members of
-- a page that the slab allocator uses. The formatted output takes its digits with the division of
-- Math, and Str reads numbers back. The keyboard interrupt stores characters in the buffer of Input,
-- from which `bgets` takes them. Loader takes lines and words with the tokens of Str, and Menu shows
-- the entries that it stored. Vfs takes the parts of a path with the tokens of Str, and Symbol the
-- words of a map. Modules looks up undefined symbols among those of Symbol. Super finds the block of
-- an offset with the division of Math, and Tty the row and the column of one.
--
-- Numbers: an unsigned machine word is a natural number below its bound, and every sum, difference
-- and product that can leave the bound wraps as it is written. Pointers into an array are indices.
-- An `int` that can be negative is an integer.
--
-- Fuel: the loops of `memblock_add_region` and `memblock_del_region` get `cnt + 1` rounds, since
-- each round leaves one region less to visit. `pow` gets 65 calls for the 64 bits of its exponent,
-- and the digits of a number get 65 rounds for its 64 bits. A configuration gets one round more than
-- its length, and so do the words of a line and the parts of a path and the words of a symbol map.
-- The symbols of a module get as many rounds as there are symbols. A format gets one round more than
-- its length, and a region of memory one round more than its pages. The loop of
-- `vsprintf_put_number` that writes zeros gets what is left, or the number given.
--
-- Not modelled: the search of sections in ELF files and the calls of modules, mounting a file system
-- and the file systems, interrupt controllers, PCI, the disk drivers, the kernel loaders, and the
-- set-up of the machine; the port and memory accesses of the drivers, which are input and output;
-- the assembly of src/arch/x86/boot, and the configuration tools, which are not part of the loader.
pub mod Base
pub mod Core
pub mod Math
pub mod Memblock
pub mod Str
pub mod Printf
pub mod Input
pub mod Kbd
pub mod PageAlloc
pub mod Slub
pub mod Loader
pub mod Menu
pub mod Vfs
pub mod File
pub mod Symbol
pub mod Modules
pub mod Super
pub mod Tty
pub mod Crc32
pub mod Bmalloc
