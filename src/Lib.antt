-- ===== src/Lib.antt =====
-- AOS++: verification of the kernel's own logic.
--
-- The program is a kernel with its boot loaders. Kernel/mm/avmf.c is its memory manager: a
-- bitmap of physical pages, and regions of virtual addresses that keep their free ranges in an
-- ordered list. Kernel/drivers/aml/aml_parser.c reads the machine language of the ACPI tables
-- into a tree of nodes; it takes the memory for its nodes from the memory manager.
-- Kernel/src/kfuncs.c has the functions on texts, numbers and dates that the rest uses, and
-- Kernel/drivers/keyboard/keyboard.c turns scan codes into characters.
--
-- Base holds what every module shares: the tests on native numbers, lists under native indices,
-- bits and digits of machine words, and `Exec`, the outcome of code that may fault, which is how
-- an access outside an array or through a pointer to freed memory ends.
--
-- Avmf declares `avmf_region_header_t` and `avmf_range_t`. Avmf/Bitmap models `bitmap_set`,
-- `bitmap_clear` and `bitmap_test` on the words of `avmf_bitmap`. Avmf/Phys models the physical
-- allocator, whose state is the table `physical_regions` and the bitmap: `avmf_alloc_phys_page`,
-- `avmf_free_phys_page`, `avmf_alloc_phys_contiguous` and `avmf_free_phys_contiguous`. Its
-- specification is a set of pages, in Avmf/Phys/Sets; Alloc, Free, AllocRun, FreeRun and
-- RoundTrip prove the operations against it. Avmf/FreeList models `avmf_free_list_append`: the
-- list of nodes is a list of ranges that carry the addresses of their nodes, and its
-- specification is the set of addresses that the list covers. Avmf/Search models
-- `avmf_find_region`. Avmf/Headers models `avmf_link_header` and `avmf_unlink_header` over a store
-- of headers by address, where 0 is NULL; Avmf/Carve the memory for headers and ranges, which is
-- cut from pages; Avmf/RegionAlloc `avmf_region_alloc` and Avmf/RegionFree `avmf_region_free`,
-- over the state `Vm` of a region, its headers and that memory. Avmf/Virtual models
-- `avmf_alloc_virt`, `avmf_alloc` and `avmf_free` over the state `Memory`, which has the regions, the
-- physical pages and the page tables; Avmf/Init `avmf_region_init` and `avmf_init`.
--
-- Aml models the parser. Its state `Parser` holds the memory, the stream, the pool of nodes and
-- the answers of the allocator, which is a parameter. A pointer to a node names the block it
-- points into, so that a write through a pointer into a block that was freed is a fault.
-- Aml/Stream, Aml/Pool, Aml/Consts, Aml/Names and Aml/Terms hold the code in the order of the
-- file, and Aml/Frame the stack of `aml_push` and `aml_pop`; Aml/Stream/Numbers,
-- Aml/Stream/Pkglen, Aml/Progress, Aml/Looping, Aml/Growth and Aml/Truncated the proofs.
--
-- Kfuncs models the functions of Kernel/src/kfuncs.c on characters (Chars), integers (Parse,
-- Print), texts (Strings) and dates (Clock). A text that is read is the list of its bytes, which
-- ends where the byte 0 stands; a buffer that is written is a function from offsets to bytes.
-- Numerals, Printing, Reverse, Texts, ReadBack, Signed, Compare, Copy and Uint hold the proofs.
-- Keyboard models Kernel/drivers/keyboard/keyboard.c, with the scan code that the port answers
-- as an argument.
--
-- Pager models Kernel/mm/pager.c: `alloc_page_table`, `pager_map`, `pager_map_range`,
-- `pager_unmap` and `pager_load`, on tables in a store by physical address. What the memory manager
-- answers to `alloc_page_table` is a list in the state. Pager/Walk says what the processor makes of
-- the tables, Pager/Owned what a tree of tables is; Pager/Writes, Descent, Map and Unmap hold the
-- proofs. Pager/Boot models the loop of `pager_init` over the memory map of the boot loader
-- (Headers/uniboot.h), composed with `avmf_init` of Avmf/Init.
--
-- Smp models the tasks of a core in Kernel/drivers/core/smp.c: `smp_push_task`, `create_thread`,
-- `smp_yield` and the round of `ap_kernel_entry` that takes a task, on threads in a store by
-- address. Smp/Order and Smp/Again hold the proofs.
--
-- Fs models Kernel/drivers/core/fs.c: `read_file`, `write_file`, `flush_file`, `seek_file` and
-- `tell_file` on one open file, over PBFS, whose sources are not in the repository and which is a
-- record of operations. Fs/Open models `fs_open` and `fs_close`. Fs/Sound and Kept hold what is true
-- of an open file between two calls, Fs/Owned what it holds of the memory; Fs/Ready, Again, Short and
-- Seek hold the proofs on contents and positions.
--
-- Acpi models Kernel/drivers/core/acpi.c over memory as bytes by address: Acpi/Search the search of
-- `acpi_find_rsdp`, Acpi/Tables the parsing of the tables, Acpi/Cores that of `acpi_parse_madt`,
-- Acpi/Roots the two kinds of root tables, and Acpi/Timer `acpi_mdelay`, over the readings of the
-- timer. The memory map is that of Pager/Boot.
--
-- Descriptors models Kernel/drivers/core/tss_gdt.c and idt.c up to the instructions that load the
-- registers: `gdt_init_ex`, with the bytes of the packed table, `tss_init_ex` and `idt_init`.
-- Descriptors/Stacks and Vectors say what the processor makes of the tables.
--
-- Pcie models Kernel/drivers/core/pcie.c over registers that keep what is written: where a register
-- is reached, through the configuration spaces of the ACPI table or the ports, reading and writing,
-- and the bits of the command register. Pcie/Loops has the three searches, and Pcie/Init the loop
-- of `pcie_init`, over the registry of Modules. Pcie/Address holds the proofs on registers,
-- Pcie/Mapped that on what Acpi has mapped, Pcie/Command those on bits, Pcie/Find that on the
-- searches and Pcie/Registered that on the registry which Drives then searches.
--
-- Modules models Kernel/src/module.c: the registry of modules as the places of an array, and the
-- searches for a driver. Modules/Sets and Search hold the proofs, Modules/Core the modules that
-- `modules_init` sets up, and Modules/Copies the searches that answer a copy and the removal that
-- frees the module.
--
-- Drives models Kernel/drivers/io/drive.c: `set_sata`, `get_available_drives` and
-- `get_available_drives_pcie`, over the registry of Modules and a driver of SATA that is a record of
-- operations. Drives/Walk and First hold the proofs.
--
-- Shell models how Kernel/src/vshell.c takes a line and when it leaves or reboots, with the turns of
-- the loop of `vshell` and the answers of the calls that draw, and `ps2_read_line` of
-- Kernel/drivers/io/io.c. Shell/Lines and Typed hold the proofs on lines,
-- Shell/Confirm those on the questions.
--
-- Machine words: numbers are natural numbers, and `% 2 ^ 64` or a test stands where a word
-- wraps. Loops over tables and lists are structural. The loop of `aml_parse` takes fuel, one
-- unit for each round: as much as there are bytes left is enough, since a round that consumes
-- nothing is followed by the same round for ever. The loops that print a number take the room
-- left in the buffer as their measure, which the code's own bound gives, and the loop that turns
-- the text round the number of its characters.
--
-- The walks of `avmf_free` along the headers and of the tasks along the threads, which follow
-- pointers without a bound, take the number of steps that they may make; the theorems hold for any
-- such number, or for any that is not 0.
--
-- The search for the root pointer of the firmware takes as many rounds as its area has steps of 16
-- bytes, which is enough where the last does not wrap; the loop over a table of cores takes one round
-- more than the table has bytes, which is enough where no entry is empty. The loop of `acpi_mdelay`
-- is as long as the readings of the timer that it is given.
--
-- Not modelled: locks (each operation runs on its own), the commands and interrupts between cores,
-- `destroy_table` and the part of `pager_init` that reads the processor and maps the kernel, the
-- floating-point and timer functions of kfuncs.c, reboot and shutdown, the drawing of text and
-- fonts, the boot loaders, and the drivers, which are code over registers of devices.
pub mod Base
pub mod Avmf
pub mod Aml
pub mod Kfuncs
pub mod Fs
pub mod Acpi
pub mod Descriptors
pub mod Keyboard
pub mod Pcie
pub mod Modules
pub mod Drives
pub mod Pager
pub mod Shell
pub mod Smp
