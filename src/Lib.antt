-- ===== src/Lib.antt =====
-- vart is a virtual machine monitor for RISC-V guests on KVM. Guest accesses to devices go through
-- an address space (src/core/address-space.c): an array of regions with priorities, in which an
-- access finds the enabled region of highest priority that contains it, and is handed to that
-- region's MMIO handlers or copied from or to its host memory. Devices behind it raise interrupts
-- through lines (src/core/irq.c), the serial port (src/hw/char/uart16550.c) is one of them, and
-- virtio devices exchange buffers with the guest through virtqueues (src/hw/virtio/virtio.c), rings in
-- guest memory that they reach by DMA callbacks.
--
-- Common: tests, conditionals, lists, integers, codes, pointers and arrays that all models share. A
-- number of the source is a native natural number, with the wrap-around of unsigned arithmetic
-- written out; `int` priorities are integers over it. A pointer is a number, `none` for NULL; what is
-- reached by pointer is a family indexed by it, in the state. A function that returns 0 or a negative
-- code returns a `Result`. A function pointer is a number too, and a parameter says what calling it
-- does to the world, so that a callback may do anything to the state that the model gives it.
--
-- AddressSpace: src/core/address-space.c and include/vart/address-space.h, every function. `World` is
-- the store: regions, spaces, host memory and the callbacks' own state. Defs has the data and the
-- two range tests (vart_address_region_contains, regions_overlap), Ops has initialisation, mapping
-- and unmapping (vart_address_region_init..., vart_address_space_add, _remove, ...), Access has
-- vart_address_space_find, _read, _write and address_space_buffer_access, which a space's translator
-- may send on to another space. That recursion runs on fuel, `none` when it is spent; one unit is
-- enough without a translator; for chains of IOMMU contexts see Iommu.
-- Whether calloc and realloc succeed is an argument. Proofs: Ranges, Find and Order on the answer to
-- an access; Invariant, Removal, Preserve, Lifecycle and History on the mapped array; Dispatch on
-- MMIO; Buffer on copies.
--
-- Virtio: src/hw/virtio/virtio.c and include/vart/virtio.h, every function. The device record holds
-- its queues; guest memory is behind DMA callbacks, which are parameters. The walk of a descriptor
-- chain recurses on the number of descriptors still allowed, which begins with the queue's size as
-- the loop's bound does; it returns on every path. Proofs: Invariant and History on the device, Pop
-- on chains, Confined on what a chain walk reads, Used on the used ring and the byte order.
--
-- Irq: src/core/irq.c and include/vart/irq.h, every function, over a driver that may fail. Line and
-- Pulse have the proofs.
--
-- Bus: src/core/bus.c and src/core/device.c with their headers, every function. `Tree` is the store of
-- devices and buses; the devices' functions are parameters that act on all of it. Invariant has the
-- agreement of the two sides of a link, History that every call keeps it.
--
-- Memory: src/core/memory.c and include/vart/memory.h, every function. The address region inside of the
-- structure lives in the store of AddressSpace, under a pointer that the record keeps. What mmap,
-- munmap, sysconf and the ioctl on the virtual machine do are parameters. Access has reads and
-- writes by the host, Mapping the way into an address space and back.
--
-- Sbi: src/arch/riscv/riscv-sbi.c and include/vart/riscv-sbi.h: the ordered list of SBI handlers, a
-- list here for the `next` pointers, and the dispatch of a call. Order has the lookup after an
-- insertion.
--
-- Uart: src/hw/char/uart16550.c and include/vart/devices/uart16550.h, but for the device and region
-- set-up (vart_uart16550_init, realize, unrealize). A connected line is held in the device's record,
-- since only the device drives it. A written value is one byte, as the address space masks it.
-- Proofs: Invariant, Accesses, Ports and History on every access, Receive on what is read back.
--
-- Iommu: src/iommu/iommu.c and include/vart/iommu.h, every function but the getter
-- vart_iommu_context_address_space. The downstream space is a parameter that reads and writes page-table
-- entries, and so is the fault handler; the lock makes each function one step. The three levels of a walk
-- are a recursion on the levels left. Defs has the data, Walk iommu_translate_sv39_mode, Cache the
-- iommu_cache_ functions, Context the rest but for Attach, which has the functions that tie a context to a
-- PCI device, with the two of src/hw/pci/pci.c that they call. Proofs: Level, Page, Coherent and Still
-- lead to Translate on what the cache shows; Ranges and Bounded on the array and its ranges, Invalidate
-- on what an invalidation leaves, Canonical on the addresses accepted. Chain puts contexts
-- behind the translators of address spaces, and Levels also lets them read their page tables by buffer
-- accesses to the downstream space, nested as deep as the fuel allows: one more than the rank of a space
-- is enough, where contexts lead to spaces of lower rank. Keeps, Agree and Descent have the proofs.
--
-- Fdt: src/boot/fdt.c and include/vart/fdt.h, but for vart_fdt_dump. A block is the list of bytes that
-- were written to its array so far; a name is given without its NUL. Defs has the blocks and
-- find_string, Builder the functions. Reader is an independent reader of the format, which takes a
-- limit of tokens, the length of the blob, of which each token needs a byte at least. Encode and Blob
-- say what the bytes stand for, Steps, Node and Property what each call adds, Trip what comes
-- back, Errors what a failure changes, and Tree, Nesting and Whole that a finished blob is one tree.
--
-- Blk: src/hw/virtio/virtio-blk.c and include/vart/virtio-blk.h, but for vart_virtio_blk_init and
-- _destroy. Host is the interface to what is below: the file, malloc, DMA and the interrupt. Its DMA is
-- that of the queue too, which is the one of Virtio. Transfer is virtio_blk_io, whose loops of pread and
-- pwrite run for as many rounds as there are bytes, since each round handles one at least; Request is
-- virtio_blk_process_request and virtio_blk_notify, whose loop runs on fuel, `none` when that is spent,
-- because a guest may offer requests without end. Proofs: Loops, Segments and Confined on where the file
-- is reached, Reads on what a guest gets, Config on the capacity.
--
-- Not modelled: the RISC-V IOMMU, the rest of PCI, the virtio network and PCI devices,
-- the device tree of the machine and the loaders, the command line and the
-- event loop; and KVM, which is I/O.
pub mod Common
pub mod AddressSpace
pub mod Bus
pub mod Irq
pub mod Iommu
pub mod Memory
pub mod Sbi
pub mod Uart
pub mod Virtio
pub mod Fdt
pub mod Blk
