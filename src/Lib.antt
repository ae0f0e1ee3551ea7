-- ===== src/Lib.antt =====
-- Verification library for alioth, a virtual machine monitor. Guest memory is a set of page ranges
-- at guest addresses; devices reach it through virtqueues, and the guest reaches the devices through
-- registers behind PCI. The library models these parts from the bottom up, and each part is given
-- the one below it.
--
--   Base        shared names, Boolean tests, native lists, results, machine words, and the bit
--               operations as arithmetic.
--   Utils       alioth/src/utils/utils.rs: halves of a register (get_atomic_low32, set_low32 and
--               the high ones), truncate_u64, align_up!.
--   Mem.Error   the errors of alioth/src/mem/mem.rs.
--   Mem.Addressable
--               alioth/src/mem/addressable.rs: Addressable is a sorted list of slots; add, remove,
--               search and search_next keep their names. The binary search is given by its
--               documented result on a sorted slice. Owner.IsValid says which lists are valid.
--   Mem.Mapped  alioth/src/mem/mapped.rs: Ram is an Addressable of page ranges (ArcMemPages), which
--               are pieces of one host memory and may share bytes. read, write, get_ptr,
--               translate_iov keep their names; Iter and IterMut are one iterator. Transfer holds
--               read_range and write_range over interfaces for std's Read and Write.
--   Virtio.Queue
--               alioth/src/virtio/queue: Flag and Memory model queue.rs (DescFlag, DescChain) and
--               the reads of descriptors from Ram; Packed models packed.rs and Split split.rs. The
--               rings, the headers and the event structures lie in guest memory, which the driver
--               writes too: the state of a queue holds the values that the device finds there when
--               it runs, so each operation is one step of the device between steps of the driver.
--               Handle models Queue of queue.rs over the trait VirtQueue as an interface, which
--               Handle.Rings fills with the two rings; Drained.Laws says what is asked of a ring.
--   Mem.Call    calls that change a shared state and may fail, with what they did before kept.
--   Mem.Emulated
--               alioth/src/mem/emulated.rs: MmioBus over Addressable. A device is a handle, and its
--               handlers, behind the interface Mmio, change the rest of the world.
--   Mem.Region, Mem.Memory
--               alioth/src/mem/mem.rs: regions (MemRegion, IoRegion) and Memory, which keeps the
--               buses in step with them. Layout holds the operations that change the layout, Access
--               the exits of a virtual processor, Private the walk of mark_private_memory. Hypervisor
--               and callbacks are the interfaces VmMemory and Callbacks.
--   Pci.Bdf     alioth/src/pci/pci.rs: device numbers and what stands behind a register.
--   Pci.Config  alioth/src/pci/config.rs: the header of the configuration space, its base address
--               registers and the layout changes (UpdateCommandCallback, MoveBarCallback) that writes
--               to it ask for, which run on Mem.Memory.
--   Pci.Segment, Pci.Bus
--               alioth/src/pci/segment.rs and bus.rs: the devices of a segment by number, reserve,
--               assign_resources (Assign), and the address and data ports.
--   Pci.Msix    alioth/src/pci/cap.rs: the MSI-X table, over an interface (IrqFd) of the interrupt
--               file descriptors that the hypervisor gives.
--   Pci.Msi     alioth/src/pci/cap.rs: the writes of the MSI capability, and update_msi, which carries
--               them to the interrupt file descriptors.
--   Virtio.Pci  alioth/src/virtio/pci.rs: the registers of a virtio device, their layout, and what
--               a read and a write of the guest do; a write gives the new state and the event that
--               wakes the device's worker.
--   Virtio.Dev.Blk
--               alioth/src/virtio/dev/blk.rs: the block device. handle_desc and handle_queue keep their
--               names; the disk is an interface, and the queue is Virtio.Queue.Handle.
--
--   Device.Serial
--               alioth/src/device/serial.rs: the 8250 serial port. read, write and receive keep their
--               names; a write gives the byte for the console and whether the pin is raised.
--   Device.Pl011, Device.Pl031
--               alioth/src/device/pl011.rs and pl031.rs: UART and real-time clock of Arm machines.
--   Device.FwCfg
--               alioth/src/device/fw_cfg/fw_cfg.rs: the items and their directory (Items), the ports
--               (Ports), and the DMA interface over Mem.Mapped; a file is its bytes. The x86_64 build.
--   Device.IoApic
--               alioth/src/device/ioapic.rs: registers behind select and window, and service_pin, which
--               gives the message that a pin sends.
--
-- Numbers are natural numbers, and the wrap of each width is written out as in a release build.
-- Errors are values of Result; a panic is none or an error of its own, as each file says.
--
-- Fuel: slice iterators get one round more than the bytes that they go over, since every round but
-- the last takes at least one. The two loops of get_avail have no bound in the source, so they are
-- given any fuel, and none is a walk that has not ended (what it finds outside the ring is an error); the loops of handle_desc take fuel too.
-- reserve looks at the 8192 numbers of function 0, and mark_private_memory takes one step more than
-- there are regions.
--
-- Not modelled: locks and atomic orders (each operation runs with the state it finds), mmap and the
-- other system calls, logging, the threads of the devices, and the parts that have no file here:
-- the other devices, the hypervisors, the loaders and the command line.
pub mod Base
pub mod Device
pub mod Mem
pub mod Pci
pub mod Utils
pub mod Virtio
