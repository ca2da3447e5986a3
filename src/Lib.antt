-- ===== src/Lib.antt =====
-- Models of the virtual machine monitor of camkes-vm, a CAmkES application on seL4 that runs a
-- guest Linux, and the theorems on them. The parts modelled are devices that the Init component
-- emulates for the guest on x86, the server that shares a disk between guests, the consoles and
-- sockets between guests, and parts of the monitor for ARM.
--
-- Parts, and how they interact. The guest accesses a port or a register; the fault handler calls
-- the access function of the device, which changes the state of the device and calls out: it sets
-- an interrupt line, starts or stops a timer, or prints a character. When timers go off, the
-- monitor calls the timer function of the device with the set of their ids. The SATA server is a
-- component of its own: a guest's block driver asks it for sectors of a virtual disk, which it maps
-- to the partitions of the disk that the guest was given.
--
-- - Host: those calls as a log, the readings of the clock as a function of their number, the ids of
--   components/Init/src/timers.h and the lines of components/Init/src/virtio_irq.h. The calls and
--   the clock belong to other repositories. A clock that stands still or jumps is allowed.
-- - Serial: the UART, components/Init/src/serial.c. State has SerialState and the registers, Fifo
--   the two queues (fifo_put, fifo_get), Irq serial_update_irq, Line the line parameters and the
--   modem status, Receive and Xmit the two directions, Write and Read the ports, Entry the reset,
--   the timer interrupt and the calls from outside. Receive models the page of characters that the
--   console component shares as a record GetcharBuf, whose producer does not move while the loop
--   runs.
-- - Pit: the interval timer, components/Init/src/i8254.c. State has the channels, Count the counter,
--   the output and the next transition as functions of the tick, Timer the loading, latching and
--   timing of a channel, Ports the accesses. muldivu64 and ROUND_DOWN belong to other libraries and
--   are the parameter Arith; the theorems that need their values assume IsArith.
-- - Hpet: the event timer, components/Init/src/hpet.c and hpet.h. State has the timers and the
--   constants, Bits the tests and the arithmetic on 64 bits, Timer the interrupt, the expiry and the
--   programming of a timer, Access the two access functions, Entry the rest. An access past the
--   array of timers is none. An seL4_Word has as many values as the parameter word says.
-- - Rtc: the real-time clock, components/Init/src/mc146818rtc.c. State has RTCState, Ticks muldiv64,
--   Date BCD, the registers of the time (rtc_set_time, rtc_copy_date) and rtc_next_second, Periodic
--   the periodic and the coalesced timer, Second the two halves of an update and the alarm, Ports the
--   accesses, Entry the rest. The type rtc_time_date_t belongs to another library: the parameter
--   TmTypes says what its fields hold, and IsTmTypes that times and years fit. A date counts its year
--   from 1900 and its month from 0, as the code does.
-- - Sata: the SATA server, components/Sataserver/src/sataserver.c. State has the clients and the log of
--   calls of the disk driver, Chs the addresses of a boot record, Config check_part_is_assigned and
--   the part of post_init that sets the clients up, Requests the translation of sectors
--   (calulate_sector_offset) and the requests. A failed assertion and a read past an array are none.
-- - Vswitch: the switch between guests, components/Init/src/virtio_net_vswitch.c: emul_raw_tx, with the
--   calls on the queues as a log, and Vswitch/Receive with virtio_net_notify_vswitch_recv. Beside
--   emul_raw_tx stands tx_virtqueue_forward of
--   components/VM_Arm/src/modules/virtio_net_virtqueue.c. The tables of nodes and the queues belong
--   to other libraries: the record Switch says what they answer.
-- - Pci: the ports of the PCI configuration space, pci_config_io_in and pci_config_io_out of
--   components/Init/src/main.c. The numbers of the ports and the space behind belong to other
--   libraries and are the parameter PciBus. A fatal log is taken to return.
-- - Events: handle_async_event of components/Init/src/main.c, which calls the timer functions of Pit,
--   Rtc and Serial, without CONFIG_VMM_USE_HPET. The badges are the parameter Badges, the timers that
--   went off an argument, and each device keeps the log of its own calls.
-- - Blk: the virtual disk of a guest, components/Init/src/virtio_blk.c: virtio_blk_emul_transfer and
--   emul_low_level_init over a record of the calls of the SATA server, which Blk/Served fills with
--   the requests of Sata. The page that both share is a list of bytes.
-- - Console: the consoles between guests, components/VM_Arm/src/modules/virtio_con.c, which has the
--   functions of components/Init/src/virtio_con.c. Ring has the buffer serial_shmem, Ring/Link the
--   parts of tx_virtcon_forward and virtio_con_notify_recv as steps of a sender and a receiver that
--   interleave, Ports the two functions and the poll.
-- - Vsock: the sockets between guests, components/Init/src/virtio_vsock.c: the making of the ports and
--   tx_forward. What the allocator and the queues answer is the record Queues.
-- - VmArm: the monitor for ARM, components/VM_Arm/src. Of main.c, Mapping has vm_map_paddr, Events the
--   handlers of notifications, Irq the interrupts of devices that the guest owns, OnDemand the memory
--   that is installed at a fault, Resources the pools of memory and the number of processors, and
--   Boot the images, with the nodes of the device tree (fdt_manipulation.c). CrossVm has crossvm.c.
--   Calls of libraries are a log, and records say what they answer by the log so far.
-- - Common: tests, lists as arrays, flags by / and % (proved to be C's operations on bytes), and
--   laws of bit_or.
--
-- Integers are natural numbers; where C wraps, the remainder is written out. A record holds the
-- fields of the C structure, and a function returns the new record.
--
-- Fuel. The receive loop of the UART has 17 rounds, one more than the queue has places. The loops
-- of hpet_timer have 2^64 + 1, more than a comparator has values. Theorems show that these are
-- enough, and when no fuel is.
--
-- Not modelled: the way in of the sockets, and the network device;
-- the UDP server and the start-up code of both monitors, which mostly call libraries; the set-up of
-- seL4 and of the driver in the SATA server; the device modules of the ARM monitor but the consoles;
-- code for debugging output, and code that is not compiled; what the disk holds; and concurrency
-- between the monitor and other components, but for the buffer of a console.
pub mod Common
pub mod Host
pub mod Serial
pub mod Pit
pub mod Hpet
pub mod Rtc
pub mod Sata
pub mod Vswitch
pub mod Pci
pub mod Events
pub mod Blk
pub mod Console
pub mod Vsock
pub mod VmArm
