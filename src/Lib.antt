-- ===== src/Lib.antt =====
-- A DPDK poll-mode driver for the Xilinx XDMA core, in drivers/net/xdma. A port has up to four
-- transmit (H2C, host to card) and four receive (C2H) engines. An engine owns a ring of 32
-- descriptors in memory that the device reads; the driver fills descriptors, writes the address
-- of the first one into the channel's registers, sets the run bit, and then polls a completion
-- count that the device writes into memory.
--
-- The modules follow the files:
--
-- + Base: names from the libraries, arrays, words, integers and bit operations.
-- + Regs: xdma_regs.h, the register offsets and control bits.
-- + Xdma: xdma.h, the constants and structures.
-- + Platform: xdma_platform.c, loads and stores of registers through the mapped BARs.
-- + Ring: xdma_desc_ring_init and xdma_desc_ring_clear of xdma_access_common.c; Ring.Chain has
--   the invariant of the chain of descriptors.
-- + Engine: set-up, start and stop of an engine and the interrupt masks, of
--   xdma_access_common.c; Engine.Start is about the registers, Engine.Setup and Engine.Idle
--   about the queues that set-up and stop leave.
-- + Desc: get_desc and the edits of a control word, of xdma_rxtx.c.
-- + Fill: what both bursts share, filling one descriptor after the other.
-- + Tx: xdma_h2c_desc_set and xdma_xmit_pkts of xdma_rxtx.c.
-- + Rx: xdma_c2h_desc_set, xdma_recv_pkts, prepare_packets, prepare_segmented_packet and the
--   poll functions of xdma_rxtx.c; Rx.Receiver has the abstract receiver, and Rx.Reclaim the
--   function reclaim_engine_mbuf, which nothing calls.
-- + PciIds: the match table of xdma_ethdev.c.
-- + Bars: xdma_common.c and xdma_get_user_bar of xdma_access_common.c, the choice of the three
--   BARs and the device arguments.
-- + Device: xdma_dev_start, xdma_dev_stop and xdma_dev_close of xdma_access_common.c, and the
--   port's arrays of queues.
-- + Ethdev: xdma_eth_dev_init and xdma_eth_dev_uninit of xdma_ethdev.c, with the device
--   operations of xdma_devops.c.
-- + Load: xdma_bar_load of xdma_platform.c, copying a file into a BAR.
-- + Pmd: rte_pmd_xdma.c, the driver's public interface over the array of ports; Pmd.Compat has
--   its copy in xdma_dpdk_compat.c.
-- + Uart: uart_recv and uart_send of uart.c; Uart.Console has uart_start.
-- + Testapp: the test applications in examples/xdma_testapp. Testapp.Ports has the ports of
--   testapp_inter.c, Testapp.Latency the registers of its measurement, Testapp.Threads what its
--   threads work on, Testapp.Handshake how they wait for each other, Testapp.Transfer its loop
--   fpga_to_fpga, with the counters as the 32 bits of an `int`; Testapp.Forward has the loop of
--   testapp_count.c, on top of Rx and Tx. Testapp.Main has the main functions of both, on top
--   of the ports; Testapp.Main.Count also names the port functions of testapp_count.c, which
--   repeat those of testapp_inter.c.
-- + Walk: what a device reads in memory once a burst has started it, from the ring's physical
--   address on along the links of the descriptors; Walk.Sent is about transmission,
--   Walk.Received about reception.
-- + Lifecycle: the calls that a port sees from its first queue on, in any order, as a step
--   relation; Lifecycle.Invariant has what every reachable port keeps, Lifecycle.Calls what a
--   call does there.
-- + Tests: the theorems at concrete inputs.
--
-- State: a `Queue` is a `struct xdma_engine` with the memory behind its pointers, the
-- descriptors and the completion count as the driver last stored it. A `Bus` is the sequence of
-- the driver's register stores and write barriers, the latest first. A function of the driver
-- takes the state that it changes and returns it. A `uint64_t`, a `uint32_t` and a `uint16_t`
-- are natural numbers with their wrap-around written as a remainder; an `int` that can be
-- negative is a ℤ. A pointer is the address it holds. Where C would read or write out of
-- bounds, the model reads 0 or changes nothing, and the theorems have the condition that it
-- stays inside.
--
-- The device is a parameter: `ram` is what it finds at a physical address, `loads t` is what
-- the t-th read of the completion count gives, and `stream a i` the stream status at address
-- `a` when packet `i` is prepared. Nothing is assumed of how the distance between virtual and
-- physical addresses differs from one memory to the next: the offset with which an engine is
-- started is that of its software ring (Walk.OffsetOf), and the theorems on what the device
-- reads tell the address in the registers apart from the ring's physical address.
-- `rte_mem_virt2phy`, the allocators and the memory zones of DPDK are parameters too, and so is
-- the parser of device arguments (`KvArgs`), of which two documented facts are assumed: it
-- changes the device through the handler alone, and it stops and fails at the first negative
-- result of the handler.
--
-- Fuel: the busy waits of xdma_xmit_pkts and xdma_poll_tx_complete take fuel, the number of
-- reads, and each fuel that reaches the first read with the awaited count is enough (Tx.Wait).
-- The loop of xdma_bar_load takes fuel too, and a round copies at least one byte, so that more
-- fuel than bytes is enough. The loops wait_rx_done, transfer_loop and uart_drain take fuel,
-- and any fuel that reaches the round in which they end is enough. The walk along the
-- descriptors takes fuel, the number of descriptors read, and 32 are enough. The bounded wait
-- of xdma_recv_pkts has its own bound of 101 rounds.
--
-- Not modelled: log output; the settings of the terminal (init_term); and the statistics of the
-- test applications, which are in floating point. The application that the build files name,
-- testapp_lat.c, is not in the repository, nor is the header with the numbers of the
-- generator's registers, which are a parameter (LatRegs).
--
-- The test application calls DPDK: what its calls answer is a parameter, a function of all
-- calls before. The generator's registers are assumed to behave as memory where a theorem says
-- so. The steps of Testapp.Handshake are those of POSIX mutexes and condition variables, with
-- wake-ups for no reason. What POSIX leaves undefined, a wait with a mutex that its caller does
-- not hold, is a parameter of the steps (Release): Tidy admits only calls that find the mutex
-- with their caller or free, Undefined also those that leave another thread's mutex as it is or
-- give it up. That a call to unregister a callback succeeds is a premise where a theorem says
-- that no callback is registered.
pub mod Base
pub mod Regs
pub mod Xdma
pub mod Platform
pub mod Ring
pub mod Desc
pub mod Engine
pub mod Fill
pub mod Tx
pub mod Rx
pub mod PciIds
pub mod Bars
pub mod Device
pub mod Ethdev
pub mod Load
pub mod Pmd
pub mod Uart
pub mod Walk
pub mod Lifecycle
pub mod Testapp
pub mod Tests
