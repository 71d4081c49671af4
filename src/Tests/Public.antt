-- ===== src/Tests/Public.antt =====
-- The theorems on the public interface and the console at concrete inputs.
use xdma_dpdk.Base.{
  ℕ, ◌≡◌, ◌≢◌, refl, true, some, [], ◌∷◌, ◌++◌, arith, get_elem?, ◌==◌, if◌then◌else◌,
}
use xdma_dpdk.Base.Int.{pos}
use xdma_dpdk.Xdma.{c2h, h2c}
use xdma_dpdk.Platform.{Bus, memory}
use xdma_dpdk.Ring.{xdma_desc_ring_init}
use xdma_dpdk.Engine.{setup_queue}
use xdma_dpdk.Device.Close.{blocks_of}
use xdma_dpdk.Ethdev.{EthDev, xdma_eth_dev_uninit}
use xdma_dpdk.Pmd.{Slot, Slots, rte_pmd_xdma_dev_close, rte_user_write, rte_user_read}
use xdma_dpdk.Pmd.Close.{rte_pmd_xdma_dev_close_once}
use xdma_dpdk.Pmd.Registers.{rte_user_read-rte_user_write}
use xdma_dpdk.Uart.{uart_recv}
use xdma_dpdk.Uart.Console.{Io, uart_start, typed, uart_start_lem}
use xdma_dpdk.Tests.{dev_1}
use xdma_dpdk.Tests.Attach.{port_1, eth_1, mem_1}

-- A started port.
abbrev pub slot_1 : Slot
slot_1 = record {
  eth = record eth_1 { port = record port_1 { dev_started = true } };
  mem_resource = mem_1;
  attached = true;
}

abbrev pub slots_1 : Slots
slots_1 = slot_1 ∷ slot_1 ∷ []

rte_pmd_xdma_dev_close_once_example :
    let freed = blocks_of c2h 0 port_1.rx_queues ++ blocks_of h2c 0 port_1.tx_queues in
    (slots' : Slots) × (slot' : Slot) × (rte_pmd_xdma_dev_close slots_1 1 []
      ≡ some (freed, slots', []))
    × (get_elem? slots' 1 ≡ some slot')
    × ((eth'' : EthDev) × (xdma_eth_dev_uninit true slot'.eth [] ≡ some (pos 0, [], eth'', [])))
    × ((j : ℕ) → j ≢ 1 → get_elem? slots' j ≡ get_elem? slots_1 j)
unfolding setup_queue xdma_desc_ring_init
rte_pmd_xdma_dev_close_once_example =
    rte_pmd_xdma_dev_close_once slots_1 1 slot_1 [] refl ((refl, omega arith, omega arith), tt)
      ((refl, omega arith, omega arith), tt)

rte_user_read-rte_user_write_example :
    (bus' : Bus) × (rte_user_write slots_1 1 16 99 [] ≡ some (pos 0, bus'))
    × (rte_user_read (memory (λ a. 7) bus') slots_1 1 16 ≡ some 99)
rte_user_read-rte_user_write_example =
    rte_user_read-rte_user_write (λ a. 7) slots_1 1 1 slot_1 slot_1 16 16 99 [] refl refl

-- One round: the device gives one byte, and one key is typed.
abbrev io_1 : Io
io_1 = record {
  device = λ i a. if i == 0 then 65 else 0;
  key = 66;
  loads = λ i. if i == 2 then 0 else 8;
}

uart_start_lem_example :
    uart_start 2 (io_1 ∷ io_1 ∷ []) dev_1 4096 []
    ≡ some (65 ∷ 65 ∷ [], typed 4096 (io_1 ∷ io_1 ∷ []) [])
unfolding uart_recv
uart_start_lem_example =
    uart_start_lem 2 (io_1 ∷ io_1 ∷ []) ((65 ∷ []) ∷ (65 ∷ []) ∷ []) dev_1 4096 [] (
      (omega arith, refl, refl),
      omega arith,
      (2, omega arith, refl),
      ((omega arith, refl, refl), omega arith, (2, omega arith, refl), tt),
    )
