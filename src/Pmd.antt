-- ===== src/Pmd.antt =====
-- The driver's public interface, drivers/net/xdma/rte_pmd_xdma.c, over the array of ports
-- `rte_eth_devices`. The code never tests a port number but in one place; `none` stands for an
-- access behind the array, or through a pointer that is not set.
pub mod Close
pub mod Compat
pub mod Registers
use xdma_dpdk.Base.{
  ℕ, zero, suc, ◌+◌, Bool, true, false, ◌||◌, Option, none, some, List, [], ◌∷◌, get_elem?, modify,
  length, leb, if◌then◌else◌, u16,
}
use xdma_dpdk.Base.Int.{ℤ, pos, negsuc, to_int, is_neg}
use xdma_dpdk.Xdma.{Engine, Queue}
use xdma_dpdk.Platform.{Bus, xdma_user_write, xdma_user_read}
use xdma_dpdk.Bars.{Resource, resource, geb_ℤ}
use xdma_dpdk.Device.{Port, Block, xdma_dev_close}
use xdma_dpdk.Ethdev.{EthDev}
use xdma_dpdk.Load.{Loaded, xdma_bar_load}
use xdma_dpdk.Rx.{xdma_poll_rx_complete, xdma_poll_tx_complete}

-- One element of `rte_eth_devices`: the device with the resources of its PCI device, and whether its
-- pointer `device` is set.
pub record Slot : Type 0 where
  pub eth : EthDev
  pub mem_resource : List Resource
  pub attached : Bool

abbrev pub Slots : Type 0
Slots = List Slot

unfoldable pub rte_pmd_xdma_get_device : Slots → ℕ → Option Bool
rte_pmd_xdma_get_device slots port_id = elim (get_elem? slots port_id) [
  | none ↦ none
  | some slot ↦ some slot.attached
]

-- The end of `rte_pmd_xdma_dev_close`: the two arrays of queues are freed, and their lengths are 0.
abbrev pub drop_queues : Port → Port
drop_queues port = record port { tx_queues = []; rx_queues = [] }

abbrev pub set_port : Port → Slot → Slot
set_port port slot = let eth = slot.eth in record slot { eth = record eth { port = port } }

unfoldable pub rte_pmd_xdma_dev_close : Slots → ℕ → Bus → Option (List Block × Slots × Bus)
rte_pmd_xdma_dev_close slots port_id bus = elim (get_elem? slots port_id) [
  | none ↦ none
  | some slot ↦
      let port = slot.eth.port in
      elim (xdma_dev_close (record port { dev_started = false }) bus) [
        | none ↦ none
        | some (freed, port', bus') ↦
            some (freed, modify slots port_id (set_port (drop_queues port')), bus')
      ]
]

-- What is stored through the three pointers, of those that are not NULL.
unfoldable pub rte_pmd_xdma_get_bar_details :
    Slots → ℕ → (config user bypass : Bool) → Option (ℤ × Option ℤ × Option ℤ × Option ℤ)
rte_pmd_xdma_get_bar_details slots port_id config user bypass = elim (get_elem? slots port_id) [
  | none ↦ none
  | some slot ↦
      let dev = slot.eth.port.dev in
      some (
        pos 0,
        if config then some dev.config_bar_idx else none,
        if user then some dev.user_bar_idx else none,
        if bypass then some dev.bypass_bar_idx else none,
      )
]

unfoldable pub rte_pmd_xdma_get_bar_addr : Slots → ℕ → ℤ → Option ℕ
rte_pmd_xdma_get_bar_addr slots port_id bar_idx = elim (get_elem? slots port_id) [
  | none ↦ none
  | some slot ↦ some (resource slot.mem_resource bar_idx).phys_addr
]

-- One element of `rte_eth_fp_ops`: whether the two burst functions are set, and the arrays of
-- queues. The other three functions are those of a device, which this driver never sets.
pub record FpOps : Type 0 where
  pub rx_pkt_burst : Bool
  pub tx_pkt_burst : Bool
  pub rxq : List (Option Queue)
  pub txq : List (Option Queue)

abbrev pub errno_enotsup : ℤ
errno_enotsup = negsuc 94

-- `port_id` is an `int`; `avail` is `rte_eth_dev_count_avail()`.
unfoldable pub rte_pmd_xdma_dev_fp_ops_config :
    (avail : ℕ) → Slots → ℤ → List FpOps → Option (ℤ × List FpOps)
rte_pmd_xdma_dev_fp_ops_config avail slots (negsuc n) fpo = some (errno_enotsup, fpo)
rte_pmd_xdma_dev_fp_ops_config avail slots (pos port_id) fpo =
    if leb avail port_id then some (errno_enotsup, fpo) else elim (get_elem? slots port_id) [
      | none ↦ none
      | some slot ↦
          let ops : FpOps = record {
            rx_pkt_burst = slot.eth.ops;
            tx_pkt_burst = slot.eth.ops;
            rxq = slot.eth.port.rx_queues;
            txq = slot.eth.port.tx_queues;
          } in
          some (pos 0, modify fpo port_id (λ _. ops))
    ]

unfoldable pub rte_user_write : Slots → ℕ → (reg_offst val : ℕ) → Bus → Option (ℤ × Bus)
rte_user_write slots port_id reg_offst val bus = elim (get_elem? slots port_id) [
  | none ↦ none
  | some slot ↦ some (pos 0, xdma_user_write slot.eth.port.dev reg_offst val bus)
]

unfoldable pub rte_user_read : (device : ℕ → ℕ) → Slots → ℕ → (reg_offst : ℕ) → Option ℕ
rte_user_read device slots port_id reg_offst = elim (get_elem? slots port_id) [
  | none ↦ none
  | some slot ↦ some (xdma_user_read device slot.eth.port.dev reg_offst)
]

unfoldable pub rte_bar_load :
    (fuel : ℕ)
    → (file : Option ℕ) → (mmap : (offset size : ℕ) → Bool) → Slots
    → ℕ
    → (offset size : ℕ) → (bar_idx : ℤ) → Option (ℤ × Loaded)
rte_bar_load fuel file mmap slots port_id offset size bar_idx = elim (get_elem? slots port_id) [
  | none ↦ none
  | some slot ↦ some (pos 0, xdma_bar_load fuel file mmap slot.eth.port.dev offset size bar_idx)
]

-- The engines that are polled are the copies in the private data; one that was never set up has no
-- address of a completion count. The inner `none` is the busy wait that is still going on.
unfoldable pub rte_poll_complete :
    (fuel : ℕ)
    → (loads : ℕ → ℕ) → Slots
    → ℕ
    → ℕ
    → (nb_pkts : ℕ) → (tx : Bool) → Option (Option ℤ × Slots)
rte_poll_complete fuel loads slots port_id queue_id nb_pkts tx = elim (get_elem? slots port_id) [
  | none ↦ none
  | some slot ↦ elim tx [
    | true ↦ elim (get_elem? slot.eth.port.engine_h2c queue_id) [
      | some (some engine) ↦
          let done : Option ℤ = elim (xdma_poll_tx_complete fuel loads (u16 nb_pkts)) [
            | none ↦ none
            | some n ↦ some (to_int n)
          ] in
          some (done, slots)
      | some none ↦ none
      | none ↦ none
    ]
    | false ↦ elim (get_elem? slot.eth.port.engine_c2h queue_id) [
      | some (some engine) ↦
          let (count, engine') = xdma_poll_rx_complete loads engine in
          let port = slot.eth.port in
          let port' : Port = record port {
            engine_c2h = modify port.engine_c2h queue_id (λ _. some engine');
          } in
          some (some (to_int count), modify slots port_id (set_port port'))
      | some none ↦ none
      | none ↦ none
    ]
  ]
]
