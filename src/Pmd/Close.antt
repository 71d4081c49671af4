-- ===== src/Pmd/Close.antt =====
-- Closing a port through the public interface, and detaching the driver behind it.
use xdma_dpdk.Base.{
  ℕ, ◌≡◌, ◌≢◌, refl, ◌∙◌, true, false, some, [], ◌++◌, arith, get_elem?, modify, get_elem?-modify,
  Bool-cases, inl, inr,
}
use xdma_dpdk.Base.Int.{pos}
use xdma_dpdk.Xdma.{c2h, h2c}
use xdma_dpdk.Platform.{Bus}
use xdma_dpdk.Ring.{is_h2c}
use xdma_dpdk.Device.{Port, is_c2h, xdma_dev_close, close_all}
use xdma_dpdk.Device.Stop.{EachQueue}
use xdma_dpdk.Device.Close.{HasMemory, blocks_of, xdma_dev_close_again}
use xdma_dpdk.Ethdev.{null, EthDev, xdma_eth_dev_uninit}
use xdma_dpdk.Pmd.{Slot, Slots, drop_queues, set_port, rte_pmd_xdma_dev_close}

-- The port that closing leaves.
abbrev closed : Port → Port
closed port = drop_queues (record port { dev_started = false })

-- `rte_pmd_xdma_dev_close` of a port whose queues are all set up gives back the blocks of all its
-- queues, and a later `xdma_eth_dev_uninit` of the same port gives back none of them again; no other
-- port changes. It stores nothing to the device, also if the port is started and its engines run:
-- they are not stopped before the memory of their rings is freed.
pub rte_pmd_xdma_dev_close_once :
    (slots : Slots) (port_id : ℕ) (slot : Slot) (bus : Bus)
    → get_elem? slots port_id ≡ some slot
    → EachQueue (HasMemory is_c2h) slot.eth.port.rx_queues
    → EachQueue (HasMemory is_h2c) slot.eth.port.tx_queues
    → let port = slot.eth.port in
      let freed = blocks_of c2h 0 port.rx_queues ++ blocks_of h2c 0 port.tx_queues in
      (slots' : Slots) × (slot' : Slot) × (rte_pmd_xdma_dev_close slots port_id bus
        ≡ some (freed, slots', bus))
      × (get_elem? slots' port_id ≡ some slot')
      × ((eth'' : EthDev) × (xdma_eth_dev_uninit true slot'.eth bus ≡ some (pos 0, [], eth'', bus)))
      × ((j : ℕ) → j ≢ port_id → get_elem? slots' j ≡ get_elem? slots j)
unfolding rte_pmd_xdma_dev_close xdma_eth_dev_uninit xdma_dev_close close_all
rte_pmd_xdma_dev_close_once slots port_id slot bus here rx tx =
    let change = set_port (closed slot.eth.port) in
    (
      modify slots port_id change,
      change slot,
      ground (
        arith,
        here,
        xdma_dev_close_again (record slot.eth.port { dev_started = false }) bus refl rx tx,
      ),
      get_elem?-modify slots port_id port_id change here ∙ ground arith,
      (_, uninit_closed),
      λ j other. get_elem?-modify slots port_id j change here ∙ ground (arith, other),
    )
  where
    after : EthDev
    after = record { port = closed slot.eth.port; mac_addrs = null; hw_access = null; ops = false }

    uninit_closed :
        xdma_eth_dev_uninit true (set_port (closed slot.eth.port) slot).eth bus
        ≡ some (pos 0, [], after, bus)
    uninit_closed = elim (Bool-cases slot.eth.port.dev.dev_configured) [
      | inl e ↦ ground (arith, e)
      | inr e ↦ ground (arith, e)
    ]
