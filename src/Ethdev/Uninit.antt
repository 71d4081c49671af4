-- ===== src/Ethdev/Uninit.antt =====
-- Detaching the driver gives back everything once.
use xdma_dpdk.Base.{◌≡◌, refl, true, false, some, [], ◌++◌, arith}
use xdma_dpdk.Base.Int.{pos}
use xdma_dpdk.Xdma.{c2h, h2c}
use xdma_dpdk.Platform.{Bus}
use xdma_dpdk.Ring.{is_h2c}
use xdma_dpdk.Device.{is_c2h, xdma_dev_close, close_all}
use xdma_dpdk.Device.Stop.{EachQueue}
use xdma_dpdk.Device.Close.{HasMemory, blocks_of, xdma_dev_close_again}
use xdma_dpdk.Ethdev.{null, EthDev, xdma_eth_dev_uninit}

-- `xdma_eth_dev_uninit` in the primary process, on a stopped device whose queues are all set up,
-- gives back the blocks of all queues and clears the pointers and the arrays of queues; so that
-- doing it again gives back nothing more.
pub xdma_eth_dev_uninit_once :
    (eth : EthDev) (bus : Bus)
    → eth.port.dev_started ≡ false
    → eth.port.dev.dev_configured ≡ true
    → EachQueue (HasMemory is_c2h) eth.port.rx_queues
    → EachQueue (HasMemory is_h2c) eth.port.tx_queues
    → let freed = blocks_of c2h 0 eth.port.rx_queues ++ blocks_of h2c 0 eth.port.tx_queues in
      (eth' : EthDev) × (xdma_eth_dev_uninit true eth bus ≡ some (pos 0, freed, eth', bus))
      × (xdma_eth_dev_uninit true eth' bus ≡ some (pos 0, [], eth', bus))
      × (eth'.mac_addrs ≡ null)
      × (eth'.hw_access ≡ null)
      × (eth'.ops ≡ false)
unfolding xdma_eth_dev_uninit xdma_dev_close close_all
xdma_eth_dev_uninit_once eth bus idle configured rx tx =
    let port = eth.port in
    let eth' : EthDev = record {
      port = record port { tx_queues = []; rx_queues = [] };
      mac_addrs = null;
      hw_access = null;
      ops = false;
    } in
    (
      eth',
      ground (arith, configured, xdma_dev_close_again eth.port bus idle rx tx),
      ground (arith, configured, idle),
      refl,
      refl,
      refl,
    )
