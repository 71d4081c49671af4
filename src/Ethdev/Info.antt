-- ===== src/Ethdev/Info.antt =====
-- What a device says of itself: `xdma_dev_infos_get` and `xdma_dev_link_update` of
-- drivers/net/xdma/xdma_devops.c.
use xdma_dpdk.Base.{ℕ}
use xdma_dpdk.Base.Int.{ℤ, pos}
use xdma_dpdk.Xdma.{XdmaDev}

-- `struct rte_eth_dev_info`, with the fields that are set.
pub record DevInfo : Type 0 where
  pub max_rx_queues : ℕ
  pub max_tx_queues : ℕ
  pub min_rx_bufsize : ℕ
  pub max_rx_pktlen : ℕ
  pub max_mac_addrs : ℕ

abbrev pub xdma_min_rxbuff_size : ℕ
xdma_min_rxbuff_size = 256

-- A macro of the build.
abbrev pub dma_bram_size : ℕ
dma_bram_size = 524288

unfoldable pub xdma_dev_infos_get : XdmaDev → ℤ × DevInfo
xdma_dev_infos_get dev = (
  pos 0,
  record {
    max_rx_queues = dev.c2h_channel_max;
    max_tx_queues = dev.h2c_channel_max;
    min_rx_bufsize = xdma_min_rxbuff_size;
    max_rx_pktlen = dma_bram_size;
    max_mac_addrs = 1;
  },
)

-- `dev_link`: whether it is up, whether it is full duplex, and its speed in Mbit/s.
pub record Link : Type 0 where
  pub is_up : ℕ
  pub full_duplex : ℕ
  pub link_speed : ℕ

unfoldable pub xdma_dev_link_update : Link → ℤ × Link
xdma_dev_link_update link = (pos 0, record link { is_up = 1; full_duplex = 1; link_speed = 200000 })
