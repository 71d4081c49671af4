-- ===== src/Rx/Layout.antt =====
-- Where the parts of a receive ring lie in its memory zone.
use xdma_dpdk.Base.{ℕ, ◌+◌, ◌^◌, ◌≤◌, ◌≡◌, Bool, Option, some, arith}
use xdma_dpdk.Xdma.{Queue}
use xdma_dpdk.Engine.{Zone, rx_zone_size, xdma_rx_engine_setup}
use xdma_dpdk.Ring.{xdma_desc_ring_init}
use xdma_dpdk.Rx.{stream_wb_addr}

-- The stream status that `xdma_c2h_desc_set` gives to the device, and from which
-- `prepare_segmented_packet` takes the lengths, lies behind the zone that set-up reserved for the
-- ring, whatever the zone, if the address space goes on for 4096 bytes from its start.
pub stream_wb_addr_outside :
    (virt2phy : ℕ → ℕ) (engine_mem : Bool) (reserve : ℕ → Option Zone) (zmalloc : ℕ → ℕ)
    (channel_id : ℕ) (zone : Zone) (q : Queue)
    → reserve rx_zone_size ≡ some zone
    → zone.addr + 4096 ≤ 2 ^ 64
    → xdma_rx_engine_setup virt2phy engine_mem reserve zmalloc channel_id ≡ some q
    → zone.addr + rx_zone_size ≤ stream_wb_addr q.engine
unfolding xdma_rx_engine_setup xdma_desc_ring_init
stream_wb_addr_outside virt2phy engine_mem reserve zmalloc channel_id zone q e room s = ground arith
