-- ===== src/Engine/Start.antt =====
-- What starting and stopping an engine leaves in the device's registers.
use xdma_dpdk.Base.{
  ℕ, ◌+◌, ◌*◌, ◌%◌, ◌^◌, ◌<◌, ◌≤◌, ◌≡◌, refl, ◌⊎◌, true, some, ◌∷◌, u64, u32, low_half, high_half,
  arith,
}
use xdma_dpdk.Base.Int.{ℤ}
use xdma_dpdk.Regs.{
  h2c_channel_ctrl, h2c_poll_mode_lo_wb_addr, h2c_poll_mode_hi_wb_addr, c2h_channel_ctrl,
  c2h_poll_mode_lo_wb_addr, c2h_poll_mode_hi_wb_addr, h2c_sgdma_desc_lo_addr,
  h2c_sgdma_desc_hi_addr, h2c_sgdma_desc_adj, c2h_sgdma_desc_lo_addr, c2h_sgdma_desc_hi_addr,
}
use xdma_dpdk.Xdma.{Queue, XdmaDev}
use xdma_dpdk.Platform.{Bus, store, wmb, xdma_reg_write, bar_addr, last_store}
use xdma_dpdk.Engine.{
  positive_part, xdma_tx_engine_start, xdma_rx_engine_start, xdma_tx_engine_stop,
  xdma_rx_engine_stop,
}

-- The address of a channel's register; without overflow, `bar + reg + channel * 0x100`.
abbrev pub reg_addr : XdmaDev → ℕ → ℕ → ℕ
reg_addr dev reg channel = bar_addr dev dev.config_bar_idx + (reg + channel * 0x100)

-- The configuration BAR lies in the 64-bit address space, and the channel number has two bits.
abbrev pub IsMapped : XdmaDev → Queue → Type 0
IsMapped dev q = (bar_addr dev dev.config_bar_idx + 0x10000 ≤ 2 ^ 64) × (q.engine.channel < 4)

-- Two registers hold the low and the high half of a 64-bit value.
abbrev pub HoldsWord : Bus → ℕ → ℕ → ℕ → Type 0
HoldsWord bus lo_addr hi_addr v =
    (last_store bus lo_addr ≡ some (low_half v)) × (last_store bus hi_addr ≡ some (high_half v))

-- An address in no register block of the given channel: a block has 0x100 bytes, and stands at
-- `control` for the channel's own registers and at `sgdma` for its descriptor registers.
abbrev pub IsForeign : XdmaDev → ℕ → ℕ → ℕ → ℕ → Type 0
IsForeign dev control sgdma channel a =
    ((a < reg_addr dev control channel) ⊎ (reg_addr dev control channel + 0x100 ≤ a))
    × ((a < reg_addr dev sgdma channel) ⊎ (reg_addr dev sgdma channel + 0x100 ≤ a))

-- The control register was stored last, right behind a barrier, and its run bit is `run`.
abbrev pub EndsWithControl : ℕ → Bus → ℕ → Type 0
EndsWithControl run (store a v ∷ wmb ∷ before) ctrl_addr = (a ≡ ctrl_addr) × (v % 2 ≡ run)
EndsWithControl run _ ctrl_addr = ⊥

-- `xdma_tx_engine_start` on a mapped device, for a channel below 4, leaves in the channel's
-- registers the given virtual address of the first descriptor and the virtual address of the
-- completion count, each moved by the engine's `virt2phy_offset`, with the number of adjacent
-- descriptors; sets the run bit last of all, behind a barrier; marks the queue as running; and
-- stores to no register of another channel or of the receive side.
pub xdma_tx_engine_start_lem :
    (dev : XdmaDev) (first : ℕ) (adj : ℤ) (q : Queue) (bus : Bus)
    → IsMapped dev q
    → let (q', bus') = xdma_tx_engine_start dev first adj q bus in
      let reg = λ (r : ℕ). reg_addr dev r q.engine.channel in
      HoldsWord bus'
        (reg h2c_sgdma_desc_lo_addr)
        (reg h2c_sgdma_desc_hi_addr)
        (u64 (first + q.engine.virt2phy_offset))
      × HoldsWord bus'
          (reg h2c_poll_mode_lo_wb_addr)
          (reg h2c_poll_mode_hi_wb_addr)
          (u64 (q.engine.poll_mode_addr_virt + q.engine.virt2phy_offset))
      × (last_store bus' (reg h2c_sgdma_desc_adj) ≡ some (u32 (positive_part adj)))
      × EndsWithControl 1 bus' (reg h2c_channel_ctrl)
      × (q'.engine.running ≡ true)
      × ((a : ℕ) → IsForeign dev 0 0x4000 q.engine.channel a → last_store bus' a ≡ last_store bus a)
unfolding xdma_tx_engine_start xdma_reg_write
xdma_tx_engine_start_lem dev first adj q bus m =
    (ground arith, ground arith, ground arith, ground arith, refl, λ a f. ground arith)

-- `xdma_rx_engine_start` on a mapped device, for a channel below 4, leaves in the channel's
-- registers of the receive side the given virtual address of the first descriptor and the virtual
-- address of the completion count, each moved by the engine's `virt2phy_offset`; sets the run bit
-- last of all, behind a barrier; marks the queue as running; and stores to no register of another
-- channel or of the transmit side.
pub xdma_rx_engine_start_lem :
    (dev : XdmaDev) (first : ℕ) (q : Queue) (bus : Bus)
    → IsMapped dev q
    → let (q', bus') = xdma_rx_engine_start dev first q bus in
      let reg = λ (r : ℕ). reg_addr dev r q.engine.channel in
      HoldsWord bus'
        (reg c2h_sgdma_desc_lo_addr)
        (reg c2h_sgdma_desc_hi_addr)
        (u64 (first + q.engine.virt2phy_offset))
      × HoldsWord bus'
          (reg c2h_poll_mode_lo_wb_addr)
          (reg c2h_poll_mode_hi_wb_addr)
          (u64 (q.engine.poll_mode_addr_virt + q.engine.virt2phy_offset))
      × EndsWithControl 1 bus' (reg c2h_channel_ctrl)
      × (q'.engine.running ≡ true)
      × ((a : ℕ)
          → IsForeign dev 0x1000 0x5000 q.engine.channel a
          → last_store bus' a ≡ last_store bus a)
unfolding xdma_rx_engine_start xdma_reg_write
xdma_rx_engine_start_lem dev first q bus m =
    (ground arith, ground arith, ground arith, refl, λ a f. ground arith)

-- Both stop functions clear the run bit, behind a barrier, and store to no register of another
-- channel or of the other side.
pub engine_stop-registers :
    (dev : XdmaDev) (q : Queue) (bus : Bus)
    → IsMapped dev q
    → let tx = (xdma_tx_engine_stop dev q bus).1 in
      let rx = (xdma_rx_engine_stop dev q bus).1 in
      EndsWithControl 0 tx (reg_addr dev h2c_channel_ctrl q.engine.channel)
      × EndsWithControl 0 rx (reg_addr dev c2h_channel_ctrl q.engine.channel)
      × ((a : ℕ) → IsForeign dev 0 0x4000 q.engine.channel a → last_store tx a ≡ last_store bus a)
      × ((a : ℕ)
          → IsForeign dev 0x1000 0x5000 q.engine.channel a
          → last_store rx a ≡ last_store bus a)
unfolding xdma_tx_engine_stop xdma_rx_engine_stop xdma_reg_write
engine_stop-registers dev q bus m =
    (ground arith, ground arith, λ a f. ground arith, λ a f. ground arith)
