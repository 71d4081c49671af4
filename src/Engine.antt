-- ===== src/Engine.antt =====
-- One DMA engine in drivers/net/xdma/xdma_access_common.c: set-up, start and stop of a transmit
-- (H2C) or receive (C2H) engine, and the interrupt masks.
pub mod Start
pub mod Idle
pub mod Setup
use xdma_dpdk.Base.{
  ℕ, ◌+◌, ◌-◌, ◌*◌, ◌/◌, ◌%◌, ◌^◌, Bool, true, false, Option, none, some, List, ◌∷◌,
}
use xdma_dpdk.Base.{bit_or, u64, u32, low_half, high_half}
use xdma_dpdk.Base.Int.{ℤ, pos, negsuc}
use xdma_dpdk.Regs.{
  h2c_channel_ctrl, ctrl_run_stop, ctrl_ie_desc_stopped, ctrl_ie_desc_completed,
  ctrl_ie_desc_align_mismatch, ctrl_ie_magic_stopped, ctrl_ie_read_error, ctrl_ie_desc_error,
  ctrl_poll_mode_wb, h2c_poll_mode_lo_wb_addr, h2c_poll_mode_hi_wb_addr, c2h_channel_ctrl,
  c2h_poll_mode_lo_wb_addr, c2h_poll_mode_hi_wb_addr, irq_user_interrupt_enable_mask_w1s,
  irq_user_interrupt_enable_mask_w1c, irq_channel_interrupt_enable_mask_w1s,
  irq_channel_interrupt_enable_mask_w1c, h2c_sgdma_desc_lo_addr, h2c_sgdma_desc_hi_addr,
  h2c_sgdma_desc_adj, c2h_sgdma_desc_lo_addr, c2h_sgdma_desc_hi_addr,
}
use xdma_dpdk.Xdma.{
  Direction, c2h, h2c, Desc, Engine, Queue, XdmaDev, sizeof_desc, sizeof_poll_wb,
  sizeof_c2h_stream_wb, xdma_desc_max, max_exrta_adj, xdma_engine_magic_number,
}
use xdma_dpdk.Platform.{Bus, wmb, xdma_reg_write}
use xdma_dpdk.Ring.{xdma_desc_ring_init, xdma_desc_ring_clear}

-- `reg_val = ~0`
abbrev pub all_ones : ℕ
all_ones = 2 ^ 32 - 1

unfoldable pub user_interrupts_enable : XdmaDev → Bus → Bus
user_interrupts_enable dev bus = xdma_reg_write dev irq_user_interrupt_enable_mask_w1s all_ones bus

unfoldable pub user_interrupts_disable : XdmaDev → Bus → Bus
user_interrupts_disable dev bus = xdma_reg_write dev irq_user_interrupt_enable_mask_w1c all_ones bus

unfoldable pub channel_interrupts_enable : XdmaDev → Bus → Bus
channel_interrupts_enable dev bus =
    xdma_reg_write dev irq_channel_interrupt_enable_mask_w1s all_ones bus

unfoldable pub channel_interrupts_disable : XdmaDev → Bus → Bus
channel_interrupts_disable dev bus =
    xdma_reg_write dev irq_channel_interrupt_enable_mask_w1c all_ones bus

-- The register of a channel: its offset for channel 0, and 0x100 for each channel below.
abbrev pub channel_reg : ℕ → ℕ → ℕ
channel_reg reg channel = reg + channel * 0x100

-- The `reg_val |= ...` lines that start and stop share.
abbrev pub with_ctrl_bits : ℕ → ℕ
with_ctrl_bits v0 =
    let v1 = bit_or v0 ctrl_ie_desc_stopped in
    let v2 = bit_or v1 ctrl_ie_desc_completed in
    let v3 = bit_or v2 ctrl_ie_desc_align_mismatch in
    let v4 = bit_or v3 ctrl_ie_magic_stopped in
    let v5 = bit_or v4 ctrl_ie_read_error in
    let v6 = bit_or v5 ctrl_ie_desc_error in bit_or v6 ctrl_poll_mode_wb

-- `(desc_adj > 0) ? desc_adj : 0`
abbrev pub positive_part : ℤ → ℕ
positive_part (pos n) = n
positive_part (negsuc n) = 0

abbrev pub set_running : Bool → Queue → Queue
set_running b q = let engine = q.engine in record q { engine = record engine { running = b } }

unfoldable pub xdma_tx_engine_start : XdmaDev → ℕ → ℤ → Queue → Bus → Queue × Bus
xdma_tx_engine_start dev first_desc_addr desc_adj q bus =
    let e = q.engine in
    let first = u64 (first_desc_addr + e.virt2phy_offset) in
    let wb = u64 (e.poll_mode_addr_virt + e.virt2phy_offset) in
    let reg = λ (r : ℕ). channel_reg r e.channel in
    let b1 = xdma_reg_write dev (reg h2c_sgdma_desc_lo_addr) (low_half first) bus in
    let b2 = xdma_reg_write dev (reg h2c_sgdma_desc_hi_addr) (high_half first) b1 in
    let b3 = xdma_reg_write dev (reg h2c_sgdma_desc_adj) (positive_part desc_adj) b2 in
    let b4 = xdma_reg_write dev (reg h2c_poll_mode_lo_wb_addr) (low_half wb) b3 in
    let b5 = xdma_reg_write dev (reg h2c_poll_mode_hi_wb_addr) (high_half wb) b4 in
    let ctrl = with_ctrl_bits ctrl_run_stop in
    (set_running true q, xdma_reg_write dev (reg h2c_channel_ctrl) ctrl (wmb ∷ b5))

unfoldable pub xdma_rx_engine_start : XdmaDev → ℕ → Queue → Bus → Queue × Bus
xdma_rx_engine_start dev first_desc_addr q bus =
    let e = q.engine in
    let first = u64 (first_desc_addr + e.virt2phy_offset) in
    let wb = u64 (e.poll_mode_addr_virt + e.virt2phy_offset) in
    let reg = λ (r : ℕ). channel_reg r e.channel in
    let b1 = xdma_reg_write dev (reg c2h_sgdma_desc_lo_addr) (low_half first) bus in
    let b2 = xdma_reg_write dev (reg c2h_sgdma_desc_hi_addr) (high_half first) b1 in
    let b3 = xdma_reg_write dev (reg c2h_poll_mode_lo_wb_addr) (low_half wb) b2 in
    let b4 = xdma_reg_write dev (reg c2h_poll_mode_hi_wb_addr) (high_half wb) b3 in
    let ctrl = with_ctrl_bits ctrl_run_stop in
    (set_running true q, xdma_reg_write dev (reg c2h_channel_ctrl) ctrl (wmb ∷ b4))

-- What both stop functions do to the queue: clear the ring, forget the descriptors in use, and
-- store 0 over the count of completed descriptors.
abbrev pub rest_queue : Queue → Queue
rest_queue q =
    let cleared = xdma_desc_ring_clear q in
    let engine = cleared.engine in
    record cleared {
      engine = record engine { running = false; desc_used = 0 };
      completed_desc_count = 0;
    }

unfoldable pub xdma_tx_engine_stop : XdmaDev → Queue → Bus → Queue × Bus
xdma_tx_engine_stop dev q bus =
    let reg_addr = channel_reg h2c_channel_ctrl q.engine.channel in
    (rest_queue q, xdma_reg_write dev reg_addr (with_ctrl_bits 0) (wmb ∷ bus))

unfoldable pub xdma_rx_engine_stop : XdmaDev → Queue → Bus → Queue × Bus
xdma_rx_engine_stop dev q bus =
    let reg_addr = channel_reg c2h_channel_ctrl q.engine.channel in
    (rest_queue q, xdma_reg_write dev reg_addr (with_ctrl_bits 0) (wmb ∷ bus))

-- A memory zone that `rte_memzone_reserve_aligned` returned, with what its memory holds.
pub record Zone : Type 0 where
  pub addr : ℕ
  pub descs : List Desc
  pub completed_desc_count : ℕ

abbrev pub tx_zone_size : ℕ
tx_zone_size = xdma_desc_max * sizeof_desc + sizeof_poll_wb

abbrev pub rx_zone_size : ℕ
rx_zone_size = xdma_desc_max * sizeof_desc + sizeof_poll_wb + sizeof_c2h_stream_wb

-- `sizeof(struct rte_mbuf *)`
abbrev pub sizeof_pointer : ℕ
sizeof_pointer = 8

-- The fields of an engine after set-up; those that the code leaves alone are 0 from `rte_zmalloc`,
-- and `channel` has two bits.
abbrev pub setup_engine : (virt2phy : ℕ → ℕ) → Direction → ℕ → Zone → ℕ → Engine
setup_engine virt2phy dir channel_id zone sw_ring = record {
  magic = xdma_engine_magic_number;
  dir = dir;
  channel = channel_id % 4;
  streaming = true;
  running = false;
  max_extra_adj = max_exrta_adj;
  desc_max = xdma_desc_max;
  status = 0;
  poll_mode_addr_virt = u64 (zone.addr + xdma_desc_max * sizeof_desc);
  desc_ring = zone.addr;
  desc_used = 0;
  sw_ring = sw_ring;
  port_id = 0;
  virt2phy_offset = u64 (virt2phy sw_ring + 2 ^ 64 - sw_ring);
  mz = zone.addr;
}

-- The allocators and the address translation of DPDK. `engine_mem` is whether the engine itself
-- could be allocated, `reserve` gives a zone of a size or NULL, `zmalloc` an address or 0.
module _ (virt2phy : ℕ → ℕ) (engine_mem : Bool) (reserve : ℕ → Option Zone) (zmalloc : ℕ → ℕ) where
  unfoldable pub setup_queue : Direction → ℕ → Zone → Queue
  setup_queue dir channel_id zone = xdma_desc_ring_init virt2phy (record {
    engine = setup_engine virt2phy dir channel_id zone (zmalloc (xdma_desc_max * sizeof_pointer));
    descs = zone.descs;
    completed_desc_count = zone.completed_desc_count;
  })

  -- `none` is a dereference of NULL: the code does not test what the allocators return.
  unfoldable pub xdma_tx_engine_setup : ℕ → Option Queue
  unfolding setup_queue
  xdma_tx_engine_setup channel_id = elim engine_mem [
    | false ↦ none
    | true ↦ elim (reserve tx_zone_size) [
      | none ↦ none
      | some zone ↦ some (setup_queue h2c channel_id zone)
    ]
  ]

  unfoldable pub xdma_rx_engine_setup : ℕ → Option Queue
  unfolding setup_queue
  xdma_rx_engine_setup channel_id = elim engine_mem [
    | false ↦ none
    | true ↦ elim (reserve rx_zone_size) [
      | none ↦ none
      | some zone ↦ some (setup_queue c2h channel_id zone)
    ]
  ]
