-- ===== src/Xdma.antt =====
-- The constants and structures of drivers/net/xdma/xdma.h, with the fields that the driver's code
-- reads or writes. A pointer is the 64-bit address that it holds; a one-bit flag is a `Bool`.
use xdma_dpdk.Base.{ℕ, ◌*◌, ◌^◌, Bool, List}
use xdma_dpdk.Base.Int.{ℤ, pos, negsuc}

abbrev pub xdma_bar_num : ℕ
xdma_bar_num = 6

abbrev pub xdma_channel_num_max : ℕ
xdma_channel_num_max = 4

abbrev pub xdma_min_rxbuff_size : ℕ
xdma_min_rxbuff_size = 256

abbrev pub default_config_bar : ℤ
default_config_bar = pos 1

abbrev pub bar_id_invalid : ℤ
bar_id_invalid = negsuc 0

abbrev pub xdma_desc_nxt_adj_mask : ℕ
xdma_desc_nxt_adj_mask = 0x3f00

abbrev pub xdma_desc_stopped : ℕ
xdma_desc_stopped = 1

abbrev pub xdma_desc_completed : ℕ
xdma_desc_completed = 2 ^ 1

abbrev pub xdma_desc_eop : ℕ
xdma_desc_eop = 2 ^ 4

abbrev pub xdma_poll_mode_wb_size : ℕ
xdma_poll_mode_wb_size = 32

abbrev pub xdma_desc_size : ℕ
xdma_desc_size = 64

abbrev pub xdma_desc_max : ℕ
xdma_desc_max = 32

abbrev pub xdma_engine_magic_number : ℕ
xdma_engine_magic_number = 0x1df34c32

abbrev pub xdma_align : ℕ
xdma_align = 4096

abbrev pub max_exrta_adj : ℕ
max_exrta_adj = 32

abbrev pub rx_commpleted : ℕ
rx_commpleted = 1

-- `enum dma_data_direction`
pub data Direction : Type 0 where
  c2h h2c unknown : Direction

-- `struct xdma_desc`: eight 32-bit words in the memory that the device reads.
pub record Desc : Type 0 where
  pub control : ℕ
  pub len : ℕ
  pub src_addr_lo : ℕ
  pub src_addr_hi : ℕ
  pub dst_addr_lo : ℕ
  pub dst_addr_hi : ℕ
  pub next_lo : ℕ
  pub next_hi : ℕ

-- `sizeof` of `struct xdma_desc`, `struct xdma_poll_wb` and `struct xdma_c2h_stream_wb`.
abbrev pub sizeof_desc : ℕ
sizeof_desc = 8 * 4

abbrev pub sizeof_poll_wb : ℕ
sizeof_poll_wb = 4

abbrev pub sizeof_c2h_stream_wb : ℕ
sizeof_c2h_stream_wb = 2 * 4

-- `struct xdma_engine`. `desc_used` holds the bit pattern of its `int`.
pub record Engine : Type 0 where
  pub magic : ℕ
  pub dir : Direction
  pub channel : ℕ
  pub streaming : Bool
  pub running : Bool
  pub max_extra_adj : ℕ
  pub desc_max : ℕ
  pub status : ℕ
  pub poll_mode_addr_virt : ℕ
  pub desc_ring : ℕ
  pub desc_used : ℕ
  pub sw_ring : ℕ
  pub port_id : ℕ
  pub virt2phy_offset : ℕ
  pub mz : ℕ

-- `struct xdma_c2h_stream_wb`
pub record StreamWb : Type 0 where
  pub control : ℕ
  pub len : ℕ

-- `struct xdma_dev`, but for its two arrays of engines (module `Device`).
pub record XdmaDev : Type 0 where
  pub bar : List ℕ
  pub user_bar_idx : ℤ
  pub config_bar_idx : ℤ
  pub bypass_bar_idx : ℤ
  pub c2h_channel_max : ℕ
  pub h2c_channel_max : ℕ
  pub trigger_mode : ℕ
  pub dev_configured : Bool

-- An engine with the memory behind its pointers: the descriptors at `desc_ring`, and the
-- `completed_desc_count` at `poll_mode_addr_virt` as the driver last stored it.
pub record Queue : Type 0 where
  pub engine : Engine
  pub descs : List Desc
  pub completed_desc_count : ℕ
