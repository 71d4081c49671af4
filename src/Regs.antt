-- ===== src/Regs.antt =====
-- The register map of drivers/net/xdma/xdma_regs.h: offsets into the configuration BAR and the
-- bits of the channel control register.
use xdma_dpdk.Base.{ℕ, ◌*◌, ◌^◌}

abbrev pub h2c_channel_ctrl : ℕ
h2c_channel_ctrl = 0x0004

abbrev pub ctrl_run_stop : ℕ
ctrl_run_stop = 0x1

abbrev pub ctrl_ie_desc_stopped : ℕ
ctrl_ie_desc_stopped = 0x1 * 2 ^ 1

abbrev pub ctrl_ie_desc_completed : ℕ
ctrl_ie_desc_completed = 0x1 * 2 ^ 2

abbrev pub ctrl_ie_desc_align_mismatch : ℕ
ctrl_ie_desc_align_mismatch = 0x1 * 2 ^ 3

abbrev pub ctrl_ie_magic_stopped : ℕ
ctrl_ie_magic_stopped = 0x1 * 2 ^ 4

abbrev pub ctrl_ie_read_error : ℕ
ctrl_ie_read_error = 0x1f * 2 ^ 9

abbrev pub ctrl_ie_desc_error : ℕ
ctrl_ie_desc_error = 0x1f * 2 ^ 19

abbrev pub ctrl_poll_mode_wb : ℕ
ctrl_poll_mode_wb = 0x1 * 2 ^ 26

abbrev pub h2c_poll_mode_lo_wb_addr : ℕ
h2c_poll_mode_lo_wb_addr = 0x0088

abbrev pub h2c_poll_mode_hi_wb_addr : ℕ
h2c_poll_mode_hi_wb_addr = 0x008c

abbrev pub c2h_channel_ctrl : ℕ
c2h_channel_ctrl = 0x1004

abbrev pub c2h_poll_mode_lo_wb_addr : ℕ
c2h_poll_mode_lo_wb_addr = 0x1088

abbrev pub c2h_poll_mode_hi_wb_addr : ℕ
c2h_poll_mode_hi_wb_addr = 0x108c

abbrev pub irq_user_interrupt_enable_mask_w1s : ℕ
irq_user_interrupt_enable_mask_w1s = 0x2008

abbrev pub irq_user_interrupt_enable_mask_w1c : ℕ
irq_user_interrupt_enable_mask_w1c = 0x200c

abbrev pub irq_channel_interrupt_enable_mask_w1s : ℕ
irq_channel_interrupt_enable_mask_w1s = 0x2014

abbrev pub irq_channel_interrupt_enable_mask_w1c : ℕ
irq_channel_interrupt_enable_mask_w1c = 0x2018

abbrev pub h2c_sgdma_desc_lo_addr : ℕ
h2c_sgdma_desc_lo_addr = 0x4080

abbrev pub h2c_sgdma_desc_hi_addr : ℕ
h2c_sgdma_desc_hi_addr = 0x4084

abbrev pub h2c_sgdma_desc_adj : ℕ
h2c_sgdma_desc_adj = 0x4088

abbrev pub c2h_sgdma_desc_lo_addr : ℕ
c2h_sgdma_desc_lo_addr = 0x5080

abbrev pub c2h_sgdma_desc_hi_addr : ℕ
c2h_sgdma_desc_hi_addr = 0x5084
