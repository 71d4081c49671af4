-- ===== src/Ring.antt =====
-- The descriptor ring of drivers/net/xdma/xdma_access_common.c: `xdma_desc_ring_init` and
-- `xdma_desc_ring_clear`. `rte_mem_virt2phy` is a parameter: it gives a virtual address its
-- physical one.
pub mod Chain
use xdma_dpdk.Base.{ℕ, ◌+◌, ◌-◌, ◌*◌, ◌<◌, ◌≡◌, Bool, true, false, modify_range, get_or, length}
use xdma_dpdk.Base.{◌==◌, ltb, if◌then◌else◌, u64, low_half, high_half, join_halves}
use xdma_dpdk.Xdma.{Direction, c2h, h2c, unknown, Desc, Queue, sizeof_desc}

-- A descriptor whose fields are all 0, for reads out of bounds.
abbrev pub no_desc : Desc
no_desc = record {
  control = 0;
  len = 0;
  src_addr_lo = 0;
  src_addr_hi = 0;
  dst_addr_lo = 0;
  dst_addr_hi = 0;
  next_lo = 0;
  next_hi = 0;
}

abbrev pub desc_at : Queue → ℕ → Desc
desc_at q i = get_or q.descs i no_desc

-- `(uint64_t)&engine->desc_ring[i]`
abbrev pub desc_addr : Queue → ℕ → ℕ
desc_addr q i = u64 (q.engine.desc_ring + sizeof_desc * i)

abbrev pub desc_control_idle : ℕ
desc_control_idle = 0xad4b0000

abbrev pub desc_control_last : ℕ
desc_control_last = 0xad4b0013

-- The body of the loop of `xdma_desc_ring_init`; it runs only at `i < desc_max`.
unfoldable pub init_desc : (virt2phy : ℕ → ℕ) → Queue → ℕ → Desc → Desc
init_desc virt2phy q i desc =
    let last = i == q.engine.desc_max - 1 in
    let next_addr = if last then 0 else virt2phy (desc_addr q (i + 1)) in
    record {
      control = if last then desc_control_last else desc_control_idle;
      len = 0;
      src_addr_lo = 0;
      src_addr_hi = 0;
      dst_addr_lo = 0;
      dst_addr_hi = 0;
      next_lo = low_half next_addr;
      next_hi = high_half next_addr;
    }

unfoldable pub xdma_desc_ring_init : (virt2phy : ℕ → ℕ) → Queue → Queue
unfolding init_desc
xdma_desc_ring_init virt2phy q = record q {
  descs = modify_range q.engine.desc_max 0 (init_desc virt2phy q) q.descs;
}

abbrev pub is_h2c : Direction → Bool
is_h2c h2c = true
is_h2c c2h = false
is_h2c unknown = false

-- The body of the loop of `xdma_desc_ring_clear`.
unfoldable pub clear_desc : Direction → Desc → Desc
clear_desc dir desc = record desc {
  control = if is_h2c dir then desc_control_idle else desc.control;
  len = 0;
  src_addr_lo = 0;
  src_addr_hi = 0;
  dst_addr_lo = 0;
  dst_addr_hi = 0;
}

unfoldable pub xdma_desc_ring_clear : Queue → Queue
unfolding clear_desc
xdma_desc_ring_clear q = record q {
  descs = modify_range q.engine.desc_max 0 (λ _. clear_desc q.engine.dir) q.descs;
}
