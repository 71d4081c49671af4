-- ===== src/Desc.antt =====
-- Single descriptors in drivers/net/xdma/xdma_rxtx.c: taking the next one of the ring, and the two
-- edits of its control word.
pub mod Control
use xdma_dpdk.Base.{ℕ, ◌+◌, ◌-◌, ◌*◌, ◌%◌, ◌^◌, bit_and, bit_or, modify, u32}
use xdma_dpdk.Xdma.{Desc, Queue, xdma_desc_nxt_adj_mask}

-- The index of the descriptor that `get_desc` returns a pointer to, and the queue after it.
unfoldable pub get_desc : Queue → ℕ × Queue
get_desc q =
    let id = q.engine.desc_used in
    let engine = q.engine in
    (id, record q { engine = record engine { desc_used = u32 (id + 1) % engine.desc_max } })

unfoldable pub xdma_desc_control_set : (control_field : ℕ) → Desc → Desc
xdma_desc_control_set control_field desc = record desc {
  control = u32 (bit_or desc.control control_field);
}

-- The mask is an `unsigned long`, so its complement has 64 bits.
unfoldable pub xdma_desc_adjacent_set : (nxt_adj : ℕ) → Desc → Desc
xdma_desc_adjacent_set nxt_adj desc =
    let control = u32 (bit_and desc.control (2 ^ 64 - 1 - xdma_desc_nxt_adj_mask)) in
    record desc { control = bit_or control (u32 (nxt_adj * 2 ^ 8)) }

-- The descriptor behind a pointer `&desc_ring[i]` edited by `f`. A write outside the ring, which C
-- leaves undefined, changes nothing here.
abbrev pub edit : Queue → ℕ → (Desc → Desc) → Queue
edit q i f = record q { descs = modify q.descs i f }
