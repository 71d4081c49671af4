-- ===== src/Tests/Engines.antt =====
-- The theorems on rings, descriptors and engines at concrete inputs.
use xdma_dpdk.Base.{
  ℕ, ◌+◌, ◌^◌, ◌<◌, ◌≡◌, refl, ◌⊎◌, inl, inr, true, false, none, some, [], length, arith, ◌==◌, ltb,
  Bool-cases, subst, if◌then◌else◌, u64,
}
use xdma_dpdk.Base.Int.{pos}
use xdma_dpdk.Regs.{h2c_channel_ctrl, c2h_channel_ctrl}
use xdma_dpdk.Xdma.{h2c, c2h, Queue, xdma_desc_max}
use xdma_dpdk.Platform.{last_store}
use xdma_dpdk.Ring.{
  no_desc, desc_at, desc_control_idle, desc_control_last, xdma_desc_ring_init, xdma_desc_ring_clear,
}
use xdma_dpdk.Ring.Chain.{
  IsChained, AllBlank, xdma_desc_ring_init-IsChained, xdma_desc_ring_clear-IsChained,
}
use xdma_dpdk.Engine.{
  setup_queue, tx_zone_size, xdma_tx_engine_start, xdma_rx_engine_start, xdma_tx_engine_stop,
  xdma_rx_engine_stop, xdma_tx_engine_setup,
}
use xdma_dpdk.Engine.Idle.{IsIdle, AllFree}
use xdma_dpdk.Engine.Setup.{GivesRoom, WbInZone, xdma_tx_engine_setup_lem}
use xdma_dpdk.Engine.Start.{
  reg_addr, HoldsWord, EndsWithControl, IsForeign, xdma_tx_engine_start_lem,
  xdma_rx_engine_start_lem, engine_stop-registers,
}
use xdma_dpdk.Tests.{dev_1, v_1, copies, zone_1, reserve_1, zmalloc_1, queue_1, queue_1-IsIdle}

-- The memory of a ring before set-up.
abbrev raw_queue : Queue
raw_queue = record (queue_1 h2c) {
  descs = copies 32 (record no_desc { control = 99; next_lo = 5 });
}

xdma_desc_ring_init-IsChained_example :
    let q' = xdma_desc_ring_init v_1 raw_queue in
    IsChained v_1 q'
    × AllBlank q'
    × ((i : ℕ)
        → i < 32
        → (desc_at q' i).control ≡ (if i + 1 == 32 then desc_control_last else desc_control_idle))
unfolding setup_queue xdma_desc_ring_init
xdma_desc_ring_init-IsChained_example = xdma_desc_ring_init-IsChained v_1 raw_queue refl

xdma_desc_ring_clear-IsChained_example :
    let q' = xdma_desc_ring_clear (queue_1 h2c) in
    IsChained v_1 q' × AllBlank q' × ((i : ℕ) → i < 32 → (desc_at q' i).control ≡ desc_control_idle)
unfolding setup_queue xdma_desc_ring_init
xdma_desc_ring_clear-IsChained_example =
    xdma_desc_ring_clear-IsChained v_1 (queue_1 h2c) (queue_1-IsIdle h2c).0.chained

pub give_room : GivesRoom reserve_1
give_room size zone e = elim (Bool-cases (ltb size 65536)) [
  | inl small ↦
      let got : some zone_1 ≡ some zone = rw small at e in
      let same : zone_1 ≡ zone = cc got in
      subst (λ z. (length z.descs ≡ xdma_desc_max) × (z.addr + size < 2 ^ 64)) same
        (refl, ground arith)
  | inr large ↦ let got : none ≡ some zone = rw large at e in absurd (cc got)
]

xdma_tx_engine_setup_lem_example :
    ((true ≡ false) ⊎ (reserve_1 tx_zone_size ≡ none))
      × (xdma_tx_engine_setup v_1 true reserve_1 zmalloc_1 1 ≡ none)
    ⊎ ((q : Queue) × (xdma_tx_engine_setup v_1 true reserve_1 zmalloc_1 1 ≡ some q)
        × IsIdle v_1 h2c q
        × AllFree q
        × WbInZone tx_zone_size q
        × (q.engine.channel ≡ 1))
xdma_tx_engine_setup_lem_example = xdma_tx_engine_setup_lem v_1 true reserve_1 zmalloc_1 1 give_room

xdma_tx_engine_start_lem_example :
    let (q', bus') = xdma_tx_engine_start dev_1 4096 (pos 3) (queue_1 h2c) [] in
    HoldsWord bus'
      (2 ^ 32 + 0x4180)
      (2 ^ 32 + 0x4184)
      (u64 (4096 + (queue_1 h2c).engine.virt2phy_offset))
    × HoldsWord bus'
        (2 ^ 32 + 0x188)
        (2 ^ 32 + 0x18c)
        (u64 (5120 + (queue_1 h2c).engine.virt2phy_offset))
    × (last_store bus' (2 ^ 32 + 0x4188) ≡ some 3)
    × EndsWithControl 1 bus' (2 ^ 32 + 0x104)
    × (q'.engine.running ≡ true)
    × ((a : ℕ) → IsForeign dev_1 0 0x4000 1 a → last_store bus' a ≡ none)
unfolding setup_queue xdma_desc_ring_init
xdma_tx_engine_start_lem_example =
    xdma_tx_engine_start_lem dev_1 4096 (pos 3) (queue_1 h2c) [] (omega arith, omega arith)

xdma_rx_engine_start_lem_example :
    let (q', bus') = xdma_rx_engine_start dev_1 4096 (queue_1 c2h) [] in
    HoldsWord bus'
      (2 ^ 32 + 0x5180)
      (2 ^ 32 + 0x5184)
      (u64 (4096 + (queue_1 c2h).engine.virt2phy_offset))
    × HoldsWord bus'
        (2 ^ 32 + 0x1188)
        (2 ^ 32 + 0x118c)
        (u64 (5120 + (queue_1 c2h).engine.virt2phy_offset))
    × EndsWithControl 1 bus' (2 ^ 32 + 0x1104)
    × (q'.engine.running ≡ true)
    × ((a : ℕ) → IsForeign dev_1 0x1000 0x5000 1 a → last_store bus' a ≡ none)
unfolding setup_queue xdma_desc_ring_init
xdma_rx_engine_start_lem_example =
    xdma_rx_engine_start_lem dev_1 4096 (queue_1 c2h) [] (omega arith, omega arith)

engine_stop-registers_example :
    let tx = (xdma_tx_engine_stop dev_1 (queue_1 h2c) []).1 in
    let rx = (xdma_rx_engine_stop dev_1 (queue_1 h2c) []).1 in
    EndsWithControl 0 tx (reg_addr dev_1 h2c_channel_ctrl 1)
    × EndsWithControl 0 rx (reg_addr dev_1 c2h_channel_ctrl 1)
    × ((a : ℕ) → IsForeign dev_1 0 0x4000 1 a → last_store tx a ≡ none)
    × ((a : ℕ) → IsForeign dev_1 0x1000 0x5000 1 a → last_store rx a ≡ none)
unfolding setup_queue xdma_desc_ring_init
engine_stop-registers_example =
    engine_stop-registers dev_1 (queue_1 h2c) [] (omega arith, omega arith)
