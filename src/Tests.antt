-- ===== src/Tests.antt =====
-- The theorems at concrete inputs: a device with one mapped BAR, queues as set-up returns them, and
-- short bursts; and runs of the code.
pub mod Attach
pub mod Public
pub mod App
pub mod Engines
pub mod Walks
pub mod Mains
pub mod Calls
use xdma_dpdk.Base.{
  min, ℕ, zero, suc, ◌+◌, ◌*◌, ◌^◌, ◌<◌, ◌≤◌, ◌≡◌, refl, ◌⊎◌, inl, inr, true, false, Option, none,
  some, List, [], ◌∷◌, length, arith, bit_or, ◌==◌, ltb, Bool-cases, subst, modify_range,
  if◌then◌else◌, u64,
}
use xdma_dpdk.Base.Int.{pos, negsuc}
use xdma_dpdk.Regs.{h2c_channel_ctrl, c2h_channel_ctrl}
use xdma_dpdk.Xdma.{Direction, h2c, c2h, Queue, XdmaDev, StreamWb, xdma_desc_max}
use xdma_dpdk.Platform.{last_store}
use xdma_dpdk.Ring.{
  no_desc, desc_at, desc_control_idle, desc_control_last, xdma_desc_ring_init, xdma_desc_ring_clear,
}
use xdma_dpdk.Ring.Chain.{
  IsChained, AllBlank, xdma_desc_ring_init-IsChained, xdma_desc_ring_clear-IsChained,
}
use xdma_dpdk.Desc.{xdma_desc_control_set, xdma_desc_adjacent_set}
use xdma_dpdk.Desc.Control.{
  flags_of, adjacent_of, magic_of, xdma_desc_adjacent_set_lem, xdma_desc_control_set_lem,
}
use xdma_dpdk.Engine.{
  Zone, setup_queue, tx_zone_size, rx_zone_size, set_running, xdma_tx_engine_start,
  xdma_rx_engine_start, xdma_tx_engine_stop, xdma_rx_engine_stop, xdma_tx_engine_setup,
  xdma_rx_engine_setup,
}
use xdma_dpdk.Engine.Idle.{
  IsIdle, IsWhole, AllFree, IsIdle-IsWhole, xdma_tx_engine_stop-IsIdle, xdma_rx_engine_stop-IsIdle,
}
use xdma_dpdk.Engine.Setup.{
  GivesRoom, WbInZone, setup_queue-IsIdle, xdma_tx_engine_setup_lem, xdma_rx_engine_setup_lem,
}
use xdma_dpdk.Engine.Start.{
  reg_addr, HoldsWord, EndsWithControl, IsForeign, xdma_tx_engine_start_lem,
  xdma_rx_engine_start_lem, engine_stop-registers,
}
use xdma_dpdk.Fill.{IsLive, put}
use xdma_dpdk.Tx.{Seg, Packet, fill_tx_ring, post_packets, wait_completed, xdma_xmit_pkts}
use xdma_dpdk.Tx.Put.{described}
use xdma_dpdk.Tx.Post.{fitting, all_marks, post_packets_lem}
use xdma_dpdk.Tx.Wait.{wait_completed-ends}
use xdma_dpdk.Tx.Burst.{IsPosted}
use xdma_dpdk.Tx.Posted.{fill_tx_ring-IsPosted}
use xdma_dpdk.Tx.Xmit.{xdma_xmit_pkts_overlong}
use xdma_dpdk.Rx.{Mbuf, stream_wb_addr, post_buffers, poll_count, prepare_packets, xdma_recv_pkts}
use xdma_dpdk.Rx.Post.{no_mbuf, AllRx, IsOffered, post_buffers-IsOffered}
use xdma_dpdk.Rx.Poll.{Fresh, poll_count-Fresh, poll_count-finds}
use xdma_dpdk.Rx.Prepare.{IsPrepared, prepare_packets-IsPrepared}
use xdma_dpdk.Rx.Receiver.{idle, receiving, Implements, Prepared}
use xdma_dpdk.Rx.Recv.{xdma_recv_pkts_refines}
use xdma_dpdk.Rx.Short.{xdma_recv_pkts_short}
use xdma_dpdk.Rx.{xdma_poll_rx_complete}
use xdma_dpdk.Rx.Complete.{xdma_poll_rx_complete_lem}
use xdma_dpdk.Rx.Layout.{stream_wb_addr_outside}

-- A device whose register BAR 1 is mapped at 2^32.
abbrev pub dev_1 : XdmaDev
dev_1 = record {
  bar = 0 ∷ 2 ^ 32 ∷ 0 ∷ 0 ∷ 0 ∷ 0 ∷ [];
  user_bar_idx = pos 0;
  config_bar_idx = pos 1;
  bypass_bar_idx = negsuc 0;
  c2h_channel_max = 4;
  h2c_channel_max = 4;
  trigger_mode = 0;
  dev_configured = true;
}

-- Physical addresses lie 2^20 above the virtual ones.
abbrev pub v_1 : ℕ → ℕ
v_1 a = a + 2 ^ 20

abbrev pub copies {ℓ} : {A : Type ℓ} → ℕ → A → List A
copies zero x = []
copies (suc n) x = x ∷ copies n x

abbrev pub zone_1 : Zone
zone_1 = record { addr = 4096; descs = copies 32 no_desc; completed_desc_count = 7 }

abbrev pub reserve_1 : ℕ → Option Zone
reserve_1 size = if ltb size 65536 then some zone_1 else none

abbrev pub zmalloc_1 : ℕ → ℕ
zmalloc_1 size = 8192

-- What set-up returns for channel 1.
abbrev pub queue_1 : Direction → Queue
queue_1 dir = setup_queue v_1 true reserve_1 zmalloc_1 dir 1 zone_1

pub queue_1-IsIdle : (dir : Direction) → IsIdle v_1 dir (queue_1 dir) × AllFree (queue_1 dir)
queue_1-IsIdle dir = setup_queue-IsIdle v_1 true reserve_1 zmalloc_1 dir 1 zone_1 refl

queue_1-IsLive : (dir : Direction) → IsLive v_1 dir (queue_1 dir)
unfolding setup_queue xdma_desc_ring_init
queue_1-IsLive dir = record { whole = IsIdle-IsWhole (queue_1-IsIdle dir).0; inside = omega arith }

pub queue_1-AllRx : AllRx (queue_1 c2h)
unfolding setup_queue xdma_desc_ring_init
queue_1-AllRx i h = elim ((queue_1-IsIdle c2h).1 i (omega arith)) [
  | inl e ↦ inl e
  | inr e ↦ inr (inl e)
]

pub running_1 : (dir : Direction) → IsWhole v_1 dir (set_running true (queue_1 dir))
running_1 dir =
    let i = (queue_1-IsIdle dir).0 in
    record {
      chained = record { size = i.chained.size; links = i.chained.links };
      max = i.max;
      direction = i.direction;
      port = i.port;
    }

abbrev pub seg_1 : Seg
seg_1 = record { data_len = 60; buf_iova = 65536; data_off = 128 }

-- A packet of two segments and one of one segment.
abbrev pub burst_1 : List Packet
burst_1 =
    record { nb_segs = 2; segs = seg_1 ∷ seg_1 ∷ [] }
    ∷ record { nb_segs = 1; segs = seg_1 ∷ [] }
    ∷ []

fill_tx_ring-IsPosted_example : IsPosted v_1 burst_1 (fill_tx_ring burst_1 (queue_1 h2c))
unfolding setup_queue xdma_desc_ring_init
fill_tx_ring-IsPosted_example =
    fill_tx_ring-IsPosted v_1 burst_1 (queue_1 h2c) (queue_1-IsLive h2c) (queue_1-IsIdle h2c).1 refl
      (omega arith, (omega arith, tt))

abbrev loads_2 : ℕ → ℕ
loads_2 t = if t == 0 then 1 else 2

xdma_xmit_pkts_overlong_example :
    xdma_xmit_pkts 1000
      (λ t. min t 32)
      dev_1
      (copies 33 (record { nb_segs = 1; segs = seg_1 ∷ [] }))
      (queue_1 h2c)
      []
    ≡ none
unfolding setup_queue xdma_desc_ring_init
xdma_xmit_pkts_overlong_example =
    xdma_xmit_pkts_overlong 1000 (λ t. min t 32) dev_1
      (copies 33 (record { nb_segs = 1; segs = seg_1 ∷ [] })) (queue_1 h2c) [] refl (omega arith)
      (λ t. omega arith)

abbrev pub bufs_1 : List Mbuf
bufs_1 = copies 32 (record no_mbuf { buf_addr = 1000; buf_iova = 5000; data_off = 128 })

abbrev pub stream_1 : ℕ → ℕ → StreamWb
stream_1 a i = record { control = 0; len = 40 + i }

-- The device has completed five of the 32 buffers.
xdma_recv_pkts_refines_example :
    let o = xdma_recv_pkts (λ t. 5) stream_1 dev_1 32 bufs_1 (queue_1 c2h) [] in
    (o.nb_cmpt_desc ≡ 5)
    × Implements v_1 (receiving 5) o.queue
    × Prepared stream_1 bufs_1 idle (some 5) o
unfolding poll_count
xdma_recv_pkts_refines_example =
    xdma_recv_pkts_refines v_1 dev_1 bufs_1 [] (λ t. 5) stream_1 idle (queue_1 c2h) (omega arith)
      ((queue_1-IsIdle c2h).0, queue_1-AllRx) (omega arith, omega arith)

xdma_recv_pkts_short_example :
    let o = xdma_recv_pkts (λ t. 3) stream_1 dev_1 8 bufs_1 (queue_1 c2h) [] in
    (o.nb_cmpt_desc ≡ 65531)
    × (o.rx_pkts ≡ bufs_1)
    × (o.queue.engine.desc_used ≡ 3)
    × (o.queue.engine.running ≡ true)
xdma_recv_pkts_short_example =
    xdma_recv_pkts_short v_1 dev_1 8 3 bufs_1 [] (λ t. 3) stream_1 (queue_1 c2h) (omega arith)
      (omega arith) (omega arith) (queue_1-IsIdle c2h).0 queue_1-AllRx (λ t. refl)

prepare_packets-IsPrepared_example :
    IsPrepared
      (queue_1 c2h).engine
      (stream_1 0)
      2
      5
      bufs_1
      (prepare_packets (queue_1 c2h).engine (stream_1 0) bufs_1 5 2)
prepare_packets-IsPrepared_example =
    prepare_packets-IsPrepared (queue_1 c2h).engine (stream_1 0) bufs_1 5 2 (omega arith)
      (omega arith) (omega arith)

stream_wb_addr_outside_example : zone_1.addr + rx_zone_size ≤ stream_wb_addr (queue_1 c2h).engine
unfolding setup_queue xdma_rx_engine_setup
stream_wb_addr_outside_example =
    stream_wb_addr_outside v_1 true reserve_1 zmalloc_1 1 zone_1 (queue_1 c2h) refl (omega arith)
      refl

xdma_poll_rx_complete_lem_example :
    let engine = (queue_1 c2h).engine in
    ((o : ℕ) × (poll_count 1001 loads_2 engine.desc_used 0 ≡ some o)
      × (xdma_poll_rx_complete loads_2 engine ≡ (o, record engine { status = 1 })))
    ⊎ ((poll_count 1001 loads_2 engine.desc_used 0 ≡ none)
        × (xdma_poll_rx_complete loads_2 engine ≡ (2, engine)))
xdma_poll_rx_complete_lem_example = xdma_poll_rx_complete_lem loads_2 (queue_1 c2h).engine
