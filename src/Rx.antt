-- ===== src/Rx.antt =====
-- The receive path of drivers/net/xdma/xdma_rxtx.c: `xdma_c2h_desc_set`, `xdma_recv_pkts`,
-- `prepare_packets`, `prepare_segmented_packet`, and the two functions that poll for completion.
pub mod Post
pub mod Poll
pub mod Prepare
pub mod Receiver
pub mod Recv
pub mod Short
pub mod Layout
pub mod Complete
pub mod Reclaim
use xdma_dpdk.Base.{
  ℕ, zero, suc, ◌+◌, ◌-◌, ◌*◌, ◌%◌, ◌^◌, Bool, true, false, not, ◌&&◌, Option, none, some, List, [],
  ◌∷◌, length, modify, ltb, ◌==◌, if◌then◌else◌, u64, u32, u16, low_half, high_half, min,
}
use xdma_dpdk.Xdma.{
  Desc, Engine, Queue, XdmaDev, StreamWb, xdma_desc_completed, xdma_desc_size,
  xdma_poll_mode_wb_size, rx_commpleted,
}
use xdma_dpdk.Platform.{Bus}
use xdma_dpdk.Ring.{desc_addr}
use xdma_dpdk.Desc.{get_desc, xdma_desc_control_set, edit}
use xdma_dpdk.Engine.{xdma_rx_engine_start, xdma_rx_engine_stop}
use xdma_dpdk.Tx.{wait_completed}

-- A `struct rte_mbuf` with the fields that reception reads or writes; `next` is an address.
pub record Mbuf : Type 0 where
  pub buf_addr : ℕ
  pub buf_iova : ℕ
  pub data_off : ℕ
  pub nb_segs : ℕ
  pub pkt_len : ℕ
  pub data_len : ℕ
  pub packet_type : ℕ
  pub ol_flags : ℕ
  pub port : ℕ
  pub vlan_tci : ℕ
  pub rss : ℕ
  pub next : ℕ

-- Where the driver expects the device's stream status.
abbrev pub stream_wb_addr : Engine → ℕ
stream_wb_addr engine =
    u64 (engine.desc_ring + xdma_desc_size * engine.desc_max + xdma_poll_mode_wb_size)

-- The stores of `xdma_c2h_desc_set` into the descriptor.
unfoldable pub fill_c2h : (wb_addr : ℕ) → Mbuf → Desc → Desc
fill_c2h wb_addr mb desc =
    let vir2phy = u64 (mb.buf_iova + 2 ^ 64 - mb.buf_addr) in
    let dst_addr = u64 (mb.buf_iova + mb.data_off) in
    let src_addr = u64 (wb_addr + vir2phy) in
    record desc {
      dst_addr_lo = low_half dst_addr;
      dst_addr_hi = high_half dst_addr;
      src_addr_lo = low_half src_addr;
      src_addr_hi = high_half src_addr;
      len = 64;
    }

unfoldable pub xdma_c2h_desc_set : Mbuf → Queue → Queue
xdma_c2h_desc_set mb q =
    let (id, q1) = get_desc q in
    let q2 = edit q1 id (fill_c2h (stream_wb_addr q.engine) mb) in
    edit q2 id (xdma_desc_control_set xdma_desc_completed)

-- `for (count = 0; count < nb_pkts; count++)`. Where the array is shorter than `nb_pkts`, C reads
-- beyond it; here the loop ends.
unfoldable pub post_buffers : ℕ → List Mbuf → Queue → Queue
post_buffers zero rx_pkts q = q
post_buffers (suc n) [] q = q
post_buffers (suc n) (mb ∷ rx_pkts) q = post_buffers n rx_pkts (xdma_c2h_desc_set mb q)

-- `prepare_segmented_packet`: its loop ends in the first round, so the packet is one mbuf.
unfoldable pub prepare_segmented_packet : Engine → StreamWb → Mbuf → Mbuf
prepare_segmented_packet engine wb mb = record mb {
  nb_segs = 1;
  pkt_len = u32 wb.len;
  data_len = u16 wb.len;
  packet_type = 0;
  ol_flags = 0;
  port = u16 engine.port_id;
  vlan_tci = 0;
  rss = 0;
  next = 0;
}

-- `while (count_desc < nb_pkts)`, with `left` rounds to go. A prefetch reads the array's next element,
-- to no effect.
unfoldable pub prepare_loop :
    Engine → (ℕ → StreamWb) → (left count_desc : ℕ) → List Mbuf → List Mbuf
prepare_loop engine wb zero count_desc rx_pkts = rx_pkts
prepare_loop engine wb (suc left) count_desc rx_pkts =
    prepare_loop engine wb left (count_desc + 1)
      (modify rx_pkts count_desc (prepare_segmented_packet engine (wb count_desc)))

-- The two counts are cast to `uint16_t`. The result, always 0, is not used.
unfoldable pub prepare_packets :
    Engine → (ℕ → StreamWb) → List Mbuf → (nb_pkts nb_cmpt_desc : ℕ) → List Mbuf
unfolding prepare_loop prepare_segmented_packet
prepare_packets engine wb rx_pkts nb_pkts nb_cmpt_desc =
    prepare_loop engine wb (u16 nb_pkts - u16 nb_cmpt_desc) (u16 nb_cmpt_desc) rx_pkts

-- The wait for a completion count that two reads in a row agree on and that differs from `used`.
-- `loads t` is the value of the t-th read of the count, two for each round.
unfoldable pub poll_count : (rounds : ℕ) → (loads : ℕ → ℕ) → (used t : ℕ) → Option ℕ
poll_count zero loads used t = none
poll_count (suc rounds) loads used t =
    let old = u32 (loads t) in
    let again = poll_count rounds loads used (t + 2) in
    if (old == u32 (loads (t + 1))) && not (old == u32 used) then some old else again

-- The loop breaks when `tran_time`, counted from 0, exceeds 100.
abbrev pub recv_rounds : ℕ
recv_rounds = 101

-- What one call changes, and what it returns.
pub record Outcome : Type 0 where
  pub nb_cmpt_desc : ℕ
  pub rx_pkts : List Mbuf
  pub queue : Queue
  pub bus : Bus

abbrev pub set_status : ℕ → Queue → Queue
set_status s q = let engine = q.engine in record q { engine = record engine { status = s } }

-- `engine->desc_used = old_wb_status_count; engine->status = RX_COMMPLETED;`
abbrev pub complete : ℕ → Queue → Queue
complete old q =
    let engine = q.engine in
    record q { engine = record engine { desc_used = old; status = rx_commpleted } }

-- `if(engine->running == 0)`: posts the buffers and starts the engine.
unfoldable pub recv_start : XdmaDev → ℕ → List Mbuf → Queue → Bus → ℕ × Queue × Bus
recv_start dev nb_pkts rx_pkts q bus =
    if q.engine.running
    then (nb_pkts, q, bus)
    else let nb = u16 (min nb_pkts q.engine.desc_max) in
      let q1 = post_buffers nb rx_pkts q in
      let (q2, bus2) = xdma_rx_engine_start dev (desc_addr q1 0) q1 bus in (nb, q2, bus2)

-- The loop of `xdma_recv_pkts`, given what the poll found.
unfoldable pub recv_collect : (ℕ → StreamWb) → Option ℕ → List Mbuf → Queue → ℕ × List Mbuf × Queue
recv_collect wb none rx_pkts q = (0, rx_pkts, q)
recv_collect wb (some old) rx_pkts q = (
  u16 (old + 2 ^ 32 - u32 q.engine.desc_used),
  prepare_packets q.engine wb rx_pkts old q.engine.desc_used,
  complete old q,
)

-- `xdma_recv_pkts`. `stream a i` is what the stream status at the address `a` holds when packet `i`
-- is prepared.
unfoldable pub xdma_recv_pkts :
    (loads : ℕ → ℕ)
    → (stream : ℕ → ℕ → StreamWb) → XdmaDev
    → (nb_pkts : ℕ) → List Mbuf
    → Queue
    → Bus
    → Outcome
unfolding recv_start recv_collect
xdma_recv_pkts loads stream dev nb_pkts rx_pkts q bus =
    let (nb, q1, bus1) = recv_start dev nb_pkts rx_pkts (set_status 0 q) bus in
    let found = poll_count recv_rounds loads q1.engine.desc_used 0 in
    let (got, pkts, q2) = recv_collect (stream (stream_wb_addr q1.engine)) found rx_pkts q1 in
    if q2.engine.desc_used == nb
    then (let (q3, bus3) = xdma_rx_engine_stop dev q2 bus1 in
        record { nb_cmpt_desc = got; rx_pkts = pkts; queue = q3; bus = bus3 })
    else record { nb_cmpt_desc = got; rx_pkts = pkts; queue = q2; bus = bus1 }

-- `xdma_poll_rx_complete` gives up when `tran_time` exceeds 1000; it returns the last count read.
-- It looks at the device's own copy of the engine, `xdma_dev->engine_c2h[queue_id]`.
unfoldable pub poll_rx : (rounds : ℕ) → (loads : ℕ → ℕ) → (used t : ℕ) → ℕ × Bool
poll_rx zero loads used t = (0, false)
poll_rx (suc zero) loads used t =
    let old = u32 (loads t) in (old, (old == u32 (loads (t + 1))) && not (old == u32 used))
poll_rx (suc (suc rounds)) loads used t =
    let old = u32 (loads t) in
    let again = poll_rx (suc rounds) loads used (t + 2) in
    if (old == u32 (loads (t + 1))) && not (old == u32 used) then (old, true) else again

unfoldable pub xdma_poll_rx_complete : (loads : ℕ → ℕ) → Engine → ℕ × Engine
unfolding poll_rx
xdma_poll_rx_complete loads engine =
    let (old, done) = poll_rx 1001 loads engine.desc_used 0 in
    (old, if done then record engine { status = rx_commpleted } else engine)

-- `xdma_poll_tx_complete` waits like `xdma_xmit_pkts`, with no bound; `none` while it waits.
unfoldable pub xdma_poll_tx_complete : (fuel : ℕ) → (loads : ℕ → ℕ) → (nb_pkts : ℕ) → Option ℕ
unfolding wait_completed
xdma_poll_tx_complete fuel loads nb_pkts = elim (wait_completed fuel loads nb_pkts 0) [
  | none ↦ none
  | some _ ↦ some nb_pkts
]
