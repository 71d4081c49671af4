-- ===== src/Tx.antt =====
-- The transmit path of drivers/net/xdma/xdma_rxtx.c: `xdma_h2c_desc_set` and `xdma_xmit_pkts`.
pub mod Put
pub mod Post
pub mod Wait
pub mod Adjacent
pub mod Burst
pub mod Posted
pub mod Xmit
use xdma_dpdk.Base.{
  ℕ, zero, suc, ◌+◌, ◌-◌, ◌*◌, ◌%◌, ◌^◌, Bool, true, false, Option, none, some, List, [], ◌∷◌,
  length, ltb, ◌==◌, if◌then◌else◌, u64, u16, low_half, high_half, bit_or,
}
use xdma_dpdk.Base.Int.{ℤ, sub_ℕ}
use xdma_dpdk.Xdma.{
  Desc, Engine, Queue, XdmaDev, xdma_desc_eop, xdma_desc_completed, xdma_desc_stopped,
}
use xdma_dpdk.Platform.{Bus}
use xdma_dpdk.Ring.{desc_addr}
use xdma_dpdk.Desc.{get_desc, xdma_desc_control_set, xdma_desc_adjacent_set, edit}
use xdma_dpdk.Engine.{set_running, xdma_tx_engine_start, xdma_tx_engine_stop}

-- One `struct rte_mbuf` of a chain, with the fields that transmission reads.
pub record Seg : Type 0 where
  pub data_len : ℕ
  pub buf_iova : ℕ
  pub data_off : ℕ

-- A packet: the `nb_segs` of its first mbuf, and the chain from that mbuf along `next`.
pub record Packet : Type 0 where
  pub nb_segs : ℕ
  pub segs : List Seg

-- The stores that describe a segment in its descriptor.
unfoldable pub fill_h2c : Seg → Desc → Desc
fill_h2c mb desc =
    let src_addr = u64 (mb.buf_iova + mb.data_off) in
    record desc {
      len = mb.data_len;
      src_addr_lo = low_half src_addr;
      src_addr_hi = high_half src_addr;
    }

-- One round of the loop, with `left` segments to go after it.
unfoldable pub h2c_desc_step : (left : ℕ) → Seg → Queue → Queue
h2c_desc_step left mb q =
    let (id, q1) = get_desc q in
    let q2 = edit q1 id (fill_h2c mb) in
    if left == 0
    then edit q2 id (xdma_desc_control_set (bit_or xdma_desc_eop xdma_desc_completed))
    else q2

-- `while (nsegs && mb)`
unfoldable pub h2c_desc_loop : (nsegs : ℕ) → List Seg → Queue → Queue
h2c_desc_loop zero segs q = q
h2c_desc_loop (suc left) [] q = q
h2c_desc_loop (suc left) (mb ∷ segs) q = h2c_desc_loop left segs (h2c_desc_step left mb q)

unfoldable pub xdma_h2c_desc_set : Packet → Queue → Queue
xdma_h2c_desc_set packet q = h2c_desc_loop packet.nb_segs packet.segs q

-- The loop over `tx_pkts`: how many packets got descriptors, and the queue. `avail` never falls
-- below 0, since a packet with more segments ends the loop.
unfoldable pub post_packets : (avail count : ℕ) → List Packet → Queue → ℕ × Queue
post_packets avail count [] q = (count, q)
post_packets avail count (p ∷ ps) q =
    let rest = post_packets (avail - p.nb_segs) (count + 1) ps (xdma_h2c_desc_set p q) in
    if ltb avail p.nb_segs then (count, q) else rest

-- `for (int i = 0; i < count - 1; i++)`, with `left` rounds to go; `head` is 0.
unfoldable pub set_adjacent : (count left i : ℕ) → Queue → Queue
set_adjacent count zero i q = q
set_adjacent count (suc left) i q =
    set_adjacent count left (i + 1)
      (edit q (i % q.engine.desc_max) (xdma_desc_adjacent_set (count - 2 - i)))

-- Everything that `xdma_xmit_pkts` writes into the ring, with the number of packets posted.
unfoldable pub fill_tx_ring : List Packet → Queue → ℕ × Queue
fill_tx_ring tx_pkts q =
    let (count, q1) = post_packets q.engine.desc_max 0 tx_pkts q in
    let q2 =
      edit q1 q1.engine.desc_used
        (xdma_desc_control_set (bit_or xdma_desc_completed xdma_desc_stopped)) in
    (count, set_adjacent count (count - 1) 0 q2)

-- The busy wait: the device's completion count is read again and again (`loads t` is the value of
-- the t-th read) until its low 24 bits are `nb_pkts`. The result is the number of reads that failed;
-- `none` means that `fuel` reads were not enough.
unfoldable pub wait_completed : (fuel : ℕ) → (loads : ℕ → ℕ) → (nb_pkts t : ℕ) → Option ℕ
wait_completed zero loads nb_pkts t = none
wait_completed (suc fuel) loads nb_pkts t =
    let again = wait_completed fuel loads nb_pkts (t + 1) in
    if loads t % 2 ^ 24 == nb_pkts then some t else again

-- The engine runs from here until it is stopped: the ring is filled and the start registers are
-- written.
unfoldable pub start_xmit : XdmaDev → List Packet → Queue → Bus → Queue × Bus
unfolding fill_tx_ring
start_xmit dev tx_pkts q bus =
    let (count, filled) = fill_tx_ring tx_pkts (set_running true q) in
    xdma_tx_engine_start dev (desc_addr filled 0) (sub_ℕ count 2) filled bus

-- `xdma_xmit_pkts`, with `nb_pkts` the length of `tx_pkts`. A running engine gives -1, which is
-- 65535 as the `uint16_t` of the result. `none` means that the busy wait is still going on.
unfoldable pub xdma_xmit_pkts :
    (fuel : ℕ) → (loads : ℕ → ℕ) → XdmaDev → List Packet → Queue → Bus → Option (ℕ × Queue × Bus)
unfolding start_xmit wait_completed
xdma_xmit_pkts fuel loads dev tx_pkts q bus =
    if q.engine.running
    then some (2 ^ 16 - 1, q, bus)
    else let (q1, bus1) = start_xmit dev tx_pkts q bus in
      elim (wait_completed fuel loads (length tx_pkts) 0) [
        | none ↦ none
        | some _ ↦
            let (q2, bus2) = xdma_tx_engine_stop dev q1 bus1 in some (length tx_pkts, q2, bus2)
      ]
