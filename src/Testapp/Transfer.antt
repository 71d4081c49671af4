-- ===== src/Testapp/Transfer.antt =====
-- `fpga_to_fpga` of examples/xdma_testapp/testapp_inter.c behind its start: the thread that sends the
-- packets of the XDMA port on the port of a network card, until `pkt_num` packets are sent.
pub mod Ends
pub mod Stale
use xdma_dpdk.Base.{
  ℕ, zero, suc, ◌+◌, ◌^◌, u16, u32, Bool, true, false, Option, none, some, List, [], ◌∷◌, ltb, ◌==◌,
  if◌then◌else◌,
}
use xdma_dpdk.Xdma.{Queue, XdmaDev, StreamWb}
use xdma_dpdk.Platform.{Bus}
use xdma_dpdk.Tx.{Seg, Packet}
use xdma_dpdk.Rx.{Mbuf, Outcome, xdma_recv_pkts}
use xdma_dpdk.Testapp.Forward.{packets_from, size_of_pkts_buffer}

-- The variables of the thread, with the queue it receives from and the bus. `complete` and
-- `pkts_buffer_idx` stay 0. The counters are `int`: here the 32 bits of one, and additions wrap.
pub record Transfer : Type 0 where
  pub src : Queue
  pub bus : Bus
  pub pkts : List Mbuf
  pub recv_pkts : ℕ
  pub recv_batch : ℕ
  pub xmit_pkts : ℕ
  pub xmit_batch : ℕ
  pub target_num : ℕ

-- What one round meets: what the XDMA device shows, the chain of segments at an address, and how many
-- packets of a burst the network card's driver takes.
pub record Meets : Type 0 where
  pub src_dev : XdmaDev
  pub rx_loads : ℕ → ℕ
  pub stream : ℕ → ℕ → StreamWb
  pub chain : ℕ → List Seg
  pub tx_burst : List Packet → ℕ

-- The packets that a round gives to `rte_eth_tx_burst`.
abbrev pub burst : Meets → (received : ℕ) → List Mbuf → List Packet
burst m received pkts = packets_from m.chain received 0 pkts

-- The counters behind a burst of `received` packets of which `ret` were taken.
abbrev pub count_burst : (received ret : ℕ) → Transfer → Transfer
count_burst received ret x = record x {
  recv_pkts = u32 (x.recv_pkts + received);
  recv_batch = u32 (x.recv_batch + 1);
  xmit_pkts = u32 (x.xmit_pkts + ret);
  xmit_batch = u32 (x.xmit_batch + 1);
}

unfoldable pub transfer_burst : Meets → (received : ℕ) → Transfer → Transfer
transfer_burst m received x =
    if received == 0 then x else count_burst received (u16 (m.tx_burst (burst m received x.pkts))) x

-- One round up to the test for the end.
unfoldable pub transfer_round : Meets → Transfer → Transfer
unfolding transfer_burst
transfer_round m x =
    let o = xdma_recv_pkts m.rx_loads m.stream m.src_dev size_of_pkts_buffer x.pkts x.src x.bus in
    transfer_burst m o.nb_cmpt_desc (record x { src = o.queue; pkts = o.rx_pkts; bus = o.bus })

-- `a > b` for the 32 bits of two `int`s.
abbrev pub gt_int : ℕ → ℕ → Bool
gt_int a b = ltb (u32 (b + 2 ^ 31)) (u32 (a + 2 ^ 31))

-- `else if (xmit_pkts > target_num)`
abbrev pub note_overshoot : Transfer → Transfer
note_overshoot x =
    if gt_int x.xmit_pkts x.target_num then record x { target_num = x.xmit_pkts } else x

-- `while (1)`, where round `t` meets `m t`. `none` means that the loop is still going on.
unfoldable pub transfer_loop :
    (fuel : ℕ) → (m : ℕ → Meets) → (pkt_num t : ℕ) → Transfer → Option Transfer
unfolding transfer_round
transfer_loop zero m pkt_num t x = none
transfer_loop (suc fuel) m pkt_num t x =
    let x1 = transfer_round (m t) x in
    let again = transfer_loop fuel m pkt_num (t + 1) (note_overshoot x1) in
    if x1.xmit_pkts == pkt_num then some x1 else again
