-- ===== src/Testapp/Forward.antt =====
-- The forwarding loop of the test applications, `fpga_to_fpga`: packets received on one port are
-- sent on the other. Here is the one of examples/xdma_testapp/testapp_count.c; both ports are XDMA
-- ports, whose burst functions `rte_eth_rx_burst` and `rte_eth_tx_burst` call.
pub mod Packets
pub mod Round
pub mod Rounds
use xdma_dpdk.Base.{
  ℕ, zero, suc, ◌+◌, ◌%◌, Bool, true, false, ◌||◌, Option, none, some, List, [], ◌∷◌, ◌++◌, get_or,
  ◌==◌, if◌then◌else◌,
}
use xdma_dpdk.Xdma.{Queue, XdmaDev, StreamWb}
use xdma_dpdk.Platform.{Bus}
use xdma_dpdk.Uart.{has_bit}
use xdma_dpdk.Tx.{Seg, Packet, xdma_xmit_pkts}
use xdma_dpdk.Rx.{Mbuf, Outcome, xdma_recv_pkts}
use xdma_dpdk.Rx.Post.{no_mbuf}

abbrev pub size_of_pkts_buffer : ℕ
size_of_pkts_buffer = 32

-- The variables of a thread, with the two queues it works on and the bus. The counters are `int` in
-- C, and overflow after 2 ^ 31 packets. `sent` is a history: all packets given to
-- `rte_eth_tx_burst` so far.
pub record Forwarder : Type 0 where
  pub src : Queue
  pub dst : Queue
  pub bus : Bus
  pub pkts : List Mbuf
  pub pkts_buffer_idx : ℕ
  pub recv_pkts : ℕ
  pub recv_batch : ℕ
  pub xmit_pkts : ℕ
  pub xmit_batch : ℕ
  pub sent : List Packet

-- What a round meets: the two devices with what they show, the byte that the test of packet `i`
-- reads, and the chain of segments at an address. `fuel` bounds the wait of the transmission.
pub record Wire : Type 0 where
  pub src_dev : XdmaDev
  pub dst_dev : XdmaDev
  pub rx_loads : ℕ → ℕ
  pub stream : ℕ → ℕ → StreamWb
  pub test_bytes : ℕ → ℕ
  pub chain : ℕ → List Seg
  pub tx_loads : ℕ → ℕ
  pub fuel : ℕ

-- A buffer as the transmit path sees it.
unfoldable pub packet_of : (chain : ℕ → List Seg) → Mbuf → Packet
packet_of chain mb = record {
  nb_segs = mb.nb_segs;
  segs =
      record { data_len = mb.data_len; buf_iova = mb.buf_iova; data_off = mb.data_off }
      ∷ (if mb.next == 0 then [] else chain mb.next);
}

-- The `n` packets from `&pkts[i]` on.
abbrev pub packets_from : (chain : ℕ → List Seg) → (n i : ℕ) → List Mbuf → List Packet
packets_from chain zero i pkts = []
packets_from chain (suc n) i pkts =
    packet_of chain (get_or pkts i no_mbuf) ∷ packets_from chain n (i + 1) pkts

-- The loop over the received packets, with `left` of them to go: `bit && ~bit` is true if the bit is
-- set.
unfoldable pub any_test_bit : (left i : ℕ) → (test_bytes : ℕ → ℕ) → Bool
any_test_bit zero i test_bytes = false
any_test_bit (suc left) i test_bytes =
    has_bit (test_bytes i) 7 || any_test_bit left (i + 1) test_bytes

-- How a round ends: the application exits, or goes on.
pub data RoundEnd : Type 0 where
  exits : Forwarder → RoundEnd
  goes_on : Forwarder → RoundEnd

-- What a round changes once the transmission has returned `ret`.
abbrev pub advance :
    (received ret : ℕ) → List Packet → (dst : Queue) → (bus : Bus) → Forwarder → Forwarder
advance received ret tx dst bus f =
    let more = if ret == 0 then 0 else 1 in
    record f {
      dst = dst;
      bus = bus;
      pkts_buffer_idx = (f.pkts_buffer_idx + ret) % size_of_pkts_buffer;
      recv_pkts = f.recv_pkts + received;
      recv_batch = f.recv_batch + 1;
      xmit_pkts = f.xmit_pkts + ret;
      xmit_batch = f.xmit_batch + more;
      sent = f.sent ++ tx;
    }

-- The part of a round after `ret` packets were received. `none` is a transmission that still waits.
unfoldable pub forward_received : Wire → (ret : ℕ) → Forwarder → Option RoundEnd
forward_received w ret f =
    let tx = packets_from w.chain ret f.pkts_buffer_idx f.pkts in
    let transmitted : Option RoundEnd =
      elim (xdma_xmit_pkts w.fuel w.tx_loads w.dst_dev tx f.dst f.bus) [
        | none ↦ none
        | some (ret', dst, bus) ↦ some (goes_on (advance ret ret' tx dst bus f))
      ] in
    if any_test_bit ret f.pkts_buffer_idx w.test_bytes
    then some (exits f)
    else (if ret == 0 then some (goes_on f) else transmitted)

abbrev pub with_received : Outcome → Forwarder → Forwarder
with_received o f = record f { src = o.queue; pkts = o.rx_pkts; bus = o.bus }

-- One round of the loop, whose end depends on the clock.
unfoldable pub forward_round : Wire → Forwarder → Option RoundEnd
unfolding forward_received
forward_round w f =
    let o = xdma_recv_pkts w.rx_loads w.stream w.src_dev size_of_pkts_buffer f.pkts f.src f.bus in
    forward_received w o.nb_cmpt_desc (with_received o f)

-- `while(1)`, which ends with the clock: the list has what each of its rounds meets.
unfoldable pub forward_loop : List Wire → Forwarder → Option RoundEnd
unfolding forward_round
forward_loop [] f = some (goes_on f)
forward_loop (w ∷ ws) f = elim (forward_round w f) [
  | none ↦ none
  | some (exits f') ↦ some (exits f')
  | some (goes_on f') ↦ forward_loop ws f'
]
