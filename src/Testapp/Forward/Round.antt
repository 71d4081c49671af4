-- ===== src/Testapp/Forward/Round.antt =====
-- A round of the forwarding loop sends what it received, and nothing else.
use xdma_dpdk.Base.{
  ℕ, zero, suc, ◌+◌, ◌-◌, ◌%◌, ◌<◌, ◌≤◌, ◌≡◌, ◌≢◌, refl, sym, ap, subst, ◌∙◌, false, Option, none,
  some, List, ◌++◌, length, get_or, arith, ◌==◌, if◌then◌else◌, Bool-cases, inl, inr,
}
use xdma_dpdk.Xdma.{h2c, Queue, xdma_desc_max}
use xdma_dpdk.Platform.{Bus}
use xdma_dpdk.Engine.Idle.{IsIdle, AllFree}
use xdma_dpdk.Tx.{Packet, xdma_xmit_pkts}
use xdma_dpdk.Tx.Burst.{HaveSegs}
use xdma_dpdk.Tx.Xmit.{xdma_xmit_pkts-returns}
use xdma_dpdk.Rx.{Outcome, prepare_segmented_packet, xdma_recv_pkts}
use xdma_dpdk.Rx.Post.{no_mbuf}
use xdma_dpdk.Rx.Receiver.{
  Receiver, handed, receive, Implements, IsPlausible, Prepared, idle, receiving,
}
use xdma_dpdk.Rx.Recv.{found_by, xdma_recv_pkts_refines}
use xdma_dpdk.Testapp.Forward.{
  Forwarder, Wire, RoundEnd, goes_on, packets_from, any_test_bit, advance, forward_received,
  with_received, forward_round,
}
use xdma_dpdk.Testapp.Forward.Packets.{
  length-packets_from, prepared-HaveSegs, IsQuiet, any_test_bit_lem, Confirms, append_nil,
}

-- Between two rounds: the source receives in state `s`, the other queue is idle, the index is the
-- number of buffers handed over, and as many packets were sent as received.
pub record IsForwarding (v : ℕ → ℕ) (s : Receiver) (f : Forwarder) : Type 0 where
  pub receives : Implements v s f.src
  pub idle : IsIdle v h2c f.dst
  pub free : AllFree f.dst
  pub size : xdma_desc_max ≤ length f.pkts
  pub index : f.pkts_buffer_idx ≡ handed s
  pub totals : f.xmit_pkts ≡ f.recv_pkts
  pub batches : f.xmit_batch ≡ f.recv_batch

transmitted_as :
    (w : Wire) (n : ℕ) (f : Forwarder) (dst : Queue) (bus : Bus)
    → n ≢ 0
    → any_test_bit n f.pkts_buffer_idx w.test_bytes ≡ false
    → let tx = packets_from w.chain n f.pkts_buffer_idx f.pkts in
      xdma_xmit_pkts w.fuel w.tx_loads w.dst_dev tx f.dst f.bus ≡ some (n, dst, bus)
      → forward_received w n f ≡ some (goes_on (advance n n tx dst bus f))
unfolding forward_received
transmitted_as w n f dst bus some_one quiet e = ground (arith, some_one, quiet, e)

-- The second part of a round that received at least one packet.
forward_received_lem :
    (v : ℕ → ℕ) (w : Wire) (n : ℕ) (f : Forwarder)
    → IsIdle v h2c f.dst
    → AllFree f.dst
    → n ≢ 0
    → any_test_bit n f.pkts_buffer_idx w.test_bytes ≡ false
    → HaveSegs (packets_from w.chain n f.pkts_buffer_idx f.pkts)
    → Confirms w n
    → let tx = packets_from w.chain n f.pkts_buffer_idx f.pkts in
      (dst : Queue) × (bus : Bus) × (forward_received w n f
        ≡ some (goes_on (advance n n tx dst bus f)))
      × IsIdle v h2c dst
      × AllFree dst
forward_received_lem v w zero f rests free some_one quiet segs c = absurd (some_one refl)
forward_received_lem v w (suc n) f rests free some_one quiet segs (k, in_time, at_k, first) =
    let tx = packets_from w.chain (suc n) f.pkts_buffer_idx f.pkts in
    let len = length-packets_from w.chain (suc n) f.pkts_buffer_idx f.pkts in
    let (dst, bus, e, idle', free', zeroed) =
      xdma_xmit_pkts-returns v w.dst_dev tx f.dst f.bus rests free segs w.fuel w.tx_loads k in_time
        (at_k ∙ sym len) (λ j p t. first j p (t ∙ len)) in
    let e' =
      subst (λ m. xdma_xmit_pkts w.fuel w.tx_loads w.dst_dev tx f.dst f.bus ≡ some (m, dst, bus))
        len e in
    (dst, bus, transmitted_as w (suc n) f dst bus some_one quiet e', idle', free')

-- The index behind a round.
index_next :
    (s : Receiver) (found : Option ℕ)
    → IsPlausible s found
    → handed s < xdma_desc_max
    → (handed s + (receive s found).0) % 32 ≡ handed (receive s found).1
index_next s none plausible small = omega (arith, small)
index_next s (some old) plausible small = elim (Bool-cases (old == xdma_desc_max)) [
  | inl e ↦ rw e (ground (arith, e, plausible.0))
  | inr e ↦ rw e (ground (arith, e, plausible.0, plausible.1))
]

handed_small : (v : ℕ → ℕ) (s : Receiver) (q : Queue) → Implements v s q → handed s < xdma_desc_max
handed_small v idle q impl = omega arith
handed_small v (receiving n) q r = omega (arith, r.used, r.live.inside)

-- What a round leaves, if it received `o`.
abbrev pub Forwards : (ℕ → ℕ) → Wire → Receiver → Option ℕ → Forwarder → Option RoundEnd → Type 0
Forwards v w s found f r =
    (f' : Forwarder) × (bus : Bus) × (r ≡ some (goes_on f'))
    × IsForwarding v (receive s found).1 f'
    × (f'.sent ≡ f.sent ++ packets_from w.chain (receive s found).0 (handed s) f'.pkts)
    × Prepared w.stream f.pkts s found (record {
      nb_cmpt_desc = (receive s found).0;
      rx_pkts = f'.pkts;
      queue = f'.src;
      bus = bus;
    })
    × (f'.recv_pkts ≡ f.recv_pkts + (receive s found).0)

module _ (v : ℕ → ℕ) (w : Wire) (s : Receiver) (f : Forwarder) (i : IsForwarding v s f) where
  nothing_received :
      (o : Outcome)
      → Implements v (receiving (handed s)) o.queue
      → o.rx_pkts ≡ f.pkts
      → Forwards v w s none f (forward_received w 0 (with_received o f))
  unfolding forward_received any_test_bit
  nothing_received o impl same = (
    with_received o f,
    o.bus,
    refl,
    record {
      receives = impl;
      idle = i.idle;
      free = i.free;
      size = omega (arith, i.size, ap (λ l. length l) same);
      index = i.index;
      totals = i.totals;
      batches = i.batches;
    },
    sym (append_nil f.sent),
    same,
    omega arith,
  )

  some_received :
      (old : ℕ) (o : Outcome)
      → IsPlausible s (some old)
      → IsQuiet w (handed s) (handed s + (old - handed s))
      → Confirms w (old - handed s)
      → Implements v (receive s (some old)).1 o.queue
      → Prepared w.stream f.pkts s (some old) o
      → Forwards v w s (some old) f (forward_received w (old - handed s) (with_received o f))
  unfolding prepare_segmented_packet
  some_received old o plausible quiet confirms impl prepared =
      let n = old - handed s in
      let f1 = with_received o f in
      let tx : List Packet = packets_from w.chain n f.pkts_buffer_idx o.rx_pkts in
      let one : (k : ℕ) → handed s ≤ k → k < old → (get_or o.rx_pkts k no_mbuf).nb_segs ≡ 1 =
        λ k a b. ap (λ m. m.nb_segs) (prepared.inside k a b) in
      let segs : HaveSegs tx =
        prepared-HaveSegs w.chain o.rx_pkts (handed s) old one n f.pkts_buffer_idx
          (omega (arith, i.index)) (omega (arith, i.index, plausible.0)) in
      let bits : any_test_bit n f.pkts_buffer_idx w.test_bytes ≡ false =
        any_test_bit_lem w (handed s) (handed s + n) n f.pkts_buffer_idx quiet
          (omega (arith, i.index)) (omega (arith, i.index)) in
      let some_one : n ≢ 0 = omega (arith, plausible.0) in
      let (dst, bus, e, rests, free) =
        forward_received_lem v w n f1 i.idle i.free some_one bits segs confirms in
      let counted : ◌≡◌ {A = ℕ} (if n == 0 then 0 else 1) 1 = ground (arith, plausible.0) in
      (
        advance n n tx dst bus f1,
        o.bus,
        e,
        record {
          receives = impl;
          idle = rests;
          free = free;
          size = omega (arith, i.size, prepared.size);
          index =
              ap (λ x. (x + n) % 32) i.index
              ∙ index_next s (some old) plausible (handed_small v s f.src i.receives);
          totals = omega (arith, i.totals);
          batches = omega (arith, i.batches, counted);
        },
        ap (λ x. f.sent ++ packets_from w.chain n x o.rx_pkts) i.index,
        prepared,
        refl,
      )

  received :
      (found : Option ℕ) (o : Outcome)
      → IsPlausible s found
      → IsQuiet w (handed s) (handed s + (receive s found).0)
      → ((receive s found).0 ≢ 0 → Confirms w (receive s found).0)
      → o.nb_cmpt_desc ≡ (receive s found).0
      → Implements v (receive s found).1 o.queue
      → Prepared w.stream f.pkts s found o
      → Forwards v w s found f (forward_received w o.nb_cmpt_desc (with_received o f))
  received none o plausible quiet confirms e impl prepared =
      subst (λ n. Forwards v w s none f (forward_received w n (with_received o f))) (sym e)
        (nothing_received o impl prepared)
  received (some old) o plausible quiet confirms e impl prepared =
      subst (λ n. Forwards v w s (some old) f (forward_received w n (with_received o f))) (sym e)
        (some_received old o plausible quiet (confirms (omega (arith, plausible.0))) impl prepared)

-- A round of full bursts, if the count that the source device shows is plausible, no received packet
-- has its test bit set, and the other device confirms each packet that was received: the
-- application goes on, and it has sent the newly complete buffers, as they were prepared, in their
-- order, each once. The next round again starts with the index at the buffers handed over, the
-- other queue idle and as many packets sent as received.
pub forward_round-Forwards :
    (v : ℕ → ℕ) (w : Wire) (s : Receiver) (f : Forwarder)
    → let found = found_by w.rx_loads s in
      IsForwarding v s f
      → IsPlausible s found
      → IsQuiet w (handed s) (handed s + (receive s found).0)
      → ((receive s found).0 ≢ 0 → Confirms w (receive s found).0)
      → Forwards v w s found f (forward_round w f)
unfolding forward_round
forward_round-Forwards v w s f i plausible quiet confirms =
    let (e, impl, prepared) =
      xdma_recv_pkts_refines v w.src_dev f.pkts f.bus w.rx_loads w.stream s f.src i.size i.receives
        plausible in
    received v w s f i (found_by w.rx_loads s)
      (xdma_recv_pkts w.rx_loads w.stream w.src_dev 32 f.pkts f.src f.bus) plausible quiet confirms
      e impl prepared
