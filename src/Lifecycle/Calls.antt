-- ===== src/Lifecycle/Calls.antt =====
-- What a call does on a port that the steps of Lifecycle have reached.
use xdma_dpdk.Base.{
  ℕ, ◌+◌, ◌<◌, ◌≤◌, ◌≡◌, refl, Bool, some, List, ◌∷◌, [], ◌++◌, length, arith, get_elem?, map, ◌^◌,
  u64, subst,
}
use xdma_dpdk.Regs.{h2c_sgdma_desc_lo_addr, h2c_sgdma_desc_hi_addr}
use xdma_dpdk.Xdma.{Desc, Queue, StreamWb, XdmaDev, xdma_desc_max}
use xdma_dpdk.Platform.{Bus, bar_addr}
use xdma_dpdk.Ring.{desc_addr}
use xdma_dpdk.Engine.Start.{reg_addr, HoldsWord}
use xdma_dpdk.Device.{Port}
use xdma_dpdk.Tx.{Packet, start_xmit}
use xdma_dpdk.Tx.Post.{fitting, all_marks}
use xdma_dpdk.Tx.Burst.{HaveSegs}
use xdma_dpdk.Rx.{Mbuf, xdma_recv_pkts}
use xdma_dpdk.Rx.Receiver.{Receiver, handed, receive as received, Prepared}
use xdma_dpdk.Rx.Recv.{found_by, xdma_recv_pkts_refines}
use xdma_dpdk.Walk.{walk, InRam, sw_ring_offset}
use xdma_dpdk.Walk.Send.{fetch, wanted}
use xdma_dpdk.Walk.Sent.{start_xmit-walk}
use xdma_dpdk.Lifecycle.{CountsOn, set_rx, receive, Reachable, then}
use xdma_dpdk.Lifecycle.Queues.{at-EachSet}
use xdma_dpdk.Lifecycle.Transmit.{IsSendable}
use xdma_dpdk.Lifecycle.Receive.{IsReceptive, handed_used, plausible}
use xdma_dpdk.Lifecycle.Invariant.{Reachable-IsReady}

module _ (v : ℕ → ℕ) (dev : XdmaDev) (port : Port) (bus : Bus)
    (reachable : Reachable v dev (port, bus)) (i : ℕ) (q : Queue) where
  sendable : get_elem? port.tx_queues i ≡ some (some q) → IsSendable v q
  sendable at =
      at-EachSet (IsSendable v) port.tx_queues i q
        (Reachable-IsReady v dev (port, bus) reachable).sendable at

  receptive : get_elem? port.rx_queues i ≡ some (some q) → IsReceptive v q
  receptive at =
      at-EachSet (IsReceptive v) port.rx_queues i q
        (Reachable-IsReady v dev (port, bus) reachable).receptive at

  -- In a port that was reached from one without queues by set-ups of queues by allocators whose
  -- zones have room, starts and stops of the device, transmissions of packets with segments, and
  -- receptions into 32 buffers while the device counts on from those handed over, to 32 at most:
  -- when `xdma_xmit_pkts` starts the engine of a transmit queue, the channel's registers get the
  -- virtual address of the ring, moved by the distance of the software ring's physical address from
  -- its virtual one. From the ring's physical address on, a walk along the links of the descriptors
  -- reads the segments of the packets that fit, in their order, each with its length and bus
  -- address and with the flag EOP exactly where a packet ends, and then an empty descriptor that
  -- stops it; if the packets have segments, those of the packets that fit are fewer than the ring's
  -- 32 descriptors, the configuration BAR is mapped, and the descriptors are in memory at the
  -- physical addresses that DPDK gives for them.
  pub Reachable-start_xmit :
      (ps : List Packet)
      → get_elem? port.tx_queues i ≡ some (some q)
      → HaveSegs ps
      → bar_addr port.dev port.dev.config_bar_idx + 0x10000 ≤ 2 ^ 64
      → (ram : ℕ → Desc) → InRam v ram (start_xmit port.dev ps q bus).0
      → (fuel : ℕ) → length (all_marks (fitting xdma_desc_max ps)) < xdma_desc_max
      → xdma_desc_max ≤ fuel
      → let reg = λ (r : ℕ). reg_addr port.dev r q.engine.channel in
        (ends : Bool) × (HoldsWord
            (start_xmit port.dev ps q bus).1
            (reg h2c_sgdma_desc_lo_addr)
            (reg h2c_sgdma_desc_hi_addr)
            (u64 (desc_addr q 0 + sw_ring_offset v q))
          × (map fetch (walk ram fuel (u64 (v (desc_addr q 0))))
              ≡ map wanted (all_marks (fitting xdma_desc_max ps)) ++ ((0, 0, ends) ∷ [])))
  Reachable-start_xmit ps at segs mapped ram in_ram fuel room h =
      let s = sendable at in
      let (ends, reads) =
        start_xmit-walk v port.dev ps q bus s.idle s.free segs s.front (mapped, s.channel) ram
          in_ram fuel room (omega arith) in
      (
        ends,
        (
          subst
              (λ offset.
                HoldsWord (start_xmit port.dev ps q bus).1
                  (reg_addr port.dev h2c_sgdma_desc_lo_addr q.engine.channel)
                  (reg_addr port.dev h2c_sgdma_desc_hi_addr q.engine.channel)
                  (u64 (desc_addr q 0 + offset)))
              s.offset reads.0,
          reads.1,
        ),
      )

  -- In a port that was reached from one without queues by set-ups of queues by allocators whose
  -- zones have room, starts and stops of the device, transmissions of packets with segments, and
  -- receptions into 32 buffers while the device counts on from those handed over, to 32 at most: on
  -- each of its receive queues `xdma_recv_pkts` with 32 buffers does what the abstract receiver
  -- does with the buffers handed over so far, if the device counts on from them to 32 at most. It
  -- returns the number of newly complete buffers and prepares exactly these; and the port is in a
  -- reachable state again.
  pub Reachable-xdma_recv_pkts :
      (bufs : List Mbuf) (loads : ℕ → ℕ) (stream : ℕ → ℕ → StreamWb)
      → get_elem? port.rx_queues i ≡ some (some q)
      → xdma_desc_max ≤ length bufs
      → CountsOn loads q
      → let o = xdma_recv_pkts loads stream port.dev 32 bufs q bus in
        (s : Receiver) × (handed s ≡ q.engine.desc_used)
        × (o.nb_cmpt_desc ≡ (received s (found_by loads s)).0)
        × Prepared stream bufs s (found_by loads s) o
        × Reachable v dev (set_rx i o.queue port, o.bus)
  Reachable-xdma_recv_pkts bufs loads stream at enough counts =
      let r = receptive at in
      let done =
        xdma_recv_pkts_refines v port.dev bufs bus loads stream r.state q enough r.implements
          (plausible v loads r.state q r.implements counts) in
      (
        r.state,
        handed_used v r.state q r.implements,
        done.0,
        done.2,
        then reachable (receive i loads stream bufs q at enough counts refl),
      )
