-- ===== src/Rx/Short.antt =====
-- A receive burst of fewer buffers than the ring has descriptors.
use xdma_dpdk.Base.{
  ℕ, ◌+◌, ◌-◌, ◌^◌, ◌<◌, ◌≤◌, ◌≡◌, refl, ap, sym, subst, ◌∙◌, List, length, arith, true, false,
  Option, some, ◌==◌, if◌then◌else◌, u16, min,
}
use xdma_dpdk.Xdma.{c2h, Engine, Queue, XdmaDev, StreamWb, xdma_desc_max}
use xdma_dpdk.Platform.{Bus}
use xdma_dpdk.Ring.{desc_addr}
use xdma_dpdk.Engine.{set_running, xdma_rx_engine_start, xdma_rx_engine_stop}
use xdma_dpdk.Engine.Idle.{IsIdle}
use xdma_dpdk.Rx.{
  Mbuf, stream_wb_addr, post_buffers, poll_count, recv_rounds, Outcome, set_status, recv_start,
  recv_collect, prepare_loop, prepare_packets, xdma_recv_pkts,
}
use xdma_dpdk.Rx.Post.{AllRx, post_buffers-IsOffered}
use xdma_dpdk.Rx.Receiver.{fresh-IsLive}

module _ (v : ℕ → ℕ) (dev : XdmaDev) (n c : ℕ) (bufs : List Mbuf) (bus : Bus) (loads : ℕ → ℕ)
    (stream : ℕ → ℕ → StreamWb) (q : Queue) (short : n < xdma_desc_max) (behind : c < n)
    (enough : n ≤ length bufs) (idle : IsIdle v c2h q) (controls : AllRx q)
    (steady : (t : ℕ) → loads t ≡ c) where
  abbrev short_queue : Queue
  short_queue = set_running true (post_buffers n bufs (set_status 0 q))

  short_start : (bus' : Bus) × (recv_start dev n bufs (set_status 0 q) bus ≡ (n, short_queue, bus'))
  unfolding recv_start xdma_rx_engine_start
  short_start = (_, chosen ∙ ap started_with (rw idle.max (omega arith)))
    where
      started_with : ℕ → ℕ × Queue × Bus
      started_with m =
          let q1 = post_buffers m bufs (set_status 0 q) in
          let (q2, bus2) = xdma_rx_engine_start dev (desc_addr q1 0) q1 bus in (m, q2, bus2)

      chosen :
          recv_start dev n bufs (set_status 0 q) bus ≡ started_with (u16 (min n q.engine.desc_max))
      chosen = ground (arith, idle.stopped)

  short_used : short_queue.engine.desc_used ≡ n
  short_used =
      (post_buffers-IsOffered v n bufs (set_status 0 q) (fresh-IsLive v q idle) idle.unused controls
        (omega arith) enough).used
      ∙ omega arith

  short_poll : poll_count recv_rounds loads n 0 ≡ some c
  unfolding poll_count
  short_poll = ground (arith, steady 0, steady (0 + 1))

  nothing_prepared : (e : Engine) (wb : ℕ → StreamWb) → prepare_packets e wb bufs c n ≡ bufs
  unfolding prepare_packets
  nothing_prepared e wb =
      let none_left : u16 c - u16 n ≡ 0 = omega arith in
      ap (λ k. prepare_loop e wb k (u16 n) bufs) none_left

  -- A call for `n` buffers on an idle queue, with fewer than 32 and a device that has completed
  -- `c` of them, fewer than all: it does not return a number of packets, but `c - n` modulo 2^16,
  -- which is more than 65,000; it prepares no buffer, not even the `c` complete ones, and counts
  -- these as handed over.
  pub xdma_recv_pkts_short :
      let o = xdma_recv_pkts loads stream dev n bufs q bus in
      (o.nb_cmpt_desc ≡ 2 ^ 16 + c - n)
      × (o.rx_pkts ≡ bufs)
      × (o.queue.engine.desc_used ≡ c)
      × (o.queue.engine.running ≡ true)
  unfolding xdma_recv_pkts recv_collect
  xdma_recv_pkts_short =
      let (bus', e) = short_start in
      subst (λ t. Does (whole t)) (sym e)
        (subst (λ u. Does (finish (poll_count recv_rounds loads u 0) (n, short_queue, bus')))
          (sym short_used)
          (subst (λ f. Does (finish f (n, short_queue, bus'))) (sym short_poll) (last bus')))
    where
      finish : Option ℕ → ℕ × Queue × Bus → Outcome
      finish found (nb, q1, bus1) =
          let (got, pkts, q2) = recv_collect (stream (stream_wb_addr q1.engine)) found bufs q1 in
          if q2.engine.desc_used == nb
          then (let (q3, bus3) = xdma_rx_engine_stop dev q2 bus1 in
              record { nb_cmpt_desc = got; rx_pkts = pkts; queue = q3; bus = bus3 })
          else record { nb_cmpt_desc = got; rx_pkts = pkts; queue = q2; bus = bus1 }

      whole : ℕ × Queue × Bus → Outcome
      whole t = finish (poll_count recv_rounds loads t.1.engine.desc_used 0) t

      Does : Outcome → Type 0
      Does o =
          (o.nb_cmpt_desc ≡ 2 ^ 16 + c - n)
          × (o.rx_pkts ≡ bufs)
          × (o.queue.engine.desc_used ≡ c)
          × (o.queue.engine.running ≡ true)

      last : (bus' : Bus) → Does (finish (some c) (n, short_queue, bus'))
      last bus' =
          let more : (c == n) ≡ false = ground arith in
          let same : prepare_packets short_queue.engine (stream (stream_wb_addr short_queue.engine))
                bufs c short_queue.engine.desc_used
              ≡ bufs =
            subst
              (λ u.
                prepare_packets short_queue.engine (stream (stream_wb_addr short_queue.engine)) bufs
                  c u
                ≡ bufs)
              (sym short_used)
              (nothing_prepared short_queue.engine (stream (stream_wb_addr short_queue.engine))) in
          rw more (omega (arith, short_used), same, refl, refl)
