-- ===== src/Walk/Received.antt =====
-- The device's registers and the ring once a call of `xdma_recv_pkts` has started the engine.
use xdma_dpdk.Base.{
  ℕ, ◌+◌, ◌≤◌, ◌≡◌, ap, sym, subst, ◌∙◌, true, List, map, length, take, arith, u64, u16, min,
}
use xdma_dpdk.Regs.{c2h_sgdma_desc_lo_addr, c2h_sgdma_desc_hi_addr}
use xdma_dpdk.Xdma.{c2h, Desc, Engine, Queue, XdmaDev, xdma_desc_max}
use xdma_dpdk.Platform.{Bus}
use xdma_dpdk.Ring.{desc_addr}
use xdma_dpdk.Engine.{xdma_rx_engine_start}
use xdma_dpdk.Engine.Idle.{IsIdle, StopsAtEnd}
use xdma_dpdk.Engine.Start.{reg_addr, HoldsWord}
use xdma_dpdk.Fill.{engine-put}
use xdma_dpdk.Rx.{Mbuf, stream_wb_addr, set_status, post_buffers, recv_start}
use xdma_dpdk.Rx.Post.{AllRx, taken, post_buffers_lem}
use xdma_dpdk.Walk.{walk}
use xdma_dpdk.Walk.Receive.{slot, offered, posted, posted_at}

module _ (v : ℕ → ℕ) (dev : XdmaDev) (bufs : List Mbuf) (q : Queue) (bus : Bus)
    (idle : IsIdle v c2h q) (controls : AllRx q) (ends : StopsAtEnd q)
    (enough : xdma_desc_max ≤ length bufs) where
  abbrev ring : Queue
  ring = posted v dev bufs q bus idle controls ends enough

  engine_kept :
      ring.engine ≡ (let e = q.engine in record e { status = 0; desc_used = ring.engine.desc_used })
  engine_kept = engine-put (taken (stream_wb_addr q.engine)) (take 32 bufs) (set_status 0 q)

  begin : ℕ → Queue → ℕ × Queue × Bus
  begin n q1 = let (q2, bus2) = xdma_rx_engine_start dev (desc_addr q1 0) q1 bus in (n, q2, bus2)

  start_as : recv_start dev 32 bufs (set_status 0 q) bus ≡ begin 32 ring
  unfolding recv_start begin
  start_as =
      let stopped : recv_start dev 32 bufs (set_status 0 q) bus
          ≡ begin (u16 (min 32 q.engine.desc_max))
              (post_buffers (u16 (min 32 q.engine.desc_max)) bufs (set_status 0 q)) =
        ground (arith, idle.stopped) in
      let taken : u16 (min 32 q.engine.desc_max) ≡ 32 = ground (arith, idle.max) in
      stopped
      ∙ (ap (λ n. begin n (post_buffers n bufs (set_status 0 q))) taken
          ∙ ap (begin 32) (post_buffers_lem 32 bufs (set_status 0 q)))

  -- Of the engine only `running`, `status` and the next descriptor change.
  pub recv_start-engine : (recv_start dev 32 bufs (set_status 0 q) bus).1.engine ≡ (
      let e = q.engine in
      record e { running = true; status = 0; desc_used = ring.engine.desc_used })
  unfolding begin xdma_rx_engine_start
  recv_start-engine =
      ap (λ (r : ℕ × Queue × Bus). r.1.engine) start_as
      ∙ ap (λ (e : Engine). record e { running = true }) engine_kept

  -- The last descriptor is still the one that stops the device.
  pub recv_start-StopsAtEnd : StopsAtEnd (recv_start dev 32 bufs (set_status 0 q) bus).1
  unfolding begin xdma_rx_engine_start
  recv_start-StopsAtEnd =
      subst (λ (r : ℕ × Queue × Bus). StopsAtEnd r.1) (sym start_as)
        (λ i p. (posted_at v dev bufs q bus idle controls ends enough i p).1)

  At : Engine → Type 0
  At e =
      HoldsWord (xdma_rx_engine_start dev (desc_addr ring 0) ring bus).1
        (reg_addr dev c2h_sgdma_desc_lo_addr e.channel)
        (reg_addr dev c2h_sgdma_desc_hi_addr e.channel) (u64 (desc_addr ring 0 + e.virt2phy_offset))

  -- 32 descriptors are taken, and the device is told the ring's address moved by the engine's
  -- offset. From the ring's physical address on, memory reads as the first 32 buffers.
  abbrev pub Reads : (ℕ → Desc) → ℕ → ℕ × Queue × Bus → Type 0
  Reads ram fuel r =
      (r.0 ≡ xdma_desc_max)
      × (HoldsWord r.2 (reg_addr dev c2h_sgdma_desc_lo_addr q.engine.channel)
            (reg_addr dev c2h_sgdma_desc_hi_addr q.engine.channel)
            (u64 (desc_addr q 0 + q.engine.virt2phy_offset))
          × (map slot (walk ram fuel (u64 (v (desc_addr q 0))))
              ≡ take xdma_desc_max (map (offered (stream_wb_addr q.engine)) bufs)))
