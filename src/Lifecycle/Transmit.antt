-- ===== src/Lifecycle/Transmit.antt =====
-- `xdma_xmit_pkts` from call to call.
use xdma_dpdk.Base.{
  ℕ, ◌+◌, ◌-◌, ◌^◌, ◌<◌, ◌≡◌, refl, sym, subst, ◌∙◌, true, Option, none, some, List, length, u64,
}
use xdma_dpdk.Xdma.{h2c, Engine, Queue, XdmaDev}
use xdma_dpdk.Platform.{Bus}
use xdma_dpdk.Ring.{xdma_desc_ring_clear}
use xdma_dpdk.Engine.{rest_queue, xdma_tx_engine_stop}
use xdma_dpdk.Engine.Idle.{
  IsIdle, IsWhole, AllFree, FrontIdle, rest_queue-IsIdle, rest_queue-FrontIdle,
}
use xdma_dpdk.Tx.{Packet, start_xmit, wait_completed, xdma_xmit_pkts}
use xdma_dpdk.Tx.Burst.{HaveSegs}
use xdma_dpdk.Tx.Xmit.{start_xmit-IsWhole, after_wait, xmit_as}
use xdma_dpdk.Walk.{OffsetOf}
use xdma_dpdk.Walk.Sent.{start_xmit-engine}

-- A transmit queue between two calls.
pub record IsSendable (v : ℕ → ℕ) (q : Queue) : Type 0 where
  pub idle : IsIdle v h2c q
  pub free : AllFree q
  pub front : FrontIdle q
  pub offset : OffsetOf v q
  pub channel : q.engine.channel < 4

-- Stopping the engine keeps where it is.
pub rest_queue-IsSendable :
    (v : ℕ → ℕ) (q : Queue)
    → IsWhole v h2c q
    → OffsetOf v q
    → q.engine.channel < 4
    → IsSendable v (rest_queue q)
unfolding xdma_desc_ring_clear
rest_queue-IsSendable v q whole offset channel = record {
  idle = (rest_queue-IsIdle v h2c q whole).0;
  free = (rest_queue-IsIdle v h2c q whole).1 refl;
  front = rest_queue-FrontIdle v q whole;
  offset = offset;
  channel = channel;
}

-- On a sendable queue a call that returns has sent all its packets, and leaves the queue sendable.
pub xdma_xmit_pkts-IsSendable :
    (v : ℕ → ℕ) (dev : XdmaDev) (ps : List Packet) (q : Queue) (bus : Bus)
    → IsSendable v q
    → HaveSegs ps
    → (fuel : ℕ) (loads : ℕ → ℕ) (n : ℕ) (q' : Queue) (bus' : Bus)
    → xdma_xmit_pkts fuel loads dev ps q bus ≡ some (n, q', bus')
    → (n ≡ length ps) × IsSendable v q'
unfolding after_wait xdma_tx_engine_stop
xdma_xmit_pkts-IsSendable v dev ps q bus ready segs fuel loads n q' bus' e =
    go (wait_completed fuel loads (length ps) 0) refl
  where
    q1 : Queue
    q1 = (start_xmit dev ps q bus).0

    kept :
        q1.engine
        ≡ (let e = q.engine in record e { running = true; desc_used = q1.engine.desc_used })
    kept =
        subst
          (λ (k : Engine).
            k ≡ (let e = q.engine in record e { running = true; desc_used = k.desc_used }))
          (sym (start_xmit-engine v dev ps q bus ready.idle ready.free segs ready.front)) refl

    stopped : IsSendable v (rest_queue q1)
    stopped =
        rest_queue-IsSendable v q1 (start_xmit-IsWhole v dev ps q bus ready.idle ready.free segs)
          (subst (λ (k : Engine). k.virt2phy_offset ≡ u64 (v k.sw_ring + 2 ^ 64 - k.sw_ring))
            (sym kept) ready.offset)
          (subst (λ (k : Engine). k.channel < 4) (sym kept) ready.channel)

    go :
        (r : Option ℕ)
        → wait_completed fuel loads (length ps) 0 ≡ r
        → (n ≡ length ps) × IsSendable v q'
    go none er =
        absurd (cc (xmit_as v dev ps q bus ready.idle ready.free segs fuel loads none er, e))
    go (some k) er =
        let same : some
              (length ps, rest_queue q1, (xdma_tx_engine_stop dev q1 (start_xmit dev ps q bus).1).1)
            ≡ some (n, q', bus') =
          sym (xmit_as v dev ps q bus ready.idle ready.free segs fuel loads (some k) er) ∙ e in
        let queue : rest_queue q1 ≡ q' = cc same in (cc same, subst (IsSendable v) queue stopped)
