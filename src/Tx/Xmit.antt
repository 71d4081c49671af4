-- ===== src/Tx/Xmit.antt =====
-- The whole of `xdma_xmit_pkts`.
use xdma_dpdk.Base.{
  ℕ, ◌+◌, ◌<◌, ◌≤◌, ◌≡◌, ◌≢◌, ap, sym, ◌∙◌, true, false, Option, none, some, List, length, arith,
}
use xdma_dpdk.Xdma.{h2c, Queue, XdmaDev}
use xdma_dpdk.Platform.{Bus}
use xdma_dpdk.Engine.{set_running, xdma_tx_engine_start, xdma_tx_engine_stop}
use xdma_dpdk.Engine.Idle.{IsIdle, IsWhole, AllFree, xdma_tx_engine_stop-IsIdle}
use xdma_dpdk.Tx.{Packet, fill_tx_ring, start_xmit, wait_completed, xdma_xmit_pkts}
use xdma_dpdk.Fill.{IsLive}
use xdma_dpdk.Tx.Wait.{shown, wait_completed-ends, wait_completed-waits}
use xdma_dpdk.Tx.Post.{fitting, all_marks, length-all_marks}
use xdma_dpdk.Tx.Burst.{IsPosted, HaveSegs}
use xdma_dpdk.Tx.Posted.{fill_tx_ring-IsPosted}

zero_left : (k : ℕ) → 0 + k ≡ k
zero_left k = omega arith

module _ (v : ℕ → ℕ) (dev : XdmaDev) (ps : List Packet) (q : Queue) (bus : Bus)
    (idle : IsIdle v h2c q) (free : AllFree q) (segs : HaveSegs ps) where
  -- The queue that `fill_tx_ring` gets.
  abbrev pub started : Queue
  started = set_running true q

  pub started-IsLive : IsLive v h2c started
  started-IsLive = record {
    whole = record {
      chained = record { size = idle.chained.size; links = idle.chained.links };
      max = idle.max;
      direction = idle.direction;
      port = idle.port;
    };
    inside = omega (arith, idle.unused);
  }

  posted : IsPosted v ps (fill_tx_ring ps started)
  posted = fill_tx_ring-IsPosted v ps started started-IsLive free idle.unused segs

  pub start_xmit-IsWhole : IsWhole v h2c (start_xmit dev ps q bus).0
  unfolding start_xmit xdma_tx_engine_start
  start_xmit-IsWhole = record {
    chained = record {
      size = posted.live.whole.chained.size;
      links = posted.live.whole.chained.links;
    };
    max = posted.live.whole.max;
    direction = posted.live.whole.direction;
    port = posted.live.whole.port;
  }

  -- What is left of the burst once the wait has ended, or not.
  unfoldable pub after_wait : Option ℕ → Option (ℕ × Queue × Bus)
  after_wait none = none
  after_wait (some _) =
      let (q1, bus1) = start_xmit dev ps q bus in
      let (q2, bus2) = xdma_tx_engine_stop dev q1 bus1 in some (length ps, q2, bus2)

  pub xmit_as :
      (fuel : ℕ) (loads : ℕ → ℕ) (r : Option ℕ)
      → wait_completed fuel loads (length ps) 0 ≡ r
      → xdma_xmit_pkts fuel loads dev ps q bus ≡ after_wait r
  unfolding xdma_xmit_pkts after_wait
  xmit_as fuel loads none e = ground (arith, idle.stopped)
  xmit_as fuel loads (some k) e = ground (arith, idle.stopped)

  pub xdma_xmit_pkts-returns :
      (fuel : ℕ) (loads : ℕ → ℕ) (k : ℕ)
      → k < fuel
      → shown loads k ≡ length ps
      → ((j : ℕ) → j < k → shown loads j ≢ length ps)
      → (q' : Queue) × (bus' : Bus) × (xdma_xmit_pkts fuel loads dev ps q bus
          ≡ some (length ps, q', bus'))
        × IsIdle v h2c q'
        × AllFree q'
        × (q'.completed_desc_count ≡ 0)
  unfolding after_wait
  xdma_xmit_pkts-returns fuel loads k h e first =
      let whole = start_xmit-IsWhole in
      let (q1, bus1) = start_xmit dev ps q bus in
      let ended : wait_completed fuel loads (length ps) 0 ≡ some (0 + k) =
        wait_completed-ends fuel loads (length ps) 0 k h (ap (shown loads) (zero_left k) ∙ e)
          (λ j p t. first j p (ap (shown loads) (sym (zero_left j)) ∙ t)) in
      let stopped =
        xdma_tx_engine_stop-IsIdle v dev (start_xmit dev ps q bus).0 (start_xmit dev ps q bus).1
          whole in
      (_, _, xmit_as fuel loads (some (0 + k)) ended, stopped.0, stopped.1, stopped.2)

-- The device counts at most the descriptors that were posted for the packets.
abbrev pub CountsPosted : (ℕ → ℕ) → List Packet → Type 0
CountsPosted loads ps = (t : ℕ) → shown loads t ≤ length (all_marks (fitting 32 ps))

-- A burst of more packets than the ring has descriptors never returns: only the packets that fit
-- are posted, but the wait is for the count of all of them, which a device that counts the posted
-- descriptors never shows.
pub xdma_xmit_pkts_overlong :
    (fuel : ℕ) (loads : ℕ → ℕ) (dev : XdmaDev) (ps : List Packet) (q : Queue) (bus : Bus)
    → q.engine.running ≡ false
    → 32 < length ps
    → CountsPosted loads ps
    → xdma_xmit_pkts fuel loads dev ps q bus ≡ none
unfolding xdma_xmit_pkts
xdma_xmit_pkts_overlong fuel loads dev ps q bus stopped long counts = ground (arith, waits)
  where
    waits : wait_completed fuel loads (length ps) 0 ≡ none
    waits =
        wait_completed-waits fuel loads (length ps) 0
          λ j p e. absurd (omega (arith, counts (0 + j), length-all_marks 32 ps))
