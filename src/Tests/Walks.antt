-- ===== src/Tests/Walks.antt =====
-- The theorems on what the device reads, and on the ports, at concrete inputs.
use xdma_dpdk.Base.{
  ℕ, zero, suc, ◌+◌, ◌-◌, ◌^◌, ◌/◌, ◌≡◌, refl, ap, ◌∙◌, true, List, [], ◌∷◌, arith,
}
use xdma_dpdk.Xdma.{Direction, c2h, h2c, Desc, Engine, Queue}
use xdma_dpdk.Platform.{Bus}
use xdma_dpdk.Ring.{desc_at, xdma_desc_ring_init}
use xdma_dpdk.Engine.{setup_queue}
use xdma_dpdk.Engine.Idle.{IsIdle, FrontIdle}
use xdma_dpdk.Engine.Start.{IsMapped}
use xdma_dpdk.Tx.Burst.{HaveSegs}
use xdma_dpdk.Engine.Setup.{setup_queue-FrontIdle}
use xdma_dpdk.Tx.{Packet, start_xmit}
use xdma_dpdk.Rx.{recv_start, set_status}
use xdma_dpdk.Walk.{InRam}
use xdma_dpdk.Walk.Sent.{Reads, start_xmit-engine, start_xmit-walk_full}
use xdma_dpdk.Walk.Received.{Reads as ReadsBuffers}
use xdma_dpdk.Tests.{
  dev_1, v_1, copies, zone_1, reserve_1, zmalloc_1, queue_1, queue_1-IsIdle, seg_1, burst_1, bufs_1,
}

-- Memory that holds the descriptors of a queue in a row, from the zone's physical address on.
abbrev pub ram_of : Queue → ℕ → Desc
ram_of q a = desc_at q ((a - (4096 + 2 ^ 20)) / 32)

pub in_row : (q : Queue) → q.engine.desc_ring ≡ 4096 → InRam v_1 (ram_of q) q
in_row q e i h = ap (desc_at q) (omega (arith, e))

idle_1 : IsIdle v_1 h2c (queue_1 h2c)
idle_1 = (queue_1-IsIdle h2c).0

front_1 : FrontIdle (queue_1 h2c)
front_1 = setup_queue-FrontIdle v_1 true reserve_1 zmalloc_1 h2c 1 zone_1 refl

dev_1-IsMapped : (d : Direction) → IsMapped dev_1 (queue_1 d)
unfolding setup_queue xdma_desc_ring_init
dev_1-IsMapped d = (omega arith, omega arith)

ring_1 : (d : Direction) → (queue_1 d).engine.desc_ring ≡ 4096
unfolding setup_queue xdma_desc_ring_init
ring_1 d = refl

pub have_1 : HaveSegs burst_1
have_1 = (omega arith, (omega arith, tt))

pub sent-ring : (bus : Bus) → (start_xmit dev_1 burst_1 (queue_1 h2c) bus).0.engine.desc_ring ≡ 4096
sent-ring bus =
    ap (λ (e : Engine). e.desc_ring)
      (start_xmit-engine v_1 dev_1 burst_1 (queue_1 h2c) bus idle_1 (queue_1-IsIdle h2c).1 have_1
        front_1)
    ∙ ring_1 h2c

sent_1 : Queue
sent_1 = (start_xmit dev_1 burst_1 (queue_1 h2c) []).0

-- As many packets of one segment as the ring has descriptors.
abbrev full_1 : List Packet
full_1 = copies 32 (record { nb_segs = 1; segs = seg_1 ∷ [] })

copies-HaveSegs : (n : ℕ) → HaveSegs (copies n (record { nb_segs = 1; segs = seg_1 ∷ [] }))
copies-HaveSegs zero = tt
copies-HaveSegs (suc n) = (omega arith, copies-HaveSegs n)

sent_full_1 : Queue
sent_full_1 = (start_xmit dev_1 full_1 (queue_1 h2c) []).0

sent_full_1-ring : sent_full_1.engine.desc_ring ≡ 4096
unfolding sent_full_1
sent_full_1-ring =
    ap (λ (e : Engine). e.desc_ring)
      (start_xmit-engine v_1 dev_1 full_1 (queue_1 h2c) [] idle_1 (queue_1-IsIdle h2c).1
        (copies-HaveSegs 32) front_1)
    ∙ ring_1 h2c

start_xmit-walk_full_example :
    Reads v_1 dev_1 full_1
      (queue_1 h2c)
      []
      idle_1
      (queue_1-IsIdle h2c).1
      (copies-HaveSegs 32)
      front_1
      (ram_of sent_full_1)
      32
      ((60, 65664, true) ∷ [])
unfolding sent_full_1
start_xmit-walk_full_example =
    start_xmit-walk_full v_1 dev_1 full_1 (queue_1 h2c) [] idle_1 (queue_1-IsIdle h2c).1
      (copies-HaveSegs 32) front_1 (dev_1-IsMapped h2c) (ram_of sent_full_1)
      (in_row sent_full_1 sent_full_1-ring) 32 refl (omega arith)

begun_1 : Queue
begun_1 = (recv_start dev_1 32 bufs_1 (set_status 0 (queue_1 c2h)) []).1
