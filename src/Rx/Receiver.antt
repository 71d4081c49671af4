-- ===== src/Rx/Receiver.antt =====
-- An abstract receiver, and the queues that implement its states.
use xdma_dpdk.Base.{
  ℕ, ◌-◌, ◌<◌, ◌≤◌, ◌≡◌, List, arith, true, Option, none, some, ◌==◌, if◌then◌else◌,
}
use xdma_dpdk.Xdma.{c2h, Queue, StreamWb, xdma_desc_max}
use xdma_dpdk.Ring.Chain.{xdma_desc_ring_clear-IsChained}
use xdma_dpdk.Engine.{rest_queue}
use xdma_dpdk.Engine.Idle.{IsIdle, IsWhole}
use xdma_dpdk.Fill.{IsLive}
use xdma_dpdk.Rx.{Mbuf, stream_wb_addr, Outcome, set_status}
use xdma_dpdk.Rx.Post.{AllRx}
use xdma_dpdk.Rx.Prepare.{IsPrepared}

-- An abstract receiver of full bursts: idle, or with `n` of its 32 buffers handed over.
pub data Receiver : Type 0 where
  idle : Receiver
  receiving : (n : ℕ) → Receiver

abbrev pub handed : Receiver → ℕ
handed idle = 0
handed (receiving n) = n

-- One call: `none` finds no new completion, `some old` that `old` buffers are complete.
abbrev pub receive : Receiver → Option ℕ → ℕ × Receiver
receive s none = (0, receiving (handed s))
receive s (some old) = (old - handed s, if old == xdma_desc_max then idle else receiving old)

-- The queue is in a state of the abstract receiver.
pub record IsReceiving (v : ℕ → ℕ) (n : ℕ) (q : Queue) : Type 0 where
  pub live : IsLive v c2h q
  pub controls : AllRx q
  pub runs : q.engine.running ≡ true
  pub used : q.engine.desc_used ≡ n

abbrev pub Implements : (ℕ → ℕ) → Receiver → Queue → Type 0
Implements v idle q = IsIdle v c2h q × AllRx q
Implements v (receiving n) q = IsReceiving v n q

-- A count that the device may show: more than was handed over, and at most the posted buffers.
abbrev pub IsPlausible : Receiver → Option ℕ → Type 0
IsPlausible s none = Unit {0}
IsPlausible s (some old) = (handed s < old) × (old ≤ xdma_desc_max)

-- The buffers that a call prepares: those that are newly complete.
abbrev pub Prepared : (ℕ → ℕ → StreamWb) → List Mbuf → Receiver → Option ℕ → Outcome → Type 0
Prepared stream bufs s none o = o.rx_pkts ≡ bufs
Prepared stream bufs s (some old) o =
    let engine = o.queue.engine in
    IsPrepared engine (stream (stream_wb_addr engine)) (handed s) old bufs o.rx_pkts

-- Clearing a receive ring keeps its control words.
pub rest_queue-AllRx : (v : ℕ → ℕ) (q : Queue) → IsWhole v c2h q → AllRx q → AllRx (rest_queue q)
rest_queue-AllRx v q w rx i h =
    rw ((xdma_desc_ring_clear-IsChained v q w.chained).2 i (omega (arith, w.max)))
      (rw w.direction (rx i h))

-- An idle queue is a live one with no descriptor in use.
pub fresh-IsLive : (v : ℕ → ℕ) (q : Queue) → IsIdle v c2h q → IsLive v c2h (set_status 0 q)
fresh-IsLive v q i = record {
  whole = record {
    chained = record { size = i.chained.size; links = i.chained.links };
    max = i.max;
    direction = i.direction;
    port = i.port;
  };
  inside = omega (arith, i.unused);
}
