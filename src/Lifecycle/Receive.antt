-- ===== src/Lifecycle/Receive.antt =====
-- `xdma_recv_pkts` from call to call.
use xdma_dpdk.Base.{
  ℕ, ◌+◌, ◌-◌, ◌^◌, ◌<◌, ◌≤◌, ◌≡◌, refl, sym, subst, Option, none, some, List, length, arith, u64,
  ◌==◌, Bool-cases, inl, inr,
}
use xdma_dpdk.Xdma.{c2h, Engine, Queue, StreamWb, XdmaDev, xdma_desc_max}
use xdma_dpdk.Platform.{Bus}
use xdma_dpdk.Ring.{xdma_desc_ring_clear}
use xdma_dpdk.Engine.{rest_queue, xdma_rx_engine_stop}
use xdma_dpdk.Engine.Idle.{
  IsWhole, IsIdle-IsWhole, StopsAtEnd, rest_queue-IsIdle, rest_queue-StopsAtEnd,
}
use xdma_dpdk.Rx.{
  Mbuf, set_status, complete, poll_count, recv_rounds, recv_start, recv_collect, xdma_recv_pkts,
}
use xdma_dpdk.Rx.Post.{AllRx}
use xdma_dpdk.Rx.Receiver.{
  Receiver, handed, receive, idle, receiving, Implements, IsPlausible, rest_queue-AllRx,
}
use xdma_dpdk.Rx.Recv.{started, finish, found_by, xdma_recv_pkts_refines}
use xdma_dpdk.Walk.{OffsetOf}
use xdma_dpdk.Walk.Received.{recv_start-engine, recv_start-StopsAtEnd}
use xdma_dpdk.Lifecycle.{CountsOn}

-- Where the ring is, and where it ends.
pub record IsAnchored (v : ℕ → ℕ) (q : Queue) : Type 0 where
  pub ends : StopsAtEnd q
  pub offset : OffsetOf v q
  pub channel : q.engine.channel < 4

-- A receive queue between two calls.
pub record IsReceptive (v : ℕ → ℕ) (q : Queue) : Type 0 where
  pub state : Receiver
  pub implements : Implements v state q
  pub anchored : IsAnchored v q

pub handed_used :
    (v : ℕ → ℕ) (s : Receiver) (q : Queue) → Implements v s q → handed s ≡ q.engine.desc_used
handed_used v idle q i = sym i.0.unused
handed_used v (receiving n) q r = sym r.used

Implements-IsWhole : (v : ℕ → ℕ) (s : Receiver) (q : Queue) → Implements v s q → IsWhole v c2h q
Implements-IsWhole v idle q i = IsIdle-IsWhole i.0
Implements-IsWhole v (receiving n) q r = r.live.whole

all_rx : (v : ℕ → ℕ) (s : Receiver) (q : Queue) → Implements v s q → AllRx q
all_rx v idle q i = i.1
all_rx v (receiving n) q r = r.controls

pub plausible :
    (v : ℕ → ℕ) (loads : ℕ → ℕ) (s : Receiver) (q : Queue)
    → Implements v s q
    → CountsOn loads q
    → IsPlausible s (found_by loads s)
plausible v loads s q impl counts = go (found_by loads s) refl
  where
    go : (r : Option ℕ) → found_by loads s ≡ r → IsPlausible s r
    go none e = tt
    go (some old) e =
        let used = handed_used v s q impl in
        let c = counts old (subst (λ u. poll_count recv_rounds loads u 0 ≡ some old) used e) in
        (omega (arith, c.0, used), c.1)

rest_queue-IsAnchored :
    (v : ℕ → ℕ) (q : Queue) → IsWhole v c2h q → IsAnchored v q → IsAnchored v (rest_queue q)
unfolding xdma_desc_ring_clear
rest_queue-IsAnchored v q w a = record {
  ends = rest_queue-StopsAtEnd v q w a.ends;
  offset = a.offset;
  channel = a.channel;
}

-- Stopping a receptive queue makes it idle.
pub rest_queue-IsReceptive :
    (v : ℕ → ℕ) (q : Queue) → IsReceptive v q → IsReceptive v (rest_queue q)
rest_queue-IsReceptive v q r =
    let w = Implements-IsWhole v r.state q r.implements in
    record {
      state = idle;
      implements = (
        (rest_queue-IsIdle v c2h q w).0,
        rest_queue-AllRx v q w (all_rx v r.state q r.implements),
      );
      anchored = rest_queue-IsAnchored v q w r.anchored;
    }

module _ (v : ℕ → ℕ) (dev : XdmaDev) (bufs : List Mbuf) (bus : Bus)
    (enough : xdma_desc_max ≤ length bufs) where
  recv_start-IsAnchored :
      (s : Receiver) (q : Queue)
      → Implements v s q
      → IsAnchored v q
      → IsAnchored v (recv_start dev 32 bufs (set_status 0 q) bus).1
  unfolding recv_start
  recv_start-IsAnchored idle q i a =
      let kept = recv_start-engine v dev bufs q bus i.0 i.1 a.ends enough in
      record {
        ends = recv_start-StopsAtEnd v dev bufs q bus i.0 i.1 a.ends enough;
        offset =
            subst (λ (k : Engine). k.virt2phy_offset ≡ u64 (v k.sw_ring + 2 ^ 64 - k.sw_ring))
              (sym kept) a.offset;
        channel = subst (λ (k : Engine). k.channel < 4) (sym kept) a.channel;
      }
  recv_start-IsAnchored (receiving n) q r a =
      let runs : recv_start dev 32 bufs (set_status 0 q) bus ≡ (32, set_status 0 q, bus) =
        ground (arith, r.runs) in
      subst (λ (t : ℕ × Queue × Bus). IsAnchored v t.1) (sym runs)
        (record { ends = a.ends; offset = a.offset; channel = a.channel })

  finish-IsAnchored :
      (stream : ℕ → ℕ → StreamWb) (found : Option ℕ) (t : ℕ × Queue × Bus)
      → IsWhole v c2h t.1
      → IsAnchored v t.1
      → IsAnchored v (finish v dev bufs bus enough stream found t).queue
  unfolding finish recv_collect xdma_rx_engine_stop
  finish-IsAnchored stream none (nb, q1, bus1) w a = elim (Bool-cases (q1.engine.desc_used == nb)) [
    | inl full ↦ rw full (rest_queue-IsAnchored v q1 w a)
    | inr more ↦ rw more a
  ]
  finish-IsAnchored stream (some old) (nb, q1, bus1) w a =
      let whole : IsWhole v c2h (complete old q1) = record {
        chained = record { size = w.chained.size; links = w.chained.links };
        max = w.max;
        direction = w.direction;
        port = w.port;
      } in
      let anchored : IsAnchored v (complete old q1) = record {
        ends = a.ends;
        offset = a.offset;
        channel = a.channel;
      } in
      elim (Bool-cases (old == nb)) [
        | inl full ↦ rw full (rest_queue-IsAnchored v (complete old q1) whole anchored)
        | inr more ↦ rw more anchored
      ]

  -- A call keeps a receptive queue receptive, if the device counts on.
  pub xdma_recv_pkts-IsReceptive :
      (loads : ℕ → ℕ) (stream : ℕ → ℕ → StreamWb) (q : Queue)
      → IsReceptive v q
      → CountsOn loads q
      → IsReceptive v (xdma_recv_pkts loads stream dev 32 bufs q bus).queue
  unfolding xdma_recv_pkts finish
  xdma_recv_pkts-IsReceptive loads stream q r counts =
      let (q1, bus1, e, receives) = started v dev bufs bus enough r.state q r.implements in
      let t = recv_start dev 32 bufs (set_status 0 q) bus in
      record {
        state = (receive r.state (found_by loads r.state)).1;
        implements =
            (xdma_recv_pkts_refines v dev bufs bus loads stream r.state q enough r.implements
              (plausible v loads r.state q r.implements counts)).1;
        anchored =
            finish-IsAnchored stream (poll_count recv_rounds loads t.1.engine.desc_used 0) t
              (subst (λ (t : ℕ × Queue × Bus). IsWhole v c2h t.1) (sym e) receives.live.whole)
              (recv_start-IsAnchored r.state q r.implements r.anchored);
      }
