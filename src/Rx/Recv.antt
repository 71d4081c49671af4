-- ===== src/Rx/Recv.antt =====
-- `xdma_recv_pkts` against an abstract receiver: full bursts, and what happens to short ones.
use xdma_dpdk.Base.{
  ℕ, ◌+◌, ◌-◌, ◌^◌, ◌<◌, ◌≤◌, ◌≡◌, refl, ap, sym, subst, ◌∙◌, List, length, get_or, arith, true,
  false, Option, none, some, ◌==◌, if◌then◌else◌, u16, u32, min, Bool-cases, inl, inr,
}
use xdma_dpdk.Xdma.{c2h, Engine, Queue, XdmaDev, StreamWb, xdma_desc_max}
use xdma_dpdk.Platform.{Bus}
use xdma_dpdk.Ring.{desc_addr, xdma_desc_ring_clear}
use xdma_dpdk.Engine.{set_running, xdma_rx_engine_start, xdma_rx_engine_stop, rest_queue}
use xdma_dpdk.Engine.Idle.{IsIdle, IsWhole, xdma_rx_engine_stop-IsIdle}
use xdma_dpdk.Rx.{
  Mbuf, stream_wb_addr, post_buffers, poll_count, recv_rounds, Outcome, set_status, complete,
  recv_start, recv_collect, prepare_segmented_packet, prepare_packets, xdma_recv_pkts,
}
use xdma_dpdk.Rx.Post.{no_mbuf, AllRx, IsOffered, post_buffers-IsOffered}
use xdma_dpdk.Rx.Prepare.{IsPrepared, prepare_packets-IsPrepared}
use xdma_dpdk.Rx.Receiver.{
  Receiver, handed, receive, IsReceiving, Implements, IsPlausible, Prepared, rest_queue-AllRx,
  fresh-IsLive, idle, receiving,
}

module _ (v : ℕ → ℕ) (dev : XdmaDev) (bufs : List Mbuf) (bus : Bus)
    (enough : xdma_desc_max ≤ length bufs) where
  -- The queue behind the first part of a call on an idle queue.
  abbrev begun : Queue → Queue
  begun q = set_running true (post_buffers 32 bufs (set_status 0 q))

  -- A call on an idle queue offers all 32 buffers to the device before it starts the engine.
  pub begun-IsOffered :
      (q : Queue)
      → IsIdle v c2h q
      → AllRx q
      → IsOffered v 32 bufs (post_buffers 32 bufs (set_status 0 q))
  begun-IsOffered q i rx =
      post_buffers-IsOffered v 32 bufs (set_status 0 q) (fresh-IsLive v q i) i.unused rx
        (omega arith) enough

  begun-IsReceiving : (q : Queue) → IsIdle v c2h q → AllRx q → IsReceiving v 0 (begun q)
  begun-IsReceiving q i rx =
      let o = begun-IsOffered q i rx in
      record {
        live = record {
          whole = record {
            chained = record {
              size = o.live.whole.chained.size;
              links = o.live.whole.chained.links;
            };
            max = o.live.whole.max;
            direction = o.live.whole.direction;
            port = o.live.whole.port;
          };
          inside = o.live.inside;
        };
        controls = o.controls;
        runs = refl;
        used = o.used;
      }

  start_idle :
      (q : Queue)
      → q.engine.running ≡ false
      → q.engine.desc_max ≡ 32
      → (bus' : Bus) × (recv_start dev 32 bufs (set_status 0 q) bus ≡ (32, begun q, bus'))
  unfolding recv_start xdma_rx_engine_start
  start_idle q stopped max = (_, taken ∙ ap started_with (rw max (omega arith)))
    where
      started_with : ℕ → ℕ × Queue × Bus
      started_with n =
          let q1 = post_buffers n bufs (set_status 0 q) in
          let (q2, bus2) = xdma_rx_engine_start dev (desc_addr q1 0) q1 bus in (n, q2, bus2)

      taken :
          recv_start dev 32 bufs (set_status 0 q) bus
          ≡ started_with (u16 (min 32 q.engine.desc_max))
      taken = ground arith

  start_running :
      (q : Queue)
      → q.engine.running ≡ true
      → recv_start dev 32 bufs (set_status 0 q) bus ≡ (32, set_status 0 q, bus)
  unfolding recv_start
  start_running q runs = ground arith

  -- After the first part the queue receives, with the buffers handed over that were so before.
  pub started :
      (s : Receiver) (q : Queue)
      → Implements v s q
      → (q1 : Queue) × (bus1 : Bus) × (recv_start dev 32 bufs (set_status 0 q) bus ≡ (32, q1, bus1))
        × IsReceiving v (handed s) q1
  started idle q (i, rx) =
      let (bus', e) = start_idle q i.stopped i.max in (begun q, bus', e, begun-IsReceiving q i rx)
  started (receiving n) q r = (
    set_status 0 q,
    bus,
    start_running q r.runs,
    record {
      live = record {
        whole = record {
          chained = record { size = r.live.whole.chained.size; links = r.live.whole.chained.links };
          max = r.live.whole.max;
          direction = r.live.whole.direction;
          port = r.live.whole.port;
        };
        inside = r.live.inside;
      };
      controls = r.controls;
      runs = r.runs;
      used = r.used;
    },
  )

  -- The second part of a call.
  unfoldable pub finish : (stream : ℕ → ℕ → StreamWb) → Option ℕ → ℕ × Queue × Bus → Outcome
  finish stream found (nb, q1, bus1) =
      let (got, pkts, q2) = recv_collect (stream (stream_wb_addr q1.engine)) found bufs q1 in
      if q2.engine.desc_used == nb
      then (let (q3, bus3) = xdma_rx_engine_stop dev q2 bus1 in
          record { nb_cmpt_desc = got; rx_pkts = pkts; queue = q3; bus = bus3 })
      else record { nb_cmpt_desc = got; rx_pkts = pkts; queue = q2; bus = bus1 }

  -- Preparing reads no field of the engine but its port.
  IsPrepared-port :
      (e e' : Engine) (wb : ℕ → StreamWb) (lo hi : ℕ) (after : List Mbuf)
      → e.port_id ≡ e'.port_id
      → IsPrepared e wb lo hi bufs after
      → IsPrepared e' wb lo hi bufs after
  unfolding prepare_segmented_packet
  IsPrepared-port e e' wb lo hi after same p = record {
    size = p.size;
    inside = λ k a b.
        p.inside k a b
        ∙ ap
            (λ t. record (prepare_segmented_packet e (wb k) (get_or bufs k no_mbuf)) {
              port = u16 t;
            })
            same;
    outside = p.outside;
  }

  collected :
      (stream : ℕ → ℕ → StreamWb) (n old : ℕ) (q1 : Queue)
      → IsReceiving v n q1
      → (n < old) × (old ≤ 32)
      → (u16 (old + 2 ^ 32 - u32 q1.engine.desc_used) ≡ old - n)
        × IsPrepared q1.engine (stream (stream_wb_addr q1.engine)) n old bufs (
            prepare_packets q1.engine
              (stream (stream_wb_addr q1.engine))
              bufs
              old
              q1.engine.desc_used)
        × IsWhole v c2h (complete old q1)
  collected stream n old q1 r p = (
    omega (arith, r.used, p),
    subst
        (λ u.
          IsPrepared q1.engine (stream (stream_wb_addr q1.engine)) n old bufs
            (prepare_packets q1.engine (stream (stream_wb_addr q1.engine)) bufs old u))
        (sym r.used)
        (prepare_packets-IsPrepared q1.engine (stream (stream_wb_addr q1.engine)) bufs old n
          (omega arith) (omega (arith, enough)) (omega arith)),
    record {
      chained = record { size = r.live.whole.chained.size; links = r.live.whole.chained.links };
      max = r.live.whole.max;
      direction = r.live.whole.direction;
      port = r.live.whole.port;
    },
  )

  finish_lem :
      (stream : ℕ → ℕ → StreamWb) (s : Receiver) (found : Option ℕ) (q1 : Queue) (bus1 : Bus)
      → IsReceiving v (handed s) q1
      → IsPlausible s found
      → let o = finish stream found (32, q1, bus1) in
        (o.nb_cmpt_desc ≡ (receive s found).0)
        × Implements v (receive s found).1 o.queue
        × Prepared stream bufs s found o
  unfolding finish recv_collect xdma_rx_engine_stop xdma_desc_ring_clear
  finish_lem stream s none q1 bus1 r p =
      let more : (q1.engine.desc_used == 32) ≡ false = ground (arith, r.live.inside) in
      rw more (refl, r, refl)
  finish_lem stream s (some old) q1 bus1 r p =
      let (count, prepared, whole) = collected stream (handed s) old q1 r p in
      elim (Bool-cases (old == 32)) [
        | inl full ↦ rw full (
          count,
          (
            (xdma_rx_engine_stop-IsIdle v dev (complete old q1) bus1 whole).0,
            rest_queue-AllRx v (complete old q1) whole r.controls,
          ),
          IsPrepared-port q1.engine (rest_queue (complete old q1)).engine
              (stream (stream_wb_addr q1.engine)) (handed s) old _ refl prepared,
        )
        | inr more ↦ rw more (
          count,
          record {
            live = record { whole = whole; inside = ground arith };
            controls = r.controls;
            runs = r.runs;
            used = refl;
          },
          IsPrepared-port q1.engine (complete old q1).engine (stream (stream_wb_addr q1.engine))
              (handed s) old _ refl prepared,
        )
      ]

-- The counts of the device, seen from the queue behind the first part of a call.
abbrev pub found_by : (ℕ → ℕ) → Receiver → Option ℕ
found_by loads s = poll_count recv_rounds loads (handed s) 0

-- A call of `xdma_recv_pkts` for a full burst of 32 buffers does what the abstract receiver does
-- with the count that the bounded wait finds, if that count is plausible: it returns the number of
-- newly complete buffers, prepares exactly these, and leaves the queue in the receiver's next
-- state, stopped and idle after the last buffer.
pub xdma_recv_pkts_refines :
    (v : ℕ → ℕ) (dev : XdmaDev) (bufs : List Mbuf) (bus : Bus) (loads : ℕ → ℕ)
    (stream : ℕ → ℕ → StreamWb) (s : Receiver) (q : Queue)
    → xdma_desc_max ≤ length bufs
    → Implements v s q
    → IsPlausible s (found_by loads s)
    → let o = xdma_recv_pkts loads stream dev 32 bufs q bus in
      (o.nb_cmpt_desc ≡ (receive s (found_by loads s)).0)
      × Implements v (receive s (found_by loads s)).1 o.queue
      × Prepared stream bufs s (found_by loads s) o
unfolding xdma_recv_pkts finish
xdma_recv_pkts_refines v dev bufs bus loads stream s q enough impl plausible =
    let (q1, bus1, e, r) = started v dev bufs bus enough s q impl in
    subst (λ t. Does (whole t)) (sym e)
      (subst
        (λ u.
          Does
            (finish v dev bufs bus enough stream (poll_count recv_rounds loads u 0) (32, q1, bus1)))
        (sym r.used)
        (finish_lem v dev bufs bus enough stream s (found_by loads s) q1 bus1 r plausible))
  where
    whole : ℕ × Queue × Bus → Outcome
    whole t =
        finish v dev bufs bus enough stream (poll_count recv_rounds loads t.1.engine.desc_used 0) t

    Does : Outcome → Type 0
    Does o =
        (o.nb_cmpt_desc ≡ (receive s (found_by loads s)).0)
        × Implements v (receive s (found_by loads s)).1 o.queue
        × Prepared stream bufs s (found_by loads s) o
