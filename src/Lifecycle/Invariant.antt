-- ===== src/Lifecycle/Invariant.antt =====
-- Every queue of a port that the steps of Lifecycle have reached can be used.
use xdma_dpdk.Base.{ℕ, ◌≡◌, refl, subst, Option, none, some, List}
use xdma_dpdk.Xdma.{Queue, XdmaDev}
use xdma_dpdk.Platform.{Bus}
use xdma_dpdk.Engine.{xdma_tx_engine_stop, xdma_rx_engine_stop}
use xdma_dpdk.Engine.Idle.{IsIdle-IsWhole}
use xdma_dpdk.Device.{Port, install_tx, install_rx, stop_all, xdma_dev_stop}
use xdma_dpdk.Rx.{Outcome}
use xdma_dpdk.Lifecycle.{
  World, Step, setup_tx, setup_rx, start, transmit, receive, stop, Reachable, at_first, then,
}
use xdma_dpdk.Lifecycle.Queues.{
  EachSet, unset-EachSet, at-EachSet, modify-EachSet, stop_all-EachSet,
}
use xdma_dpdk.Lifecycle.Transmit.{IsSendable, rest_queue-IsSendable, xdma_xmit_pkts-IsSendable}
use xdma_dpdk.Lifecycle.Receive.{IsReceptive, rest_queue-IsReceptive, xdma_recv_pkts-IsReceptive}
use xdma_dpdk.Lifecycle.Setup.{xdma_tx_engine_setup-IsSendable, xdma_rx_engine_setup-IsReceptive}

pub record IsReady (v : ℕ → ℕ) (dev : XdmaDev) (x : World) : Type 0 where
  pub same : x.0.dev ≡ dev
  pub sendable : EachSet (IsSendable v) x.0.tx_queues
  pub receptive : EachSet (IsReceptive v) x.0.rx_queues

-- Stopping the device keeps every queue ready.
xdma_dev_stop-IsReady :
    (v : ℕ → ℕ) (dev : XdmaDev) (port port' : Port) (bus bus' : Bus)
    → IsReady v dev (port, bus)
    → xdma_dev_stop port bus ≡ some (port', bus')
    → IsReady v dev (port', bus')
unfolding xdma_dev_stop xdma_tx_engine_stop xdma_rx_engine_stop
xdma_dev_stop-IsReady v dev port port' bus bus' r e =
    first (stop_all xdma_tx_engine_stop port.dev port.tx_queues bus) refl e
  where
    after_rx : List (Option Queue) → Option (List (Option Queue) × Bus) → Option (Port × Bus)
    after_rx tx done = elim done [
      | none ↦ none
      | some (rx, bus2) ↦ some (record port { tx_queues = tx; rx_queues = rx }, bus2)
    ]

    after : Option (List (Option Queue) × Bus) → Option (Port × Bus)
    after done = elim done [
      | none ↦ none
      | some (tx, bus1) ↦ after_rx tx (stop_all xdma_rx_engine_stop port.dev port.rx_queues bus1)
    ]

    second :
        (tx : List (Option Queue)) (bus1 : Bus) (done : Option (List (Option Queue) × Bus))
        → EachSet (IsSendable v) tx
        → stop_all xdma_rx_engine_stop port.dev port.rx_queues bus1 ≡ done
        → after_rx tx done ≡ some (port', bus')
        → IsReady v dev (port', bus')
    second tx bus1 none sendable ed ee = absurd (cc ee)
    second tx bus1 (some (rx, bus2)) sendable ed ee =
        let same : (record port { tx_queues = tx; rx_queues = rx }, bus2) ≡ (port', bus') = cc ee in
        subst (IsReady v dev) same (record {
          same = r.same;
          sendable = sendable;
          receptive =
              stop_all-EachSet (IsReceptive v) xdma_rx_engine_stop port.dev
                (λ q b ready. rest_queue-IsReceptive v q ready) port.rx_queues bus1 rx bus2
                r.receptive ed;
        })

    first :
        (done : Option (List (Option Queue) × Bus))
        → stop_all xdma_tx_engine_stop port.dev port.tx_queues bus ≡ done
        → after done ≡ some (port', bus')
        → IsReady v dev (port', bus')
    first none ed ee = absurd (cc ee)
    first (some (tx, bus1)) ed ee =
        second tx bus1 (stop_all xdma_rx_engine_stop port.dev port.rx_queues bus1)
          (stop_all-EachSet (IsSendable v) xdma_tx_engine_stop port.dev
            (λ q b ready.
              rest_queue-IsSendable v q (IsIdle-IsWhole ready.idle) ready.offset ready.channel)
            port.tx_queues bus tx bus1 r.sendable ed)
          refl ee

-- One call keeps every queue ready.
Step-IsReady :
    (v : ℕ → ℕ) (dev : XdmaDev) (x y : World) → Step v x y → IsReady v dev x → IsReady v dev y
unfolding install_tx install_rx
Step-IsReady v dev _ _ (setup_tx {port} {bus} mem reserve zmalloc ch {q} room e) r = record {
  same = r.same;
  sendable =
      modify-EachSet (IsSendable v) port.tx_queues ch q r.sendable
        (xdma_tx_engine_setup-IsSendable v mem reserve zmalloc ch room q e);
  receptive = r.receptive;
}
Step-IsReady v dev _ _ (setup_rx {port} {bus} mem reserve zmalloc ch {q} room e) r = record {
  same = r.same;
  sendable = r.sendable;
  receptive =
      modify-EachSet (IsReceptive v) port.rx_queues ch q r.receptive
        (xdma_rx_engine_setup-IsReceptive v mem reserve zmalloc ch room q e);
}
Step-IsReady v dev _ _ start r = record {
  same = r.same;
  sendable = r.sendable;
  receptive = r.receptive;
}
Step-IsReady v dev _ _ (transmit {port} {bus} i fuel n loads ps q {q'} {bus'} at segs e) r =
    record {
      same = r.same;
      sendable =
          modify-EachSet (IsSendable v) port.tx_queues i q' r.sendable
            (xdma_xmit_pkts-IsSendable v port.dev ps q bus
              (at-EachSet (IsSendable v) port.tx_queues i q r.sendable at) segs fuel loads n q' bus'
              e).1;
      receptive = r.receptive;
    }
Step-IsReady v dev _ _ (receive {port} {bus} i loads stream bufs q {o} at enough counts e) r =
    record {
      same = r.same;
      sendable = r.sendable;
      receptive = modify-EachSet (IsReceptive v) port.rx_queues i o.queue r.receptive (
          subst (λ (o : Outcome). IsReceptive v o.queue) e
            (xdma_recv_pkts-IsReceptive v port.dev bufs bus enough loads stream q
              (at-EachSet (IsReceptive v) port.rx_queues i q r.receptive at) counts));
    }
Step-IsReady v dev _ _ (stop {port} {port'} {bus} {bus'} e) r =
    xdma_dev_stop-IsReady v dev port port' bus bus' r e

-- In a port that was reached from one without queues by set-ups of queues by allocators whose zones
-- have room, starts and stops of the device, transmissions of packets with segments, and receptions
-- into 32 buffers while the device counts on from those handed over, to 32 at most, each queue that
-- is set can be used. A transmit queue is idle, with a chain of blank and free descriptors of which
-- at most the last stops the device; a receive queue is in a state of the abstract receiver, and
-- exactly its last descriptor stops the device; and each engine has the offset of its software ring
-- and a channel below 4.
pub Reachable-IsReady :
    (v : ℕ → ℕ) (dev : XdmaDev) (x : World) → Reachable v dev x → IsReady v dev x
Reachable-IsReady v dev _ (at_first {port} {bus} same tx rx) = record {
  same = same;
  sendable = unset-EachSet (IsSendable v) port.tx_queues tx;
  receptive = unset-EachSet (IsReceptive v) port.rx_queues rx;
}
Reachable-IsReady v dev y (then {x} before step) =
    Step-IsReady v dev x y step (Reachable-IsReady v dev x before)
