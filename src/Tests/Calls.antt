-- ===== src/Tests/Calls.antt =====
-- The theorems on calls in any order at a port with one queue of each kind.
use xdma_dpdk.Base.{◌+◌, ◌^◌, ◌≡◌, refl, true, false, Bool, none, some, [], ◌∷◌, map, arith}
use xdma_dpdk.Xdma.{c2h, h2c, Queue}
use xdma_dpdk.Platform.{Bus}
use xdma_dpdk.Ring.{xdma_desc_ring_init}
use xdma_dpdk.Engine.{setup_queue, xdma_tx_engine_setup, xdma_rx_engine_setup}
use xdma_dpdk.Engine.Start.{HoldsWord}
use xdma_dpdk.Device.{Port, install_tx, install_rx, xdma_dev_start}
use xdma_dpdk.Tx.{start_xmit}
use xdma_dpdk.Rx.{poll_count, xdma_recv_pkts}
use xdma_dpdk.Rx.Receiver.{Receiver, handed, receive as received, Prepared}
use xdma_dpdk.Rx.Recv.{found_by}
use xdma_dpdk.Walk.{walk}
use xdma_dpdk.Walk.Send.{fetch}
use xdma_dpdk.Lifecycle.{set_rx, setup_tx, setup_rx, start, Reachable, at_first, then}
use xdma_dpdk.Lifecycle.Invariant.{IsReady, Reachable-IsReady}
use xdma_dpdk.Lifecycle.Calls.{Reachable-start_xmit, Reachable-xdma_recv_pkts}
use xdma_dpdk.Tests.{dev_1, v_1, reserve_1, zmalloc_1, queue_1, burst_1, bufs_1, stream_1}
use xdma_dpdk.Tests.Engines.{give_room}
use xdma_dpdk.Tests.Walks.{ram_of, in_row, have_1, sent-ring}

abbrev bare_1 : Port
bare_1 = record {
  dev = dev_1;
  engine_h2c = none ∷ none ∷ [];
  engine_c2h = none ∷ none ∷ [];
  tx_queues = none ∷ none ∷ [];
  rx_queues = none ∷ none ∷ [];
  dev_started = false;
}

-- Both queues of channel 1 are set up, and the device is started.
ready_1 : Port
ready_1 = install_rx 1 (queue_1 c2h) (install_tx 1 (queue_1 h2c) bare_1)

built_tx : xdma_tx_engine_setup v_1 true reserve_1 zmalloc_1 1 ≡ some (queue_1 h2c)
unfolding xdma_tx_engine_setup
built_tx = refl

built_rx : xdma_rx_engine_setup v_1 true reserve_1 zmalloc_1 1 ≡ some (queue_1 c2h)
unfolding xdma_rx_engine_setup
built_rx = refl

bus_1 : Bus
bus_1 = (xdma_dev_start ready_1 []).1

ready_1-Reachable : Reachable v_1 dev_1 (ready_1, bus_1)
unfolding ready_1 bus_1
ready_1-Reachable =
    then
      (then (then (at_first refl tt tt) (setup_tx true reserve_1 zmalloc_1 1 give_room built_tx))
        (setup_rx true reserve_1 zmalloc_1 1 give_room built_rx))
      start

Reachable-IsReady_example : IsReady v_1 dev_1 (ready_1, bus_1)
Reachable-IsReady_example = Reachable-IsReady v_1 dev_1 (ready_1, bus_1) ready_1-Reachable

Reachable-xdma_recv_pkts_example :
    let o = xdma_recv_pkts (λ t. 5) stream_1 ready_1.dev 32 bufs_1 (queue_1 c2h) bus_1 in
    (s : Receiver) × (handed s ≡ 0)
    × (o.nb_cmpt_desc ≡ (received s (found_by (λ t. 5) s)).0)
    × Prepared stream_1 bufs_1 s (found_by (λ t. 5) s) o
    × Reachable v_1 dev_1 (set_rx 1 o.queue ready_1, o.bus)
unfolding ready_1 install_tx install_rx setup_queue xdma_desc_ring_init poll_count
Reachable-xdma_recv_pkts_example =
    Reachable-xdma_recv_pkts v_1 dev_1 ready_1 bus_1 ready_1-Reachable 1 (queue_1 c2h) bufs_1
      (λ t. 5) stream_1 refl (omega arith)
      (λ old e. let five : 5 ≡ old = cc e in omega (arith, five))

sent_2 : Queue
sent_2 = (start_xmit ready_1.dev burst_1 (queue_1 h2c) bus_1).0

Reachable-start_xmit_example :
    (ends : Bool) × (HoldsWord
        (start_xmit ready_1.dev burst_1 (queue_1 h2c) bus_1).1
        (2 ^ 32 + 0x4180)
        (2 ^ 32 + 0x4184)
        (4096 + 2 ^ 20)
      × (map fetch (walk (ram_of sent_2) 32 (4096 + 2 ^ 20))
          ≡ (60, 65664, false) ∷ (60, 65664, true) ∷ (60, 65664, true) ∷ (0, 0, ends) ∷ []))
unfolding ready_1 install_tx install_rx sent_2 setup_queue xdma_desc_ring_init
Reachable-start_xmit_example =
    Reachable-start_xmit v_1 dev_1 ready_1 bus_1 ready_1-Reachable 1 (queue_1 h2c) burst_1 refl
      have_1 (omega arith) (ram_of sent_2) (in_row sent_2 (sent-ring bus_1)) 32 (omega arith)
      (omega arith)
