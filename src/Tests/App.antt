-- ===== src/Tests/App.antt =====
-- The theorems on the test application at concrete inputs.
use xdma_dpdk.Base.{
  ℕ, ◌+◌, ◌≤◌, ◌≡◌, refl, sym, subst, true, false, none, some, List, [], ◌∷◌, length, get_elem?,
  arith, ◌==◌, if◌then◌else◌,
}
use xdma_dpdk.Base.Int.{ℤ, pos}
use xdma_dpdk.Xdma.{c2h, h2c}
use xdma_dpdk.Platform.{Bus, store, memory}
use xdma_dpdk.Pmd.Registers.{user_addr}
use xdma_dpdk.Rx.{poll_count, xdma_recv_pkts}
use xdma_dpdk.Rx.Receiver.{idle}
use xdma_dpdk.Rx.Recv.{found_by, xdma_recv_pkts_refines}
use xdma_dpdk.Testapp.Forward.{Forwarder, Wire, goes_on, forward_round, forward_loop}
use xdma_dpdk.Testapp.Forward.Round.{IsForwarding, Forwards, forward_round-Forwards}
use xdma_dpdk.Testapp.Forward.Rounds.{final, forward_loop_refines}
use xdma_dpdk.Testapp.Transfer.{Transfer, Meets, transfer_burst, transfer_round, transfer_loop}
use xdma_dpdk.Testapp.Transfer.Ends.{transfer_loop_lem}
use xdma_dpdk.Testapp.Latency.{LatRegs, switch_setup}
use xdma_dpdk.Testapp.Latency.Configured.{AllRead, configuration, switch_setup-AllRead}
use xdma_dpdk.Testapp.Handshake.{loaded, passed}
use xdma_dpdk.Testapp.Handshake.Safety.{reachable_lem}
use xdma_dpdk.Testapp.Handshake.Worker.{counted}
use xdma_dpdk.Testapp.Handshake.Lost.{missed, missed-Reachable}
use xdma_dpdk.Testapp.Ports.{Call, World, intr_reset, dev_remove_callback, dev_reset_callback}
use xdma_dpdk.Testapp.Ports.Lock.{LeavesLock, callbacks-LeavesLock}
use xdma_dpdk.Testapp.Threads.{
  thread_num, run_fpga_to_fpga, run_switch_start, args_of, launch, IsApart, launch-IsApart,
}
use xdma_dpdk.Tests.{dev_1, v_1, queue_1, queue_1-IsIdle, queue_1-AllRx, bufs_1, stream_1}
use xdma_dpdk.Tests.Public.{slot_1, slots_1}

-- Both devices show five packets.
abbrev wire_1 : Wire
wire_1 = record {
  src_dev = dev_1;
  dst_dev = dev_1;
  rx_loads = λ t. 5;
  stream = stream_1;
  test_bytes = λ i. 0x7f;
  chain = λ a. [];
  tx_loads = λ t. 5;
  fuel = 3;
}

abbrev forwarder_1 : Forwarder
forwarder_1 = record {
  src = queue_1 c2h;
  dst = queue_1 h2c;
  bus = [];
  pkts = bufs_1;
  pkts_buffer_idx = 0;
  recv_pkts = 64;
  recv_batch = 7;
  xmit_pkts = 64;
  xmit_batch = 7;
  sent = [];
}

forwarder_1-IsForwarding : IsForwarding v_1 idle forwarder_1
forwarder_1-IsForwarding = record {
  receives = ((queue_1-IsIdle c2h).0, queue_1-AllRx);
  idle = (queue_1-IsIdle h2c).0;
  free = (queue_1-IsIdle h2c).1;
  size = omega arith;
  index = refl;
  totals = refl;
  batches = refl;
}

forward_round-Forwards_example :
    Forwards v_1 wire_1 idle
      (found_by wire_1.rx_loads idle)
      forwarder_1
      (forward_round wire_1 forwarder_1)
unfolding poll_count
forward_round-Forwards_example =
    forward_round-Forwards v_1 wire_1 idle forwarder_1 forwarder_1-IsForwarding
      (omega arith, omega arith) (λ i lo hi. refl)
      (λ some_one. (0, omega arith, refl, λ j p. absurd (omega arith)))

-- In the second round the devices show nothing new.
forward_loop_refines_example :
    (f' : Forwarder) × (forward_loop (wire_1 ∷ wire_1 ∷ []) forwarder_1 ≡ some (goes_on f'))
    × IsForwarding v_1 (final idle (wire_1 ∷ wire_1 ∷ [])) f'
    × (f'.recv_pkts ≡ 69)
    × (length f'.sent ≡ 5)
unfolding poll_count
forward_loop_refines_example =
    forward_loop_refines v_1 (wire_1 ∷ wire_1 ∷ []) idle forwarder_1 forwarder_1-IsForwarding (
      (omega arith, omega arith),
      λ i lo hi. refl,
      λ some_one. (0, omega arith, refl, λ j p. absurd (omega arith)),
      (tt, λ i lo hi. refl, λ some_one. absurd (some_one refl), tt),
    )

-- Five packets are received, and the network card takes all.
abbrev meets_1 : Meets
meets_1 = record {
  src_dev = dev_1;
  rx_loads = λ t. 5;
  stream = stream_1;
  chain = λ a. [];
  tx_burst = λ ps. length ps;
}

abbrev transfer_1 : Transfer
transfer_1 = record {
  src = queue_1 c2h;
  bus = [];
  pkts = bufs_1;
  recv_pkts = 0;
  recv_batch = 0;
  xmit_pkts = 0;
  xmit_batch = 0;
  target_num = 5;
}

transfer_1_reaches : 5 ≤ (transfer_round meets_1 transfer_1).xmit_pkts
unfolding transfer_round transfer_burst poll_count
transfer_1_reaches =
    let o = xdma_recv_pkts (λ t. 5) stream_1 dev_1 32 bufs_1 (queue_1 c2h) [] in
    let got : o.nb_cmpt_desc ≡ 5 =
      (xdma_recv_pkts_refines v_1 dev_1 bufs_1 [] (λ t. 5) stream_1 idle (queue_1 c2h) (omega arith)
        ((queue_1-IsIdle c2h).0, queue_1-AllRx) (omega arith, omega arith)).0 in
    subst
      (λ n.
        5
        ≤ (transfer_burst meets_1 n
            (record transfer_1 { src = o.queue; pkts = o.rx_pkts; bus = o.bus })).xmit_pkts)
      (sym got) (omega arith)

transfer_loop_lem_example : transfer_loop 3 (λ t. meets_1) 5 0 transfer_1 ≡ (
    if (transfer_round meets_1 transfer_1).xmit_pkts == 5
    then some (transfer_round meets_1 transfer_1)
    else none)
transfer_loop_lem_example =
    transfer_loop_lem (λ t. meets_1) 5 3 0 transfer_1 (omega arith) (omega arith)
      (λ j p. absurd (omega arith)) transfer_1_reaches

abbrev regs_1 : LatRegs
regs_1 = record {
  soft_clear = 0;
  mode = λ ch. 0x10 + ch;
  interval = λ ch. 0x20 + ch;
  explambda = λ ch. 0x30 + ch;
  packetnum = λ ch. 0x40 + ch;
  seed = λ ch. 0x50 + ch;
  start = λ ch. 0x60 + ch;
  stop = λ ch. 0x70 + ch;
  recvcount = λ ch. 0x80 + ch;
  rx_done = λ ch. 0x90 + ch;
  accum_hi = λ ch i. 0x100 + i;
}

switch_setup-AllRead_example :
    (before : Bus) × (switch_setup regs_1 slots_1 16 []
      ≡ some (pos 0, store (user_addr slot_1 0x60) 1 ∷ before))
    × AllRead slot_1 (memory (λ a. 0) before) slots_1 (configuration regs_1 16)
switch_setup-AllRead_example =
    switch_setup-AllRead regs_1 slots_1 slot_1 (λ a. 0) 16 [] refl
      (
        (
          omega arith,
          (omega arith, (omega arith, (omega arith, (omega arith, (omega arith, tt))))),
        ),
        (
          (omega arith, (omega arith, (omega arith, (omega arith, (omega arith, tt))))),
          (
            (omega arith, (omega arith, (omega arith, (omega arith, tt)))),
            (
              (omega arith, (omega arith, (omega arith, tt))),
              ((omega arith, (omega arith, tt)), ((omega arith, tt), (tt, tt))),
            ),
          ),
        ),
      )

reachable_lem_example :
    (missed.shared.ready_count ≡ counted missed.left_pc + counted missed.right_pc)
    × ((m n : ℕ) → ¬ ((missed.left_pc ≡ loaded m) × (missed.right_pc ≡ loaded n)))
    × (missed.shared.main_pc ≡ passed
        → (counted missed.left_pc ≡ 1) × (counted missed.right_pc ≡ 1))
reachable_lem_example = reachable_lem missed missed-Reachable

-- The calls of a healthy device.
abbrev dpdk_1 : List Call → Call → ℤ
dpdk_1 calls c = pos 1

abbrev world_1 : World
world_1 = record {
  pinfo = record {
    num_queues = 2;
    nb_descs = 32;
    st_queues = 2;
    buff_size = 1024;
    port_update_lock = false;
  };
  calls = [];
}

callbacks-LeavesLock_example :
    LeavesLock false (dev_remove_callback dpdk_1 intr_reset world_1)
    × LeavesLock false (dev_reset_callback dpdk_1 intr_reset world_1)
callbacks-LeavesLock_example = callbacks-LeavesLock dpdk_1 intr_reset world_1 refl

launch-IsApart_example :
    let (jobs, exited) = launch (λ i. true) thread_num 0 in
    (exited ≡ false)
    × (get_elem? jobs 2 ≡ some run_switch_start)
    × (get_elem? jobs 0 ≡ some (run_fpga_to_fpga (args_of 0)))
    × (get_elem? jobs 1 ≡ some (run_fpga_to_fpga (args_of 1)))
    × IsApart (args_of 0) (args_of 1)
launch-IsApart_example = launch-IsApart (λ i. true) (λ i. refl) 2 0 1 (omega arith) (omega arith)
