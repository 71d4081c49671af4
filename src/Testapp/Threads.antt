-- ===== src/Testapp/Threads.antt =====
-- The threads that `main` of examples/xdma_testapp/testapp_inter.c starts, each on a core of its own.
-- Starting them and waiting for them is DPDK's.
use xdma_dpdk.Base.{
  ℕ, zero, suc, ◌+◌, ◌/◌, ◌%◌, ◌<◌, ◌≡◌, ◌≢◌, refl, ap, ◌∙◌, Bool, true, false, some, List, [], ◌∷◌,
  get_elem?, ◌==◌, if◌then◌else◌, arith,
}

abbrev pub thread_num : ℕ
thread_num = 3

-- `struct thread_args`, with the fields that are used; the array of buffers is `pkts[pkts_idx]`.
pub record ThreadArgs : Type 0 where
  pub src_port_id : ℕ
  pub src_queue_id : ℕ
  pub dst_port_id : ℕ
  pub dst_queue_id : ℕ
  pub pkts_idx : ℕ

-- What a core runs.
pub data Job : Type 0 where
  run_fpga_to_fpga : ThreadArgs → Job
  run_switch_start : Job

unfoldable pub args_of : (i : ℕ) → ThreadArgs
args_of i = record {
  src_port_id = i % 2;
  src_queue_id = i / 2;
  dst_port_id = (i + 1) % 2;
  dst_queue_id = i / 2;
  pkts_idx = i;
}

-- `for (i = 0; i < THREAD_NUM; i++)`, with `left` of its rounds to go: what was started, and whether
-- the program exited because a core is not there. The last core gets `switch_start`.
unfoldable pub launch : (enabled : ℕ → Bool) → (left i : ℕ) → List Job × Bool
unfolding args_of
launch enabled zero i = ([], false)
launch enabled (suc left) i =
    let job = if left == 0 then run_switch_start else run_fpga_to_fpga (args_of i) in
    let rest = launch enabled left (i + 1) in
    if enabled i then (job ∷ rest.0, rest.1) else ([], true)

-- Two forwarding threads do not touch each other's queues.
pub record IsApart (a b : ThreadArgs) : Type 0 where
  pub receive : a.src_port_id ≡ b.src_port_id → a.src_queue_id ≢ b.src_queue_id
  pub transmit : a.dst_port_id ≡ b.dst_port_id → a.dst_queue_id ≢ b.dst_queue_id
  pub buffers : a.pkts_idx ≢ b.pkts_idx

args_of-IsApart : (i j : ℕ) → i < j → IsApart (args_of i) (args_of j)
unfolding args_of
args_of-IsApart i j h = record {
  receive = λ p q. omega (arith, h, p, q);
  transmit = λ p q. omega (arith, h, p, q);
  buffers = λ p. omega (arith, h, p);
}

module _ (enabled : ℕ → Bool) (all : (i : ℕ) → enabled i ≡ true) where
  launched :
      (left i k : ℕ)
      → k < left
      → get_elem? (launch enabled left i).0 k ≡ (
          if k + 1 == left
          then some run_switch_start
          else some (run_fpga_to_fpga (args_of (i + k))))
  unfolding launch
  launched zero i k h = absurd (omega arith)
  launched (suc zero) i zero h = rw (all i) refl
  launched (suc (suc left)) i zero h =
      let here : args_of i ≡ args_of (i + 0) = ap args_of (omega arith) in
      rw (all i) (ground (arith, here))
  launched (suc left) i (suc k) h =
      let same : args_of (i + 1 + k) ≡ args_of (i + suc k) = ap args_of (omega arith) in
      rw (all i) (launched left (i + 1) k (omega arith) ∙ ground (arith, same))

  no_exit : (left i : ℕ) → (launch enabled left i).1 ≡ false
  unfolding launch
  no_exit zero i = refl
  no_exit (suc left) i = rw (all i) (no_exit left (i + 1))

  -- If the cores are there, `main` starts its threads without leaving: `switch_start` on the last
  -- core, and a forwarding thread on each other. No two of these receive from the same queue of a
  -- port, or send to the same, or share an array of buffers, however many there are.
  pub launch-IsApart :
      (n i j : ℕ)
      → i < j
      → j < n
      → let (jobs, exited) = launch enabled (suc n) 0 in
        (exited ≡ false)
        × (get_elem? jobs n ≡ some run_switch_start)
        × (get_elem? jobs i ≡ some (run_fpga_to_fpga (args_of i)))
        × (get_elem? jobs j ≡ some (run_fpga_to_fpga (args_of j)))
        × IsApart (args_of i) (args_of j)
  launch-IsApart n i j h h' = (
    no_exit (suc n) 0,
    launched (suc n) 0 n (omega arith) ∙ ground arith,
    launched (suc n) 0 i (omega arith) ∙ ground arith,
    launched (suc n) 0 j (omega arith) ∙ ground arith,
    args_of-IsApart i j h,
  )
