-- ===== src/Tests/Mains.antt =====
-- The theorems on the main functions where every call answers that it worked, with two ports; and a
-- run of each.
use xdma_dpdk.Base.{◌≡◌, refl, true, false, Option, none, some, List, [], ◌∷◌}
use xdma_dpdk.Base.Int.{ℤ, pos}
use xdma_dpdk.Testapp.Ports.{port_init_nic, port_init_xdma, main_remove_port}
use xdma_dpdk.Testapp.Threads.{Job, run_switch_start, run_fpga_to_fpga, args_of, launch}
use xdma_dpdk.Testapp.Main.{
  Act, count_avail, remote_launch, thread_create, Process, Ending, goes, exited, stuck, faulted,
  inter_main,
}
use xdma_dpdk.Testapp.Main.Logic.{Ends}
use xdma_dpdk.Testapp.Main.Calm.{IsCalm, EndsCalm, Quiet}
use xdma_dpdk.Testapp.Main.Quiet.{mains-EndsCalm}
use xdma_dpdk.Testapp.Main.Stock.{IsSound}
use xdma_dpdk.Testapp.Main.Full.{mains-IsSound}
use xdma_dpdk.Testapp.Main.Count.{args_0, args_1, count_main}

abbrev answer_1 : List Act → Act → ℤ
answer_1 acts count_avail = pos 2
answer_1 acts _ = pos 1

abbrev fresh_1 : Process
fresh_1 = record {
  pinfo = λ port. record {
    num_queues = 0;
    nb_descs = 0;
    st_queues = 0;
    buff_size = 0;
    port_update_lock = false;
  };
  pkts = λ i. [];
  acts = [];
}

fresh_1-IsCalm : IsCalm answer_1 fresh_1
fresh_1-IsCalm = record { free = λ port. refl; undisturbed = tt }

mains-EndsCalm_example :
    EndsCalm answer_1 (Quiet answer_1) (inter_main answer_1 (λ i. true) (4 ∷ 6 ∷ 8 ∷ []) fresh_1)
    × EndsCalm answer_1 (Quiet answer_1) (count_main answer_1 fresh_1)
mains-EndsCalm_example =
    mains-EndsCalm answer_1 (λ e acts. refl) (λ i. true) (4 ∷ 6 ∷ 8 ∷ []) fresh_1 fresh_1-IsCalm

mains-IsSound_example :
    Ends
      (IsSound 6)
      (IsSound 6)
      (IsSound 6)
      (inter_main answer_1 (λ i. true) (4 ∷ 6 ∷ 8 ∷ []) fresh_1)
    × Ends (IsSound 2) (IsSound 2) (IsSound 2) (count_main answer_1 fresh_1)
mains-IsSound_example = mains-IsSound answer_1 (λ i. true) (4 ∷ 6 ∷ 8 ∷ []) fresh_1 tt (λ i. refl)

-- What a run returns, and the threads that it has started, the latest first.
abbrev threads_of : List Act → List Job
threads_of [] = []
threads_of (remote_launch job ∷ acts) = job ∷ threads_of acts
threads_of (thread_create args ∷ acts) = run_fpga_to_fpga args ∷ threads_of acts
threads_of (_ ∷ acts) = threads_of acts

abbrev shown_of : Ending ℤ → Option (ℤ × List Job)
shown_of (goes ret p) = some (ret, threads_of p.acts)
shown_of (exited p) = none
shown_of (stuck p) = none
shown_of (faulted p) = none

inter_main_run :
    shown_of (inter_main answer_1 (λ i. true) (4 ∷ 6 ∷ 8 ∷ []) fresh_1)
    ≡ some
        (pos 0, run_switch_start ∷ run_fpga_to_fpga (args_of 1) ∷ run_fpga_to_fpga (args_of 0) ∷ [])
unfolding inter_main port_init_nic port_init_xdma launch main_remove_port
inter_main_run = refl

count_main_run :
    shown_of (count_main answer_1 fresh_1)
    ≡ some (pos 0, run_fpga_to_fpga args_1 ∷ run_fpga_to_fpga args_0 ∷ [])
unfolding count_main port_init_xdma main_remove_port
count_main_run = refl
