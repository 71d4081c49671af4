-- ===== src/Testapp/Main/Quiet.antt =====
-- The main functions touch no port while a callback is registered, and spin on no lock.
use xdma_dpdk.Base.{ℕ, zero, suc, refl, Bool, false, List, [], ◌∷◌}
use xdma_dpdk.Base.Int.{ℤ, pos, negsuc, eqb_ℤ}
use xdma_dpdk.Engine.{positive_part}
use xdma_dpdk.Testapp.Ports.{pool_lookup, port_init_nic, port_init_xdma, main_remove_port}
use xdma_dpdk.Testapp.Ports.Lock.{init_keeps}
use xdma_dpdk.Testapp.Threads.{Job, thread_num, launch}
use xdma_dpdk.Testapp.Main.{
  Act, eal_cleanup, count_avail, at, pktmbuf_alloc, set_data_len, on_main_lcore, remote_launch,
  wait_lcore, thread_create, thread_join, Process, Part, ◌>>=◌, return, quit, fault, free_lock,
  put_buffer, ask, on, start_app, take_buffer, take_round, take_buffers, remove_ports, end_app,
  with_pool, launch_jobs, wait_lcores, run_threads, inter_main,
}
use xdma_dpdk.Testapp.Main.Count.{args_0, args_1, count_main}
use xdma_dpdk.Testapp.Main.Logic
use xdma_dpdk.Testapp.Main.Calm.{
  registered, IsCalm, EndsCalm, Keeps, Quiet, seq, choose, return-Quiet, quit-Quiet,
  free_lock-Quiet, Plain, ask-Quiet, on-Quiet,
}
use xdma_dpdk.Testapp.Main.Locks.{port_init_nic_keeps, main_remove_port_keeps}
use xdma_dpdk.Testapp.Main.Start.{AlwaysSheds, start_app-Quiet}

module _ (answer : List Act → Act → ℤ) where
  fault-Quiet : Keeps answer (Quiet answer) (Quiet answer) fault
  unfolding Logic.Takes
  fault-Quiet = λ p c. c.0.undisturbed

  put-Quiet :
      (array : ℕ) (mb : ℤ) → Keeps answer (Quiet answer) (Quiet answer) (put_buffer array mb)
  unfolding Logic.Takes
  put-Quiet array mb = λ p c. (record { free = c.0.free; undisturbed = c.0.undisturbed }, c.1)

  -- A call in front.
  after_ask :
      {A : Type 0} (a : Act) (f : ℤ → Part A)
      → (Plain answer) a
      → ((ret : ℤ) → Keeps answer (Quiet answer) (Quiet answer) (f ret))
      → Keeps answer (Quiet answer) (Quiet answer) (ask answer a >>= f)
  after_ask a f plain h =
      seq answer (Quiet answer) (Quiet answer) (Quiet answer) (ask answer a) f
        (ask-Quiet answer a plain) h

  take_buffer-Quiet :
      (pool array : ℕ) → Keeps answer (Quiet answer) (Quiet answer) (take_buffer answer pool array)
  unfolding take_buffer Plain registered
  take_buffer-Quiet pool array =
      after_ask (pktmbuf_alloc pool) _ (λ e acts. refl)
        λ mb.
          seq answer (Quiet answer) (Quiet answer) (Quiet answer) (put_buffer array mb) _
            (put-Quiet array mb)
            λ _.
              choose answer (Quiet answer) (Quiet answer) (eqb_ℤ mb 0) fault _ fault-Quiet
                (ask-Quiet answer (set_data_len mb 65535) (λ e acts. refl))

  take_round-Quiet :
      (pool : ℕ) (arrays : List ℕ)
      → Keeps answer (Quiet answer) (Quiet answer) (take_round answer pool arrays)
  unfolding take_round
  take_round-Quiet pool [] = return-Quiet answer (Quiet answer) (pos 0)
  take_round-Quiet pool (array ∷ arrays) =
      seq answer (Quiet answer) (Quiet answer) (Quiet answer) (take_buffer answer pool array) _
        (take_buffer-Quiet pool array) λ _. take_round-Quiet pool arrays

  take_buffers-Quiet :
      (pool : ℕ) (arrays : List ℕ) (left : ℕ)
      → Keeps answer (Quiet answer) (Quiet answer) (take_buffers answer pool arrays left)
  unfolding take_buffers
  take_buffers-Quiet pool arrays zero = return-Quiet answer (Quiet answer) (pos 0)
  take_buffers-Quiet pool arrays (suc left) =
      seq answer (Quiet answer) (Quiet answer) (Quiet answer) (take_round answer pool arrays) _
        (take_round-Quiet pool arrays) λ _. take_buffers-Quiet pool arrays left

  remove_ports-Quiet :
      (left : ℕ) → Keeps answer (Quiet answer) (Quiet answer) (remove_ports answer left)
  unfolding remove_ports
  remove_ports-Quiet zero = return-Quiet answer (Quiet answer) (pos 0)
  remove_ports-Quiet (suc left) =
      seq answer (Quiet answer) (Quiet answer) (Quiet answer) (on answer left main_remove_port) _
        (on-Quiet answer left main_remove_port λ dpdk. main_remove_port_keeps dpdk false)
        λ _. remove_ports-Quiet left

  end_app-Quiet : (n : ℤ) → Keeps answer (Quiet answer) (Quiet answer) (end_app answer n)
  unfolding end_app Plain registered
  end_app-Quiet n =
      after_ask count_avail _ (λ e acts. refl)
        λ avail.
          choose answer (Quiet answer) (Quiet answer) (eqb_ℤ avail 0) (return (pos 0)) _
            (return-Quiet answer (Quiet answer) (pos 0))
            (seq answer (Quiet answer) (Quiet answer) (Quiet answer)
              (remove_ports answer (positive_part n)) _ (remove_ports-Quiet (positive_part n))
              λ _. return-Quiet answer (Quiet answer) (pos 0))

  with_pool-Quiet :
      (port : ℕ) (k : Part ℤ)
      → Keeps answer (Quiet answer) (Quiet answer) k
      → Keeps answer (Quiet answer) (Quiet answer) (with_pool answer port k)
  unfolding Plain registered
  with_pool-Quiet port k h =
      after_ask (at port pool_lookup) _ (λ e acts. refl)
        λ mp.
          choose answer (Quiet answer) (Quiet answer) (eqb_ℤ mp 0) _ k
            (seq answer (Quiet answer) (Quiet answer) (Quiet answer) (free_lock port) _
              (free_lock-Quiet answer port) λ _. return-Quiet answer (Quiet answer) (negsuc 0))
            h

  launch_jobs-Quiet :
      (jobs : List Job) → Keeps answer (Quiet answer) (Quiet answer) (launch_jobs answer jobs)
  unfolding launch_jobs Plain registered
  launch_jobs-Quiet [] = return-Quiet answer (Quiet answer) (pos 0)
  launch_jobs-Quiet (job ∷ jobs) =
      after_ask (remote_launch job) _ (λ e acts. refl) λ _. launch_jobs-Quiet jobs

  wait_lcores-Quiet :
      (cores : List ℕ) → Keeps answer (Quiet answer) (Quiet answer) (wait_lcores answer cores)
  unfolding wait_lcores Plain registered
  wait_lcores-Quiet [] = return-Quiet answer (Quiet answer) (pos 0)
  wait_lcores-Quiet (core ∷ cores) =
      after_ask (wait_lcore core) _ (λ e acts. refl) λ _. wait_lcores-Quiet cores

  run_threads-Quiet :
      (enabled : ℕ → Bool) (workers : List ℕ)
      → Keeps answer (Quiet answer) (Quiet answer) (run_threads answer enabled workers)
  unfolding run_threads Plain registered
  run_threads-Quiet enabled workers =
      after_ask on_main_lcore _ (λ e acts. refl)
        λ main.
          seq answer (Quiet answer) (Quiet answer) (Quiet answer) _ _
            (choose answer (Quiet answer) (Quiet answer) (eqb_ℤ main 0) (return (pos 0)) _
              (return-Quiet answer (Quiet answer) (pos 0))
              (seq answer (Quiet answer) (Quiet answer) (Quiet answer)
                (launch_jobs answer (launch enabled thread_num 0).0) _
                (launch_jobs-Quiet (launch enabled thread_num 0).0)
                λ _.
                  choose answer (Quiet answer) (Quiet answer) (launch enabled thread_num 0).1 quit
                    (return (pos 0)) (quit-Quiet answer)
                    (return-Quiet answer (Quiet answer) (pos 0))))
            λ _.
              seq answer (Quiet answer) (Quiet answer) (Quiet answer) (wait_lcores answer workers) _
                (wait_lcores-Quiet workers) λ _. ask-Quiet answer eal_cleanup (λ e acts. refl)

  inter_main-Quiet :
      AlwaysSheds answer
      → (enabled : ℕ → Bool) (workers : List ℕ)
      → Keeps answer (IsCalm answer) (Quiet answer) (inter_main answer enabled workers)
  unfolding inter_main
  inter_main-Quiet sheds enabled workers =
      seq answer (IsCalm answer) (Quiet answer) (Quiet answer) (start_app answer) _
        (start_app-Quiet answer sheds)
        λ n.
          seq answer (Quiet answer) (Quiet answer) (Quiet answer)
            (on answer 0 (λ dpdk. port_init_nic dpdk 4 4 32 1024)) _
            (on-Quiet answer 0 _ λ dpdk. port_init_nic_keeps dpdk false 4 4 32 1024)
            λ _.
              seq answer (Quiet answer) (Quiet answer) (Quiet answer)
                (on answer 1 (λ dpdk. port_init_xdma dpdk 4 4 32 1024)) _
                (on-Quiet answer 1 _ λ dpdk. init_keeps dpdk false 4 4 32 1024)
                λ _. with_pool-Quiet 0 _ (
                  seq answer (Quiet answer) (Quiet answer) (Quiet answer)
                    (take_buffers answer 0 (1 ∷ 3 ∷ 5 ∷ []) 32) _
                    (take_buffers-Quiet 0 (1 ∷ 3 ∷ 5 ∷ []) 32)
                    λ _. with_pool-Quiet 1 _ (
                      seq answer (Quiet answer) (Quiet answer) (Quiet answer)
                        (take_buffers answer 1 (0 ∷ 2 ∷ 4 ∷ []) 32) _
                        (take_buffers-Quiet 1 (0 ∷ 2 ∷ 4 ∷ []) 32)
                        λ _.
                          seq answer (Quiet answer) (Quiet answer) (Quiet answer)
                            (run_threads answer enabled workers) _
                            (run_threads-Quiet enabled workers) λ _. end_app-Quiet n))

  count_main-Quiet :
      AlwaysSheds answer → Keeps answer (IsCalm answer) (Quiet answer) (count_main answer)
  unfolding count_main Plain registered
  count_main-Quiet sheds =
      seq answer (IsCalm answer) (Quiet answer) (Quiet answer) (start_app answer) _
        (start_app-Quiet answer sheds)
        λ n.
          seq answer (Quiet answer) (Quiet answer) (Quiet answer)
            (on answer 0 (λ dpdk. port_init_xdma dpdk 4 4 1 1024)) _
            (on-Quiet answer 0 _ λ dpdk. init_keeps dpdk false 4 4 1 1024)
            λ _.
              seq answer (Quiet answer) (Quiet answer) (Quiet answer)
                (on answer 1 (λ dpdk. port_init_xdma dpdk 4 4 1 1024)) _
                (on-Quiet answer 1 _ λ dpdk. init_keeps dpdk false 4 4 1 1024)
                λ _. with_pool-Quiet 0 _ (
                  seq answer (Quiet answer) (Quiet answer) (Quiet answer)
                    (take_buffers answer 0 (0 ∷ 1 ∷ []) 32) _ (take_buffers-Quiet 0 (0 ∷ 1 ∷ []) 32)
                    λ _.
                      after_ask (thread_create args_0) _ (λ e acts. refl)
                        λ _.
                          after_ask (thread_create args_1) _ (λ e acts. refl)
                            λ _.
                              after_ask (thread_join 0) _ (λ e acts. refl)
                                λ _.
                                  after_ask (thread_join 1) _ (λ e acts. refl) λ _. end_app-Quiet n)

  -- From a start at which every lock is free and no call about a port or start of a thread came
  -- while a callback was registered, and if unregistering a callback never fails: whatever the
  -- other calls answer, both main functions spin on no lock. They make every call about a port and
  -- start every thread while no callback is registered, also if they exit or dereference NULL. If
  -- they return, every lock is free, and no callback is registered.
  pub mains-EndsCalm :
      AlwaysSheds answer
      → (enabled : ℕ → Bool) (workers : List ℕ) (p : Process) → (IsCalm answer) p
      → EndsCalm answer (Quiet answer) (inter_main answer enabled workers p)
        × EndsCalm answer (Quiet answer) (count_main answer p)
  unfolding Logic.Takes
  mains-EndsCalm sheds enabled workers p calm =
      (inter_main-Quiet sheds enabled workers p calm, count_main-Quiet sheds p calm)
