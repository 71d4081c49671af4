-- ===== src/Testapp/Main/Full.antt =====
-- When the main functions start a thread, all arrays of buffers are full.
use xdma_dpdk.Base.{ℕ, zero, suc, ◌<◌, ◌≡◌, refl, ◌∙◌, inr, Bool, List, [], ◌∷◌, arith}
use xdma_dpdk.Base.Int.{ℤ, pos, eqb_ℤ}
use xdma_dpdk.Testapp.Ports.{port_init_nic, port_init_xdma}
use xdma_dpdk.Testapp.Threads.{Job, thread_num, launch}
use xdma_dpdk.Testapp.Main.{
  Act, eal_cleanup, on_main_lcore, remote_launch, wait_lcore, thread_create, thread_join, Process,
  Part, ◌>>=◌, return, quit, ask, start_app, launch_jobs, wait_lcores, run_threads, inter_main,
}
use xdma_dpdk.Testapp.Main.Logic.{Ends, Takes}
use xdma_dpdk.Testapp.Main.Count.{args_0, args_1, count_main}
use xdma_dpdk.Testapp.Main.Stock.{
  NoThread, IsFull, IsSound, Filling, rounds, Filling-IsStable, IsFull-IsStable, Keeps, next,
  take_buffers-Filling,
}
use xdma_dpdk.Testapp.Main.Stocked.{
  then_part, return_keeps, on_keeps, start_app_keeps, end_app_ends, with_pool_ends, picks,
}

module _ (answer : List Act → Act → ℤ) (n : ℕ) where
  -- Once the arrays are full any call leaves them so.
  ask-IsFull : (a : Act) → Keeps n (IsFull n) (IsFull n) (ask answer a)
  unfolding Keeps Takes
  ask-IsFull a = λ p h. h

  after-IsFull :
      (a : Act) (f : ℤ → Part ℤ)
      → ((ret : ℤ) → Keeps n (IsFull n) (IsSound n) (f ret))
      → Keeps n (IsFull n) (IsSound n) (ask answer a >>= f)
  after-IsFull a f h =
      next answer n (IsFull n) (IsFull n) (IsSound n) (ask answer a) f (ask-IsFull a) h

  from-IsFull :
      (P Q : Process → Type 0) (m : Part ℤ)
      → ((p : Process) → P p → IsFull n p)
      → Keeps n (IsFull n) Q m
      → Keeps n P Q m
  unfolding Keeps Takes
  from-IsFull P Q m weaker h = λ p c. h p (weaker p c)

  launch_jobs-IsFull : (jobs : List Job) → Keeps n (IsFull n) (IsFull n) (launch_jobs answer jobs)
  unfolding launch_jobs
  launch_jobs-IsFull [] = return_keeps answer n (IsFull n) (IsFull-IsStable n) (pos 0)
  launch_jobs-IsFull (job ∷ jobs) =
      next answer n (IsFull n) (IsFull n) (IsFull n) (ask answer (remote_launch job)) _
        (ask-IsFull (remote_launch job)) λ _. launch_jobs-IsFull jobs

  wait_lcores-IsFull : (cores : List ℕ) → Keeps n (IsFull n) (IsFull n) (wait_lcores answer cores)
  unfolding wait_lcores
  wait_lcores-IsFull [] = return_keeps answer n (IsFull n) (IsFull-IsStable n) (pos 0)
  wait_lcores-IsFull (core ∷ cores) =
      next answer n (IsFull n) (IsFull n) (IsFull n) (ask answer (wait_lcore core)) _
        (ask-IsFull (wait_lcore core)) λ _. wait_lcores-IsFull cores

  quit-IsFull : Keeps n (IsFull n) (IsFull n) quit
  unfolding Keeps Takes
  quit-IsFull = λ p h. inr h

  run_threads-IsFull :
      (enabled : ℕ → Bool) (workers : List ℕ)
      → Keeps n (IsFull n) (IsFull n) (run_threads answer enabled workers)
  unfolding run_threads
  run_threads-IsFull enabled workers =
      let full = IsFull n in
      let stable = IsFull-IsStable n in
      let zero_back = return_keeps answer n full stable (pos 0) in
      next answer n full full full (ask answer on_main_lcore) _ (ask-IsFull on_main_lcore) λ main.
        next answer n full full full _ _
          (picks answer n full stable (eqb_ℤ main 0) (return (pos 0)) _ zero_back (
            next answer n full full full (launch_jobs answer (launch enabled thread_num 0).0) _
              (launch_jobs-IsFull (launch enabled thread_num 0).0)
              λ _.
                picks answer n full stable (launch enabled thread_num 0).1 quit (return (pos 0))
                  quit-IsFull zero_back))
          λ _.
            next answer n full full full (wait_lcores answer workers) _ (wait_lcores-IsFull workers)
              λ _. ask-IsFull eal_cleanup

nothing : ℕ → ℕ
nothing i = 0

-- The loops of testapp_inter.c fill its six arrays, and that of testapp_count.c its two.
six : (i : ℕ) → i < 6 → rounds 32 (0 ∷ 2 ∷ 4 ∷ []) (rounds 32 (1 ∷ 3 ∷ 5 ∷ []) nothing) i ≡ 32
unfolding nothing
six zero h = refl
six (suc zero) h = refl
six (suc (suc zero)) h = refl
six (suc (suc (suc zero))) h = refl
six (suc (suc (suc (suc zero)))) h = refl
six (suc (suc (suc (suc (suc zero))))) h = refl
six (suc (suc (suc (suc (suc (suc i)))))) h = absurd (omega arith)

two : (i : ℕ) → i < 2 → rounds 32 (0 ∷ 1 ∷ []) nothing i ≡ 32
unfolding nothing
two zero h = refl
two (suc zero) h = refl
two (suc (suc i)) h = absurd (omega arith)

Filling-IsFull :
    (n : ℕ) (f : ℕ → ℕ) (p : Process) → ((i : ℕ) → i < n → f i ≡ 32) → Filling f p → IsFull n p
Filling-IsFull n f p all h i p' = ((h.1 i).0 ∙ all i p', (h.1 i).1)

module _ (answer : List Act → Act → ℤ) where
  inter_main_sound :
      (enabled : ℕ → Bool) (workers : List ℕ)
      → Keeps 6 (Filling nothing) (IsSound 6) (inter_main answer enabled workers)
  unfolding inter_main
  inter_main_sound enabled workers =
      let f0 = Filling nothing in
      let s0 = Filling-IsStable 6 nothing in
      let f1 = rounds 32 (1 ∷ 3 ∷ 5 ∷ []) nothing in
      let f2 = rounds 32 (0 ∷ 2 ∷ 4 ∷ []) f1 in
      let full = IsFull 6 in
      then_part answer 6 f0 s0 (IsSound 6) (start_app answer) _ (start_app_keeps answer 6 f0 s0)
        λ n.
          then_part answer 6 f0 s0 (IsSound 6) _ _
            (on_keeps answer 6 f0 s0 0 λ dpdk. port_init_nic dpdk 4 4 32 1024)
            λ _.
              then_part answer 6 f0 s0 (IsSound 6) _ _
                (on_keeps answer 6 f0 s0 1 λ dpdk. port_init_xdma dpdk 4 4 32 1024)
                λ _. with_pool_ends answer 6 f0 s0 0 _ (
                  next answer 6 f0 (Filling f1) (IsSound 6) _ _
                    (take_buffers-Filling answer 6 nothing 0 (1 ∷ 3 ∷ 5 ∷ []) 32)
                    λ _. with_pool_ends answer 6 (Filling f1) (Filling-IsStable 6 f1) 1 _ (
                      next answer 6 (Filling f1) (Filling f2) (IsSound 6) _ _
                        (take_buffers-Filling answer 6 f1 1 (0 ∷ 2 ∷ 4 ∷ []) 32)
                        λ _.
                          from-IsFull answer 6 (Filling f2) (IsSound 6) _
                            (λ p h. Filling-IsFull 6 f2 p six h)
                            (next answer 6 full full (IsSound 6)
                              (run_threads answer enabled workers) _
                              (run_threads-IsFull answer 6 enabled workers)
                              λ _. end_app_ends answer 6 full (IsFull-IsStable 6) n)))

  count_main_sound : Keeps 2 (Filling nothing) (IsSound 2) (count_main answer)
  unfolding count_main
  count_main_sound =
      let f0 = Filling nothing in
      let s0 = Filling-IsStable 2 nothing in
      let f1 = rounds 32 (0 ∷ 1 ∷ []) nothing in
      then_part answer 2 f0 s0 (IsSound 2) (start_app answer) _ (start_app_keeps answer 2 f0 s0)
        λ n.
          then_part answer 2 f0 s0 (IsSound 2) _ _
            (on_keeps answer 2 f0 s0 0 λ dpdk. port_init_xdma dpdk 4 4 1 1024)
            λ _.
              then_part answer 2 f0 s0 (IsSound 2) _ _
                (on_keeps answer 2 f0 s0 1 λ dpdk. port_init_xdma dpdk 4 4 1 1024)
                λ _. with_pool_ends answer 2 f0 s0 0 _ (
                  next answer 2 f0 (Filling f1) (IsSound 2) _ _
                    (take_buffers-Filling answer 2 nothing 0 (0 ∷ 1 ∷ []) 32)
                    λ _.
                      from-IsFull answer 2 (Filling f1) (IsSound 2) _
                        (λ p h. Filling-IsFull 2 f1 p two h)
                        (after-IsFull answer 2 (thread_create args_0) _ λ _.
                          after-IsFull answer 2 (thread_create args_1) _ λ _.
                            after-IsFull answer 2 (thread_join 0) _ λ _.
                              after-IsFull answer 2 (thread_join 1) _
                                λ _. end_app_ends answer 2 (IsFull 2) (IsFull-IsStable 2) n))

  -- Whatever the calls answer, and wherever the programs end: from empty arrays on, if a main
  -- function has started a thread, then each of its arrays (six in testapp_inter.c, two in
  -- testapp_count.c) holds 32 buffers, none of which is NULL.
  pub mains-IsSound :
      (enabled : ℕ → Bool) (workers : List ℕ) (p : Process)
      → NoThread p.acts
      → ((i : ℕ) → p.pkts i ≡ [])
      → Ends (IsSound 6) (IsSound 6) (IsSound 6) (inter_main answer enabled workers p)
        × Ends (IsSound 2) (IsSound 2) (IsSound 2) (count_main answer p)
  unfolding Keeps Takes nothing
  mains-IsSound enabled workers p none empty =
      let filling : Filling nothing p = (none, λ i. rw (empty i) (refl, tt)) in
      (inter_main_sound enabled workers p filling, count_main_sound p filling)
