-- ===== src/Testapp/Main.antt =====
-- The main functions of examples/xdma_testapp/testapp_inter.c and testapp_count.c, from the start of
-- DPDK to the removal of the ports. What each call answers is a parameter, which may depend on all
-- calls before; queries whose answer is only logged are left out. `data_len` of a fresh buffer is a
-- call too.
pub mod Count
pub mod Logic
pub mod Calm
pub mod Stock
pub mod Stocked
pub mod Full
pub mod Locks
pub mod Start
pub mod Quiet
use xdma_dpdk.Base.{
  ℕ, zero, suc, ◌+◌, ◌-◌, Bool, true, false, List, [], ◌∷◌, ◌++◌, map, ◌==◌, if◌then◌else◌,
}
use xdma_dpdk.Base.Int.{ℤ, pos, negsuc, is_neg, eqb_ℤ}
use xdma_dpdk.Engine.{positive_part}
use xdma_dpdk.Testapp.Ports.{
  Call, pool_lookup, PortInfo, World, Run, returns, exits, spins, App, EventType, intr_rmv,
  intr_reset, set_lock, port_init_nic, port_init_xdma, main_remove_port,
}
use xdma_dpdk.Testapp.Threads.{ThreadArgs, Job, thread_num, launch}

-- A call of the program; `at` is one about a port.
pub data Act : Type 0 where
  eal_init : Act
  eal_cleanup : Act
  count_avail : Act
  callback_register : EventType → Act
  callback_unregister : EventType → Act
  memzone_reserve : Act
  at : (port : ℕ) → Call → Act
  pktmbuf_alloc : (pool : ℕ) → Act
  set_data_len : (mbuf : ℤ) → ℕ → Act
  on_main_lcore : Act
  remote_launch : Job → Act
  wait_lcore : ℕ → Act
  thread_create : ThreadArgs → Act
  thread_join : ℕ → Act

-- The program's global state: the ports, the arrays of buffers filled so far, and the calls, the
-- latest first.
pub record Process : Type 0 where
  pub pinfo : ℕ → PortInfo
  pub pkts : ℕ → List ℤ
  pub acts : List Act

-- How a part of the program ends: it goes on, the program exits at `rte_exit`, it spins on a lock
-- that is held, or it dereferences NULL.
pub data Ending (A : Type 0) : Type 0 where
  goes : A → Process → Ending A
  exited : Process → Ending A
  stuck : Process → Ending A
  faulted : Process → Ending A

abbrev pub Part : Type 0 → Type 0
Part A = Process → Ending A

abbrev pub continue : {A B : Type 0} → Ending A → (A → Part B) → Ending B
continue (goes a p) f = f a p
continue (exited p) f = exited p
continue (stuck p) f = stuck p
continue (faulted p) f = faulted p

infixl 5 ◌>>=◌ ◌>>◌
abbrev pub ◌>>=◌ : {A B : Type 0} → Part A → (A → Part B) → Part B
(m >>= f) p = continue (m p) f

abbrev pub ◌>>◌ : {A B : Type 0} → Part A → Part B → Part B
m >> k = m >>= λ _. k

abbrev pub return : {A : Type 0} → A → Part A
return a p = goes a p

abbrev pub quit : Part ℤ
quit p = exited p

abbrev pub fault : Part ℤ
fault p = faulted p

abbrev pub change : {A : Type 0} → (A → A) → ℕ → (ℕ → A) → ℕ → A
change f i xs k = if k == i then f (xs k) else xs k

-- A spinlock is set free, by `rte_spinlock_init` or `rte_spinlock_unlock`.
abbrev pub free_lock : ℕ → Part ℤ
free_lock port p = goes (pos 0) (record p { pinfo = change (set_lock false) port p.pinfo })

abbrev pub put_buffer : (array : ℕ) → ℤ → Part ℤ
put_buffer array mb p =
    goes (pos 0) (record p { pkts = change (λ xs. xs ++ (mb ∷ [])) array p.pkts })

-- `for (port_id = 0; port_id < num_ports; port_id++)`, with `left` of its rounds to go.
unfoldable pub init_locks : (left port : ℕ) → Part ℤ
init_locks zero port = return (pos 0)
init_locks (suc left) port = free_lock port >> init_locks left (port + 1)

module _ (answer : List Act → Act → ℤ) where
  abbrev pub ask : Act → Part ℤ
  ask a p = goes (answer p.acts a) (record p { acts = a ∷ p.acts })

  -- A function of a port, called by the program.
  abbrev pub resume : ℕ → Process → Run ℤ → Ending ℤ
  resume port p (returns ret w) = goes ret (record p {
    pinfo = change (λ _. w.pinfo) port p.pinfo;
    acts = map (at port) w.calls ++ p.acts;
  })
  resume port p (exits w) = exited (record p {
    pinfo = change (λ _. w.pinfo) port p.pinfo;
    acts = map (at port) w.calls ++ p.acts;
  })
  resume port p (spins w) = stuck (record p {
    pinfo = change (λ _. w.pinfo) port p.pinfo;
    acts = map (at port) w.calls ++ p.acts;
  })

  abbrev pub on : ℕ → ((List Call → Call → ℤ) → App ℤ) → Part ℤ
  on port m p = resume port p (
      m (λ calls c. answer (map (at port) calls ++ p.acts) (at port c))
        (record { pinfo = p.pinfo port; calls = [] }))

  -- `if (ret < 0) rte_exit(...)`
  abbrev pub ask_must : Act → Part ℤ
  ask_must a = ask a >>= λ ret. if is_neg ret then quit else return ret

  unfoldable pub rte_pmd_xdma_compat_memzone_reserve_aligned : Part ℤ
  rte_pmd_xdma_compat_memzone_reserve_aligned =
      ask memzone_reserve >>= λ mz. if eqb_ℤ mz 0 then quit else return (pos 0)

  -- Both programs up to the set-up of their ports; the result is `num_ports`.
  unfoldable pub start_app : Part ℤ
  unfolding init_locks rte_pmd_xdma_compat_memzone_reserve_aligned
  start_app = do
    ask_must eal_init
    num_ports ← ask count_avail
    if positive_part num_ports == 0 then quit else (do
      init_locks (positive_part num_ports) 0
      ask_must (callback_register intr_rmv)
      ask_must (callback_register intr_reset)
      rte_pmd_xdma_compat_memzone_reserve_aligned
      ask (callback_unregister intr_rmv)
      ask (callback_unregister intr_reset)
      return num_ports)

  -- `pkts[i] = rte_pktmbuf_alloc(mp); pkts[i]->data_len = 65535;`
  unfoldable pub take_buffer : (pool array : ℕ) → Part ℤ
  take_buffer pool array = do
    mb ← ask (pktmbuf_alloc pool)
    put_buffer array mb
    if eqb_ℤ mb 0 then fault else ask (set_data_len mb 65535)

  -- One round of the loop fills an element of each of these arrays.
  unfoldable pub take_round : (pool : ℕ) → (arrays : List ℕ) → Part ℤ
  unfolding take_buffer
  take_round pool [] = return (pos 0)
  take_round pool (array ∷ arrays) = take_buffer pool array >> take_round pool arrays

  -- `for (int i = 0; i < 32; i++)`, with `left` of its rounds to go.
  unfoldable pub take_buffers : (pool : ℕ) → (arrays : List ℕ) → (left : ℕ) → Part ℤ
  unfolding take_round
  take_buffers pool arrays zero = return (pos 0)
  take_buffers pool arrays (suc left) = take_round pool arrays >> take_buffers pool arrays left

  -- `for (port_id = num_ports - 1; port_id >= 0; port_id--)`, with the ports below `left` to go.
  unfoldable pub remove_ports : (left : ℕ) → Part ℤ
  remove_ports zero = return (pos 0)
  remove_ports (suc left) = on left main_remove_port >> remove_ports left

  -- Both programs from the end of their threads on.
  unfoldable pub end_app : (num_ports : ℤ) → Part ℤ
  unfolding remove_ports
  end_app num_ports = do
    curr_avail_ports ← ask count_avail
    if eqb_ℤ curr_avail_ports 0
        then return (pos 0)
        else (do remove_ports (positive_part num_ports); return (pos 0))

  -- The pool of a port is looked up; without it `main` frees the port's lock and returns -1.
  abbrev pub with_pool : ℕ → Part ℤ → Part ℤ
  with_pool port k = do
    mp ← ask (at port pool_lookup)
    if eqb_ℤ mp 0 then (do free_lock port; return (negsuc 0)) else k

  unfoldable pub launch_jobs : List Job → Part ℤ
  launch_jobs [] = return (pos 0)
  launch_jobs (job ∷ jobs) = ask (remote_launch job) >> launch_jobs jobs

  unfoldable pub wait_lcores : List ℕ → Part ℤ
  wait_lcores [] = return (pos 0)
  wait_lcores (core ∷ cores) = ask (wait_lcore core) >> wait_lcores cores

  -- The threads of testapp_inter.c; `enabled i` is whether the core of thread `i` is there, `workers`
  -- are the cores that are waited for.
  unfoldable pub run_threads : (enabled : ℕ → Bool) → (workers : List ℕ) → Part ℤ
  unfolding launch_jobs wait_lcores
  run_threads enabled workers = do
    main_lcore ← ask on_main_lcore
    (if eqb_ℤ main_lcore 0 then return (pos 0) else (do
      launch_jobs (launch enabled thread_num 0).0
      if (launch enabled thread_num 0).1 then quit else return (pos 0)))
    wait_lcores workers
    ask eal_cleanup

  -- `main` of testapp_inter.c.
  unfoldable pub inter_main : (enabled : ℕ → Bool) → (workers : List ℕ) → Part ℤ
  unfolding start_app take_buffers run_threads end_app
  inter_main enabled workers = do
    num_ports ← start_app
    on 0 (λ dpdk. port_init_nic dpdk 4 4 32 1024)
    on 1 (λ dpdk. port_init_xdma dpdk 4 4 32 1024)
    with_pool 0 (do
      take_buffers 0 (1 ∷ 3 ∷ 5 ∷ []) 32
      with_pool 1
          (do take_buffers 1 (0 ∷ 2 ∷ 4 ∷ []) 32; run_threads enabled workers; end_app num_ports))
