-- ===== src/Testapp/Handshake.antt =====
-- The hand-shake of examples/xdma_testapp/testapp_inter.c: two threads of `fpga_to_fpga` count
-- themselves in `ready_count` under `mutex`, and `switch_start` waits for both with `cond`. The threads
-- are steps on shared state, in any order. `switch_start` neither holds the mutex when it first reads
-- the count nor when it first calls `pthread_cond_wait`. POSIX does not define what that call does to
-- a mutex that its caller does not hold, so the steps take it as a relation `Release` between the
-- owners before and after the call.
pub mod Worker
pub mod Safety
pub mod Lost
pub mod Overtaken
use xdma_dpdk.Base.{ℕ, suc, ◌<◌, ◌≤◌, ◌≡◌, ◌≢◌, ◌⊎◌}

-- Who holds the mutex.
pub data Owner : Type 0 where
  nobody : Owner
  left : Owner
  right : Owner
  main : Owner

-- Where a thread of `fpga_to_fpga` is: before the lock, behind it, behind the load of `ready_count++`
-- (which found `n`), behind its store, behind the `if` with the signal, behind the unlock.
pub data WorkerPc : Type 0 where
  starting : WorkerPc
  locked : WorkerPc
  loaded : (n : ℕ) → WorkerPc
  stored : WorkerPc
  signalled : WorkerPc
  forwarding : WorkerPc

-- Where `switch_start` is: at the test, before `pthread_cond_wait`, blocked in it, woken but not
-- yet with the mutex, and behind the loop.
pub data MainPc : Type 0 where
  testing : MainPc
  calling : MainPc
  blocked : MainPc
  woken : MainPc
  passed : MainPc

pub record Shared : Type 0 where
  pub owner : Owner
  pub ready_count : ℕ
  pub main_pc : MainPc

-- `pthread_cond_signal`: a blocked thread wakes up; otherwise nothing is remembered.
abbrev pub wake : MainPc → MainPc
wake blocked = woken
wake testing = testing
wake calling = calling
wake woken = woken
wake passed = passed

-- One step of the thread `self` of `fpga_to_fpga`.
pub data WorkerStep (self : Owner) : WorkerPc → Shared → WorkerPc → Shared → Type 0 where
  lock :
      {s : Shared}
      → s.owner ≡ nobody
      → WorkerStep self starting s locked (record s { owner = self })
  load : {s : Shared} → WorkerStep self locked s (loaded s.ready_count) s
  increment :
      {s : Shared} {n : ℕ} → WorkerStep self (loaded n) s stored (record s { ready_count = suc n })
  signal :
      {s : Shared}
      → s.ready_count ≡ 2
      → WorkerStep self stored s signalled (record s { main_pc = wake s.main_pc })
  no_signal : {s : Shared} → s.ready_count ≢ 2 → WorkerStep self stored s signalled s
  unlock : {s : Shared} → WorkerStep self signalled s forwarding (record s { owner = nobody })

-- `pthread_cond_wait` gives up the mutex if its caller holds it. Otherwise the call may leave the
-- mutex as it is or give it up all the same.
abbrev pub Undefined : Owner → Owner → Type 0
Undefined before after = (after ≡ nobody) ⊎ ((before ≢ main) × (after ≡ before))

-- The calls that find the mutex with their caller or with nobody, and leave it with nobody.
abbrev pub Tidy : Owner → Owner → Type 0
Tidy before after = (after ≡ nobody) × ((before ≡ main) ⊎ (before ≡ nobody))

-- One step of `switch_start`.
pub data MainStep (Release : Owner → Owner → Type 0) : Shared → Shared → Type 0 where
  see_ready :
      {s : Shared}
      → s.main_pc ≡ testing
      → 2 ≤ s.ready_count
      → MainStep Release s (record s { main_pc = passed })
  see_less :
      {s : Shared}
      → s.main_pc ≡ testing
      → s.ready_count < 2
      → MainStep Release s (record s { main_pc = calling })
  block :
      {s : Shared} {after : Owner}
      → s.main_pc ≡ calling
      → Release s.owner after
      → MainStep Release s (record s { owner = after; main_pc = blocked })
  spurious : {s : Shared} → s.main_pc ≡ blocked → MainStep Release s (record s { main_pc = woken })
  relock :
      {s : Shared}
      → s.main_pc ≡ woken
      → s.owner ≡ nobody
      → MainStep Release s (record s { owner = main; main_pc = testing })

pub record System : Type 0 where
  pub left_pc : WorkerPc
  pub right_pc : WorkerPc
  pub shared : Shared

abbrev pub start_system : System
start_system = record {
  left_pc = starting;
  right_pc = starting;
  shared = record { owner = nobody; ready_count = 0; main_pc = testing };
}

pub data Step (Release : Owner → Owner → Type 0) : System → System → Type 0 where
  left_step :
      {p p' q : WorkerPc} {s s' : Shared}
      → WorkerStep left p s p' s'
      → Step Release
          (record { left_pc = p; right_pc = q; shared = s })
          (record { left_pc = p'; right_pc = q; shared = s' })
  right_step :
      {p q q' : WorkerPc} {s s' : Shared}
      → WorkerStep right q s q' s'
      → Step Release
          (record { left_pc = p; right_pc = q; shared = s })
          (record { left_pc = p; right_pc = q'; shared = s' })
  main_step :
      {p q : WorkerPc} {s s' : Shared}
      → MainStep Release s s'
      → Step Release
          (record { left_pc = p; right_pc = q; shared = s })
          (record { left_pc = p; right_pc = q; shared = s' })

pub data Runs (Release : Owner → Owner → Type 0) (first : System) : System → Type 0 where
  at_start : Runs Release first first
  then : {x y : System} → Runs Release first x → Step Release x y → Runs Release first y

abbrev pub Reachable : (Release : Owner → Owner → Type 0) → System → Type 0
Reachable Release = Runs Release start_system
