-- ===== src/Testapp/Main/Stocked.antt =====
-- Parts of the main functions that leave the arrays of buffers alone, and the whole of both.
use xdma_dpdk.Base.{
  ℕ, zero, suc, ◌+◌, ◌≡◌, refl, Bool, false, List, [], ◌++◌, map, ◌==◌, if◌then◌else◌,
}
use xdma_dpdk.Base.Int.{ℤ, pos, negsuc, is_neg, eqb_ℤ}
use xdma_dpdk.Engine.{positive_part}
use xdma_dpdk.Testapp.Ports.{
  Call, pool_lookup, World, Run, returns, exits, spins, App, intr_rmv, intr_reset, main_remove_port,
}
use xdma_dpdk.Testapp.Main.{
  Act, eal_init, count_avail, callback_register, callback_unregister, memzone_reserve, at, Process,
  Ending, goes, exited, stuck, faulted, change, Part, ◌>>=◌, ◌>>◌, return, quit, free_lock, ask, on,
  resume, ask_must, rte_pmd_xdma_compat_memzone_reserve_aligned, init_locks, start_app,
  remove_ports, end_app, with_pool,
}
use xdma_dpdk.Testapp.Main.Logic.{Ends, Takes, choose, return_takes}
use xdma_dpdk.Testapp.Main.Stock.{starts, IsSound, resumed, IsStable, Keeps, next}

module _ (answer : List Act → Act → ℤ) (n : ℕ) (P : Process → Type 0) (stable : IsStable n P) where
  pub then_part :
      {A B : Type 0} (Q : Process → Type 0) (m : Part A) (f : A → Part B)
      → Keeps n P P m
      → ((a : A) → Keeps n P Q (f a))
      → Keeps n P Q (m >>= f)
  then_part Q m f h k = next answer n P P Q m f h k

  pub return_keeps : {A : Type 0} (a : A) → Keeps n P P (return a)
  unfolding Keeps
  return_keeps a = return_takes (IsSound n) (IsSound n) P a

  choose_keeps :
      {A : Type 0} (Q : Process → Type 0) (t : Bool) (m k : Part A)
      → Keeps n P Q m
      → Keeps n P Q k
      → Keeps n P Q (if t then m else k)
  unfolding Keeps
  choose_keeps Q t m k h h' = choose (IsSound n) (IsSound n) P Q t m k h h'

  quit_keeps : (Q : Process → Type 0) → Keeps n P Q quit
  unfolding Keeps Takes
  quit_keeps Q = λ p h. stable.sound p h

  pub ask_keeps : (a : Act) → starts a ≡ false → Keeps n P P (ask answer a)
  unfolding Keeps Takes
  ask_keeps a none = λ p h. stable.asked a p none h

  must_keeps : (a : Act) → starts a ≡ false → Keeps n P P (ask_must answer a)
  must_keeps a none =
      then_part P (ask answer a) _ (ask_keeps a none)
        λ ret. choose_keeps P (is_neg ret) quit (return ret) (quit_keeps P) (return_keeps ret)

  free_lock_keeps : (port : ℕ) → Keeps n P P (free_lock port)
  unfolding Keeps Takes
  free_lock_keeps port = λ p h. stable.ported _ p h

  pub on_keeps : (port : ℕ) (m : (List Call → Call → ℤ) → App ℤ) → Keeps n P P (on answer port m)
  unfolding Keeps Takes
  on_keeps port m = λ p h. go p h (
      m (λ calls c. answer (map (at port) calls ++ p.acts) (at port c))
        (record { pinfo = p.pinfo port; calls = [] }))
    where
      left_in : (p : Process) (w : World) → P p → P (resumed port p w)
      left_in p w h =
          stable.ported (change (λ _. w.pinfo) port p.pinfo)
            (record p { acts = map (at port) w.calls ++ p.acts }) (stable.called port w.calls p h)

      go :
          (p : Process)
          → P p
          → (r : Run ℤ) → Ends (IsSound n) (IsSound n) P (resume answer port p r)
      go p h (returns ret w) = left_in p w h
      go p h (exits w) = stable.sound (resumed port p w) (left_in p w h)
      go p h (spins w) = stable.sound (resumed port p w) (left_in p w h)

  init_locks_keeps : (left port : ℕ) → Keeps n P P (init_locks left port)
  unfolding init_locks
  init_locks_keeps zero port = return_keeps (pos 0)
  init_locks_keeps (suc left) port =
      then_part P (free_lock port) _ (free_lock_keeps port) λ _. init_locks_keeps left (port + 1)

  pub start_app_keeps : Keeps n P P (start_app answer)
  unfolding start_app rte_pmd_xdma_compat_memzone_reserve_aligned
  start_app_keeps = then_part P (ask_must answer eal_init) _ (must_keeps eal_init refl) λ _.
      then_part P (ask answer count_avail) _ (ask_keeps count_avail refl) λ m.
        choose_keeps P (positive_part m == 0) quit _ (quit_keeps P) (
          then_part P (init_locks (positive_part m) 0) _ (init_locks_keeps (positive_part m) 0) λ _.
            then_part P _ _ (must_keeps (callback_register intr_rmv) refl) λ _.
              then_part P _ _ (must_keeps (callback_register intr_reset) refl) λ _.
                then_part P (rte_pmd_xdma_compat_memzone_reserve_aligned answer) _
                  (then_part P _ _ (ask_keeps memzone_reserve refl) λ mz.
                    choose_keeps P (eqb_ℤ mz 0) quit (return (pos 0)) (quit_keeps P)
                      (return_keeps (pos 0)))
                  λ _. then_part P _ _ (ask_keeps (callback_unregister intr_rmv) refl) λ _.
                    then_part P _ _ (ask_keeps (callback_unregister intr_reset) refl)
                      λ _. return_keeps m)

  remove_ports_keeps : (left : ℕ) → Keeps n P P (remove_ports answer left)
  unfolding remove_ports
  remove_ports_keeps zero = return_keeps (pos 0)
  remove_ports_keeps (suc left) =
      then_part P (on answer left main_remove_port) _ (on_keeps left main_remove_port)
        λ _. remove_ports_keeps left

  weakened :
      {A : Type 0} (r : Ending A)
      → Ends (IsSound n) (IsSound n) P r
      → Ends (IsSound n) (IsSound n) (IsSound n) r
  weakened (goes a p) e = stable.sound p e
  weakened (exited p) e = e
  weakened (stuck p) e = e
  weakened (faulted p) e = e

  pub ends : {A : Type 0} (m : Part A) → Keeps n P P m → Keeps n P (IsSound n) m
  unfolding Keeps Takes
  ends m h = λ p c. weakened (m p) (h p c)

  pub end_app_ends : (m : ℤ) → Keeps n P (IsSound n) (end_app answer m)
  unfolding end_app
  end_app_ends m = ends (end_app answer m) (
      then_part P (ask answer count_avail) _ (ask_keeps count_avail refl) λ avail.
        choose_keeps P (eqb_ℤ avail 0) (return (pos 0)) _ (return_keeps (pos 0)) (
          then_part P (remove_ports answer (positive_part m)) _
            (remove_ports_keeps (positive_part m)) λ _. return_keeps (pos 0)))

  pub with_pool_ends :
      (port : ℕ) (k : Part ℤ)
      → Keeps n P (IsSound n) k
      → Keeps n P (IsSound n) (with_pool answer port k)
  with_pool_ends port k h =
      then_part (IsSound n) (ask answer (at port pool_lookup)) _
        (ask_keeps (at port pool_lookup) refl)
        λ mp.
          choose_keeps (IsSound n) (eqb_ℤ mp 0) _ k
            (ends (free_lock port >> return (negsuc 0))
              (then_part P (free_lock port) _ (free_lock_keeps port) λ _. return_keeps (negsuc 0)))
            h

  pub quits : Keeps n P (IsSound n) quit
  quits = quit_keeps (IsSound n)

  pub picks :
      (t : Bool) (m k : Part ℤ) → Keeps n P P m → Keeps n P P k → Keeps n P P (if t then m else k)
  picks t m k = choose_keeps P t m k
