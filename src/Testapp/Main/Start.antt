-- ===== src/Testapp/Main/Start.antt =====
-- The start of the main functions, which registers the callbacks and unregisters them.
use xdma_dpdk.Base.{ℕ, zero, suc, ◌+◌, ◌≡◌, refl, false, List, ◌∷◌, ◌==◌}
use xdma_dpdk.Base.Int.{ℤ, pos, eqb_ℤ, is_neg}
use xdma_dpdk.Engine.{positive_part}
use xdma_dpdk.Testapp.Ports.{EventType, intr_rmv, intr_reset}
use xdma_dpdk.Testapp.Main.{
  Act, eal_init, count_avail, callback_register, callback_unregister, memzone_reserve, Part, ◌>>=◌,
  ◌>>◌, return, quit, free_lock, ask, ask_must, rte_pmd_xdma_compat_memzone_reserve_aligned,
  init_locks, start_app,
}
use xdma_dpdk.Testapp.Main.Logic
use xdma_dpdk.Testapp.Main.Calm.{
  registered, IsCalm, Keeps, Quiet, seq, choose, return-Quiet, quit-IsCalm, free_lock-IsCalm,
  ask-IsCalm, must-IsCalm,
}

module _ (answer : List Act → Act → ℤ) where
  -- A call to unregister a callback does not fail.
  abbrev pub AlwaysSheds : Type 0
  AlwaysSheds =
      (e : EventType) (acts : List Act) → is_neg (answer acts (callback_unregister e)) ≡ false

  -- The two last calls before the ports are set up.
  unregister-Quiet :
      AlwaysSheds
      → (n : ℤ)
      → Keeps answer (IsCalm answer) (Quiet answer) (
          ask answer (callback_unregister intr_rmv)
          >> (ask answer (callback_unregister intr_reset) >> return n))
  unfolding Logic.Takes registered
  unregister-Quiet sheds n = λ p c. (
    record {
      free = c.free;
      undisturbed = (λ t. absurd (cc t), (λ t. absurd (cc t), c.undisturbed));
    },
    (
      rw (sheds intr_rmv p.acts) refl,
      rw (sheds intr_reset (callback_unregister intr_rmv ∷ p.acts)) refl,
    ),
  )

  init_locks-IsCalm :
      (left port : ℕ) → Keeps answer (IsCalm answer) (IsCalm answer) (init_locks left port)
  unfolding init_locks
  init_locks-IsCalm zero port = return-Quiet answer (IsCalm answer) (pos 0)
  init_locks-IsCalm (suc left) port =
      seq answer (IsCalm answer) (IsCalm answer) (IsCalm answer) (free_lock port) _
        (free_lock-IsCalm answer port) λ _. init_locks-IsCalm left (port + 1)

  memzone-IsCalm :
      Keeps answer
        (IsCalm answer)
        (IsCalm answer)
        (rte_pmd_xdma_compat_memzone_reserve_aligned answer)
  unfolding rte_pmd_xdma_compat_memzone_reserve_aligned
  memzone-IsCalm =
      seq answer (IsCalm answer) (IsCalm answer) (IsCalm answer) (ask answer memzone_reserve) _
        (ask-IsCalm answer memzone_reserve refl)
        λ mz.
          choose answer (IsCalm answer) (IsCalm answer) (eqb_ℤ mz 0) quit (return (pos 0))
            (quit-IsCalm answer) (return-Quiet answer (IsCalm answer) (pos 0))

  quit-IsCalm-Quiet : Keeps answer (IsCalm answer) (Quiet answer) quit
  unfolding Logic.Takes
  quit-IsCalm-Quiet = λ p c. c.undisturbed

  calmly :
      (m : Part ℤ) (f : ℤ → Part ℤ)
      → Keeps answer (IsCalm answer) (IsCalm answer) m
      → ((ret : ℤ) → Keeps answer (IsCalm answer) (Quiet answer) (f ret))
      → Keeps answer (IsCalm answer) (Quiet answer) (m >>= f)
  calmly m f h k = seq answer (IsCalm answer) (IsCalm answer) (Quiet answer) m f h k

  pub start_app-Quiet : AlwaysSheds → Keeps answer (IsCalm answer) (Quiet answer) (start_app answer)
  unfolding start_app
  start_app-Quiet sheds =
      calmly (ask_must answer eal_init) _ (must-IsCalm answer eal_init refl) λ _.
        calmly (ask answer count_avail) _ (ask-IsCalm answer count_avail refl) λ n.
          choose answer (IsCalm answer) (Quiet answer) (positive_part n == 0) quit _
            quit-IsCalm-Quiet
            (calmly (init_locks (positive_part n) 0) _ (init_locks-IsCalm (positive_part n) 0) λ _.
              calmly (ask_must answer (callback_register intr_rmv)) _
                (must-IsCalm answer (callback_register intr_rmv) refl)
                λ _.
                  calmly (ask_must answer (callback_register intr_reset)) _
                    (must-IsCalm answer (callback_register intr_reset) refl)
                    λ _.
                      calmly (rte_pmd_xdma_compat_memzone_reserve_aligned answer) _ memzone-IsCalm
                        λ _. unregister-Quiet sheds n)
