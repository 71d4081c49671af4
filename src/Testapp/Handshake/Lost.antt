-- ===== src/Testapp/Handshake/Lost.antt =====
-- The wake-up that `switch_start` can miss.
use xdma_dpdk.Base.{◌≡◌, refl, arith, inr}
use xdma_dpdk.Testapp.Handshake.{
  nobody, Undefined, Tidy, forwarding, blocked, woken, lock, load, increment, signal, no_signal,
  unlock, see_ready, see_less, block, spurious, relock, System, Step, left_step, right_step,
  main_step, Reachable, at_start, then,
}

-- Both threads have counted themselves and are forwarding; `switch_start` is blocked.
abbrev pub missed : System
missed = record {
  left_pc = forwarding;
  right_pc = forwarding;
  shared = record { owner = nobody; ready_count = 2; main_pc = blocked };
}

-- `switch_start` tests first and calls `pthread_cond_wait` last.
pub missed-Reachable : Reachable Tidy missed
missed-Reachable =
    then
      (then
        (then
          (then
            (then
              (then
                (then
                  (then
                    (then
                      (then
                        (then (then at_start (main_step (see_less refl (omega arith))))
                          (left_step (lock refl)))
                        (left_step load))
                      (left_step increment))
                    (left_step (no_signal (omega arith))))
                  (left_step unlock))
                (right_step (lock refl)))
              (right_step load))
            (right_step increment))
          (right_step (signal refl)))
        (right_step unlock))
      (main_step (block refl (refl, inr refl)))

-- The same after a wake-up for no reason.
abbrev pub roused : System
roused = record {
  left_pc = forwarding;
  right_pc = forwarding;
  shared = record { owner = nobody; ready_count = 2; main_pc = woken };
}

only_roused : (y : System) → Step Undefined missed y → y ≡ roused
only_roused _ (main_step (spurious e)) = refl
only_roused _ (main_step (see_ready e two)) = cc e
only_roused _ (main_step (see_less e less)) = cc e
only_roused _ (main_step (block e gives)) = cc e
only_roused _ (main_step (relock e free)) = cc e
only_roused _ (left_step st) = elim st [ ]
only_roused _ (right_step st) = elim st [ ]

-- The signal of testapp_inter.c can be lost: there is a run of the three threads after which both
-- others have counted themselves and `switch_start` is blocked all the same, and from there nothing
-- can happen but a wake-up for no reason. The run calls `pthread_cond_wait` only while the mutex is
-- free; from there on the call may leave the mutex of another thread as it is or give it up.
pub missed_lem : Reachable Tidy missed × ((y : System) → Step Undefined missed y → y ≡ roused)
missed_lem = (missed-Reachable, only_roused)
