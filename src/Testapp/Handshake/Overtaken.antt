-- ===== src/Testapp/Handshake/Overtaken.antt =====
-- The increment that a call of `pthread_cond_wait` can cost: `switch_start` makes it without the mutex,
-- and if it gives up the mutex of a thread between load and store, both threads store the same count.
use xdma_dpdk.Base.{◌≡◌, ◌≢◌, refl, arith, inl}
use xdma_dpdk.Testapp.Handshake.{
  Owner, nobody, left, right, Shared, WorkerPc, WorkerStep, MainStep, Undefined, forwarding,
  blocked, passed, lock, load, increment, no_signal, unlock, see_ready, see_less, block, spurious,
  relock, signal, System, Step, left_step, right_step, main_step, Runs, Reachable, at_start, then,
}

-- Both threads have counted themselves and are forwarding; the count is 1; `switch_start` is blocked.
abbrev overtaken : System
overtaken = record {
  left_pc = forwarding;
  right_pc = forwarding;
  shared = record { owner = nobody; ready_count = 1; main_pc = blocked };
}

-- `switch_start` calls `pthread_cond_wait` while the left thread is between load and store.
overtaken-Reachable : Reachable Undefined overtaken
overtaken-Reachable =
    then
      (then
        (then
          (then
            (then
              (then
                (then
                  (then
                    (then
                      (then
                        (then (then at_start (main_step (see_less refl (omega arith))))
                          (left_step (lock refl)))
                        (left_step load))
                      (main_step (block refl (inl refl))))
                    (right_step (lock refl)))
                  (right_step load))
                (right_step increment))
              (right_step (no_signal (omega arith))))
            (right_step unlock))
          (left_step increment))
        (left_step (no_signal (omega arith))))
      (left_step unlock)

-- Both threads are done with the count, it is 1, and `switch_start` is not behind its loop.
record IsStuck (x : System) : Type 0 where
  left_done : x.left_pc ≡ forwarding
  right_done : x.right_pc ≡ forwarding
  one : x.shared.ready_count ≡ 1
  waits : x.shared.main_pc ≢ passed

main-IsStuck :
    (s s' : Shared)
    → MainStep Undefined s s'
    → s.ready_count ≡ 1
    → (s'.ready_count ≡ 1) × (s'.main_pc ≢ passed)
main-IsStuck s _ (see_ready at two) one = absurd (omega (arith, two, one))
main-IsStuck s _ (see_less at less) one = (one, λ e. cc e)
main-IsStuck s _ (block at gives) one = (one, λ e. cc e)
main-IsStuck s _ (spurious at) one = (one, λ e. cc e)
main-IsStuck s _ (relock at free) one = (one, λ e. cc e)

done-stays :
    (self : Owner) (p p' : WorkerPc) (s s' : Shared) → WorkerStep self p s p' s' → p ≢ forwarding
done-stays self _ _ s _ (lock free) e = cc e
done-stays self _ _ s _ load e = cc e
done-stays self _ _ s _ increment e = cc e
done-stays self _ _ s _ (signal two) e = cc e
done-stays self _ _ s _ (no_signal less) e = cc e
done-stays self _ _ s _ unlock e = cc e

Step-IsStuck : (x y : System) → Step Undefined x y → IsStuck x → IsStuck y
Step-IsStuck _ _ (left_step {p} {p'} {q} {s} {s'} st) i =
    absurd (done-stays left p p' s s' st i.left_done)
Step-IsStuck _ _ (right_step {p} {q} {q'} {s} {s'} st) i =
    absurd (done-stays right q q' s s' st i.right_done)
Step-IsStuck _ _ (main_step {p} {q} {s} {s'} st) i =
    let m = main-IsStuck s s' st i.one in
    record { left_done = i.left_done; right_done = i.right_done; one = m.0; waits = m.1 }

Runs-IsStuck : (y : System) → Runs Undefined overtaken y → IsStuck y
Runs-IsStuck _ at_start = record {
  left_done = refl;
  right_done = refl;
  one = refl;
  waits = λ e. cc e;
}
Runs-IsStuck _ (then {x} {y} r st) = Step-IsStuck x y st (Runs-IsStuck x r)

-- If `pthread_cond_wait` may give up a mutex that another thread holds, then an increment of
-- `ready_count` in testapp_inter.c can be lost: there is a run of the three threads after which
-- both others have counted themselves and the count is 1, and however it goes on from there,
-- `switch_start` never gets behind its loop.
pub overtaken_lem :
    Reachable Undefined overtaken
    × ((y : System) → Runs Undefined overtaken y → y.shared.main_pc ≢ passed)
overtaken_lem = (overtaken-Reachable, λ y r. (Runs-IsStuck y r).waits)
