-- ===== src/Testapp/Handshake/Safety.antt =====
-- `switch_start` passes its loop only when both threads have counted themselves.
use xdma_dpdk.Base.{ℕ, ◌+◌, ◌≤◌, ◌≡◌, refl, sym, ◌∙◌, ◌≢◌, ◌⊎◌, inl, inr, subst, arith}
use xdma_dpdk.Testapp.Handshake.{
  Owner, nobody, main, left, right, WorkerPc, starting, locked, loaded, stored, signalled,
  forwarding, passed, Shared, Tidy, MainStep, see_ready, see_less, block, spurious, relock, System,
  Step, left_step, right_step, main_step, Reachable, at_start, then,
}
use xdma_dpdk.Testapp.Handshake.Worker.{counted, Holds, Seen, aside, worker_lem, carried}

record IsSafe (x : System) : Type 0 where
  count : x.shared.ready_count ≡ counted x.left_pc + counted x.right_pc
  left_holds : Holds left x.shared x.left_pc
  right_holds : Holds right x.shared x.right_pc
  seen : Seen x.shared

-- A step of the main thread.
record IsMainSafe (s s' : Shared) : Type 0 where
  same : s.ready_count ≡ s'.ready_count
  left_keeps : s.owner ≡ left → s'.owner ≡ left
  right_keeps : s.owner ≡ right → s'.owner ≡ right
  seen : Seen s'

tidy_owner :
    (self owner : Owner)
    → (owner ≡ main) ⊎ (owner ≡ nobody)
    → self ≢ main
    → self ≢ nobody
    → owner ≢ self
tidy_owner self owner (inl e) other some_one h = other (sym h ∙ e)
tidy_owner self owner (inr e) other some_one h = some_one (sym h ∙ e)

main_lem : (s s' : Shared) → MainStep Tidy s s' → Seen s → IsMainSafe s s'
main_lem s _ (see_ready at two) seen = record {
  same = refl;
  left_keeps = λ h. h;
  right_keeps = λ h. h;
  seen = λ e. two;
}
main_lem s _ (see_less at less) seen = record {
  same = refl;
  left_keeps = λ h. h;
  right_keeps = λ h. h;
  seen = λ e. cc e;
}
main_lem s _ (block at tidy) seen = record {
  same = refl;
  left_keeps = λ h. absurd (tidy_owner left s.owner tidy.1 (λ e. cc e) (λ e. cc e) h);
  right_keeps = λ h. absurd (tidy_owner right s.owner tidy.1 (λ e. cc e) (λ e. cc e) h);
  seen = λ e. cc e;
}
main_lem s _ (spurious at) seen = record {
  same = refl;
  left_keeps = λ h. h;
  right_keeps = λ h. h;
  seen = λ e. cc e;
}
main_lem s _ (relock at free) seen = record {
  same = refl;
  left_keeps = λ h. cc (h, free);
  right_keeps = λ h. cc (h, free);
  seen = λ e. cc e;
}

Step-IsSafe : (x y : System) → Step Tidy x y → IsSafe x → IsSafe y
Step-IsSafe _ _ (left_step {p} {p'} {q} {s} {s'} st) i =
    let w = worker_lem left p p' s s' st i.left_holds i.seen in
    record {
      count = omega (arith, w.counts, i.count);
      left_holds = w.holds;
      right_holds = aside right s s' q (w.others right (λ e. cc e) (λ e. cc e)) i.right_holds;
      seen = w.seen;
    }
Step-IsSafe _ _ (right_step {p} {q} {q'} {s} {s'} st) i =
    let w = worker_lem right q q' s s' st i.right_holds i.seen in
    record {
      count = omega (arith, w.counts, i.count);
      left_holds = aside left s s' p (w.others left (λ e. cc e) (λ e. cc e)) i.left_holds;
      right_holds = w.holds;
      seen = w.seen;
    }
Step-IsSafe _ _ (main_step {p} {q} {s} {s'} st) i =
    let m = main_lem s s' st i.seen in
    record {
      count = omega (arith, m.same, i.count);
      left_holds = carried left s s' p m.left_keeps m.same i.left_holds;
      right_holds = carried right s s' q m.right_keeps m.same i.right_holds;
      seen = m.seen;
    }

Reachable-IsSafe : (x : System) → Reachable Tidy x → IsSafe x
Reachable-IsSafe _ at_start = record {
  count = refl;
  left_holds = tt;
  right_holds = tt;
  seen = λ e. cc e;
}
Reachable-IsSafe _ (then {x} {y} r st) = Step-IsSafe x y st (Reachable-IsSafe x r)

counted_once : (p : WorkerPc) → counted p ≤ 1
counted_once starting = omega arith
counted_once locked = omega arith
counted_once (loaded n) = omega arith
counted_once stored = omega arith
counted_once signalled = omega arith
counted_once forwarding = omega arith

-- In every interleaving of the three threads of testapp_inter.c in which `pthread_cond_wait` is
-- called only while the main thread holds the mutex or nobody does, and leaves it with nobody,
-- `ready_count` is the number of threads that have counted themselves, so no increment is lost; at
-- most one of them is between the load and the store of the count; and when `switch_start` is
-- behind its loop, both have counted themselves.
pub reachable_lem :
    (x : System)
    → Reachable Tidy x
    → (x.shared.ready_count ≡ counted x.left_pc + counted x.right_pc)
      × ((m n : ℕ) → ¬ ((x.left_pc ≡ loaded m) × (x.right_pc ≡ loaded n)))
      × (x.shared.main_pc ≡ passed → (counted x.left_pc ≡ 1) × (counted x.right_pc ≡ 1))
reachable_lem x r =
    let i = Reachable-IsSafe x r in
    (i.count, λ m n both. exclusive m n both, λ e. both_counted (i.seen e))
  where
    exclusive : (m n : ℕ) → ¬ ((x.left_pc ≡ loaded m) × (x.right_pc ≡ loaded n))
    exclusive m n (l, r') =
        let mine = subst (Holds left x.shared) l (Reachable-IsSafe x r).left_holds in
        let yours = subst (Holds right x.shared) r' (Reachable-IsSafe x r).right_holds in
        cc (mine.0, yours.0)

    both_counted : 2 ≤ x.shared.ready_count → (counted x.left_pc ≡ 1) × (counted x.right_pc ≡ 1)
    both_counted two =
        let a = counted_once x.left_pc in
        let b = counted_once x.right_pc in
        let c = (Reachable-IsSafe x r).count in
        (omega (arith, two, a, b, c), omega (arith, two, a, b, c))
