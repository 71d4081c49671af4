-- ===== src/Testapp/Handshake/Worker.antt =====
-- One step of a forwarding thread in the hand-shake, and what it leaves to the others.
use xdma_dpdk.Base.{ℕ, ◌+◌, ◌≤◌, ◌≡◌, ◌≢◌, refl, sym, ◌∙◌, arith}
use xdma_dpdk.Testapp.Handshake.{
  Owner, nobody, WorkerPc, starting, locked, loaded, stored, signalled, forwarding, MainPc, testing,
  calling, blocked, woken, passed, Shared, wake, WorkerStep, lock, load, increment, signal,
  no_signal, unlock,
}

-- How often a thread has counted itself.
abbrev pub counted : WorkerPc → ℕ
counted starting = 0
counted locked = 0
counted (loaded n) = 0
counted stored = 1
counted signalled = 1
counted forwarding = 1

-- Between lock and unlock a thread holds the mutex, and what it has loaded is the count.
abbrev pub Holds : Owner → Shared → WorkerPc → Type 0
Holds self s starting = Unit {0}
Holds self s locked = s.owner ≡ self
Holds self s (loaded n) = (s.owner ≡ self) × (n ≡ s.ready_count)
Holds self s stored = s.owner ≡ self
Holds self s signalled = s.owner ≡ self
Holds self s forwarding = Unit {0}

-- Behind its loop the main thread has seen a count of 2.
abbrev pub Seen : Shared → Type 0
Seen s = s.main_pc ≡ passed → 2 ≤ s.ready_count

-- A thread that is not the owner does not mind what the others do.
pub aside :
    (self : Owner) (s s' : Shared) (p : WorkerPc)
    → s.owner ≢ self
    → Holds self s p
    → Holds self s' p
aside self s s' starting other h = tt
aside self s s' locked other h = absurd (other h)
aside self s s' (loaded n) other h = absurd (other h.0)
aside self s s' stored other h = absurd (other h)
aside self s s' signalled other h = absurd (other h)
aside self s s' forwarding other h = tt

-- What a step of a thread does to the others: it holds the mutex before, or takes it from nobody.
pub record IsWorkerSafe (self : Owner) (p p' : WorkerPc) (s s' : Shared) : Type 0 where
  pub counts : s'.ready_count + counted p ≡ s.ready_count + counted p'
  pub holds : Holds self s' p'
  pub seen : Seen s'
  pub others : (other : Owner) → other ≢ nobody → other ≢ self → s.owner ≢ other

module _ (self : Owner) where
  not_mine :
      (s : Shared)
      → s.owner ≡ self
      → (other : Owner) → other ≢ nobody
      → other ≢ self
      → s.owner ≢ other
  not_mine s mine other some_one ne e = ne (sym e ∙ mine)

  nobodys :
      (s : Shared)
      → s.owner ≡ nobody
      → (other : Owner) → other ≢ nobody
      → other ≢ self
      → s.owner ≢ other
  nobodys s free other some_one ne e = some_one (sym e ∙ free)

  wake_passed : (m : MainPc) → wake m ≡ passed → m ≡ passed
  wake_passed blocked e = cc e
  wake_passed testing e = cc e
  wake_passed calling e = cc e
  wake_passed woken e = cc e
  wake_passed passed e = refl

  pub worker_lem :
      (p p' : WorkerPc) (s s' : Shared)
      → WorkerStep self p s p' s'
      → Holds self s p
      → Seen s
      → IsWorkerSafe self p p' s s'
  worker_lem _ _ s _ (lock free) h seen = record {
    counts = refl;
    holds = refl;
    seen = seen;
    others = nobodys s free;
  }
  worker_lem _ _ s _ load h seen = record {
    counts = refl;
    holds = (h, refl);
    seen = seen;
    others = not_mine s h;
  }
  worker_lem _ _ s _ increment h seen = record {
    counts = omega (arith, h.1);
    holds = h.0;
    seen = λ e. omega (arith, seen e, h.1);
    others = not_mine s h.0;
  }
  worker_lem _ _ s _ (signal two) h seen = record {
    counts = refl;
    holds = h;
    seen = λ e. seen (wake_passed s.main_pc e);
    others = not_mine s h;
  }
  worker_lem _ _ s _ (no_signal less) h seen = record {
    counts = refl;
    holds = h;
    seen = seen;
    others = not_mine s h;
  }
  worker_lem _ _ s _ unlock h seen = record {
    counts = refl;
    holds = tt;
    seen = seen;
    others = not_mine s h;
  }

-- A change that leaves the mutex with its holder and the count as it is.
pub carried :
    (self : Owner) (s s' : Shared) (p : WorkerPc)
    → (s.owner ≡ self → s'.owner ≡ self)
    → s.ready_count ≡ s'.ready_count
    → Holds self s p
    → Holds self s' p
carried self s s' starting keep same h = tt
carried self s s' locked keep same h = keep h
carried self s s' (loaded n) keep same h = (keep h.0, h.1 ∙ same)
carried self s s' stored keep same h = keep h
carried self s s' signalled keep same h = keep h
carried self s s' forwarding keep same h = tt
