-- ===== src/Testapp/Main/Calm.antt =====
-- A logic for the main functions: every lock is free, and no port is touched while a callback is
-- registered.
use xdma_dpdk.Base.{
  ℕ, ◌&&◌, not, ◌≡◌, sym, ◌∙◌, Bool, true, false, List, [], ◌∷◌, ◌++◌, map, if◌then◌else◌, Bool,
  arith,
}
use xdma_dpdk.Base.Int.{ℤ, is_neg}
use mathlib.Core.Bool.{false≢true}
use xdma_dpdk.Testapp.Ports.{
  Call, Run, returns, exits, spins, App, EventType, intr_rmv, intr_reset, other_event,
}
use xdma_dpdk.Testapp.Ports.Lock.{LeavesLock, Takes}
use xdma_dpdk.Testapp.Main.{
  Act, callback_register, callback_unregister, at, remote_launch, thread_create, Process, Ending,
  Part, ◌>>=◌, return, quit, free_lock, ask, resume, on, ask_must,
}
use xdma_dpdk.Testapp.Main.Logic
use xdma_dpdk.Testapp.Main.Logic.{Ends}

abbrev same_event : EventType → EventType → Bool
same_event intr_rmv intr_rmv = true
same_event intr_rmv intr_reset = false
same_event intr_rmv other_event = false
same_event intr_reset intr_rmv = false
same_event intr_reset intr_reset = true
same_event intr_reset other_event = false
same_event other_event intr_rmv = false
same_event other_event intr_reset = false
same_event other_event other_event = true

-- Whether a call is about a port, or starts a thread.
abbrev pub touches : Act → Bool
touches (at port c) = true
touches (remote_launch job) = true
touches (thread_create args) = true
touches _ = false

module _ (answer : List Act → Act → ℤ) where
  -- Whether the callback of an event is registered: whether the last call about it was to register
  -- it, where a call to unregister it counts only if it succeeds.
  unfoldable pub registered : EventType → List Act → Bool
  registered e [] = false
  registered e (callback_register e' ∷ acts) = if same_event e e' then true else registered e acts
  registered e (callback_unregister e' ∷ acts) =
      if same_event e e' && not (is_neg (answer acts (callback_unregister e')))
      then false
      else registered e acts
  registered e (_ ∷ acts) = registered e acts

  -- No callback is registered.
  abbrev pub AllOff : List Act → Type 0
  AllOff acts = (registered intr_rmv acts ≡ false) × (registered intr_reset acts ≡ false)

  -- Each call about a port and each start of a thread came while no callback was registered.
  abbrev pub Undisturbed : List Act → Type 0
  Undisturbed [] = Unit {0}
  Undisturbed (a ∷ acts) = (touches a ≡ true → AllOff acts) × Undisturbed acts

  pub record IsCalm (p : Process) : Type 0 where
    pub free : (port : ℕ) → (p.pinfo port).port_update_lock ≡ false
    pub undisturbed : Undisturbed p.acts

  -- The program does not spin on a lock. Where it goes on a property holds; where it ends, no call
  -- about a port and no start of a thread came while a callback was registered.
  abbrev pub EndsCalm : {A : Type 0} → (Process → Type 0) → Ending A → Type 0
  EndsCalm P r = Ends (λ p. Undisturbed p.acts) (λ p. ⊥) P r

  abbrev pub Keeps : {A : Type 0} → (Process → Type 0) → (Process → Type 0) → Part A → Type 0
  Keeps P Q m = Logic.Takes (λ p. Undisturbed p.acts) (λ p. ⊥) P Q m

  -- Calm, and no callback is registered.
  abbrev pub Quiet : Process → Type 0
  Quiet p = IsCalm p × AllOff p.acts

  -- Calm, and the first callback is not registered.
  abbrev pub Half : Process → Type 0
  Half p = IsCalm p × (registered intr_rmv p.acts ≡ false)

  abbrev pub seq :
      {A B : Type 0} (P Q R : Process → Type 0) (m : Part A) (f : A → Part B)
      → Keeps P Q m
      → ((a : A) → Keeps Q R (f a))
      → Keeps P R (m >>= f)
  seq = Logic.seq (λ p. Undisturbed p.acts) (λ p. ⊥)

  abbrev pub choose :
      {A : Type 0} (P Q : Process → Type 0) (t : Bool) (m n : Part A)
      → Keeps P Q m
      → Keeps P Q n
      → Keeps P Q (if t then m else n)
  choose = Logic.choose (λ p. Undisturbed p.acts) (λ p. ⊥)

  abbrev pub return-Quiet : {A : Type 0} (P : Process → Type 0) (a : A) → Keeps P P (return a)
  return-Quiet = Logic.return_takes (λ p. Undisturbed p.acts) (λ p. ⊥)

  pub quit-Quiet : Keeps Quiet Quiet quit
  unfolding Logic.Takes
  quit-Quiet = λ p c. c.0.undisturbed

  pub quit-IsCalm : Keeps IsCalm IsCalm quit
  unfolding Logic.Takes
  quit-IsCalm = λ p c. c.undisturbed

  pub free_lock-Quiet : (port : ℕ) → Keeps Quiet Quiet (free_lock port)
  unfolding Logic.Takes
  free_lock-Quiet port =
      λ p c. (record { free = λ k. ground (arith, c.0.free k); undisturbed = c.0.undisturbed }, c.1)

  pub free_lock-IsCalm : (port : ℕ) → Keeps IsCalm IsCalm (free_lock port)
  unfolding Logic.Takes
  free_lock-IsCalm port =
      λ p c. record { free = λ k. ground (arith, c.free k); undisturbed = c.undisturbed }

  -- A call that neither registers nor unregisters.
  unfoldable pub Plain : Act → Type 0
  Plain a = (e : EventType) (acts : List Act) → registered e (a ∷ acts) ≡ registered e acts

  pub ask-Quiet : (a : Act) → Plain a → Keeps Quiet Quiet (ask answer a)
  unfolding Logic.Takes Plain
  ask-Quiet a plain = λ p c. (
    record { free = c.0.free; undisturbed = (λ _. c.1, c.0.undisturbed) },
    (plain intr_rmv p.acts ∙ c.1.0, plain intr_reset p.acts ∙ c.1.1),
  )

  pub ask-IsCalm : (a : Act) → touches a ≡ false → Keeps IsCalm IsCalm (ask answer a)
  unfolding Logic.Takes
  ask-IsCalm a none = λ p c. record {
    free = c.free;
    undisturbed = (λ t. absurd (false≢true (sym none ∙ t)), c.undisturbed);
  }

  pub must-IsCalm : (a : Act) → touches a ≡ false → Keeps IsCalm IsCalm (ask_must answer a)
  must-IsCalm a none = seq IsCalm IsCalm IsCalm (ask answer a) _ (ask-IsCalm a none) (λ ret.
      choose IsCalm IsCalm (is_neg ret) quit (return ret) quit-IsCalm (return-Quiet IsCalm ret))

  on_acts :
      (port : ℕ) (calls : List Call) (acts : List Act)
      → AllOff acts
      → Undisturbed acts
      → AllOff (map (at port) calls ++ acts) × Undisturbed (map (at port) calls ++ acts)
  unfolding registered
  on_acts port [] acts off u = (off, u)
  on_acts port (c ∷ calls) acts off u =
      let rest = on_acts port calls acts off u in (rest.0, (λ _. rest.0, rest.1))

  pub on-Quiet :
      (port : ℕ) (m : (List Call → Call → ℤ) → App ℤ)
      → ((dpdk : List Call → Call → ℤ) → Takes false false (m dpdk))
      → Keeps Quiet Quiet (on answer port m)
  unfolding Logic.Takes Takes
  on-Quiet port m locks = λ p c.
      go p c
        (m (λ calls c. answer (map (at port) calls ++ p.acts) (at port c))
          (record { pinfo = p.pinfo port; calls = [] }))
        (locks (λ calls c. answer (map (at port) calls ++ p.acts) (at port c))
          (record { pinfo = p.pinfo port; calls = [] }) (c.0.free port))
    where
      go :
          (p : Process)
          → Quiet p
          → (r : Run ℤ) → LeavesLock false r
          → EndsCalm Quiet (resume answer port p r)
      go p c (returns ret w) l =
          let a = on_acts port w.calls p.acts c.1 c.0.undisturbed in
          (record { free = λ k. ground (arith, c.0.free k, l); undisturbed = a.1 }, a.0)
      go p c (exits w) l = let a = on_acts port w.calls p.acts c.1 c.0.undisturbed in a.1
      go p c (spins w) l = absurd l
