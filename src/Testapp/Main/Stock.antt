-- ===== src/Testapp/Main/Stock.antt =====
-- The arrays of buffers when the main functions start their threads.
use xdma_dpdk.Base.{
  ℕ, zero, suc, ◌+◌, ◌<◌, ◌≡◌, refl, ◌⊎◌, inl, inr, Bool, true, false, List, [], ◌∷◌, ◌++◌, map,
  length, ◌==◌, if◌then◌else◌, Bool-cases, arith,
}
use xdma_dpdk.Base.Int.{ℤ, pos, eqb_ℤ}
use xdma_dpdk.Testapp.Ports.{PortInfo, Call, World}
use xdma_dpdk.Testapp.Main.{
  Act, at, pktmbuf_alloc, remote_launch, thread_create, Process, change, Part, ◌>>=◌, take_buffer,
  take_round, take_buffers,
}
use xdma_dpdk.Testapp.Main.Logic.{Takes, seq, return_takes}

-- Whether a call starts a thread.
abbrev pub starts : Act → Bool
starts (remote_launch job) = true
starts (thread_create args) = true
starts _ = false

abbrev pub NoThread : List Act → Type 0
NoThread [] = Unit {0}
NoThread (a ∷ acts) = (starts a ≡ false) × NoThread acts

-- No buffer of an array is NULL.
abbrev pub AllReal : List ℤ → Type 0
AllReal [] = Unit {0}
AllReal (mb ∷ mbs) = (eqb_ℤ mb 0 ≡ false) × AllReal mbs

-- The first `n` arrays hold 32 buffers each.
abbrev pub IsFull : ℕ → Process → Type 0
IsFull n p = (i : ℕ) → i < n → (length (p.pkts i) ≡ 32) × AllReal (p.pkts i)

-- If a thread was started, the arrays are full.
abbrev pub IsSound : ℕ → Process → Type 0
IsSound n p = NoThread p.acts ⊎ IsFull n p

-- No thread was started, and array `i` holds `f i` buffers.
abbrev pub Filling : (ℕ → ℕ) → Process → Type 0
Filling f p = NoThread p.acts × ((i : ℕ) → (length (p.pkts i) ≡ f i) × AllReal (p.pkts i))

abbrev bump : ℕ → (ℕ → ℕ) → ℕ → ℕ
bump a f i = f i + (if i == a then 1 else 0)

abbrev bumps : List ℕ → (ℕ → ℕ) → ℕ → ℕ
bumps [] f = f
bumps (a ∷ arrays) f = bumps arrays (bump a f)

abbrev pub rounds : ℕ → List ℕ → (ℕ → ℕ) → ℕ → ℕ
rounds zero arrays f = f
rounds (suc left) arrays f = rounds left arrays (bumps arrays f)

pushed :
    (xs : List ℤ) (mb : ℤ)
    → eqb_ℤ mb 0 ≡ false
    → AllReal xs
    → (length (xs ++ (mb ∷ [])) ≡ length xs + 1) × AllReal (xs ++ (mb ∷ []))
pushed [] mb e h = (omega arith, (e, tt))
pushed (x ∷ xs) mb e h = let r = pushed xs mb e h.1 in (omega (arith, r.0), (h.0, r.1))

pub NoThread-on :
    (port : ℕ) (calls : List Call) (acts : List Act)
    → NoThread acts
    → NoThread (map (at port) calls ++ acts)
NoThread-on port [] acts h = h
NoThread-on port (c ∷ calls) acts h = (refl, NoThread-on port calls acts h)

-- The process behind a function of a port.
abbrev pub resumed : ℕ → Process → World → Process
resumed port p w = record p {
  pinfo = change (λ _. w.pinfo) port p.pinfo;
  acts = map (at port) w.calls ++ p.acts;
}

-- A predicate that calls which start no thread, and changes of the ports, leave alone.
pub record IsStable (n : ℕ) (P : Process → Type 0) : Type 0 where
  pub asked : (a : Act) (p : Process) → starts a ≡ false → P p → P (record p { acts = a ∷ p.acts })
  pub ported : (g : ℕ → PortInfo) (p : Process) → P p → P (record p { pinfo = g })
  pub called :
      (port : ℕ) (calls : List Call) (p : Process)
      → P p
      → P (record p { acts = map (at port) calls ++ p.acts })
  pub sound : (p : Process) → P p → IsSound n p

pub Filling-IsStable : (n : ℕ) (f : ℕ → ℕ) → IsStable n (Filling f)
Filling-IsStable n f = record {
  asked = λ a p none h. ((none, h.0), h.1);
  ported = λ g p h. h;
  called = λ port calls p h. (NoThread-on port calls p.acts h.0, h.1);
  sound = λ p h. inl h.0;
}

pub IsFull-IsStable : (n : ℕ) → IsStable n (IsFull n)
IsFull-IsStable n = record {
  asked = λ a p none h. h;
  ported = λ g p h. h;
  called = λ port calls p h. h;
  sound = λ p h. inr h;
}

unfoldable pub Keeps :
    (n : ℕ) {A : Type 0} → (Process → Type 0) → (Process → Type 0) → Part A → Type 0
Keeps n P Q m = Takes (IsSound n) (IsSound n) P Q m

module _ (answer : List Act → Act → ℤ) (n : ℕ) where
  -- A part in front.
  abbrev pub next :
      {A B : Type 0} (P Q R : Process → Type 0) (m : Part A) (f : A → Part B)
      → Keeps n P Q m
      → ((a : A) → Keeps n Q R (f a))
      → Keeps n P R (m >>= f)
  unfolding Keeps
  next P Q R m f h k = seq (IsSound n) (IsSound n) P Q R m f h k

  take_buffer-Filling :
      (f : ℕ → ℕ) (pool array : ℕ)
      → Keeps n (Filling f) (Filling (bump array f)) (take_buffer answer pool array)
  unfolding Keeps Takes take_buffer
  take_buffer-Filling f pool array = λ p h.
      elim (Bool-cases (eqb_ℤ (answer p.acts (pktmbuf_alloc pool)) 0)) [
        | inl e ↦ rw e (inl (refl, h.0))
        | inr e ↦ rw e (
          (refl, (refl, h.0)),
          λ i.
              let mb = answer p.acts (pktmbuf_alloc pool) in
              let r = pushed (p.pkts i) mb e (h.1 i).1 in
              elim (Bool-cases (i == array)) [
                | inl here ↦ rw here (omega (arith, r.0, (h.1 i).0), r.1)
                | inr there ↦ rw there (omega (arith, (h.1 i).0), (h.1 i).1)
              ],
        )
      ]

  take_round-Filling :
      (f : ℕ → ℕ) (pool : ℕ) (arrays : List ℕ)
      → Keeps n (Filling f) (Filling (bumps arrays f)) (take_round answer pool arrays)
  unfolding Keeps take_round
  take_round-Filling f pool [] = return_takes (IsSound n) (IsSound n) (Filling f) (pos 0)
  take_round-Filling f pool (array ∷ arrays) =
      next (Filling f) (Filling (bump array f)) (Filling (bumps arrays (bump array f)))
        (take_buffer answer pool array) _ (take_buffer-Filling f pool array)
        λ _. take_round-Filling (bump array f) pool arrays

  pub take_buffers-Filling :
      (f : ℕ → ℕ) (pool : ℕ) (arrays : List ℕ) (left : ℕ)
      → Keeps n (Filling f) (Filling (rounds left arrays f)) (take_buffers answer pool arrays left)
  unfolding Keeps take_buffers
  take_buffers-Filling f pool arrays zero = return_takes (IsSound n) (IsSound n) (Filling f) (pos 0)
  take_buffers-Filling f pool arrays (suc left) =
      next (Filling f) (Filling (bumps arrays f)) (Filling (rounds left arrays (bumps arrays f)))
        (take_round answer pool arrays) _ (take_round-Filling f pool arrays)
        λ _. take_buffers-Filling (bumps arrays f) pool arrays left
