-- ===== src/Testapp/Main/Logic.antt =====
-- Reasoning about parts of a program: what holds where a part goes on (`P` before, `Q` behind it),
-- where the program ends early (`E`), and where it spins on a lock (`S`).
use xdma_dpdk.Base.{Bool, true, false, if◌then◌else◌}
use xdma_dpdk.Testapp.Main.{
  Process, Ending, goes, exited, stuck, faulted, Part, continue, ◌>>=◌, return,
}

module _ (E S : Process → Type 0) where
  abbrev pub Ends : {A : Type 0} → (Process → Type 0) → Ending A → Type 0
  Ends P (goes a p) = P p
  Ends P (exited p) = E p
  Ends P (stuck p) = S p
  Ends P (faulted p) = E p

  unfoldable pub Takes : {A : Type 0} → (Process → Type 0) → (Process → Type 0) → Part A → Type 0
  Takes P Q m = (p : Process) → P p → Ends Q (m p)

  continue-Ends :
      {A B : Type 0} (P Q : Process → Type 0) (r : Ending A) (f : A → Part B)
      → Ends P r
      → ((a : A) → Takes P Q (f a))
      → Ends Q (continue r f)
  unfolding Takes
  continue-Ends P Q (goes a p) f h k = k a p h
  continue-Ends P Q (exited p) f h k = h
  continue-Ends P Q (stuck p) f h k = h
  continue-Ends P Q (faulted p) f h k = h

  pub seq :
      {A B : Type 0} (P Q R : Process → Type 0) (m : Part A) (f : A → Part B)
      → Takes P Q m
      → ((a : A) → Takes Q R (f a))
      → Takes P R (m >>= f)
  unfolding Takes
  seq P Q R m f h k = λ p c. continue-Ends Q R (m p) f (h p c) k

  pub choose :
      {A : Type 0} (P Q : Process → Type 0) (t : Bool) (m n : Part A)
      → Takes P Q m
      → Takes P Q n
      → Takes P Q (if t then m else n)
  choose P Q true m n h k = h
  choose P Q false m n h k = k

  pub return_takes : {A : Type 0} (P : Process → Type 0) (a : A) → Takes P P (return a)
  unfolding Takes
  return_takes P a = λ p c. c
