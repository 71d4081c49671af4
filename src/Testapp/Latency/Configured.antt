-- ===== src/Testapp/Latency/Configured.antt =====
-- What the traffic generator finds in its registers when `switch_start` starts it.
use xdma_dpdk.Base.{
  ℕ, ◌≡◌, ◌≢◌, refl, sym, ap, ◌∙◌, some, List, [], ◌∷◌, map, get_elem?, ◌==◌, u32, ==_iff,
  Bool-cases, inl, inr,
}
use xdma_dpdk.Base.Int.{pos}
use xdma_dpdk.Platform.{Bus, store, last_store, memory, xdma_user_write}
use xdma_dpdk.Pmd.{Slot, Slots, rte_user_write}
use xdma_dpdk.Pmd.Registers.{user_addr, user_read_as, u32_again}
use xdma_dpdk.Testapp.Latency.{
  LatRegs, reset_reg, devmem_read, devmem_write, configure_channel, start_channel, clear_accum,
  init, switch_setup,
}

-- A number differs from all of a list.
abbrev pub Fresh : ℕ → List ℕ → Type 0
Fresh a [] = Unit {0}
Fresh a (b ∷ l) = (a ≢ b) × Fresh a l

abbrev pub Distinct : List ℕ → Type 0
Distinct [] = Unit {0}
Distinct (a ∷ l) = Fresh a l × Distinct l

-- Registers with the values that are written to them, in order.
abbrev pub Script : Type 0
Script = List (ℕ × ℕ)

module _ (slot : Slot) where
  abbrev pub addrs : Script → List ℕ
  addrs l = map (λ w. user_addr slot w.0) l

  abbrev pub written : Script → Bus → Bus
  written [] bus = bus
  written ((r, v) ∷ l) bus = written l (store (user_addr slot r) (u32 v) ∷ bus)

  memory-written_other :
      (base : ℕ → ℕ) (l : Script) (bus : Bus) (a : ℕ)
      → Fresh a (addrs l)
      → memory base (written l bus) a ≡ memory base bus a
  memory-written_other base [] bus a fresh = refl
  memory-written_other base ((r, v) ∷ l) bus a (ne, fresh) =
      memory-written_other base l (store (user_addr slot r) (u32 v) ∷ bus) a fresh ∙ skip
    where
      skip : memory base (store (user_addr slot r) (u32 v) ∷ bus) a ≡ memory base bus a
      skip = elim (Bool-cases (user_addr slot r == a)) [
        | inl e ↦ absurd (ne (sym ((==_iff (user_addr slot r) a).0 e)))
        | inr e ↦ rw (memory, last_store, e) refl
      ]

  -- Each register of the script reads as the value written to it.
  abbrev pub AllRead : (ℕ → ℕ) → Slots → Script → Type 0
  AllRead device slots [] = Unit {0}
  AllRead device slots ((r, v) ∷ l) =
      (devmem_read device slots r ≡ some (u32 v)) × AllRead device slots l

  written-AllRead :
      (base : ℕ → ℕ) (slots : Slots) (l : Script) (bus : Bus)
      → get_elem? slots 1 ≡ some slot
      → Distinct (addrs l)
      → AllRead (memory base (written l bus)) slots l
  unfolding devmem_read
  written-AllRead base slots [] bus here d = tt
  written-AllRead base slots ((r, v) ∷ l) bus here (fresh, d) = (
    user_read_as (memory base (written l bus1)) slots 1 slot r here
        ∙ ap some (
            ap u32 (memory-written_other base l bus1 (user_addr slot r) fresh ∙ top) ∙ u32_again v),
    written-AllRead base slots l bus1 here d,
  )
    where
      bus1 : Bus
      bus1 = store (user_addr slot r) (u32 v) ∷ bus

      top : memory base bus1 (user_addr slot r) ≡ u32 v
      top =
          let same = (==_iff (user_addr slot r) (user_addr slot r)).1 refl in
          rw (memory, last_store, same) refl

-- What `switch_start` has written before it starts channel 0.
abbrev pub configuration : LatRegs → ℕ → Script
configuration regs pkt_num =
    (reset_reg, 0)
    ∷ (regs.soft_clear, 1)
    ∷ (regs.mode 0, 3)
    ∷ (regs.interval 0, 2000)
    ∷ (regs.explambda 0, 16)
    ∷ (regs.packetnum 0, pkt_num)
    ∷ (regs.seed 0, 1)
    ∷ []

-- If port 1 is there, the registers that `switch_start` configures have different addresses and
-- behave as memory, then its set-up succeeds; its last store is the one that starts channel 0, and
-- before that store each register reads as the value that it was configured with.
pub switch_setup-AllRead :
    (regs : LatRegs) (slots : Slots) (slot : Slot) (base : ℕ → ℕ) (pkt_num : ℕ) (bus : Bus)
    → get_elem? slots 1 ≡ some slot
    → Distinct (addrs slot (configuration regs pkt_num))
    → (before : Bus) × (switch_setup regs slots pkt_num bus
        ≡ some (pos 0, store (user_addr slot (regs.start 0)) 1 ∷ before))
      × AllRead slot (memory base before) slots (configuration regs pkt_num)
unfolding switch_setup init clear_accum configure_channel start_channel devmem_write rte_user_write
    xdma_user_write
switch_setup-AllRead regs slots slot base pkt_num bus here d = (
  written slot (configuration regs pkt_num) (store (user_addr slot reset_reg) 1 ∷ bus),
  simp (devmem_write, rte_user_write, xdma_user_write, here),
  written-AllRead slot base slots (configuration regs pkt_num)
      (store (user_addr slot reset_reg) 1 ∷ bus) here d,
)
